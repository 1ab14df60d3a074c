-- ===== src/Server/DataHandler/Login.antt =====
-- DataHandler.cpp: DataHandlerC2SLogin over DBUser::Login, the wrong login and the query that is too long.
use socket_message.Prelude.{
  ℕ, ◌+◌, ◌-◌, ◌^◌, ◌≤◌, ◌≡◌, refl, false, none, some, List, [], ◌∷◌, ◌++◌, leb, length, arith,
  length-drop, drop, le→leb,
}
use socket_message.Wire.Bytes.{name_size, c_str, copy_name}
use socket_message.Wire.Login.{
  Named, IsNamed, named_bytes, named_of-named_bytes, new_s2c_login, serialize, unserialize,
}
use socket_message.Wire.RoundTrip.{unserialize-serialize}
use socket_message.Server.Database.{
  MySql, find_user, login, login_result, login_error, login_sql_size, login_sql_capacity,
  printed_size, digit_count, minus_one,
}
use socket_message.Server.DataHandler.{ok, faults, Handler, pop, push, send_package, handle_login}

digit_count_pos : (n : ℕ) → 1 ≤ digit_count n
unfolding digit_count
digit_count_pos n = ground arith

printed_size_pos : (w : ℕ) → 1 ≤ printed_size w
unfolding printed_size
printed_size_pos w = ground (arith, digit_count_pos w, digit_count_pos (2 ^ 32 - w))

login_too_long :
    (sql : MySql) (blank : List ℕ) (m : Named) (password : List ℕ)
    → c_str m.chars ≡ some password
    → 49 ≤ length (sql.escape_string password)
    → login sql blank m ≡ none
unfolding login login_sql_size
login_too_long sql blank m password e long = rw (e, le→leb-false)
  where
    le→leb-false :
        leb (78 + printed_size m.user_id + length (sql.escape_string password) + 1) 128 ≡ false
    le→leb-false = ground (arith, printed_size_pos m.user_id)

-- The answer to a wrong login.
unfoldable pub refusal : List ℕ → Named
refusal blank = new_s2c_login minus_one (login_error ++ 0 ∷ drop 22 blank)

login_refused :
    (sql : MySql) (blank : List ℕ) (m : Named) (password : List ℕ)
    → length blank ≡ name_size
    → c_str m.chars ≡ some password
    → login_sql_size m.user_id (sql.escape_string password) ≤ login_sql_capacity
    → sql.select 0 (find_user m.user_id (sql.escape_string password)) ≡ []
    → login sql blank m ≡ some (false, refusal blank)
unfolding login login_result refusal copy_name
login_refused sql blank m password hb e fits rows =
    rw (e, le→leb _ _ fits, rows, le→leb 22 (length blank) (omega arith)) refl

-- A login block that the handler reads: the 44 bytes of a C2SLogin, whatever follows them.
unserialize_login :
    (m : Named) (rest : List ℕ) → IsNamed m → unserialize (named_bytes m ++ rest) ≡ some m
unfolding unserialize
unserialize_login m rest h = named_of-named_bytes m rest h

-- Of a login whose password has 49 bytes or more once it is escaped (a C string of up to 31 chars has
-- up to 62), DBUser::Login prints its query past the end of its 128 bytes, before any database answer.
-- The connection is free and the fields have the range of their types.
pub login_overflow :
    (sql : MySql) (blank : List ℕ) (cfd connection : ℕ) (m : Named) (rest password left : List ℕ)
    (s : Handler)
    → IsNamed m
    → c_str m.chars ≡ some password
    → 49 ≤ length (sql.escape_string password)
    → s.connections ≡ connection ∷ left
    → handle_login sql blank cfd (named_bytes m ++ rest) s ≡ faults
unfolding handle_login pop
login_overflow sql blank cfd connection m rest password left s h e long free =
    rw (unserialize_login m rest h, free, login_too_long sql blank m password e long) refl

refusal-bytes :
    (blank : List ℕ)
    → length blank ≡ name_size
    → serialize (refusal blank) ≡ some (named_bytes (refusal blank))
unfolding refusal new_s2c_login
refusal-bytes blank h =
    (unserialize-serialize (refusal blank) []
      (omega arith, omega arith, omega arith, omega (arith, length-drop 22 blank)) refl).0

-- Of a login that the database does not know, whose query fits its buffer, the handler ends: it sends
-- one block to the client, the 44 bytes of an S2CLogin with UserId -1 and the error text as its name;
-- no user goes online and MySqlPool is as before. UserName begins with 32 uninitialised chars, and the
-- fields have the range of their types.
pub wrong_login_answered :
    (sql : MySql) (blank : List ℕ) (cfd connection : ℕ) (m : Named) (rest password left : List ℕ)
    (s : Handler)
    → IsNamed m
    → length blank ≡ name_size
    → c_str m.chars ≡ some password
    → login_sql_size m.user_id (sql.escape_string password) ≤ login_sql_capacity
    → sql.select 0 (find_user m.user_id (sql.escape_string password)) ≡ []
    → s.connections ≡ connection ∷ left
    → handle_login sql blank cfd (named_bytes m ++ rest) s
      ≡ ok (record s {
        sent = s.sent ++ record { cfd = cfd; block = named_bytes (refusal blank) } ∷ [];
      })
unfolding handle_login pop push send_package
wrong_login_answered sql blank cfd connection m rest password left s h hb e fits rows free =
    rw
      (
        unserialize_login m rest h,
        free,
        login_refused sql blank m password hb e fits rows,
        refusal-bytes blank hb,
      )
      refl
