-- ===== src/Server/Runs.antt =====
-- The server's parts at work: two threads, a map of two users, and a database without rows.
use socket_message.Prelude.{
  ℕ, ◌≡◌, Bool, ◌≤◌, ◌++◌, refl, List, [], ◌∷◌, none, some, arith, replicate, true, false,
  if◌then◌else◌, ◌==◌, ◌⊎◌, get_elem?,
}
use socket_message.Wire.Bytes.{of_le32, int_at, char_at, c_str}
use socket_message.Wire.Login.{head_of, Named, named_bytes, serialize, unserialize}
use socket_message.Wire.Msgs.{unserialize_msg, skip_text, serialize_msg, msg_size}
use socket_message.Server.ThreadPool.{
  Worker, ready, waiting, Pool, is_free, Event, add_task, set_destory, test, begin, run,
}
use socket_message.Server.ThreadPool.Shutdown.{missed, wake_up_lost}
use socket_message.Server.Online.{Entry, find, opened, changes, client_open, user_id_to_cfd}
use socket_message.Server.Online.Laws.{client_open_keeps_old}
use socket_message.Server.Database.{MySql, login, login_sql_size, printed_size, digit_count}
use socket_message.Server.DataHandler.{
  Outcome, ok, waits, faults, pop, handle, Handler, handle_login, handle_data_msg, thread_work,
  send_users,
}
use socket_message.Server.DataHandler.Ends.{connections_returned}
use socket_message.Server.DataHandler.Login.{refusal, login_overflow, wrong_login_answered}
use socket_message.Server.DataHandler.Answers.{Follows, to_client, login_answered}

-- Two threads; the second takes the first of two tasks and runs it.
abbrev schedule : List Event
schedule = add_task 7 ∷ add_task 8 ∷ test 1 ∷ begin 1 ∷ []

abbrev scheduled : Pool
scheduled = record {
  queue = 8 ∷ [];
  workers = ready ∷ Worker.running 7 ∷ [];
  is_destory = false;
  available = 1;
  added = 7 ∷ 8 ∷ [];
  popped = 7 ∷ [];
}

abbrev idle : Pool
idle = record {
  queue = [];
  workers = ready ∷ [];
  is_destory = false;
  available = 1;
  added = [];
  popped = [];
}

wake_up_lost_example :
    (q : Pool) × (run idle (missed 0) ≡ some q)
    × (q.is_destory ≡ true)
    × ((run q (set_destory ∷ []) ≡ none)
        ⊎ ((r : Pool) × (run q (set_destory ∷ []) ≡ some r)
            × (get_elem? r.workers 0 ≡ some waiting)))
unfolding is_free
wake_up_lost_example = wake_up_lost idle 0 (set_destory ∷ []) refl refl refl refl (tt, tt)

-- User 7 logs in at descriptor 4, and again at descriptor 5.
client_open_keeps_old_example :
    user_id_to_cfd 7 (client_open 5 7 (changes [] (opened 4 7 ∷ []))) ≡ (
      if 7 == 7
      then elim (find 7 (changes [] (opened 4 7 ∷ []))) [ none ↦ 5 | some old ↦ old ]
      else user_id_to_cfd 7 (changes [] (opened 4 7 ∷ [])))
client_open_keeps_old_example = client_open_keeps_old (opened 4 7 ∷ []) 5 7 7 (omega arith, tt)

-- Users 7 and 8 are both online at descriptor 4, which closes.
abbrev two_users : List Entry
two_users = record { user_id = 7; cfd = 4 } ∷ record { user_id = 8; cfd = 4 } ∷ []

-- A database that knows no user. Escaping doubles a text here.
abbrev empty_sql : MySql
empty_sql = record { escape_string = λ s. s ++ s; select = λ i q. []; insert = λ r. 12 }

-- The users of `two_users`, where the first is at descriptor 4 and the second at 5.
abbrev serving : Handler
serving = record {
  online = record { user_id = 7; cfd = 4 } ∷ record { user_id = 8; cfd = 5 } ∷ [];
  connections = 1 ∷ [];
  sent = [];
  saved = [];
}

abbrev blank : List ℕ
blank = replicate 32 0

-- The block of "hi" from user 7 to user 8, with the extend "x".
abbrev hi_block : List ℕ
hi_block =
    43 ∷ 0 ∷ 0 ∷ 0 ∷ 101 ∷ 0 ∷ 0 ∷ 0 ∷ 0 ∷ 0 ∷ 0 ∷ 0 ∷ 1 ∷ 0 ∷ 0 ∷ 0 ∷ 7 ∷ 0 ∷ 0 ∷ 0 ∷ 8 ∷ 0 ∷ 0 ∷ 0
    ∷ 0 ∷ 0 ∷ 0 ∷ 0 ∷ 0 ∷ 3 ∷ 0 ∷ 0 ∷ 0 ∷ 104 ∷ 105 ∷ 0 ∷ 2 ∷ 0 ∷ 0 ∷ 0 ∷ 120 ∷ 0 ∷ []

-- The state behind `o`, if it is one.
abbrev reached : Outcome Handler → Handler
reached o = elim o [ ok t ↦ t | waits ↦ serving | faults ↦ serving ]

abbrev hi_done : Handler
hi_done = reached (handle_data_msg empty_sql 500 hi_block serving)

-- The same block through ThreadWork, from the client at descriptor 4.
abbrev hi_worked : Handler
hi_worked = reached (thread_work empty_sql blank 500 4 hi_block serving)

hi_worked_lem : thread_work empty_sql blank 500 4 hi_block serving ≡ ok hi_worked
unfolding thread_work handle handle_data_msg unserialize_msg head_of int_at of_le32 char_at c_str
    skip_text pop send_users serialize_msg msg_size
hi_worked_lem = refl

connections_returned_example : hi_worked.connections ≡ serving.connections
connections_returned_example =
    connections_returned empty_sql blank 500 4 hi_block serving hi_worked hi_worked_lem

-- User 7 with the password "ab", and with 25 letters.
abbrev login_7 : Named
login_7 = record {
  head = record { data_size = 44; data_type = 100 };
  user_id = 7;
  chars = 97 ∷ 98 ∷ replicate 30 0;
}

abbrev long_login : Named
long_login = record login_7 { chars = replicate 25 97 ++ replicate 7 0 }

login_7_password : c_str login_7.chars ≡ some (97 ∷ 98 ∷ [])
unfolding c_str
login_7_password = refl

long_login_password : c_str long_login.chars ≡ some (replicate 25 97)
unfolding c_str
long_login_password = refl

login_7_fits : login_sql_size 7 (97 ∷ 98 ∷ 97 ∷ 98 ∷ []) ≤ 128
unfolding login_sql_size printed_size digit_count
login_7_fits = omega arith

login_overflow_example :
    handle_login empty_sql blank 4 (named_bytes long_login ++ []) serving ≡ faults
login_overflow_example =
    login_overflow empty_sql blank 4 1 long_login [] (replicate 25 97) [] serving
      (omega arith, omega arith, omega arith, refl) long_login_password (omega arith) refl

abbrev login_done : Handler
login_done = record serving { sent = record { cfd = 4; block = named_bytes (refusal blank) } ∷ [] }

login_done_lem : handle_login empty_sql blank 4 (named_bytes login_7 ++ []) serving ≡ ok login_done
login_done_lem =
    wrong_login_answered empty_sql blank 4 1 login_7 [] (97 ∷ 98 ∷ []) [] serving
      (omega arith, omega arith, omega arith, refl) refl login_7_password login_7_fits refl refl

login_answered_example :
    (m : Named) × (b : Bool) × (ret : Named) × (block : List ℕ) × (blocks : List (List ℕ))
    × (unserialize (named_bytes login_7 ++ []) ≡ some m)
    × (login empty_sql blank m ≡ some (b, ret))
    × (serialize ret ≡ some block)
    × Follows empty_sql blank 4 b ret.user_id blocks
    × (login_done.sent ≡ [] ++ to_client 4 (block ∷ blocks))
    × (login_done.online ≡ (if b then client_open 4 ret.user_id serving.online else serving.online))
    × (login_done.saved ≡ [])
login_answered_example =
    login_answered empty_sql blank 4 (named_bytes login_7 ++ []) serving login_done login_done_lem
