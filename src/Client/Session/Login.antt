-- ===== src/Client/Session/Login.antt =====
-- A login from SendLogin through DataHandlerC2SLogin to the client's login callback.
use socket_message.Prelude.{
  ℕ, ◌≤◌, ◌<◌, ◌≡◌, ◌≢◌, refl, sym, ap, subst, ◌∙◌, Bool, true, none, some, some-injective, List,
  [], ◌∷◌, ◌++◌, arith, if◌then◌else◌, ◌==◌, length, get_elem?, All, le→leb, lt→ltb,
}
use socket_message.Wire.Bytes.{IsInt, name_size, c_str, c_str-copy_name}
use socket_message.Wire.Login.{Named, named_bytes, serialize, unserialize, new_s2c_login}
use socket_message.Wire.RoundTrip.{unserialize-serialize}
use socket_message.Server.Online.{client_open}
use socket_message.Server.Database.{
  MySql, Row, find_user, int_cell, login, login_result, login_sql_size, login_sql_capacity,
}
use socket_message.Server.DataHandler.{ok, Handler, handle_login}
use socket_message.Server.DataHandler.Answers.{to_client, login_answered}
use socket_message.Client.Sdk.{Sdk, called, login_got, login_block}
use socket_message.Client.Sdk.Dispatch.{read_package, set_self}
use socket_message.Client.Sdk.LoginPackets.{password_reaches_server}
use socket_message.Client.Session.Dispatched.{read_login_answer}

-- The database's row of a user: the id, and a name that fits the array.
abbrev pub IsUserRow : Row → ℕ → List ℕ → Type 0
IsUserRow row user_id name =
    (int_cell row 0 ≡ some user_id)
    × (get_elem? row 1 ≡ some name)
    × IsInt user_id
    × All (λ b. b ≢ 0) name
    × (length name < name_size)

login_found :
    (sql : MySql) (blank : List ℕ) (m : Named) (password name : List ℕ) (uid : ℕ) (row : Row)
    (rows : List Row)
    → length blank ≡ name_size
    → c_str m.chars ≡ some password
    → login_sql_size m.user_id (sql.escape_string password) ≤ login_sql_capacity
    → sql.select 0 (find_user m.user_id (sql.escape_string password)) ≡ row ∷ rows
    → IsUserRow row uid name
    → (chars : List ℕ) × (login sql blank m ≡ some (true, new_s2c_login uid chars))
      × (length chars ≡ name_size)
      × (c_str chars ≡ some name)
unfolding login login_result
login_found sql blank m password name uid row rows hb hp fits found
      (id, text, small, nonzero, short) =
    let (chars, copied, len, back) = c_str-copy_name blank name nonzero (omega arith) in
    (chars, rw (hp, le→leb _ _ fits, found, id, text, copied) refl, len ∙ hb, back)

-- The server's half, once it has read the login.
server_half :
    (sql : MySql) (blank : List ℕ) (cfd uid : ℕ) (block chars : List ℕ) (m : Named) (s t : Handler)
    → handle_login sql blank cfd block s ≡ ok t
    → unserialize block ≡ some m
    → login sql blank m ≡ some (true, new_s2c_login uid chars)
    → (answer : List ℕ) × (lists : List (List ℕ)) × (serialize (new_s2c_login uid chars)
        ≡ some answer)
      × (t.sent ≡ s.sent ++ to_client cfd (answer ∷ lists))
      × (t.online ≡ client_open cfd uid s.online)
unfolding new_s2c_login
server_half sql blank cfd uid block chars m s t h em el =
    let (m', b, ret, answer, lists, e1, e2, e3, follows, sent, online, saved) =
      login_answered sql blank cfd block s t h in
    let same = some-injective _ _ (sym e1 ∙ em) in
    let answered = some-injective _ _ (sym e2 ∙ ap (login sql blank) same ∙ el) in
    (
      answer,
      lists,
      ap (λ (x : Bool × Named). serialize x.1) (sym answered) ∙ e3,
      sent,
      online
          ∙ ap
              (λ (x : Bool × Named). if x.0 then client_open cfd x.1.user_id s.online else s.online)
              answered,
    )

answer_bytes :
    (uid : ℕ) (chars answer : List ℕ)
    → IsInt uid
    → length chars ≡ name_size
    → serialize (new_s2c_login uid chars) ≡ some answer
    → answer ≡ named_bytes (new_s2c_login uid chars)
unfolding new_s2c_login
answer_bytes uid chars answer hu hc e = some-injective _ _ (
    sym e
    ∙ (unserialize-serialize (new_s2c_login uid chars) [] (omega arith, omega arith, hu, hc)
        refl).0)

-- A user logs in over the connection that the client knows as `fd` and the server as `cfd`. The database
-- has a row for the id and the password, whose name has under 32 bytes, the password has under 32, and
-- the query fits its buffer. If the server's handler of the block that SendLogin built ends, then it
-- sent to the client an answer and the lists, the user of the row is online at `cfd` as ClientOpen has
-- it, and the answer makes the client call its login callback with the row's id and name, and set its
-- own id, m_SelfUserId, to the row's, unless that is -1, which leaves it as it was. No byte of the
-- password or the name is zero.
pub login_session :
    (sql : MySql) (blank fresh password name : List ℕ) (cfd fd user_id uid : ℕ) (row : Row)
    (rows : List Row) (block : List ℕ) (s t : Handler) (c : Sdk)
    → length blank ≡ name_size
    → length fresh ≡ name_size
    → IsInt user_id
    → All (λ b. b ≢ 0) password
    → length password < name_size
    → login_sql_size user_id (sql.escape_string password) ≤ login_sql_capacity
    → sql.select 0 (find_user user_id (sql.escape_string password)) ≡ row ∷ rows
    → IsUserRow row uid name
    → login_block fresh user_id password ≡ some block
    → handle_login sql blank cfd block s ≡ ok t
    → c.has_login ≡ true
    → (answer : List ℕ) × (lists : List (List ℕ)) × (t.sent
        ≡ s.sent ++ to_client cfd (answer ∷ lists))
      × (t.online ≡ client_open cfd uid s.online)
      × (read_package fd answer c
          ≡ some (
              called
                (login_got fd uid name)
                (record c { self_user_id = if uid == 4294967295 then c.self_user_id else uid })))
unfolding set_self
login_session sql blank fresh password name cfd fd user_id uid row rows block s t c hb hf hu nonzero
      short fits found is_row built handled has =
    let (block', m, e1, e2, e3, e4) =
      password_reaches_server fresh password user_id hf hu nonzero in
    let e5 =
      e4 ∙ ap (λ b. if b then some password else none) (lt→ltb (length password) name_size short) in
    let (chars, el, len, back) =
      login_found sql blank m password name uid row rows hb e5
        (subst (λ n. login_sql_size n (sql.escape_string password) ≤ login_sql_capacity) (sym e3)
          fits)
        (ap (λ n. sql.select 0 (find_user n (sql.escape_string password))) e3 ∙ found) is_row in
    let same = some-injective _ _ (sym e1 ∙ built) in
    let (answer, lists, ea, sent, online) =
      server_half sql blank cfd uid block chars m s t handled (ap unserialize (sym same) ∙ e2) el in
    (
      answer,
      lists,
      sent,
      online,
      ap (λ b. read_package fd b c) (answer_bytes uid chars answer is_row.2 len ea)
          ∙ read_login_answer fd uid chars name c is_row.2 len back has,
    )
