-- ===== src/Client/Session/Runs.antt =====
-- A login, and a message to another user, between a client and a server with small data.
use socket_message.Prelude.{
  ℕ, ◌≡◌, refl, true, Option, none, some, List, [], ◌∷◌, ◌++◌, arith, All, replicate,
}
use socket_message.Wire.Bytes.{le32, of_le32, int_at, bytes_at, c_str, copy_name, take_exactly}
use socket_message.Wire.Login.{
  serialize, unserialize, new_c2s_login, new_s2c_login, head_bytes, head_of, named_bytes, named_of,
}
use socket_message.Wire.Counted.{list_block}
use socket_message.Wire.Users.{
  new_user_list, serialize_users, user_list_bytes, user_list_size, user_list_sized, users_bytes,
}
use socket_message.Wire.Groups.{new_group_list, serialize_each_group, serialize_groups, group_sizes}
use socket_message.Wire.Msgs.{
  DataMsg, msg_bytes, msg_fixed_bytes, msg_texts, msg_sized, msg_size, serialize_msg,
}
use socket_message.Server.Online.{client_open, insert, order_of}
use socket_message.Server.Database.{
  MySql, find_user, Row, login_sql_size, login, printed_size, digit_count, login_result, int_cell,
  all_user_list, groups_of_rows, user_all_group, vector_to_user_list,
}
use socket_message.Server.Database.Stoi.{
  stoi, signed_value, skip_spaces, unsigned_value, digits_value,
}
use socket_message.Server.DataHandler.{
  Outcome, ok, waits, faults, Sent, Handler, handle_login, handle_data_msg, pop, push, send_lists,
  send_package, send_users, thread_work,
}
use socket_message.Server.DataHandler.Answers.{to_client}
use socket_message.Client.Sdk.{
  Sdk, called, login_got, data_msg_got, login_block, new_sdk, new_c2s_data_msg, data_msg_block,
  copy_password,
}
use socket_message.Client.Sdk.Dispatch.{read_package}
use socket_message.Client.Sdk.LoginPackets.{ReadsPassword, password_reaches_server}
use socket_message.Client.Session.Login.{login_session}
use socket_message.Client.Session.Chat.{told, chat_session, chat_session_past_end}

-- A client with its callbacks set.
abbrev client : Sdk
client = record new_sdk { has_login = true; has_data_msg = true }

abbrev fresh : List ℕ
fresh = replicate 32 9

abbrev blank : List ℕ
blank = replicate 32 0

-- "ab"
abbrev password : List ℕ
password = 97 ∷ 98 ∷ []

password_reaches_server_example : ReadsPassword fresh 7 password (some password)
password_reaches_server_example =
    password_reaches_server fresh password 7 refl (omega arith) (λ e. cc, (λ e. cc, tt))

-- A database that knows user 7, with the name "Al", and has no lists.
abbrev row : Row
row = (55 ∷ []) ∷ (65 ∷ 108 ∷ []) ∷ []

abbrev sql : MySql
sql = record {
  escape_string = λ s. s;
  select = λ i q. elim q [ find_user _ _ ↦ row ∷ [] | _ ↦ [] ];
  insert = λ r. 12;
}

abbrev server : Handler
server = record {
  online = record { user_id = 8; cfd = 5 } ∷ [];
  connections = 1 ∷ [];
  sent = [];
  saved = [];
}

abbrev reached : Outcome Handler → Handler
reached o = elim o [ ok t ↦ t | waits ↦ server | faults ↦ server ]

abbrev found : Option (List ℕ) → List ℕ
found o = elim o [ some b ↦ b | none ↦ [] ]

abbrev ab_block : List ℕ
ab_block = found (login_block fresh 7 password)

ab_lem : login_block fresh 7 password ≡ some ab_block
unfolding login_block serialize take_exactly new_c2s_login copy_password
ab_lem = refl

abbrev ab_done : Handler
ab_done = reached (handle_login sql blank 4 ab_block server)

ab_done_lem : handle_login sql blank 4 ab_block server ≡ ok ab_done
unfolding login_block handle_login unserialize serialize take_exactly new_c2s_login copy_password
    pop login c_str login_sql_size printed_size digit_count login_result int_cell stoi signed_value
    skip_spaces unsigned_value push send_lists send_package digits_value all_user_list
    groups_of_rows user_all_group vector_to_user_list client_open insert order_of bytes_at copy_name
    int_at le32 of_le32 list_block new_group_list serialize_each_group serialize_groups group_sizes
    head_bytes head_of named_bytes named_of new_s2c_login new_user_list serialize_users
    user_list_bytes user_list_size user_list_sized users_bytes
ab_done_lem = refl

login_session_example :
    (answer : List ℕ) × (lists : List (List ℕ)) × (ab_done.sent
      ≡ [] ++ to_client 4 (answer ∷ lists))
    × (ab_done.online ≡ client_open 4 7 server.online)
    × (read_package 9 answer client
        ≡ some (called (login_got 9 7 (65 ∷ 108 ∷ [])) (record client { self_user_id = 7 })))
unfolding login_sql_size printed_size digit_count int_cell stoi signed_value skip_spaces
    unsigned_value digits_value
login_session_example =
    login_session sql blank fresh password (65 ∷ 108 ∷ []) 4 9 7 7 row [] ab_block server ab_done
      client refl refl (omega arith) (λ e. cc, (λ e. cc, tt)) (omega arith) (omega arith) refl
      (refl, refl, omega arith, (λ e. cc, (λ e. cc, tt)), omega arith) ab_lem ab_done_lem refl

-- "hi" from user 7 to user 8, who is online, with an Extend of three bytes, and with one of one.
abbrev hi : List ℕ
hi = 104 ∷ 105 ∷ []

abbrev chat : List ℕ → DataMsg
chat extend = new_c2s_data_msg 0 1 7 8 0 400 hi extend

abbrev chat_block : List ℕ → List ℕ
chat_block extend = found (data_msg_block (chat extend))

abbrev xyz : List ℕ
xyz = 120 ∷ 121 ∷ 122 ∷ []

abbrev x : List ℕ
x = 120 ∷ []

xyz_lem :
    (data_msg_block (chat xyz) ≡ some (chat_block xyz))
    × (send_users sql (chat xyz) ≡ some (8 ∷ []))
unfolding data_msg_block new_c2s_data_msg serialize_msg msg_size msg_bytes msg_fixed_bytes
    head_bytes msg_texts msg_sized send_users
xyz_lem = (refl, refl)

x_lem : (data_msg_block (chat x) ≡ some (chat_block x)) × (send_users sql (chat x) ≡ some (8 ∷ []))
unfolding data_msg_block new_c2s_data_msg serialize_msg msg_size msg_bytes msg_fixed_bytes
    head_bytes msg_texts msg_sized send_users
x_lem = (refl, refl)

chat_session_example :
    (t : Handler) × (sent : List Sent) × (handle_data_msg sql 500 (chat_block xyz) server ≡ ok t)
    × (t.sent ≡ [] ++ sent)
    × All
        (λ (p : Sent).
          read_package 9 p.block client
          ≡ some (called (data_msg_got 9 (told sql 500 (chat xyz))) client))
        sent
unfolding new_c2s_data_msg told msg_size
chat_session_example =
    chat_session sql 0 1 7 8 0 400 500 9 1 hi xyz (chat_block xyz) [] (8 ∷ []) server client
      (
        (
          omega arith,
          omega arith,
          omega arith,
          omega arith,
          omega arith,
          omega arith,
          omega arith,
          (λ e. cc, (λ e. cc, tt)),
        ),
        (λ e. cc, (λ e. cc, (λ e. cc, tt))),
        omega arith,
        omega arith,
        omega arith,
      )
      (omega arith) (omega arith) (omega arith) xyz_lem.0 refl xyz_lem.1 refl

chat_session_past_end_example :
    (t : Handler) × (sent : List Sent) × (handle_data_msg sql 500 (chat_block x) server ≡ ok t)
    × (t.sent ≡ [] ++ sent)
    × All (λ (p : Sent). read_package 9 p.block client ≡ none) sent
unfolding new_c2s_data_msg told msg_size
chat_session_past_end_example =
    chat_session_past_end sql 0 1 7 8 0 400 500 9 1 hi x (chat_block x) [] (8 ∷ []) server client
      (
        (
          omega arith,
          omega arith,
          omega arith,
          omega arith,
          omega arith,
          omega arith,
          omega arith,
          (λ e. cc, (λ e. cc, tt)),
        ),
        (λ e. cc, tt),
        omega arith,
        omega arith,
        omega arith,
      )
      refl (omega arith) (omega arith) x_lem.0 refl x_lem.1 refl

-- The first of them through ThreadWork.
abbrev xyz_worked : Handler
xyz_worked = reached (thread_work sql blank 500 4 (chat_block xyz) server)
