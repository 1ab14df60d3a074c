-- ===== src/Server/Main/Runs.antt =====
-- MainControl's callbacks at work: a message for a user who is online, and a close.
use socket_message.Prelude.{ℕ, ◌≡◌, refl, true, false, List, [], ◌∷◌, ◌++◌, replicate}
use socket_message.Wire.Bytes.{int_at, of_le32, char_at, c_str}
use socket_message.Wire.Login.{head_of}
use socket_message.Wire.Msgs.{unserialize_msg, skip_text, serialize_msg, msg_size}
use socket_message.Net.ClientSocket.{Socket}
use socket_message.Net.Control.{get_client_socket}
use socket_message.Server.Database.{MySql}
use socket_message.Server.DataHandler.{
  Outcome, ok, waits, faults, handle, Sent, handle_data_msg, thread_work, pop, send_users,
}
use socket_message.Server.Main.{Main, main_work, main_close}
use socket_message.Server.Main.Joins.{tasks_of, answers_are_queued, Closes, main_close_offline}

abbrev quiet : Socket
quiet = record {
  cfd = 5;
  is_non_block = true;
  read_buf = [];
  write_buf = [];
  is_writing = false;
  cfd_is_read = true;
  cfd_is_write = false;
}

-- The client at descriptor 5 is user 8; the sender, user 7, is at descriptor 4.
abbrev serving : Main
serving = record {
  control = record {
    clients = record { fd = 5; socket = quiet } ∷ [];
    client_socket_count = 1;
    notices = record { cfd = 5; is_open = true } ∷ [];
    tasks = [];
    wire = [];
    send_package_count = 0;
    send_byte_count = 0;
  };
  handler = record {
    online = record { user_id = 7; cfd = 4 } ∷ record { user_id = 8; cfd = 5 } ∷ [];
    connections = 1 ∷ [];
    sent = [];
    saved = [];
  };
}

-- A database that knows no user. Escaping doubles a text here.
abbrev empty_sql : MySql
empty_sql = record { escape_string = λ s. s ++ s; select = λ i q. []; insert = λ r. 12 }

abbrev blank : List ℕ
blank = replicate 32 0

-- The block of "hi" from user 7 to user 8, with the extend "x".
abbrev hi_block : List ℕ
hi_block =
    43 ∷ 0 ∷ 0 ∷ 0 ∷ 101 ∷ 0 ∷ 0 ∷ 0 ∷ 0 ∷ 0 ∷ 0 ∷ 0 ∷ 1 ∷ 0 ∷ 0 ∷ 0 ∷ 7 ∷ 0 ∷ 0 ∷ 0 ∷ 8 ∷ 0 ∷ 0 ∷ 0
    ∷ 0 ∷ 0 ∷ 0 ∷ 0 ∷ 0 ∷ 3 ∷ 0 ∷ 0 ∷ 0 ∷ 104 ∷ 105 ∷ 0 ∷ 2 ∷ 0 ∷ 0 ∷ 0 ∷ 120 ∷ 0 ∷ []

abbrev reached : Outcome Main → Main
reached o = elim o [ ok t ↦ t | waits ↦ serving | faults ↦ serving ]

abbrev hi_worked : Main
hi_worked = reached (main_work empty_sql blank 500 4 hi_block serving)

hi_worked_lem : main_work empty_sql blank 500 4 hi_block serving ≡ ok hi_worked
unfolding main_work thread_work handle handle_data_msg unserialize_msg head_of int_at of_le32
    char_at c_str skip_text pop send_users serialize_msg msg_size
hi_worked_lem = refl

answers_are_queued_example :
    (new : List Sent) × (hi_worked.handler.sent ≡ [] ++ new)
    × (hi_worked.control
        ≡ record (serving.control) { tasks = [] ++ tasks_of serving.control.clients new })
answers_are_queued_example =
    answers_are_queued empty_sql blank 500 4 hi_block serving hi_worked refl hi_worked_lem

main_close_offline_example :
    Closes (get_client_socket 5 serving.control.clients) 5 5 serving (main_close 5 serving)
main_close_offline_example = main_close_offline 5 5 serving
