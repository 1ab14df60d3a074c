-- ===== src/Net/Control/Runs.antt =====
-- SendPackage and the map of clients at work, on one client.
use socket_message.Prelude.{
  ◌≡◌, ◌≤◌, ◌<◌, ◌++◌, ◌+◌, refl, [], ◌∷◌, none, some, arith, length, true, false, ◌⊎◌,
}
use socket_message.Wire.Bytes.{le32}
use socket_message.Net.Result.{Result, ok, err}
use socket_message.Net.Framing.{frame}
use socket_message.Net.ClientSocket.{
  buf_max_size, Socket, finished, blocked, Sent, size_for_empty_write, send, write,
}
use socket_message.Net.Control.{
  Task, Control, Reach, here, next, connects, get_client_socket, client_connect, send_package,
  send_task, run_first, run_task,
}
use socket_message.Net.Control.Entries.{entries, opens, shuts}
use socket_message.Net.Control.Books.{no_clients, books_agree}
use socket_message.Net.Control.Delivery.{Leaves, task_counts_dropped, accepted_is_written}

-- A client without data.
abbrev quiet : Socket
quiet = record {
  cfd = 4;
  is_non_block = true;
  read_buf = [];
  write_buf = [];
  is_writing = false;
  cfd_is_read = true;
  cfd_is_write = false;
}

-- One client, at descriptor 4, without data.
abbrev serving : Control
serving = record no_clients {
  clients = record { fd = 4; socket = quiet } ∷ [];
  client_socket_count = 1;
}

connected : Reach no_clients (client_connect 4 no_clients)
unfolding get_client_socket
connected = next here (connects 4 refl refl)

books_agree_example :
    (entries 4 (client_connect 4 no_clients).clients ≤ 1)
    × ((client_connect 4 no_clients).client_socket_count
        ≡ length (client_connect 4 no_clients).clients)
    × (opens 4 (client_connect 4 no_clients).notices
        ≡ shuts 4 (client_connect 4 no_clients).notices
          + entries 4 (client_connect 4 no_clients).clients)
books_agree_example = books_agree (client_connect 4 no_clients) 4 connected

-- The package 65 is accepted, and its task writes into a kernel that takes nothing yet.
abbrev letter : Task
letter = record { cfd = 4; send_data = frame (65 ∷ []) }

abbrev accepted : Control
accepted = record serving { tasks = letter ∷ [] }

accepted_lem : send_package 4 (65 ∷ []) serving ≡ some accepted
unfolding send_package get_client_socket size_for_empty_write
accepted_lem = refl

serving_lem : get_client_socket 4 serving.clients ≡ some quiet
unfolding get_client_socket
serving_lem = refl

abbrev control_of : Result Control → Control
control_of r = elim r [ ok c ↦ c | err e ↦ serving ]

abbrev letter_written : Control
letter_written = control_of (run_task (blocked ∷ []) accepted)

letter_written_lem : run_task (blocked ∷ []) accepted ≡ ok letter_written
unfolding run_task run_first get_client_socket send_task write send frame le32
letter_written_lem = refl

task_counts_dropped_example :
    (r : Sent) × (write quiet letter.send_data (blocked ∷ []) ≡ ok r)
    × Leaves letter r accepted letter_written
    × (((0 + length letter.send_data ≤ buf_max_size)
          × (r.wire ++ r.socket.write_buf ≡ [] ++ letter.send_data))
        ⊎ ((buf_max_size < 0 + length letter.send_data)
            × (r ≡ record { socket = quiet; wire = []; outcome = finished; callback = none })))
task_counts_dropped_example =
    task_counts_dropped letter [] (blocked ∷ []) quiet accepted letter_written refl serving_lem
      (omega arith) letter_written_lem

accepted_is_written_example :
    (r : Sent) × (write quiet (frame (65 ∷ [])) (blocked ∷ []) ≡ ok r)
    × Leaves letter r accepted letter_written
    × (r.wire ++ r.socket.write_buf ≡ [] ++ frame (65 ∷ []))
accepted_is_written_example =
    accepted_is_written 4 (65 ∷ []) (blocked ∷ []) quiet serving accepted letter_written refl
      serving_lem (omega arith) accepted_lem letter_written_lem
