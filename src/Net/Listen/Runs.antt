-- ===== src/Net/Listen/Runs.antt =====
-- The server's socket at work: descriptor 3 listens, and two connections come in.
use socket_message.Prelude.{
  ℕ, ◌+◌, ◌≡◌, refl, true, none, some, List, [], ◌∷◌, length, if◌then◌else◌, ◌==◌,
}
use socket_message.Net.Listen.{Server, accept_task, server_event}
use socket_message.Net.Listen.Accepts.{accepted, after_accept, reads_only, accept_task_watches}

abbrev listening : Server
listening = record {
  listener = record { sfd = some 3; is_non_block = true; open_fds = 3 ∷ [] };
  control = record {
    clients = [];
    client_socket_count = 0;
    notices = [];
    tasks = [];
    wire = [];
    send_package_count = 0;
    send_byte_count = 0;
  };
  epoll = λ k. if k == 3 then some reads_only else none;
  epoll_timeout = 0;
  is_init = true;
}

-- Two descriptors, and -1.
abbrev answers : List ℕ
answers = 5 ∷ 6 ∷ 4294967295 ∷ []

accept_task_watches_example :
    ((accept_task answers (server_event listening)).epoll 6
      ≡ after_accept 3 (accepted true answers) listening.epoll 6)
    × ((accept_task answers (server_event listening)).control.client_socket_count
        ≡ 0 + length (accepted true answers))
accept_task_watches_example = accept_task_watches 3 6 answers listening refl
