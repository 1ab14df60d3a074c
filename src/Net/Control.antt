-- ===== src/Net/Control.antt =====
-- SocketControl.cpp: the map of clients, SendPackage with the task that it queues, the callback of a new
-- connection and the close of one, and the counters. The flags of a client and the kernel's set are in
-- Net/Interest, the events of a client in Net/Tasks.
use socket_message.Prelude.{
  ℕ, zero, suc, ◌+◌, ◌-◌, ◌≤◌, ◌<◌, ◌≡◌, Bool, true, false, Option, none, some, List, [], ◌∷◌, ◌++◌,
  ltb, ◌==◌, if◌then◌else◌, length,
}
use socket_message.Net.Result.{Result, ok, err, ◌>>=◌}
use socket_message.Net.Framing.{frame, socket_head_size}
use socket_message.Net.ClientSocket.{
  Socket, new_socket, set_non_block, size_for_empty_write, Outcome, socket_close, finished, running,
  Taken, Sent, write,
}
pub mod Entries
pub mod Books
pub mod Delivery
mod Runs

-- An entry of m_ClientFdMap.
pub record Client : Type 0 where
  pub fd : ℕ
  pub socket : Socket

-- A task that SendPackage queued.
pub record Task : Type 0 where
  pub cfd : ℕ
  pub send_data : List ℕ

-- A call of m_ClientSocketStateCallback.
pub record Notice : Type 0 where
  pub cfd : ℕ
  pub is_open : Bool

-- Bytes that the kernel took for a client.
pub record Wired : Type 0 where
  pub cfd : ℕ
  pub bytes : List ℕ

pub record Control : Type 0 where
  pub clients : List Client
  pub client_socket_count : ℕ
  pub notices : List Notice
  pub tasks : List Task
  pub wire : List Wired
  pub send_package_count : ℕ
  pub send_byte_count : ℕ

-- GetClientSocket
unfoldable pub get_client_socket : ℕ → List Client → Option Socket
get_client_socket fd [] = none
get_client_socket fd (c ∷ cs) =
    let rest = get_client_socket fd cs in if c.fd == fd then some c.socket else rest

-- A change of the object that the map points to.
unfoldable pub put_socket : ℕ → Socket → List Client → List Client
put_socket fd s [] = []
put_socket fd s (c ∷ cs) =
    let rest = put_socket fd s cs in
    if c.fd == fd then record { fd = fd; socket = s } ∷ cs else c ∷ rest

-- `m_ClientFdMap.erase`
unfoldable pub erase_client : ℕ → List Client → List Client
erase_client fd [] = []
erase_client fd (c ∷ cs) = let rest = erase_client fd cs in if c.fd == fd then cs else c ∷ rest

-- `insert`, which keeps an entry that is there.
unfoldable pub insert_client : ℕ → Socket → List Client → List Client
insert_client fd s cs = elim (get_client_socket fd cs) [
  | none ↦ record { fd = fd; socket = s } ∷ cs
  | some _ ↦ cs
]

-- Server4ClientConnectCallback
unfoldable pub client_connect : ℕ → Control → Control
client_connect fd c = record c {
  clients = insert_client fd (set_non_block (new_socket fd)) c.clients;
  client_socket_count = c.client_socket_count + 1;
  notices = c.notices ++ record { cfd = fd; is_open = true } ∷ [];
}

-- ClientSocketCloseAndDelete
unfoldable pub close_and_delete : ℕ → Control → Control
close_and_delete fd c = elim (get_client_socket fd c.clients) [
  | none ↦ c
  | some _ ↦ record c {
    clients = erase_client fd c.clients;
    client_socket_count = c.client_socket_count - 1;
    notices = c.notices ++ record { cfd = fd; is_open = false } ∷ [];
  }
]

-- ClientSocketClose
unfoldable pub client_socket_close : ℕ → Control → Control
client_socket_close fd c = elim (get_client_socket fd c.clients) [
  | none ↦ c
  | some _ ↦ close_and_delete fd c
]

-- SendPackage: none where it returns false, else the state with the task queued. (The code has no
-- return statement there.)
unfoldable pub send_package : ℕ → List ℕ → Control → Option Control
send_package cfd body c = elim (get_client_socket cfd c.clients) [
  | none ↦ none
  | some s ↦
      if ltb (size_for_empty_write s) (length body + socket_head_size)
      then none
      else some (record c { tasks = c.tasks ++ record { cfd = cfd; send_data = frame body } ∷ [] })
]

-- Write has returned, and changed the socket.
unfoldable pub written : Task → Sent → Control → Control
written t r c = record c {
  clients = put_socket t.cfd r.socket c.clients;
  wire = c.wire ++ record { cfd = t.cfd; bytes = r.wire } ∷ [];
}

-- By the result of Write the connection is closed, or goes on.
unfoldable pub close_by : Outcome → ℕ → Control → Control
close_by socket_close cfd c = close_and_delete cfd c
close_by finished cfd c = c
close_by running cfd c = c

-- The counters.
unfoldable pub count_sent : Task → Control → Control
count_sent t c = record c {
  send_package_count = c.send_package_count + 1;
  send_byte_count = c.send_byte_count + length t.send_data;
}

unfoldable pub after_write : Task → Sent → Control → Control
after_write t r c = count_sent t (close_by r.outcome t.cfd (written t r c))

-- A task of SendPackage, over the answers of send, for the client that GetClientSocket finds.
unfoldable pub send_task : Task → List Taken → Option Socket → Control → Result Control
send_task t answers none c = ok c
send_task t answers (some s) c = write s t.send_data answers >>= λ r. ok (after_write t r c)

-- The thread pool takes the first of the tasks.
unfoldable pub run_first : List Task → List Taken → Control → Result Control
run_first [] answers c = ok c
run_first (t ∷ rest) answers c =
    send_task t answers (get_client_socket t.cfd c.clients) (record c { tasks = rest })

unfoldable pub run_task : List Taken → Control → Result Control
run_task answers c = run_first c.tasks answers c

-- A step of the sockets' side. The kernel gives a new connection a descriptor that no client has.
pub data Step (c d : Control) : Type 0 where
  connects : (fd : ℕ) → get_client_socket fd c.clients ≡ none → d ≡ client_connect fd c → Step c d
  sends : (cfd : ℕ) (body : List ℕ) → send_package cfd body c ≡ some d → Step c d
  runs : (answers : List Taken) → run_task answers c ≡ ok d → Step c d
  closes : (fd : ℕ) → d ≡ client_socket_close fd c → Step c d

pub data Reach (c : Control) : Control → Type 0 where
  here : Reach c c
  next : {d e : Control} → Reach c d → Step d e → Reach c e
