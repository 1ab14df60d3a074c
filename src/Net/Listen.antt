-- ===== src/Net/Listen.antt =====
-- ServerSocket.cpp, with SocketControl's Init and the branch of Epoll4EventCallback for the server's socket:
-- from the listening socket to the clients that it accepts.
use socket_message.Prelude.{
  ℕ, ◌+◌, ◌^◌, ◌≤◌, ◌<◌, ◌≡◌, Bool, true, false, not, ◌&&◌, ◌||◌, Option, none, some, List, [], ◌∷◌,
  ltb, ◌==◌, if◌then◌else◌,
}
use socket_message.Wire.Bytes.{is_neg}
use socket_message.Net.Interest.{Epoll, Events, add, remove, State, add_client_read}
use socket_message.Net.Control.{Control, Client, client_connect}
pub mod Accepts
pub mod Destroys
mod Runs

-- The kernel's answers to Init: the descriptor of `socket`, none for -1, and whether `bind` and `listen`
-- succeed.
pub record Kernel : Type 0 where
  pub socket : Option ℕ
  pub bound : Bool
  pub listening : Bool

-- `sfd` is m_Sfd, none for -1; `open_fds` are the descriptors that Init opened and nobody closed.
pub record Listener : Type 0 where
  pub sfd : Option ℕ
  pub is_non_block : Bool
  pub open_fds : List ℕ

unfoldable pub new_listener : Listener
new_listener = record { sfd = none; is_non_block = false; open_fds = [] }

unfoldable pub open_fd : ℕ → Listener → Listener
open_fd fd l = record l { open_fds = fd ∷ l.open_fds }

unfoldable pub erase_fd : ℕ → List ℕ → List ℕ
erase_fd fd [] = []
erase_fd fd (n ∷ ns) = let rest = erase_fd fd ns in if n == fd then ns else n ∷ rest

unfoldable pub close_fd : ℕ → Listener → Listener
close_fd fd l = record l { open_fds = erase_fd fd l.open_fds }

-- ServerSocket::Init, by the result of `socket`.
unfoldable pub init_socket : Option ℕ → Kernel → Listener → Bool × Listener
init_socket none k l = (false, l)
init_socket (some fd) k l0 =
    let l = open_fd fd l0 in
    if k.bound
    then (if k.listening then (true, record l { sfd = some fd }) else (false, close_fd fd l))
    else (false, close_fd fd l)

unfoldable pub init : Kernel → Listener → Bool × Listener
init k l = init_socket k.socket k l

unfoldable pub set_non_block_of : Option ℕ → Listener → Listener
set_non_block_of none l = l
set_non_block_of (some fd) l = record l { is_non_block = true }

-- ServerSocket::SetNonBlock
unfoldable pub set_non_block : Listener → Listener
set_non_block l = set_non_block_of l.sfd l

-- SocketControl with its server socket and the kernel's set of events.
pub record Server : Type 0 where
  pub listener : Listener
  pub control : Control
  pub epoll : Epoll
  pub epoll_timeout : ℕ
  pub is_init : Bool

-- `m_pEPoll->Add(m_pServerSocket->GetFd(), m_pServerSocket)`: for reading.
unfoldable pub watch_server : Option ℕ → Epoll → Epoll
watch_server none ep = ep
watch_server (some fd) ep = add ep fd false true

unfoldable pub unwatch_server : Option ℕ → Epoll → Epoll
unwatch_server none ep = ep
unwatch_server (some fd) ep = remove ep fd

-- SocketControl::Init; the sockets are set non-blocking.
unfoldable pub init_server : Kernel → ℕ → Server → Bool × Server
init_server k timeout s =
    let made = init k s.listener in
    let l = set_non_block made.1 in
    if s.is_init
    then (true, s)
    else (if made.0
        then (
          true,
          record s {
            listener = l;
            epoll = watch_server l.sfd s.epoll;
            epoll_timeout = timeout;
            is_init = true;
          },
        )
        else (false, record s { listener = made.1 }))

-- Server4ClientConnectCallback, and EPollAddClientRead on its new ClientSocket.
unfoldable pub connect_client : ℕ → Server → Server
connect_client cfd s =
    let watched : State = add_client_read (record {
      epoll = s.epoll;
      client = record { fd = cfd; cfd_is_read = false; cfd_is_write = false };
    }) in
    record s { control = client_connect cfd s.control; epoll = watched.epoll }

-- Accept over the `int`s that `accept` returns: the loop goes on while the socket does not block, and
-- ends at the first that is not above 0.
unfoldable pub accept : Bool → List ℕ → Server → Server
accept mode [] s = s
accept mode (cfd ∷ answers) s =
    let next : Server = connect_client cfd s in
    let rest : Server = accept mode answers next in
    if ltb 0 cfd && not (is_neg cfd) then (if mode then rest else next) else s

-- Epoll4EventCallback for the server's socket, and the task that it queues.
unfoldable pub server_event : Server → Server
server_event s = record s { epoll = unwatch_server s.listener.sfd s.epoll }

unfoldable pub accept_task : List ℕ → Server → Server
accept_task answers s =
    let t = accept s.listener.is_non_block answers s in
    record t { epoll = watch_server t.listener.sfd t.epoll }

-- The destructor of SocketControl up to its deletes: the clients leave the kernel's set and the map.
unfoldable pub remove_clients : List Client → Epoll → Epoll
remove_clients [] ep = ep
remove_clients (c ∷ cs) ep = remove_clients cs (remove ep c.fd)

unfoldable pub destroy : Server → Server
destroy s = record s {
  control = record (s.control) { clients = [] };
  epoll = remove_clients s.control.clients s.epoll;
}
