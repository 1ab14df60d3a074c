-- ===== src/Net/Interest.antt =====
-- EPoll.cpp's Add, Change and Remove over epoll_ctl, and SocketControl's EPollAddClientRead and its
-- four siblings, which keep a client's flags m_CfdIsRead and m_CfdIsWrite beside the kernel's set.
use socket_message.Prelude.{ℕ, ◌≡◌, Bool, true, false, not, Option, none, some, ◌==◌, if◌then◌else◌}
pub mod Agrees

-- The events that a descriptor is registered for.
pub record Events : Type 0 where
  pub is_read : Bool
  pub is_write : Bool

-- The kernel's set: what each descriptor is registered for, if it is.
abbrev pub Epoll : Type 0
Epoll = ℕ → Option Events

abbrev put : Epoll → ℕ → Option Events → Epoll
put ep fd v k = if k == fd then v else ep k

-- EPOLL_CTL_ADD fails with EEXIST on a registered descriptor, and changes nothing.
unfoldable pub add : Epoll → ℕ → Bool → Bool → Epoll
add ep fd is_write is_read = elim (ep fd) [
  | none ↦ put ep fd (some (record { is_read = is_read; is_write = is_write }))
  | some _ ↦ ep
]

-- EPOLL_CTL_MOD fails with ENOENT on another one.
unfoldable pub change : Epoll → ℕ → Bool → Bool → Epoll
change ep fd is_write is_read = elim (ep fd) [
  | none ↦ ep
  | some _ ↦ put ep fd (some (record { is_read = is_read; is_write = is_write }))
]

-- EPOLL_CTL_DEL
unfoldable pub remove : Epoll → ℕ → Epoll
remove ep fd = put ep fd none

-- A client socket's descriptor and its two flags.
pub record Client : Type 0 where
  pub fd : ℕ
  pub cfd_is_read : Bool
  pub cfd_is_write : Bool

pub record State : Type 0 where
  pub epoll : Epoll
  pub client : Client

unfoldable pub add_client_read : State → State
add_client_read s =
    let c = s.client in
    if c.cfd_is_read then s else record {
      epoll = if c.cfd_is_write then change s.epoll c.fd true true else add s.epoll c.fd false true;
      client = record c { cfd_is_read = true };
    }

unfoldable pub add_client_write : State → State
add_client_write s =
    let c = s.client in
    if c.cfd_is_write then s else record {
      epoll = if c.cfd_is_read then change s.epoll c.fd true true else add s.epoll c.fd true false;
      client = record c { cfd_is_write = true };
    }

unfoldable pub del_client_read : State → State
del_client_read s =
    let c = s.client in
    if not c.cfd_is_read then s else record {
      epoll = if c.cfd_is_write then change s.epoll c.fd true false else remove s.epoll c.fd;
      client = record c { cfd_is_read = false };
    }

unfoldable pub del_client_write : State → State
del_client_write s =
    let c = s.client in
    if not c.cfd_is_write then s else record {
      epoll = if c.cfd_is_read then change s.epoll c.fd false true else remove s.epoll c.fd;
      client = record c { cfd_is_write = false };
    }

unfoldable pub del_client : State → State
del_client s = record {
  epoll = remove s.epoll s.client.fd;
  client = record (s.client) { cfd_is_read = false; cfd_is_write = false };
}

-- Client4WriteCallback
unfoldable pub client_write_callback : State → Bool → State
client_write_callback s has_data = if has_data then add_client_write s else del_client_write s

-- Epoll4EventCallback for a client, before its task is queued: the event that is handled is no longer
-- waited for.
pub data Task : Type 0 where
  recv_task send_task no_task : Task

unfoldable pub event_callback : State → Bool → Bool → State × Task
event_callback s is_read is_write =
    if is_read
    then (del_client_read s, recv_task)
    else (if is_write then (del_client_write s, send_task) else (s, no_task))

-- The end of the task where the connection is not closed.
unfoldable pub task_done : State → Task → State
task_done s recv_task = add_client_read s
task_done s send_task = add_client_write s
task_done s no_task = s
