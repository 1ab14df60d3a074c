-- ===== src/Client/Control.antt =====
-- SocketControl.cpp of the client: a new connection, and SendPackage, over the select loop's map. Its
-- ClientReadPackageCallback is the loop of Net/Framing, which Recv runs.
use socket_message.Prelude.{
  ℕ, ◌+◌, ◌≡◌, Bool, true, false, Option, none, some, List, [], ◌∷◌, ◌++◌, ltb, ◌==◌, if◌then◌else◌,
  length,
}
use socket_message.Net.Result.{Result, ok, err, ◌>>=◌}
use socket_message.Net.Framing.{frame, socket_head_size}
use socket_message.Net.ClientSocket.{
  Socket, Taken, Sent, Outcome, size_for_empty_write, write, socket_close, finished, running,
}
use socket_message.Client.Connect.{
  Kernel, Descriptor, new_descriptor, set_non_block, connect, connect_timeout, new_client_socket,
}
use socket_message.Client.Select.{
  Select, new_select, set_timeout, add, start, remove, get_client_socket, write_callback, is_close,
}
pub mod Sending
pub mod Watched
pub mod Keys
pub mod Unwatched

-- CONFIG_SOCKET_SELECT_TIMEOUT
abbrev pub select_timeout : ℕ
select_timeout = 100

-- The constructor; the connections are set non-blocking.
unfoldable pub new_control : Select
new_control = set_timeout select_timeout new_select

-- ConnectServerSocket behind Connect: `newFd`, none for INVALID_SOCKET with the result false.
unfoldable pub connected : Bool → Option ℕ → Select → Option ℕ × Select
connected false fd sel = (none, sel)
connected true none sel = (none, sel)
connected true (some fd) sel = (some fd, start (add (new_client_socket fd true) sel))

unfoldable pub connect_server_socket : Kernel → Select → Option ℕ × Select
connect_server_socket k sel =
    let d = (set_non_block k true new_descriptor).1 in
    let (result, made) = connect k connect_timeout d in connected result made.cfd sel

-- A change of the object that the map points to.
unfoldable pub put_socket : Socket → List Socket → List Socket
put_socket s [] = []
put_socket s (t ∷ ts) = let rest = put_socket s ts in if t.cfd == s.cfd then s ∷ ts else t ∷ rest

-- What SendPackage returns, the map, and the bytes that the kernel took.
pub record SendResult : Type 0 where
  pub result : Bool
  pub select : Select
  pub wire : List ℕ

-- Behind Write.
unfoldable pub after_write : ℕ → Select → Sent → Result SendResult
after_write fd sel r =
    let kept : Select = record sel {
      sockets = put_socket (write_callback r.callback r.socket) sel.sockets;
    } in
    is_close r.outcome >>= λ closed. ok (record {
      result = if closed then false else true;
      select = if closed then remove fd kept else kept;
      wire = r.wire;
    })

unfoldable pub send_to : Option Socket → ℕ → List ℕ → List Taken → Select → Result SendResult
send_to none fd body answers sel = ok (record { result = false; select = sel; wire = [] })
send_to (some s) fd body answers sel =
    if ltb (size_for_empty_write s) (length body + socket_head_size)
    then ok (record { result = false; select = sel; wire = [] })
    else (write s (frame body) answers >>= λ r. after_write fd sel r)

unfoldable pub send_package : ℕ → List ℕ → List Taken → Select → Result SendResult
send_package fd body answers sel = send_to (get_client_socket fd sel) fd body answers sel
