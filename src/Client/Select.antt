-- ===== src/Client/Select.antt =====
-- Select.cpp: the map of the client's sockets and the rounds of the thread that waits for them.
use socket_message.Prelude.{
  ℕ, zero, suc, ◌+◌, ◌≤◌, ◌<◌, ◌≡◌, Bool, true, false, ◌&&◌, Option, none, some, List, [], ◌∷◌,
  ◌++◌, map, ltb, leb, ◌==◌, if◌then◌else◌, All, concat,
}
use socket_message.Net.Result.{Result, ok, err, out_of_buffer, out_of_fuel, ◌>>=◌}
use socket_message.Net.ClientSocket.{
  Socket, Answer, Taken, Outcome, socket_close, finished, running, Received, Sent, recv, send,
}
use socket_message.Client.Connect.{no_limit}
pub mod Turns
pub mod Closing
pub mod Waiting

-- `sockets` is m_ClientSocketMap in the order of its keys, which are the sockets' descriptors;
-- `closed` has the calls of m_SocketCloseCallback so far.
pub record Select : Type 0 where
  pub sockets : List Socket
  pub timeout : ℕ
  pub is_started : Bool
  pub closed : List ℕ

unfoldable pub new_select : Select
new_select = record { sockets = []; timeout = 100; is_started = false; closed = [] }

unfoldable pub set_timeout : ℕ → Select → Select
set_timeout timeout sel = record sel { timeout = timeout }

unfoldable pub start : Select → Select
start sel = record sel { is_started = true }

-- `count` and `at`
unfoldable pub socket_at : ℕ → List Socket → Option Socket
socket_at fd [] = none
socket_at fd (s ∷ ss) = let rest = socket_at fd ss in if s.cfd == fd then some s else rest

unfoldable pub get_client_socket : ℕ → Select → Option Socket
get_client_socket fd sel = socket_at fd sel.sockets

-- `insert`: an entry that is there stays.
unfoldable pub insert_socket : Socket → List Socket → List Socket
insert_socket s [] = s ∷ []
insert_socket s (t ∷ ts) =
    let rest = insert_socket s ts in
    if t.cfd == s.cfd then t ∷ ts else (if ltb s.cfd t.cfd then s ∷ (t ∷ ts) else t ∷ rest)

unfoldable pub add : Socket → Select → Select
add s sel = record sel { sockets = insert_socket s sel.sockets }

unfoldable pub erase_socket : ℕ → List Socket → List Socket
erase_socket fd [] = []
erase_socket fd (s ∷ ss) = let rest = erase_socket fd ss in if s.cfd == fd then ss else s ∷ rest

-- Remove, by the entry of the descriptor.
unfoldable pub remove_found : Option Socket → ℕ → Select → Select
remove_found none fd sel = sel
remove_found (some s) fd sel = record sel {
  sockets = erase_socket fd sel.sockets;
  closed = sel.closed ++ s.cfd ∷ [];
}

unfoldable pub remove : ℕ → Select → Select
remove fd sel = remove_found (socket_at fd sel.sockets) fd sel

-- The arguments of `select`: the descriptors set, the highest of them plus 1, and the time limit.
pub record Wait : Type 0 where
  pub read_set : List ℕ
  pub write_set : List ℕ
  pub nfds : ℕ
  pub limit : Option ℕ

-- `FD_SETSIZE`; FD_SET of a descriptor from it on writes outside the set.
abbrev pub fd_set_size : ℕ
fd_set_size = 1024

unfoldable pub fd_set : Bool → ℕ → List ℕ → Result (List ℕ)
fd_set false fd set = ok set
fd_set true fd set = if ltb fd fd_set_size then ok (fd ∷ set) else err out_of_buffer

-- The loop that fills the sets.
unfoldable pub fill_sets : List Socket → Option ℕ → Result Wait
fill_sets [] limit = ok (record { read_set = []; write_set = []; nfds = 0; limit = limit })
fill_sets (s ∷ ss) limit = fill_sets ss limit >>= λ w.
    fd_set s.cfd_is_read s.cfd w.read_set >>= λ reads.
    fd_set s.cfd_is_write s.cfd w.write_set >>= λ writes. ok (record {
      read_set = reads;
      write_set = writes;
      nfds = if ltb w.nfds (s.cfd + 1) then s.cfd + 1 else w.nfds;
      limit = limit;
    })

-- `m_Timeout == -1 ? NULL : &tm`, with the `tm` of the old m_Timeout.
unfoldable pub limit_of : ℕ → ℕ → Option ℕ
limit_of old new = if new == no_limit then none else some old

-- The round up to the call of `select`: m_Timeout is set to -1 before it is tested.
unfoldable pub prepare : Select → Result (Wait × Select)
prepare sel =
    let waiting : Select = record sel { timeout = no_limit } in
    fill_sets sel.sockets (limit_of sel.timeout waiting.timeout) >>= λ w. ok (w, waiting)

-- What the kernel answers for one socket in a round.
pub record Answers : Type 0 where
  pub can_read : Bool
  pub can_write : Bool
  pub received : List Answer
  pub taken : List Taken

pub data Selected : Type 0 where
  failed timed_out : Selected
  ready : (ℕ → Answers) → Selected

-- A socket behind its turn in the loop, with the packages handed on, and which calls returned
-- SOCKET_CLOSE.
pub record Turn : Type 0 where
  pub socket : Socket
  pub packages : List (List ℕ)
  pub recv_closed : Bool
  pub send_closed : Bool

-- Whether a call returned SOCKET_CLOSE; one whose answers are used up has not returned.
unfoldable pub is_close : Outcome → Result Bool
is_close socket_close = ok true
is_close finished = ok false
is_close running = err out_of_fuel

-- The write callback of ConnectServerSocket: `cs->GetCfdIsWrite() = hasData`.
unfoldable pub write_callback : Option Bool → Socket → Socket
write_callback none s = s
write_callback (some has_data) s = record s { cfd_is_write = has_data }

-- `FD_ISSET` of the read set, and Recv.
unfoldable pub read_turn : Bool → List Answer → Socket → Result Turn
read_turn false answers s =
    ok (record { socket = s; packages = []; recv_closed = false; send_closed = false })
read_turn true answers s = recv s answers >>= λ r. is_close r.outcome >>= λ closed.
    ok (record {
      socket = r.socket;
      packages = r.packages;
      recv_closed = closed;
      send_closed = false;
    })

-- `FD_ISSET` of the write set, and Send.
unfoldable pub write_turn : Bool → List Taken → Turn → Result Turn
write_turn false answers t = ok t
write_turn true answers t = send t.socket answers >>= λ r. is_close r.outcome >>= λ closed.
    ok (record t { socket = write_callback r.callback r.socket; send_closed = closed })

-- `select` leaves of the sets only what they had.
unfoldable pub turn : (ℕ → Answers) → Socket → Result Turn
turn answers s =
    let a = answers s.cfd in
    read_turn (s.cfd_is_read && a.can_read) a.received s >>= λ t.
    write_turn (s.cfd_is_write && a.can_write) a.taken t

unfoldable pub turns : (ℕ → Answers) → List Socket → Result (List Turn)
turns answers [] = ok []
turns answers (s ∷ ss) = turn answers s >>= λ t. turns answers ss >>= λ ts. ok (t ∷ ts)

-- What a turn adds to `closeSocket`.
unfoldable pub close_list : Turn → List ℕ
close_list t =
    (if t.recv_closed then t.socket.cfd ∷ [] else [])
    ++ (if t.send_closed then t.socket.cfd ∷ [] else [])

unfoldable pub remove_each : List ℕ → Select → Select
remove_each [] sel = sel
remove_each (fd ∷ fds) sel = remove_each fds (remove fd sel)

-- The packages of a socket, handed to the read callback.
pub record Handed : Type 0 where
  pub cfd : ℕ
  pub packages : List (List ℕ)

-- Behind `select`. The packages are handed on during the loop; what their callback does to other
-- sockets is a step of its own.
unfoldable pub work_on : Selected → Select → Result (Select × List Handed)
work_on failed sel = ok (sel, [])
work_on timed_out sel = ok (sel, [])
work_on (ready answers) sel = turns answers sel.sockets >>= λ ts. ok (
  remove_each (concat (map close_list ts))
      (record sel { sockets = map (λ (t : Turn). t.socket) ts }),
  map (λ (t : Turn). record { cfd = t.socket.cfd; packages = t.packages }) ts,
)

-- One round of Work.
unfoldable pub work : Selected → Select → Result (Select × List Handed)
work answer sel = prepare sel >>= λ (w, waiting). work_on answer waiting

-- The keys of the map, in order.
abbrev pub Ascending : List Socket → Type 0
Ascending [] = Unit
Ascending (s ∷ ss) = All (λ (t : Socket). s.cfd < t.cfd) ss × Ascending ss
