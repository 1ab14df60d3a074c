-- ===== src/Net/ClientSocket.antt =====
-- ClientSocket.cpp of the server (Recv, Write and Send of the client's are the same): the two buffers
-- of a connection, over the answers of recv and send.
use socket_message.Prelude.{
  ℕ, zero, suc, ◌+◌, ◌-◌, ◌*◌, ◌≤◌, ◌<◌, ◌≡◌, Bool, true, false, ◌&&◌, not, Option, none, some,
  List, [], ◌∷◌, ◌++◌, arith, ltb, leb, ◌==◌, if◌then◌else◌, length, take, drop,
}
use socket_message.Net.Result.{Result, ok, err, out_of_buffer, ◌>>=◌}
use socket_message.Net.Framing.{Packages, read_packages}
pub mod Reading
pub mod Writing
pub mod Frames

-- CONFIG_CLIENT_READBUF_MAX_SIZE and CONFIG_CLIENT_WRITEBUF_MAX_SIZE
abbrev pub buf_max_size : ℕ
buf_max_size = 102400

-- A buffer is its content; its capacity is `buf_max_size`.
pub record Socket : Type 0 where
  pub cfd : ℕ
  pub is_non_block : Bool
  pub read_buf : List ℕ
  pub write_buf : List ℕ
  pub is_writing : Bool
  pub cfd_is_read : Bool
  pub cfd_is_write : Bool

unfoldable pub new_socket : ℕ → Socket
new_socket cfd = record {
  cfd = cfd;
  is_non_block = false;
  read_buf = [];
  write_buf = [];
  is_writing = false;
  cfd_is_read = false;
  cfd_is_write = false;
}

unfoldable pub set_non_block : Socket → Socket
set_non_block s = record s { is_non_block = true }

unfoldable pub size_for_empty_write : Socket → ℕ
size_for_empty_write s = buf_max_size - length s.write_buf

-- How a call of Recv or Send stands when the answers given so far are used up.
pub data Outcome : Type 0 where
  socket_close finished running : Outcome

-- What one call of recv answered: bytes, 0, a transient error (EINTR, EAGAIN, EWOULDBLOCK) or another.
pub data Answer : Type 0 where
  bytes : List ℕ → Answer
  end_of_stream try_again failed : Answer

-- One successful round: the bytes join the buffer, the callback is run on it, and what it ate is moved
-- out. recv answers with 1 to `m_ReadBufMaxSize - m_CurReadBufSize` bytes.
unfoldable pub recv_round : Socket → List ℕ → Result (Socket × List (List ℕ))
recv_round s chunk =
    let filled = s.read_buf ++ chunk in
    if ltb buf_max_size (length filled)
    then err out_of_buffer
    else (read_packages filled >>= λ r.
        ok (record s { read_buf = drop r.offset filled }, r.packages))

-- Recv: the socket, the packages handed on, and how it stands.
pub record Received : Type 0 where
  pub socket : Socket
  pub packages : List (List ℕ)
  pub outcome : Outcome

abbrev prepend : List (List ℕ) → Received → Received
prepend ps r = record r { packages = ps ++ r.packages }

unfoldable pub recv : Socket → List Answer → Result Received
recv s [] = ok (record { socket = s; packages = []; outcome = running })
recv s (bytes chunk ∷ answers) = recv_round s chunk >>= λ (s', ps). elim s.is_non_block [
  | true ↦ recv s' answers >>= λ r. ok (prepend ps r)
  | false ↦ ok (record { socket = s'; packages = ps; outcome = finished })
]
recv s (end_of_stream ∷ answers) = ok (record { socket = s; packages = []; outcome = socket_close })
recv s (try_again ∷ answers) = ok (record { socket = s; packages = []; outcome = finished })
recv s (failed ∷ answers) = ok (record { socket = s; packages = []; outcome = socket_close })

-- What one call of send answered: the number of bytes taken, 0 being a closed connection.
pub data Taken : Type 0 where
  took : ℕ → Taken
  blocked broken : Taken

-- Send: the socket, the bytes that the kernel took, how it stands, and the argument of the write
-- callback if it is called.
pub record Sent : Type 0 where
  pub socket : Socket
  pub wire : List ℕ
  pub outcome : Outcome
  pub callback : Option Bool

abbrev pub same : Bool → Bool → Bool
same true b = b
same false b = not b

-- Behind the loop: `if (m_WriteDataCallback && m_IsWriteing != hasData)`.
unfoldable pub after_send : Socket → Bool → Sent
after_send s has_data =
    if same s.is_writing has_data
    then record { socket = s; wire = []; outcome = finished; callback = none }
    else record {
      socket = record s { is_writing = has_data };
      wire = [];
      outcome = finished;
      callback = some has_data;
    }

unfoldable pub send : Socket → List Taken → Result Sent
send s [] =
    if length s.write_buf == 0
    then ok (after_send s false)
    else ok (record { socket = s; wire = []; outcome = running; callback = none })
send s (took n ∷ answers) =
    let left : Socket = record s { write_buf = drop n s.write_buf } in
    let rest : Result Sent = elim s.is_non_block [
      | true ↦ send left answers
      | false ↦ ok (after_send left false)
    ] in
    let sent : Result Sent = rest >>= λ r. ok (record r { wire = take n s.write_buf ++ r.wire }) in
    if length s.write_buf == 0
    then ok (after_send s false)
    else (if n == 0
        then ok (record { socket = s; wire = []; outcome = socket_close; callback = none })
        else (if length s.write_buf == n
            then ok (record (after_send (record s { write_buf = [] }) false) { wire = s.write_buf })
            else (if ltb (length s.write_buf) n then err out_of_buffer else sent)))
send s (blocked ∷ answers) =
    if length s.write_buf == 0 then ok (after_send s false) else ok (after_send s true)
send s (broken ∷ answers) =
    if length s.write_buf == 0
    then ok (after_send s false)
    else ok (record { socket = s; wire = []; outcome = socket_close; callback = none })

-- Write: data that does not fit is dropped, and the result is the one of success.
unfoldable pub write : Socket → List ℕ → List Taken → Result Sent
write s data' answers =
    if ltb (buf_max_size - length s.write_buf) (length data')
    then ok (record { socket = s; wire = []; outcome = finished; callback = none })
    else send (record s { write_buf = s.write_buf ++ data' }) answers
