-- ===== src/Net/Runs.antt =====
-- The socket layer at work, on short buffers and a few answers of the kernel.
use socket_message.Prelude.{
  ℕ, ◌≡◌, ◌++◌, refl, List, [], ◌∷◌, none, some, arith, length, map, concat, true, false,
  if◌then◌else◌, ◌==◌, ◌⊎◌, inl,
}
use socket_message.Wire.Bytes.{bytes_at, take_exactly, le32, of_le32, int_at}
use socket_message.Net.Result.{ok, err, bad_array_length, int_overflow}
use socket_message.Net.Framing.{package_at, frame, Packages, package_end, read_loop, read_packages}
use socket_message.Net.Framing.Sound.{read_packages_total}
use socket_message.Net.Framing.Complete.{read_packages-frames}
use socket_message.Net.ClientSocket.{
  Socket, Answer, bytes, try_again, finished, recv_round, Received, recv, took, blocked, Sent,
  after_send, send,
}
use socket_message.Net.ClientSocket.Reading.{frames, heard, IsReading, recv_stream}
use socket_message.Net.Interest.{State, Events, change, add_client_write}
use socket_message.Net.Interest.Agrees.{add_write, del_all, event, Agrees, apply_all, flags_agree}
use socket_message.Net.Tasks.{Connection, write_event}
use socket_message.Net.Tasks.Rearm.{write_event_rearms}

-- The package 65 66, framed, and the first byte of the next head.
abbrev stream : List ℕ
stream = 2 ∷ 0 ∷ 0 ∷ 0 ∷ 65 ∷ 66 ∷ 7 ∷ []

read_packages_total_example :
    ((r : Packages) × (read_packages stream ≡ ok r))
    ⊎ (read_packages stream ≡ err bad_array_length)
    ⊎ (read_packages stream ≡ err int_overflow)
read_packages_total_example = read_packages_total stream

read_packages-frames_example :
    read_packages (concat (map frame ((65 ∷ 66 ∷ []) ∷ [])) ++ (7 ∷ []))
    ≡ ok (record {
      packages = (65 ∷ 66 ∷ []) ∷ [];
      offset = length (concat (map frame ((65 ∷ 66 ∷ []) ∷ [])));
    })
unfolding frame le32
read_packages-frames_example =
    read_packages-frames ((65 ∷ 66 ∷ []) ∷ []) (7 ∷ []) (omega arith, tt) (omega arith)
      (inl (omega arith))

abbrev quiet : Socket
quiet = record {
  cfd = 4;
  is_non_block = true;
  read_buf = [];
  write_buf = [];
  is_writing = false;
  cfd_is_read = true;
  cfd_is_write = false;
}

quiet-IsReading : IsReading quiet
quiet-IsReading = record { are_bytes = tt; fits = omega arith; waits = inl (omega arith) }

-- The stream in two pieces, and then nothing.
abbrev pieces : List Answer
pieces = bytes (2 ∷ 0 ∷ 0 ∷ []) ∷ bytes (0 ∷ 65 ∷ 66 ∷ 7 ∷ []) ∷ try_again ∷ []

abbrev pieces_received : Received
pieces_received = record {
  socket = record quiet { read_buf = 7 ∷ [] };
  packages = (65 ∷ 66 ∷ []) ∷ [];
  outcome = finished;
}

pieces_lem : recv quiet pieces ≡ ok pieces_received
unfolding recv recv_round read_packages read_loop package_end package_at bytes_at take_exactly
    int_at of_le32
pieces_lem = refl

recv_stream_example :
    ([] ++ heard true pieces ≡ frames ([] ++ pieces_received.packages) ++ (7 ∷ []))
    × IsReading pieces_received.socket
    × (pieces_received.socket.write_buf ≡ [])
recv_stream_example =
    recv_stream [] [] quiet pieces pieces_received (omega arith) quiet-IsReading refl pieces_lem

abbrev full : Socket
full = record quiet { write_buf = 1 ∷ 2 ∷ 3 ∷ [] }

-- The kernel takes two bytes and then blocks.
abbrev two_taken : Sent
two_taken = record {
  socket = record full { write_buf = 3 ∷ []; is_writing = true };
  wire = 1 ∷ 2 ∷ [];
  outcome = finished;
  callback = some true;
}

two_taken_lem : send full (took 2 ∷ blocked ∷ []) ≡ ok two_taken
unfolding send after_send
two_taken_lem = refl

-- Descriptor 4, registered for reading.
abbrev reading : State
reading = record {
  epoll = λ k. if k == 4 then some (record { is_read = true; is_write = false }) else none;
  client = record { fd = 4; cfd_is_read = true; cfd_is_write = false };
}

flags_agree_example :
    Agrees (apply_all reading (event true false ∷ add_write ∷ del_all ∷ []))
    × ((apply_all reading (event true false ∷ add_write ∷ del_all ∷ [])).epoll 5 ≡ none)
flags_agree_example = flags_agree reading (event true false ∷ add_write ∷ del_all ∷ []) 5 refl refl

abbrev half_sent : Connection
half_sent = record { socket = full; interest = add_client_write reading; is_closed = false }

half_sent-Agrees : Agrees half_sent.interest
unfolding add_client_write change
half_sent-Agrees = refl

write_event_rearms_example :
    (d : Connection) × (write_event half_sent (took 2 ∷ blocked ∷ []) ≡ ok (d, two_taken.wire))
    × (d.socket ≡ two_taken.socket)
    × (d.interest.client.cfd_is_write ≡ true)
    × ((e : Events) × (d.interest.epoll d.interest.client.fd ≡ some e) × (e.is_write ≡ true))
write_event_rearms_example =
    write_event_rearms half_sent (took 2 ∷ blocked ∷ []) two_taken half_sent-Agrees two_taken_lem
      refl
