-- ===== src/Client/Runs.antt =====
-- The client's sockets at work: a connection, a package and a round in which it closes.
use socket_message.Prelude.{
  ℕ, ◌+◌, ◌<◌, ◌≡◌, ◌⊎◌, ◌↔◌, refl, true, false, none, some, List, [], ◌∷◌, arith, length, subst,
  not, ◌==◌,
}
use socket_message.Wire.Bytes.{le32}
use socket_message.Net.Result.{Result, ok, err}
use socket_message.Net.ClientSocket.{
  Socket, buf_max_size, end_of_stream, Taken, took, blocked, broken, send, write, after_send,
  new_socket, size_for_empty_write,
}
use socket_message.Net.Framing.{frame}
use socket_message.Client.Connect.{
  Kernel, Answered, connect, set_non_block, new_descriptor, new_client_socket, create_socket,
  open_socket, connect_socket, set_non_block_operation, set_flags_of, connect_result,
  connect_answers,
}
use socket_message.Client.Select.{
  Select, ready, Answers, Wait, Handed, prepare, fill_sets, fd_set, work, add, insert_socket, start,
  is_close, write_callback, socket_at, get_client_socket, new_select, set_timeout, limit_of,
}
use socket_message.Client.Control.Unwatched.{has, unsent_not_watched}
use socket_message.Client.Control.{
  SendResult, new_control, connect_server_socket, connected, send_package, send_to, after_write,
  put_socket,
}
use socket_message.Client.Control.Sending.{Refused, Kept, Closed, package_or_nothing}
use socket_message.Client.Control.Watched.{
  Reach, begin, next, connects, sends, IsGood, Reach-IsGood,
}

-- A server that takes the connection within the limit.
abbrev kernel : Kernel
kernel = record {
  socket = some 5;
  get_flags = λ b. true;
  set_flags = λ b. true;
  connected = false;
  select = λ limit. 1;
}

connect_answers_example :
    (((connect kernel 1000 (set_non_block kernel true new_descriptor).1).0 ≡ true)
      ↔ Answered kernel 1000)
    × ((connect kernel 1000 (set_non_block kernel true new_descriptor).1).1
        ≡ record { cfd = some 5; is_non_block = true; fd_non_block = true })
connect_answers_example = connect_answers kernel 1000 5 true refl (λ b. refl) (λ b. refl)

abbrev idle_5 : Socket
idle_5 = record {
  cfd = 5;
  is_non_block = true;
  read_buf = [];
  write_buf = [];
  is_writing = false;
  cfd_is_read = true;
  cfd_is_write = false;
}

abbrev connected_5 : Select
connected_5 = record { sockets = idle_5 ∷ []; timeout = 100; is_started = true; closed = [] }

connected_lem : (connect_server_socket kernel new_control).1 ≡ connected_5
unfolding connect_server_socket connected connect create_socket open_socket set_non_block
    new_descriptor set_non_block_operation set_flags_of connect_socket connect_result start add
    insert_socket new_control set_timeout new_select new_client_socket new_socket
connected_lem = refl

abbrev prepared_5 : Select
prepared_5 = record connected_5 { timeout = 4294967295 }

abbrev waiting_5 : Wait
waiting_5 = record { read_set = 5 ∷ []; write_set = []; nfds = 6; limit = none }

prepared_lem : prepare connected_5 ≡ ok (waiting_5, prepared_5)
unfolding prepare fill_sets fd_set limit_of
prepared_lem = refl

-- A package of two bytes; the kernel takes two of the six with its size.
abbrev body : List ℕ
body = 104 ∷ 105 ∷ []

abbrev two_taken : List Taken
two_taken = took 2 ∷ blocked ∷ []

abbrev nothing_sent : SendResult
nothing_sent = record { result = false; select = connected_5; wire = [] }

abbrev sent_result : Result SendResult → SendResult
sent_result r = elim r [ ok x ↦ x | err e ↦ nothing_sent ]

abbrev body_sent : SendResult
body_sent = sent_result (send_package 5 body two_taken connected_5)

body_sent_lem : send_package 5 body two_taken connected_5 ≡ ok body_sent
unfolding send_package send_to get_client_socket socket_at size_for_empty_write write send
    after_send after_write is_close write_callback put_socket frame le32
body_sent_lem = refl

package_or_nothing_example :
    ((get_client_socket 5 connected_5 ≡ none) × Refused connected_5 body_sent)
    ⊎ ((s : Socket) × (get_client_socket 5 connected_5 ≡ some s)
        × (s.cfd ≡ 5)
        × (((buf_max_size < length s.write_buf + (length body + 4)) × Refused connected_5 body_sent)
            ⊎ (Kept body two_taken s connected_5 body_sent
                ⊎ Closed 5 body two_taken s connected_5 body_sent)))
package_or_nothing_example =
    package_or_nothing 5 body two_taken connected_5 body_sent
      (record { mode = refl; told = refl; left = refl; fits = omega arith }, tt) body_sent_lem

reached_5 : Reach body_sent.select
reached_5 =
    next (subst Reach connected_lem (next begin (connects kernel)))
      (sends 5 body two_taken body_sent_lem)

Reach-IsGood_example : IsGood body_sent.select
Reach-IsGood_example = Reach-IsGood reached_5

-- A round in which both calls find the connection closed.
abbrev both_close : ℕ → Answers
both_close fd = record {
  can_read = true;
  can_write = true;
  received = end_of_stream ∷ [];
  taken = broken ∷ [];
}

abbrev round_result : Result (Select × List Handed) → Select × List Handed
round_result r = elim r [ ok x ↦ x | err e ↦ (connected_5, []) ]

abbrev round_done : Select × List Handed
round_done = round_result (work (ready both_close) body_sent.select)

-- The package of two bytes, sent while the thread waits.
abbrev late_sent : SendResult
late_sent = sent_result (send_package 5 body two_taken prepared_5)

late_sent_lem : send_package 5 body two_taken prepared_5 ≡ ok late_sent
unfolding send_package send_to get_client_socket socket_at size_for_empty_write write send
    after_send after_write is_close write_callback put_socket frame le32
late_sent_lem = refl

late_taken : late_sent.result ≡ true
unfolding send_package send_to get_client_socket socket_at size_for_empty_write write send
    after_send after_write is_close write_callback put_socket frame le32
late_taken = refl

quiet_5 : get_client_socket 5 prepared_5 ≡ some idle_5
unfolding get_client_socket socket_at
quiet_5 = refl

unsent_not_watched_example :
    (t : Socket) × (get_client_socket 5 late_sent.select ≡ some t)
    × (t.cfd_is_write ≡ not (length t.write_buf == 0))
    × (has 5 waiting_5.write_set ≡ false)
    × (waiting_5.limit ≡ none)
unsent_not_watched_example =
    unsent_not_watched connected_5 prepared_5 waiting_5 5 body two_taken idle_5 late_sent
      prepared_lem (tt, tt)
      (record { mode = refl; told = refl; left = refl; fits = omega arith }, tt) quiet_5 refl
      late_sent_lem late_taken
