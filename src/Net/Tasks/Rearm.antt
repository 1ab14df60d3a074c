-- ===== src/Net/Tasks/Rearm.antt =====
-- SocketControl.cpp: what a write event leaves the kernel waiting for.
use socket_message.Prelude.{◌≡◌, refl, Bool, true, false, Option, none, some, List, arith}
use socket_message.Net.Result.{ok}
use socket_message.Net.ClientSocket.{Taken, finished, Sent, send}
use socket_message.Net.Interest.{
  State, Events, add_client_write, send_task, event_callback, task_done,
}
use socket_message.Net.Interest.Agrees.{
  Agrees, event_callback-Agrees, callback-Agrees, add_write-Agrees,
}
use socket_message.Net.Tasks.{Connection, run_callback, write_event}

add_client_write-flag : (s : State) → (add_client_write s).client.cfd_is_write ≡ true
unfolding add_client_write
add_client_write-flag s = ground arith

-- The state in which a write event leaves the connection when Send returns 0.
rearmed : Connection → Sent → Connection
rearmed c r = record {
  socket = r.socket;
  interest = task_done (run_callback (event_callback c.interest false true).0 r.callback) send_task;
  is_closed = c.is_closed;
}

write_event_lem :
    (c : Connection) (answers : List Taken) (r : Sent)
    → send c.socket answers ≡ ok r
    → r.outcome ≡ finished
    → write_event c answers ≡ ok (rearmed c r, r.wire)
unfolding write_event rearmed
write_event_lem c answers r e o = rw (e, o)

run_callback-Agrees : (s : State) (b : Option Bool) → Agrees s → Agrees (run_callback s b)
unfolding run_callback
run_callback-Agrees s none h = h
run_callback-Agrees s (some b) h = callback-Agrees s b h

waits_to_write :
    (s : State)
    → Agrees s
    → s.client.cfd_is_write ≡ true
    → (e : Events) × (s.epoll s.client.fd ≡ some e) × (e.is_write ≡ true)
waits_to_write s h w =
    (record { is_read = s.client.cfd_is_read; is_write = true }, ground arith, refl)

-- A write event whose Send returns 0 always ends with the kernel waiting to write on the descriptor,
-- whether data is left or not: the task adds the write event again behind the callback of Send, which
-- took it off when the buffer emptied. The kernel agreed with the flags before.
pub write_event_rearms :
    (c : Connection) (answers : List Taken) (r : Sent)
    → Agrees c.interest
    → send c.socket answers ≡ ok r
    → r.outcome ≡ finished
    → (d : Connection) × (write_event c answers ≡ ok (d, r.wire))
      × (d.socket ≡ r.socket)
      × (d.interest.client.cfd_is_write ≡ true)
      × ((e : Events) × (d.interest.epoll d.interest.client.fd ≡ some e) × (e.is_write ≡ true))
unfolding rearmed task_done
write_event_rearms c answers r h e o = (
  rearmed c r,
  write_event_lem c answers r e o,
  refl,
  add_client_write-flag before,
  waits_to_write (add_client_write before)
      (add_write-Agrees before
        (run_callback-Agrees _ r.callback (event_callback-Agrees c.interest false true h)))
      (add_client_write-flag before),
)
  where
    before : State
    before = run_callback (event_callback c.interest false true).0 r.callback
