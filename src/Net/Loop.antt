-- ===== src/Net/Loop.antt =====
-- The threads around one client of SocketControl.cpp: EpollWork with EPoll.cpp's Wait, the read and write
-- tasks in the pool, and the write callbacks of Send, in every order. Each move is atomic: m_EPollMutex
-- is held over it, or one thread alone makes it.
use socket_message.Prelude.{
  ℕ, ◌+◌, ◌-◌, ◌≡◌, Bool, true, false, not, ◌&&◌, ◌||◌, Option, none, some, List, [], ◌∷◌, ◌>>=◌,
  ◌==◌, if◌then◌else◌,
}
use socket_message.Net.Interest.{
  Epoll, Events, State, Client, Task, recv_task, send_task, no_task, add_client_read,
  client_write_callback, event_callback, task_done,
}
pub mod Reads
mod Runs

-- `reported` is the client's entry of m_pEvents that Wait has not handed on yet; `receiving` and `sending`
-- are the tasks of the client that are queued or under way.
pub record Watch : Type 0 where
  pub interest : State
  pub reported : Option Events
  pub receiving : ℕ
  pub sending : ℕ

-- EPollAddClientRead on a new ClientSocket.
unfoldable pub new_watch : Epoll → ℕ → Watch
new_watch ep fd = record {
  interest = add_client_read (record {
    epoll = ep;
    client = record { fd = fd; cfd_is_read = false; cfd_is_write = false };
  });
  reported = none;
  receiving = 0;
  sending = 0;
}

-- What epoll_wait may report: of the events that it waits for, and neither where there is only an error.
unfoldable pub may_report : Option Events → Events → Bool
may_report none r = false
may_report (some e) r = (not r.is_read || e.is_read) && (not r.is_write || e.is_write)

-- `epoll_wait` puts the client's event into m_pEvents, when the events of the last call are handed on.
unfoldable pub wait_report : Option Events → Events → Watch → Option Watch
wait_report (some old) r w = none
wait_report none r w =
    if may_report (w.interest.epoll w.interest.client.fd) r
    then some (record w { reported = some r })
    else none

-- AddTask, by the task of the event.
unfoldable pub queue_task : Task → Watch → Watch
queue_task recv_task w = record w { receiving = w.receiving + 1 }
queue_task send_task w = record w { sending = w.sending + 1 }
queue_task no_task w = w

-- m_EventCallback with the entry.
unfoldable pub handle_report : Option Events → Watch → Option Watch
handle_report none w = none
handle_report (some r) w =
    let called = event_callback w.interest r.is_read r.is_write in
    some (queue_task called.1 (record w { interest = called.0; reported = none }))

-- The end of a read task whose Recv did not find the connection closed.
unfoldable pub end_recv : Watch → Option Watch
end_recv w =
    if w.receiving == 0
    then none
    else some (record w { interest = task_done w.interest recv_task; receiving = w.receiving - 1 })

unfoldable pub end_send : Watch → Option Watch
end_send w =
    if w.sending == 0
    then none
    else some (record w { interest = task_done w.interest send_task; sending = w.sending - 1 })

-- The moves of the epoll thread, the ends of the tasks, and the write callback, which a write task makes and
-- the task of SendPackage, which may run at any time.
pub data Move : Type 0 where
  wait_move : Events → Move
  handle_move recv_move send_move : Move
  callback_move : Bool → Move

unfoldable pub move : Move → Watch → Option Watch
move (wait_move r) w = wait_report w.reported r w
move handle_move w = handle_report w.reported w
move recv_move w = end_recv w
move send_move w = end_send w
move (callback_move has_data) w =
    some (record w { interest = client_write_callback w.interest has_data })

-- Moves until the connection is closed.
unfoldable pub run_moves : List Move → Watch → Option Watch
run_moves [] w = some w
run_moves (m ∷ ms) w = do next ← move m w; run_moves ms next
