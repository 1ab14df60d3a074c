-- ===== src/Net/Tasks.antt =====
-- SocketControl.cpp: the tasks that Epoll4EventCallback queues for a client, over the socket's buffers
-- and the kernel's set together. The flags of the client are those of `interest`.
use socket_message.Prelude.{
  ℕ, ◌+◌, ◌≤◌, ◌<◌, ◌≡◌, refl, Bool, true, false, not, Option, none, some, List, [], ◌∷◌, arith,
  length, ◌==◌, if◌then◌else◌,
}
use socket_message.Net.Result.{Result, ok, err, ◌>>=◌}
use socket_message.Net.ClientSocket.{
  Socket, Answer, Taken, Outcome, socket_close, finished, running, Received, recv, Sent, send,
}
use socket_message.Net.Interest
use socket_message.Net.Interest.{
  State, Events, del_client_read, del_client_write, del_client, add_client_read, add_client_write,
  client_write_callback, recv_task, send_task, event_callback, task_done,
}
pub mod Rearm

-- A connection, and whether ClientSocketCloseAndDelete has closed it.
pub record Connection : Type 0 where
  pub socket : Socket
  pub interest : State
  pub is_closed : Bool

-- EPollDelClient, in ClientSocketCloseAndDelete.
unfoldable pub close : Connection → Connection
close c = record c { interest = del_client c.interest; is_closed = true }

-- The call of Client4WriteCallback, if Send makes one.
unfoldable pub run_callback : State → Option Bool → State
run_callback s none = s
run_callback s (some has_data) = client_write_callback s has_data

-- A read event and its task: the packages that it handed on, too.
unfoldable pub read_event : Connection → List Answer → Result (Connection × List (List ℕ))
read_event c answers =
    let waiting = (event_callback c.interest true false).0 in
    recv c.socket answers >>= λ r.
    let after : Connection = record {
      socket = r.socket;
      interest = waiting;
      is_closed = c.is_closed;
    } in
    ok (elim r.outcome [
      | socket_close ↦ (close after, r.packages)
      | _ ↦ (record after { interest = task_done waiting recv_task }, r.packages)
    ])

-- A write event and its task. The write callback runs inside Send.
unfoldable pub write_event : Connection → List Taken → Result (Connection × List ℕ)
write_event c answers =
    let waiting = (event_callback c.interest false true).0 in
    send c.socket answers >>= λ r.
    let after : Connection = record {
      socket = r.socket;
      interest = run_callback waiting r.callback;
      is_closed = c.is_closed;
    } in
    ok (elim r.outcome [
      | socket_close ↦ (close after, r.wire)
      | _ ↦ (record after { interest = task_done after.interest send_task }, r.wire)
    ])
