-- ===== src/Net/Loop/Reads.antt =====
-- The read tasks of a client among all moves of the threads.
use socket_message.Prelude.{
  ℕ, ◌+◌, ◌-◌, ◌≡◌, refl, sym, ap, subst, ◌∙◌, Bool, true, false, not, ◌&&◌, Option, none, some,
  List, [], ◌∷◌, ◌==◌, if◌then◌else◌, arith, some-injective, >>=-eq-some, Bool-cases, inl, inr,
}
use socket_message.Net.Interest.{
  Epoll, Events, State, Client, Task, recv_task, send_task, no_task, add_client_read,
  add_client_write, del_client_read, del_client_write, client_write_callback, event_callback,
  task_done,
}
use socket_message.Net.Interest.Agrees.{
  Agrees, wanted, event_callback-Agrees, callback-Agrees, add_write-Agrees, add_read-Agrees,
}
use socket_message.Net.Loop.{
  Watch, new_watch, may_report, wait_report, queue_task, handle_report, end_recv, end_send, Move,
  wait_move, handle_move, recv_move, send_move, callback_move, move, run_moves,
}

-- An event that is reported as readable is still waited for.
unfoldable pub IsDue : Option Events → Bool → Type 0
IsDue none reads = true ≡ true
IsDue (some r) reads = r.is_read && not reads ≡ false

-- The kernel waits for what the flags say, and to read exactly while there is no read task.
pub record IsSingle (w : Watch) : Type 0 where
  pub agrees : Agrees w.interest
  pub one : w.receiving ≡ (if w.interest.client.cfd_is_read then 0 else 1)
  pub due : IsDue w.reported w.interest.client.cfd_is_read

masks_read :
    (s : State) (r w : Bool)
    → (event_callback s r w).0.client.cfd_is_read ≡ (if r then false else s.client.cfd_is_read)
unfolding event_callback del_client_read del_client_write
masks_read s r w = ground arith

callback-read :
    (s : State) (b : Bool) → (client_write_callback s b).client.cfd_is_read ≡ s.client.cfd_is_read
unfolding client_write_callback add_client_write del_client_write
callback-read s b = ground arith

add_write-read : (s : State) → (add_client_write s).client.cfd_is_read ≡ s.client.cfd_is_read
unfolding add_client_write
add_write-read s = ground arith

add_read-read : (s : State) → (add_client_read s).client.cfd_is_read ≡ true
unfolding add_client_read
add_read-read s = ground arith

report_due :
    (c : Client) (r : Events)
    → may_report (wanted c) r ≡ true
    → r.is_read && not c.cfd_is_read ≡ false
unfolding may_report
report_due c r h = ground arith

IsDue-true : (o : Option Events) → IsDue o true
unfolding IsDue
IsDue-true none = refl
IsDue-true (some r) = ground arith

wait-IsSingle :
    (o : Option Events) (r : Events) (w t : Watch)
    → IsSingle w
    → wait_report o r w ≡ some t
    → IsSingle t
unfolding wait_report IsDue
wait-IsSingle (some old) r w t g h = cc
wait-IsSingle none r w t g h =
    elim (Bool-cases (may_report (w.interest.epoll w.interest.client.fd) r)) [
      | inl may ↦ subst IsSingle (some-injective _ _ (rw may at h)) (record {
        agrees = g.agrees;
        one = g.one;
        due = report_due w.interest.client r (ap (λ e. may_report e r) (sym g.agrees) ∙ may);
      })
      | inr not_may ↦ cc (rw not_may at h)
    ]

queue_task-kept :
    (t : Task) (w : Watch)
    → ((queue_task t w).interest ≡ w.interest) × ((queue_task t w).reported ≡ w.reported)
unfolding queue_task
queue_task-kept recv_task w = (refl, refl)
queue_task-kept send_task w = (refl, refl)
queue_task-kept no_task w = (refl, refl)

queued_receiving :
    (s : State) (r w : Bool) (v : Watch)
    → (queue_task (event_callback s r w).1 v).receiving
      ≡ (if r then v.receiving + 1 else v.receiving)
unfolding event_callback queue_task
queued_receiving s true w v = refl
queued_receiving s false true v = refl
queued_receiving s false false v = refl

handle-IsSingle :
    (o : Option Events) (w t : Watch)
    → IsDue o w.interest.client.cfd_is_read
    → IsSingle w
    → handle_report o w ≡ some t
    → IsSingle t
unfolding handle_report IsDue
handle-IsSingle none w t d g h = cc
handle-IsSingle (some r) w t d g h =
    let called = event_callback w.interest r.is_read r.is_write in
    let v : Watch = record w { interest = called.0; reported = none } in
    let (same, gone) = queue_task-kept called.1 v in
    subst IsSingle (some-injective _ _ h) (record {
      agrees =
          subst Agrees (sym same) (event_callback-Agrees w.interest r.is_read r.is_write g.agrees);
      one =
          queued_receiving w.interest r.is_read r.is_write v
          ∙ counts r.is_read w.interest.client.cfd_is_read w.receiving g.one d
          ∙ ap (λ b. if b then 0 else 1) (sym (masks_read w.interest r.is_read r.is_write))
          ∙ ap (λ (s : State). if s.client.cfd_is_read then 0 else 1) (sym same);
      due =
          subst (λ o'. IsDue o' (queue_task called.1 v).interest.client.cfd_is_read) (sym gone)
            refl;
    })
  where
    counts :
        (r reads : Bool) (n : ℕ)
        → n ≡ (if reads then 0 else 1)
        → r && not reads ≡ false
        → (if r then n + 1 else n) ≡ (if (if r then false else reads) then 0 else 1)
    counts true true n e d = omega arith
    counts true false n e d = cc
    counts false reads n e d = e

recv-IsSingle : (w t : Watch) → IsSingle w → end_recv w ≡ some t → IsSingle t
unfolding end_recv task_done
recv-IsSingle w t g h = elim (Bool-cases (w.receiving == 0)) [
  | inl z ↦ cc (rw z at h)
  | inr pos ↦
      let reads = add_read-read w.interest in
      subst IsSingle (some-injective _ _ (rw pos at h)) (record {
        agrees = add_read-Agrees w.interest g.agrees;
        one =
            last w.interest.client.cfd_is_read w.receiving g.one
            ∙ ap (λ b. if b then 0 else 1) (sym reads);
        due = subst (IsDue w.reported) (sym reads) (IsDue-true w.reported);
      })
]
  where
    last : (b : Bool) (n : ℕ) → n ≡ (if b then 0 else 1) → n - 1 ≡ 0
    last true n e = omega arith
    last false n e = omega arith

-- A change that leaves the read flag, the tasks and the report.
same-IsSingle :
    (s : State) (n : ℕ) (w : Watch)
    → Agrees s
    → s.client.cfd_is_read ≡ w.interest.client.cfd_is_read
    → IsSingle w
    → IsSingle (record w { interest = s; sending = n })
same-IsSingle s n w a e g = record {
  agrees = a;
  one = g.one ∙ ap (λ b. if b then 0 else 1) (sym e);
  due = subst (IsDue w.reported) (sym e) g.due;
}

send-IsSingle : (w t : Watch) → IsSingle w → end_send w ≡ some t → IsSingle t
unfolding end_send task_done
send-IsSingle w t g h = elim (Bool-cases (w.sending == 0)) [
  | inl z ↦ cc (rw z at h)
  | inr pos ↦ subst IsSingle (some-injective _ _ (rw pos at h)) (
      same-IsSingle (add_client_write w.interest) (w.sending - 1) w
        (add_write-Agrees w.interest g.agrees) (add_write-read w.interest) g)
]

move-IsSingle : (m : Move) (w t : Watch) → IsSingle w → move m w ≡ some t → IsSingle t
unfolding move
move-IsSingle (wait_move r) w t g h = wait-IsSingle w.reported r w t g h
move-IsSingle handle_move w t g h = handle-IsSingle w.reported w t g.due g h
move-IsSingle recv_move w t g h = recv-IsSingle w t g h
move-IsSingle send_move w t g h = send-IsSingle w t g h
move-IsSingle (callback_move b) w t g h = subst IsSingle (some-injective _ _ h) (
    same-IsSingle (client_write_callback w.interest b) w.sending w
      (callback-Agrees w.interest b g.agrees) (callback-read w.interest b) g)

run-IsSingle : (ms : List Move) (w t : Watch) → IsSingle w → run_moves ms w ≡ some t → IsSingle t
unfolding run_moves
run-IsSingle [] w t g h = subst IsSingle (some-injective _ _ h) g
run-IsSingle (m ∷ ms) w t g h =
    let (v, first, rest) = >>=-eq-some (move m w) _ h in
    run-IsSingle ms v t (move-IsSingle m w v g first) rest

-- Whatever the order in which the epoll thread, the tasks of a new client and the write callbacks move,
-- until the connection is closed, the client has at most one read task, queued or under way, and the
-- kernel waits to read from it exactly while it has none, beside waiting to write as the other flag says.
pub one_reader :
    (ep : Epoll) (fd : ℕ) (ms : List Move) (t : Watch)
    → ep fd ≡ none
    → run_moves ms (new_watch ep fd) ≡ some t
    → (t.interest.epoll t.interest.client.fd ≡ wanted t.interest.client)
      × (t.receiving ≡ (if t.interest.client.cfd_is_read then 0 else 1))
unfolding new_watch IsDue
one_reader ep fd ms t e h =
    let g : IsSingle t = run-IsSingle ms (new_watch ep fd) t start h in (g.agrees, g.one)
  where
    fresh : State
    fresh = record {
      epoll = ep;
      client = record { fd = fd; cfd_is_read = false; cfd_is_write = false };
    }

    start : IsSingle (new_watch ep fd)
    start = record {
      agrees = add_read-Agrees fresh e;
      one = ap (λ b. if b then 0 else 1) (sym (add_read-read fresh));
      due = refl;
    }
