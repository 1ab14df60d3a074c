-- ===== src/Net/Control/Delivery.antt =====
-- SocketControl.cpp: from SendPackage through its task to the client that reads the stream.
use socket_message.Prelude.{
  ℕ, ◌+◌, ◌-◌, ◌≤◌, ◌<◌, ◌≡◌, refl, sym, ap, subst, ◌∙◌, none, some, List, [], ◌∷◌, ◌++◌, length,
  arith, inl, inr, ◌⊎◌, length-append,
}
use socket_message.Wire.Bytes.{le32, length-le32}
use socket_message.Net.Result.{ok, >>=-eq-ok, ok-injective}
use socket_message.Net.Framing.{frame, socket_head_size}
use socket_message.Net.ClientSocket.{
  buf_max_size, size_for_empty_write, Socket, Outcome, socket_close, finished, running, Taken, Sent,
  write,
}
use socket_message.Net.ClientSocket.Writing.{write_all_or_nothing}
use socket_message.Net.Control.{
  Client, Task, Control, get_client_socket, put_socket, close_and_delete, send_package, written,
  close_by, count_sent, after_write, send_task, run_first, run_task,
}

length-frame : (body : List ℕ) → length (frame body) ≡ length body + socket_head_size
unfolding frame
length-frame body =
    omega (arith, length-append (le32 (length body)) body, length-le32 (length body))

unfoldable pub queued : ℕ → List ℕ → Control → Control
queued cfd body c = record c {
  tasks = c.tasks ++ record { cfd = cfd; send_data = frame body } ∷ [];
}

send_package_absent :
    (cfd : ℕ) (body : List ℕ) (c : Control)
    → get_client_socket cfd c.clients ≡ none
    → send_package cfd body c ≡ none
unfolding send_package
send_package_absent cfd body c n = ground arith

send_package_at :
    (cfd : ℕ) (body : List ℕ) (s : Socket) (c d : Control)
    → get_client_socket cfd c.clients ≡ some s
    → send_package cfd body c ≡ some d
    → (length body + socket_head_size ≤ buf_max_size - length s.write_buf) × (d ≡ queued cfd body c)
unfolding send_package queued size_for_empty_write
send_package_at cfd body s c d n e = (ground arith, ground arith)

get_client_socket-put :
    (fd : ℕ) (s t : Socket) (cs : List Client)
    → get_client_socket fd cs ≡ some s
    → get_client_socket fd (put_socket fd t cs) ≡ some t
unfolding get_client_socket put_socket
get_client_socket-put fd s t [] h = cc
get_client_socket-put fd s t (c ∷ cs) h = ground (arith, get_client_socket-put fd s t cs)

-- What a task leaves, if Write ended with `r`.
abbrev pub Leaves : Task → Sent → Control → Control → Type 0
Leaves t r c e =
    (e.wire ≡ c.wire ++ record { cfd = t.cfd; bytes = r.wire } ∷ [])
    × (e.send_package_count ≡ c.send_package_count + 1)
    × (e.send_byte_count ≡ c.send_byte_count + length t.send_data)
    × ((r.outcome ≡ socket_close) ⊎ (get_client_socket t.cfd e.clients ≡ some r.socket))

close_and_delete-wire :
    (fd : ℕ) (c : Control)
    → ((close_and_delete fd c).wire ≡ c.wire)
      × ((close_and_delete fd c).send_package_count ≡ c.send_package_count)
      × ((close_and_delete fd c).send_byte_count ≡ c.send_byte_count)
unfolding close_and_delete
close_and_delete-wire fd c = (ground arith, ground arith, ground arith)

-- What closing keeps.
close_by-Leaves :
    (o : Outcome) (cfd : ℕ) (c : Control)
    → ((close_by o cfd c).wire ≡ c.wire)
      × ((close_by o cfd c).send_package_count ≡ c.send_package_count)
      × ((close_by o cfd c).send_byte_count ≡ c.send_byte_count)
      × ((o ≡ socket_close) ⊎ ((close_by o cfd c).clients ≡ c.clients))
unfolding close_by
close_by-Leaves socket_close cfd c =
    let (a, b, d) = close_and_delete-wire cfd c in (a, b, d, inl refl)
close_by-Leaves finished cfd c = (refl, refl, refl, inr refl)
close_by-Leaves running cfd c = (refl, refl, refl, inr refl)

after_write-Leaves :
    (t : Task) (s : Socket) (r : Sent) (c : Control)
    → get_client_socket t.cfd c.clients ≡ some s
    → Leaves t r c (after_write t r c)
unfolding after_write count_sent written
after_write-Leaves t s r c h =
    let (a, b, d, e) = close_by-Leaves r.outcome t.cfd (written t r c) in
    (
      a,
      ap (λ (n : ℕ). n + 1) b,
      ap (λ (n : ℕ). n + length t.send_data) d,
      elim e [
        | inl closed ↦ inl closed
        | inr same ↦
            inr (
              ap (get_client_socket t.cfd) same
              ∙ get_client_socket-put t.cfd s r.socket c.clients h)
      ],
    )

send_task-Leaves :
    (t : Task) (answers : List Taken) (s : Socket) (c e : Control)
    → get_client_socket t.cfd c.clients ≡ some s
    → send_task t answers (some s) c ≡ ok e
    → (r : Sent) × (write s t.send_data answers ≡ ok r) × Leaves t r c e
unfolding send_task
send_task-Leaves t answers s c e h q =
    let (r, w, x) = >>=-eq-ok (write s t.send_data answers) _ q in
    (r, w, subst (Leaves t r c) (ok-injective x) (after_write-Leaves t s r c h))

run_first-Leaves :
    (t : Task) (rest : List Task) (answers : List Taken) (s : Socket) (c e : Control)
    → get_client_socket t.cfd c.clients ≡ some s
    → run_first (t ∷ rest) answers c ≡ ok e
    → (r : Sent) × (write s t.send_data answers ≡ ok r) × Leaves t r c e
unfolding run_first
run_first-Leaves t rest answers s c e h q =
    send_task-Leaves t answers s (record c { tasks = rest }) e h
      (ap (λ o. send_task t answers o (record c { tasks = rest })) (sym h) ∙ q)

-- When a task of SendPackage has run for a client that is there, with its buffer within its capacity, its
-- Write ended with `r`: either there was room, and the bytes that the kernel took, before what is left
-- in the buffer, are the old buffer and then the package; or there was none, and the package is gone
-- without a trace in the socket. Both ways the package and its bytes are counted as sent. The client keeps its new buffer,
-- unless Write found the connection closed.
pub task_counts_dropped :
    (t : Task) (rest : List Task) (answers : List Taken) (s : Socket) (c e : Control)
    → c.tasks ≡ t ∷ rest
    → get_client_socket t.cfd c.clients ≡ some s
    → length s.write_buf ≤ buf_max_size
    → run_task answers c ≡ ok e
    → (r : Sent) × (write s t.send_data answers ≡ ok r)
      × Leaves t r c e
      × (((length s.write_buf + length t.send_data ≤ buf_max_size)
            × (r.wire ++ r.socket.write_buf ≡ s.write_buf ++ t.send_data))
          ⊎ ((buf_max_size < length s.write_buf + length t.send_data)
              × (r ≡ record { socket = s; wire = []; outcome = finished; callback = none })))
unfolding run_task
task_counts_dropped t rest answers s c e q h fits x =
    let (r, w, l) =
      run_first-Leaves t rest answers s c e h (ap (λ ts. run_first ts answers c) (sym q) ∙ x) in
    (
      r,
      w,
      l,
      elim (write_all_or_nothing s t.send_data answers r fits w) [
        | inl (room, kept, within) ↦ inl (room, kept)
        | inr none_left ↦ inr none_left
      ],
    )

queued-first :
    (cfd : ℕ) (body : List ℕ) (c : Control)
    → c.tasks ≡ []
    → (queued cfd body c).tasks ≡ record { cfd = cfd; send_data = frame body } ∷ []
unfolding queued
queued-first cfd body c e =
    ap (λ (ts : List Task). ts ++ record { cfd = cfd; send_data = frame body } ∷ []) e

-- A package that SendPackage accepted, and whose task is run next, is never dropped: its Write ends with
-- `r`, where the bytes that the kernel took, before what is left in the buffer, are the old buffer and
-- then the package behind its size. The client is there with its buffer within its capacity, and no other task is waiting.
pub accepted_is_written :
    (cfd : ℕ) (body : List ℕ) (answers : List Taken) (s : Socket) (c d e : Control)
    → c.tasks ≡ []
    → get_client_socket cfd c.clients ≡ some s
    → length s.write_buf ≤ buf_max_size
    → send_package cfd body c ≡ some d
    → run_task answers d ≡ ok e
    → (r : Sent) × (write s (frame body) answers ≡ ok r)
      × Leaves (record { cfd = cfd; send_data = frame body }) r d e
      × (r.wire ++ r.socket.write_buf ≡ s.write_buf ++ frame body)
unfolding queued
accepted_is_written cfd body answers s c d e q h fits a x =
    let (room, eq) = send_package_at cfd body s c d h a in
    let t : Task = record { cfd = cfd; send_data = frame body } in
    let (r, w, l, ways) =
      task_counts_dropped t [] answers s d e
        (ap (λ (y : Control). y.tasks) eq ∙ queued-first cfd body c q)
        (ap (λ (y : Control). get_client_socket cfd y.clients) eq ∙ h) fits x in
    (
      r,
      w,
      l,
      elim ways [
        | inl (le, kept) ↦ kept
        | inr (over, dropped) ↦ absurd (omega (arith, length-frame body))
      ],
    )
