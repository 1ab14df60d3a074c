-- ===== src/Net/ClientSocket/Writing.antt =====
-- ClientSocket::Write and Send: what is written reaches the kernel in order, once.
use socket_message.Prelude.{
  ℕ, ◌+◌, ◌-◌, ◌≤◌, ◌<◌, ◌≡◌, ◌≢◌, refl, sym, ap, subst, ◌∙◌, Bool, true, false, not, none, some,
  List, [], ◌∷◌, ◌++◌, ◌⊎◌, inl, inr, arith, ltb, ◌==◌, if◌then◌else◌, length, take, drop,
  length-append, append_assoc, append-nil, Bool-cases, take-append-drop, ltb→le, ltb→lt, lt→ltb,
  le→ltb, tests,
}
use socket_message.Net.Result.{ok, ok-injective, Result-cases}
use socket_message.Net.ClientSocket.{
  buf_max_size, Socket, Outcome, running, finished, socket_close, Taken, took, blocked, broken,
  Sent, same, after_send, send, write,
}

-- What Send promises from a socket on: the bytes that the kernel took and the buffer are the old
-- buffer; the write callback is called exactly when `m_IsWriteing` changes, with its new value; and a
-- non-blocking Send that returns 0 leaves `m_IsWriteing` telling whether data is left.
pub record IsSent (s : Socket) (r : Sent) : Type 0 where
  pub stream : r.wire ++ r.socket.write_buf ≡ s.write_buf
  pub reads : r.socket.read_buf ≡ s.read_buf
  pub mode : r.socket.is_non_block ≡ s.is_non_block
  pub callback :
      r.callback
      ≡ (if same s.is_writing r.socket.is_writing then none else some r.socket.is_writing)
  pub flag :
      r.outcome ≡ finished
      → s.is_non_block ≡ true
      → r.socket.is_writing ≡ not (length r.socket.write_buf == 0)

same_refl : (b : Bool) → same b b ≡ true
same_refl true = refl
same_refl false = refl

same→eq : (a b : Bool) → same a b ≡ true → a ≡ b
same→eq true b h = sym h
same→eq false true h = cc
same→eq false false h = refl

-- Leaving the loop with `hasData` as the buffer has it.
after_send-IsSent :
    (s : Socket) (b : Bool)
    → (s.is_non_block ≡ true → b ≡ not (length s.write_buf == 0))
    → IsSent s (after_send s b)
unfolding after_send
after_send-IsSent s b h = elim (Bool-cases (same s.is_writing b)) [
  | inl e ↦ rw e (record {
    stream = refl;
    reads = refl;
    mode = refl;
    callback = rw (same_refl s.is_writing);
    flag = λ _ m. same→eq s.is_writing b e ∙ h m;
  })
  | inr e ↦
      rw e (record { stream = refl; reads = refl; mode = refl; callback = rw e; flag = λ _ m. h m })
]

-- Leaving the loop by `return`, or not at all: nothing has changed.
unchanged-IsSent :
    (s : Socket) (o : Outcome)
    → o ≢ finished
    → IsSent s (record { socket = s; wire = []; outcome = o; callback = none })
unchanged-IsSent s o h = record {
  stream = refl;
  reads = refl;
  mode = refl;
  callback = rw (same_refl s.is_writing);
  flag = λ e _. absurd (h e);
}

-- A partial send before the rest of the loop.
took-IsSent :
    (s : Socket) (n : ℕ) (q : Sent)
    → IsSent (record s { write_buf = drop n s.write_buf }) q
    → IsSent s (record q { wire = take n s.write_buf ++ q.wire })
took-IsSent s n q v = record {
  stream =
      append_assoc (take n s.write_buf) q.wire q.socket.write_buf
      ∙ ap (◌++◌ (take n s.write_buf)) v.stream
      ∙ take-append-drop n s.write_buf;
  reads = v.reads;
  mode = v.mode;
  callback = v.callback;
  flag = v.flag;
}

after_send-write_buf : (s : Socket) (b : Bool) → (after_send s b).socket.write_buf ≡ s.write_buf
unfolding after_send
after_send-write_buf s b = ground arith

-- The kernel took the whole buffer.
whole-IsSent :
    (s : Socket)
    → IsSent s (record (after_send (record s { write_buf = [] }) false) { wire = s.write_buf })
whole-IsSent s =
    let emptied : Socket = record s { write_buf = [] } in
    let v = after_send-IsSent emptied false (λ _. refl) in
    record {
      stream = ap (◌++◌ s.write_buf) (after_send-write_buf emptied false) ∙ append-nil s.write_buf;
      reads = v.reads;
      mode = v.mode;
      callback = v.callback;
      flag = v.flag;
    }

empty_buf : (s : Socket) → (length s.write_buf == 0) ≡ true → false ≡ not (length s.write_buf == 0)
empty_buf s e = rw e

send-IsSent : (s : Socket) (answers : List Taken) (r : Sent) → send s answers ≡ ok r → IsSent s r
unfolding send
send-IsSent s [] r e = elim (Bool-cases (length s.write_buf == 0)) [
  | inl z ↦
      subst (IsSent s) (ok-injective (rw z at e)) (after_send-IsSent s false (λ _. empty_buf s z))
  | inr nz ↦ subst (IsSent s) (ok-injective (rw nz at e)) (unchanged-IsSent s running (λ q. cc))
]
send-IsSent s (blocked ∷ answers) r e = elim (Bool-cases (length s.write_buf == 0)) [
  | inl z ↦
      subst (IsSent s) (ok-injective (rw z at e)) (after_send-IsSent s false (λ _. empty_buf s z))
  | inr nz ↦ subst (IsSent s) (ok-injective (rw nz at e)) (after_send-IsSent s true (λ _. rw nz))
]
send-IsSent s (broken ∷ answers) r e = elim (Bool-cases (length s.write_buf == 0)) [
  | inl z ↦
      subst (IsSent s) (ok-injective (rw z at e)) (after_send-IsSent s false (λ _. empty_buf s z))
  | inr nz ↦
      subst (IsSent s) (ok-injective (rw nz at e)) (unchanged-IsSent s socket_close (λ q. cc))
]
send-IsSent s (took n ∷ answers) r e = elim (Bool-cases (length s.write_buf == 0)) [
  | inl z ↦
      subst (IsSent s) (ok-injective (rw z at e)) (after_send-IsSent s false (λ _. empty_buf s z))
  | inr nz ↦ elim (Bool-cases (n == 0)) [
    | inl c ↦
        subst (IsSent s) (ok-injective (rw (nz, c) at e))
          (unchanged-IsSent s socket_close (λ q. cc))
    | inr nc ↦ elim (Bool-cases (length s.write_buf == n)) [
      | inl whole ↦ subst (IsSent s) (ok-injective (rw (nz, nc, whole) at e)) (whole-IsSent s)
      | inr part ↦ elim (Bool-cases (ltb (length s.write_buf) n)) [
        | inl over ↦ cc (rw (nz, nc, part, over) at e)
        | inr fits ↦ elim (Bool-cases s.is_non_block) [
          | inr m ↦
              subst (IsSent s) (ok-injective (rw (nz, nc, part, fits, m) at e))
                (took-IsSent s n _ (after_send-IsSent _ false (λ t. cc)))
          | inl m ↦
              elim (Result-cases (send (record s { write_buf = drop n s.write_buf }) answers)) [
                | inr (x, eq) ↦ cc (rw (nz, nc, part, fits, m, eq) at e)
                | inl (q, eq) ↦
                    subst (IsSent s) (ok-injective (rw (nz, nc, part, fits, m, eq) at e))
                      (took-IsSent s n q (send-IsSent _ answers q eq))
              ]
        ]
      ]
    ]
  ]
]

-- A call of Send that returns or is still running: the bytes that the kernel took, before what is left
-- in the buffer, are what the buffer held, so nothing is lost, doubled or reordered; the read buffer
-- is left alone; and the write callback is called exactly when `m_IsWriteing` changes, with its new
-- value.
pub send_stream :
    (s : Socket) (answers : List Taken) (r : Sent)
    → send s answers ≡ ok r
    → (r.wire ++ r.socket.write_buf ≡ s.write_buf)
      × (r.socket.read_buf ≡ s.read_buf)
      × (r.callback
          ≡ (if same s.is_writing r.socket.is_writing then none else some r.socket.is_writing))
send_stream s answers r e = let v = send-IsSent s answers r e in (v.stream, v.reads, v.callback)

-- When Send returns 0 on a non-blocking socket, `m_IsWriteing` tells whether data is left in the
-- buffer.
pub send_tells_left :
    (s : Socket) (answers : List Taken) (r : Sent)
    → send s answers ≡ ok r
    → r.outcome ≡ finished
    → s.is_non_block ≡ true
    → r.socket.is_writing ≡ not (length r.socket.write_buf == 0)
send_tells_left s answers r e o b = (send-IsSent s answers r e).flag o b

write_kept :
    (s : Socket) (more : List ℕ) (answers : List Taken) (r : Sent)
    → length s.write_buf + length more ≤ buf_max_size
    → length s.write_buf ≤ buf_max_size
    → write s more answers ≡ ok r
    → r.wire ++ r.socket.write_buf ≡ s.write_buf ++ more
unfolding write
write_kept s more answers r fits within e =
    (send-IsSent (record s { write_buf = s.write_buf ++ more }) answers r
      (rw (le→ltb (buf_max_size - length s.write_buf) (length more) (omega arith)) at e)).stream

-- Write keeps all of its data or none. Where the data fits behind what is buffered, the bytes that the
-- kernel took and the buffer are the old buffer and then the data; where it does not fit, nothing
-- changes, no byte is sent, and the call returns 0 like a successful one. The buffer starts and stays
-- within its capacity.
pub write_all_or_nothing :
    (s : Socket) (more : List ℕ) (answers : List Taken) (r : Sent)
    → length s.write_buf ≤ buf_max_size
    → write s more answers ≡ ok r
    → ((length s.write_buf + length more ≤ buf_max_size)
        × (r.wire ++ r.socket.write_buf ≡ s.write_buf ++ more)
        × (length r.socket.write_buf ≤ buf_max_size))
      ⊎ ((buf_max_size < length s.write_buf + length more)
          × (r ≡ record { socket = s; wire = []; outcome = finished; callback = none }))
write_all_or_nothing s more answers r within e =
    elim (Bool-cases (ltb buf_max_size (length s.write_buf + length more))) [
      | inl over ↦ inr (
        ltb→lt _ _ over,
        sym (
            ok-injective (
              unfold write in
              rw (lt→ltb (buf_max_size - length s.write_buf) (length more) (omega tests)) at e)),
      )
      | inr fits ↦
          let kept = write_kept s more answers r (ltb→le _ _ fits) within e in
          inl (
            ltb→le _ _ fits,
            kept,
            omega (
              tests,
              ap length kept,
              length-append r.wire r.socket.write_buf,
              length-append s.write_buf more,
            ),
          )
    ]
