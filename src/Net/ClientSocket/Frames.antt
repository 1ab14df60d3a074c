-- ===== src/Net/ClientSocket/Frames.antt =====
-- ClientSocket::Recv and Send: the fields of the socket that neither touches.
use socket_message.Prelude.{
  ℕ, ◌≡◌, refl, ap, subst, ◌∙◌, Bool, true, false, List, [], ◌∷◌, ◌++◌, ltb, ◌==◌, if◌then◌else◌,
  length, take, drop, Bool-cases, inl, inr, none,
}
use socket_message.Net.Result.{
  Result, ok, err, ◌>>=◌, >>=-eq-ok, out_of_buffer, ok-injective, Result-cases,
}
use socket_message.Net.Framing.{read_packages}
use socket_message.Net.ClientSocket.{
  Socket, Answer, bytes, end_of_stream, try_again, failed, Outcome, Taken, took, blocked, broken,
  Received, Sent, recv, recv_round, send, after_send, finished, prepend, same, running,
  socket_close, buf_max_size,
}

-- Recv changes the read buffer alone.
abbrev pub ReadsOnly : Socket → Socket → Type 0
ReadsOnly s t = t ≡ record s { read_buf = t.read_buf }

ReadsOnly-trans : (s t u : Socket) → ReadsOnly s t → ReadsOnly t u → ReadsOnly s u
ReadsOnly-trans s t u a b = b ∙ ap (λ (x : Socket). record x { read_buf = u.read_buf }) a

recv_round-ReadsOnly :
    (s : Socket) (chunk : List ℕ) (r : Socket × List (List ℕ))
    → recv_round s chunk ≡ ok r
    → ReadsOnly s r.0
unfolding recv_round
recv_round-ReadsOnly s chunk r h =
    elim (Bool-cases (ltb buf_max_size (length (s.read_buf ++ chunk)))) [
      | inl over ↦ cc (rw over at h)
      | inr fits ↦ elim (Result-cases (read_packages (s.read_buf ++ chunk))) [
        | inr (x, er) ↦ cc (rw (fits, er) at h)
        | inl (p, er) ↦
            subst (λ (q : Socket × List (List ℕ)). ReadsOnly s q.0)
              (ok-injective (rw (fits, er) at h)) refl
      ]
    ]

recv_after :
    (mode : Bool) (answers : List Answer) (s : Socket) (ps : List (List ℕ)) (r : Received)
    → ((q : Received) → recv s answers ≡ ok q → ReadsOnly s q.socket)
    → (elim mode [
      | true ↦ (recv s answers >>= λ q. ok (prepend ps q))
      | false ↦ ok (record { socket = s; packages = ps; outcome = finished })
    ])
      ≡ ok r
    → ReadsOnly s r.socket
recv_after true answers s ps r ih h =
    let (q, e, d) = >>=-eq-ok (recv s answers) _ h in
    subst (λ (x : Received). ReadsOnly s x.socket) (ok-injective d) (ih q e)
recv_after false answers s ps r ih h =
    subst (λ (x : Received). ReadsOnly s x.socket) (ok-injective h) refl

pub recv-ReadsOnly :
    (s : Socket) (answers : List Answer) (r : Received)
    → recv s answers ≡ ok r
    → ReadsOnly s r.socket
unfolding recv
recv-ReadsOnly s [] r h = subst (λ (q : Received). ReadsOnly s q.socket) (ok-injective h) refl
recv-ReadsOnly s (bytes chunk ∷ answers) r h =
    let ((t, ps), e, rest) = >>=-eq-ok (recv_round s chunk) _ h in
    ReadsOnly-trans s t r.socket (recv_round-ReadsOnly s chunk (t, ps) e)
      (recv_after s.is_non_block answers t ps r (recv-ReadsOnly t answers) rest)
recv-ReadsOnly s (end_of_stream ∷ answers) r h =
    subst (λ (q : Received). ReadsOnly s q.socket) (ok-injective h) refl
recv-ReadsOnly s (try_again ∷ answers) r h =
    subst (λ (q : Received). ReadsOnly s q.socket) (ok-injective h) refl
recv-ReadsOnly s (failed ∷ answers) r h =
    subst (λ (q : Received). ReadsOnly s q.socket) (ok-injective h) refl

-- Send changes the write buffer and m_IsWriteing alone.
abbrev pub WritesOnly : Socket → Socket → Type 0
WritesOnly s t = t ≡ record s { write_buf = t.write_buf; is_writing = t.is_writing }

WritesOnly-after_send :
    (s t : Socket) (b : Bool) → WritesOnly s t → WritesOnly s (after_send t b).socket
unfolding after_send
WritesOnly-after_send s t b h = elim (Bool-cases (same t.is_writing b)) [
  | inl e ↦ rw e h
  | inr e ↦ rw e (λ i. record (h i) { is_writing = b })
]

WritesOnly-took :
    (s : Socket) (n : ℕ) (t : Socket)
    → WritesOnly (record s { write_buf = drop n s.write_buf }) t
    → WritesOnly s t
WritesOnly-took s n t h = h

abbrev rewired : List ℕ → Sent → Sent
rewired wire q = record q { wire = wire }

-- A property of the result, by both branches of a test.
if-holds :
    (P : Sent → Type 0) (b : Bool) (x y : Result Sent) (r : Sent)
    → ((q : Sent) → x ≡ ok q → P q)
    → ((q : Sent) → y ≡ ok q → P q)
    → (if b then x else y) ≡ ok r
    → P r
if-holds P true x y r hx hy h = hx r h
if-holds P false x y r hx hy h = hy r h

ok-holds : (P : Sent → Type 0) (s : Sent) → P s → (r : Sent) → ok s ≡ ok r → P r
ok-holds P s p r h = subst P (ok-injective h) p

send_after :
    (mode : Bool) (left : Socket) (answers : List Taken) (wire : List ℕ) (r : Sent)
    → ((q : Sent) → send left answers ≡ ok q → WritesOnly left q.socket)
    → ((elim mode [ true ↦ send left answers | false ↦ ok (after_send left false) ]) >>= λ q.
        ok (rewired (wire ++ q.wire) q))
      ≡ ok r
    → WritesOnly left r.socket
send_after true left answers wire r ih h =
    let (q, e, d) = >>=-eq-ok (send left answers) _ h in
    subst (λ (x : Sent). WritesOnly left x.socket) (ok-injective d) (ih q e)
send_after false left answers wire r ih h =
    subst (λ (x : Sent). WritesOnly left x.socket) (ok-injective h)
      (WritesOnly-after_send left left false refl)

abbrev Sends : Socket → Sent → Type 0
Sends s r = WritesOnly s r.socket

unchanged-Sends :
    (s : Socket) (o : Outcome) (r : Sent)
    → ok (record { socket = s; wire = []; outcome = o; callback = none }) ≡ ok r
    → Sends s r
unchanged-Sends s o r h = ok-holds (Sends s) _ refl r h

after-Sends : (s : Socket) (b : Bool) (r : Sent) → ok (after_send s b) ≡ ok r → Sends s r
after-Sends s b r h = ok-holds (Sends s) _ (WritesOnly-after_send s s b refl) r h

-- The tests of a round of the loop, before the rest of it.
send_tests :
    (s : Socket) (n : ℕ) (rest : Result Sent) (r : Sent)
    → ((q : Sent) → rest ≡ ok q → Sends s q)
    → (if length s.write_buf == 0
        then ok (after_send s false)
        else (if n == 0
            then ok (record { socket = s; wire = []; outcome = socket_close; callback = none })
            else (if length s.write_buf == n
                then ok (rewired s.write_buf (after_send (record s { write_buf = [] }) false))
                else (if ltb (length s.write_buf) n then err out_of_buffer else rest))))
      ≡ ok r
    → Sends s r
send_tests s n rest r ih h = elim (Bool-cases (length s.write_buf == 0)) [
  | inl z ↦ after-Sends s false r (rw z at h)
  | inr nz ↦ elim (Bool-cases (n == 0)) [
    | inl c ↦ unchanged-Sends s socket_close r (rw (nz, c) at h)
    | inr nc ↦ elim (Bool-cases (length s.write_buf == n)) [
      | inl whole ↦
          ok-holds (Sends s) _ (WritesOnly-after_send s (record s { write_buf = [] }) false refl) r
            (rw (nz, nc, whole) at h)
      | inr part ↦ elim (Bool-cases (ltb (length s.write_buf) n)) [
        | inl over ↦ cc (rw (nz, nc, part, over) at h)
        | inr fits ↦ ih r (rw (nz, nc, part, fits) at h)
      ]
    ]
  ]
]

pub send-WritesOnly :
    (s : Socket) (answers : List Taken) (r : Sent) → send s answers ≡ ok r → WritesOnly s r.socket
unfolding send
send-WritesOnly s [] r h =
    if-holds (Sends s) _ _ _ r (after-Sends s false) (unchanged-Sends s running) h
send-WritesOnly s (blocked ∷ answers) r h =
    if-holds (Sends s) _ _ _ r (after-Sends s false) (after-Sends s true) h
send-WritesOnly s (broken ∷ answers) r h =
    if-holds (Sends s) _ _ _ r (after-Sends s false) (unchanged-Sends s socket_close) h
send-WritesOnly s (took n ∷ answers) r h =
    send_tests s n _ r
      (λ q.
        send_after s.is_non_block (record s { write_buf = drop n s.write_buf }) answers
          (take n s.write_buf) q (send-WritesOnly _ answers))
      h
