-- ===== src/Net/ClientSocket/Reading.antt =====
-- ClientSocket::Recv: the stream that came in is the packages handed on and what is buffered.
use socket_message.Prelude.{
  All-drop, ℕ, ◌≤◌, ◌≡◌, refl, sym, ap, subst, ◌∙◌, Bool, true, List, [], ◌∷◌, ◌++◌, inl, inr,
  arith, ltb, if◌then◌else◌, length, map, concat, All, All-append, length-drop, append_assoc,
  append-nil, Bool-cases, ltb→le,
}
use socket_message.Wire.Bytes.{IsByte}
use socket_message.Net.Result.{ok, ok-injective, Result-cases}
use socket_message.Net.Framing.{frame, read_packages, IsWaiting}
use socket_message.Net.Framing.Sound.{read_packages_sound}
use socket_message.Net.ClientSocket.{
  buf_max_size, Socket, Answer, bytes, end_of_stream, try_again, failed, recv_round, Received, recv,
  prepend,
}

abbrev pub frames : List (List ℕ) → List ℕ
frames ps = concat (map frame ps)

-- The bytes that a call of Recv took, from what recv answered: in non-blocking mode all up to the
-- first answer that is not bytes, in blocking mode the first answer alone.
abbrev pub heard : Bool → List Answer → List ℕ
heard b [] = []
heard b (bytes chunk ∷ answers) = let rest = heard b answers in if b then chunk ++ rest else chunk
heard b (end_of_stream ∷ answers) = []
heard b (try_again ∷ answers) = []
heard b (failed ∷ answers) = []

abbrev pub IsChunk : Answer → Type 0
IsChunk (bytes chunk) = All IsByte chunk
IsChunk end_of_stream = Unit {0}
IsChunk try_again = Unit {0}
IsChunk failed = Unit {0}

pub record IsReading (s : Socket) : Type 0 where
  pub are_bytes : All IsByte s.read_buf
  pub fits : length s.read_buf ≤ buf_max_size
  pub waits : IsWaiting s.read_buf

frames-append : (ps qs : List (List ℕ)) → frames (ps ++ qs) ≡ frames ps ++ frames qs
frames-append [] qs = refl
frames-append (p ∷ ps) qs =
    ap (◌++◌ (frame p)) (frames-append ps qs) ∙ sym (append_assoc (frame p) (frames ps) (frames qs))

-- What one round promises.
abbrev Takes : Socket → List ℕ → Socket × List (List ℕ) → Type 0
Takes s chunk (s', ps) =
    (s.read_buf ++ chunk ≡ frames ps ++ s'.read_buf)
    × IsReading s'
    × (s'.is_non_block ≡ s.is_non_block)
    × (s'.write_buf ≡ s.write_buf)

recv_round-Takes :
    (s : Socket) (chunk : List ℕ) (r : Socket × List (List ℕ))
    → All IsByte chunk
    → IsReading s
    → recv_round s chunk ≡ ok r
    → Takes s chunk r
unfolding recv_round
recv_round-Takes s chunk r h v e =
    elim (Bool-cases (ltb buf_max_size (length (s.read_buf ++ chunk)))) [
      | inl over ↦ cc (rw over at e)
      | inr fits ↦ elim (Result-cases (read_packages (s.read_buf ++ chunk))) [
        | inr (x, er) ↦ cc (rw (fits, er) at e)
        | inl (p, er) ↦
            let all = All-append IsByte s.read_buf chunk v.are_bytes h in
            let (le, eq, w) = read_packages_sound (s.read_buf ++ chunk) p all er in
            subst (Takes s chunk) (ok-injective (rw (fits, er) at e)) (
              eq,
              record {
                are_bytes = All-drop IsByte p.offset _ all;
                fits = omega (arith, length-drop p.offset (s.read_buf ++ chunk), ltb→le _ _ fits);
                waits = w;
              },
              refl,
              refl,
            )
      ]
    ]

abbrev Reads : Socket → List Answer → Received → Type 0
Reads s answers r =
    (s.read_buf ++ heard s.is_non_block answers ≡ frames r.packages ++ r.socket.read_buf)
    × IsReading r.socket
    × (r.socket.write_buf ≡ s.write_buf)

-- A round in non-blocking mode, and what comes after.
Reads-next :
    (s : Socket) (chunk : List ℕ) (answers : List Answer) (s' : Socket) (ps : List (List ℕ))
    (q : Received)
    → s.is_non_block ≡ true
    → Takes s chunk (s', ps)
    → Reads s' answers q
    → Reads s (bytes chunk ∷ answers) (prepend ps q)
Reads-next s chunk answers s' ps q b (eq, v, same_mode, same_out) (eq', v', same_out') = (
  subst
      (λ m.
        s.read_buf ++ heard m (bytes chunk ∷ answers)
        ≡ frames (ps ++ q.packages) ++ q.socket.read_buf)
      (sym b) stream,
  v',
  same_out' ∙ same_out,
)
  where
    later : s'.read_buf ++ heard true answers ≡ frames q.packages ++ q.socket.read_buf
    later =
        subst (λ m. s'.read_buf ++ heard m answers ≡ frames q.packages ++ q.socket.read_buf)
          (same_mode ∙ b) eq'

    stream :
        s.read_buf ++ (chunk ++ heard true answers) ≡ frames (ps ++ q.packages) ++ q.socket.read_buf
    stream =
        sym (append_assoc s.read_buf chunk (heard true answers))
        ∙ ap (λ x. x ++ heard true answers) eq
        ∙ append_assoc (frames ps) s'.read_buf (heard true answers)
        ∙ ap (◌++◌ (frames ps)) later
        ∙ sym (append_assoc (frames ps) (frames q.packages) q.socket.read_buf)
        ∙ ap (λ x. x ++ q.socket.read_buf) (sym (frames-append ps q.packages))

recv-Reads :
    (s : Socket) (answers : List Answer) (r : Received)
    → All IsChunk answers
    → IsReading s
    → recv s answers ≡ ok r
    → Reads s answers r
unfolding recv
recv-Reads s [] r h v e = subst (Reads s []) (ok-injective e) (append-nil s.read_buf, v, refl)
recv-Reads s (end_of_stream ∷ answers) r h v e =
    subst (Reads s (end_of_stream ∷ answers)) (ok-injective e) (append-nil s.read_buf, v, refl)
recv-Reads s (try_again ∷ answers) r h v e =
    subst (Reads s (try_again ∷ answers)) (ok-injective e) (append-nil s.read_buf, v, refl)
recv-Reads s (failed ∷ answers) r h v e =
    subst (Reads s (failed ∷ answers)) (ok-injective e) (append-nil s.read_buf, v, refl)
recv-Reads s (bytes chunk ∷ answers) r h v e = elim (Result-cases (recv_round s chunk)) [
  | inr (x, er) ↦ cc (rw er at e)
  | inl ((s', ps), er) ↦
      let t = recv_round-Takes s chunk (s', ps) h.0 v er in
      elim (Bool-cases s.is_non_block) [
        | inr b ↦ subst (Reads s (bytes chunk ∷ answers)) (ok-injective (rw (er, b) at e)) (
          subst (λ m. s.read_buf ++ heard m (bytes chunk ∷ answers) ≡ frames ps ++ s'.read_buf)
              (sym b) t.0,
          t.1,
          t.3,
        )
        | inl b ↦ elim (Result-cases (recv s' answers)) [
          | inr (x, eq) ↦ cc (rw (er, b, eq) at e)
          | inl (q, eq) ↦
              subst (Reads s (bytes chunk ∷ answers)) (ok-injective (rw (er, b, eq) at e))
                (Reads-next s chunk answers s' ps q b t (recv-Reads s' answers q h.1 t.1 eq))
        ]
      ]
]

-- However the kernel cuts the stream into answers, a call of Recv keeps this: the bytes that came in
-- over the connection are the packages handed on, framed, and then the buffer, which holds at most a
-- head (that of an empty package waits for a byte behind it) or the head of a package that is not
-- complete, and stays within its capacity. It leaves the write buffer alone.
pub recv_stream :
    (stream : List ℕ) (delivered : List (List ℕ)) (s : Socket) (answers : List Answer)
    (r : Received)
    → All IsChunk answers
    → IsReading s
    → stream ≡ frames delivered ++ s.read_buf
    → recv s answers ≡ ok r
    → (stream ++ heard s.is_non_block answers
        ≡ frames (delivered ++ r.packages) ++ r.socket.read_buf)
      × IsReading r.socket
      × (r.socket.write_buf ≡ s.write_buf)
recv_stream stream delivered s answers r h v there e =
    let (eq, v', out) = recv-Reads s answers r h v e in
    (
      ap (λ x. x ++ heard s.is_non_block answers) there
          ∙ append_assoc (frames delivered) s.read_buf (heard s.is_non_block answers)
          ∙ ap (◌++◌ (frames delivered)) eq
          ∙ sym (append_assoc (frames delivered) (frames r.packages) r.socket.read_buf)
          ∙ ap (λ x. x ++ r.socket.read_buf) (sym (frames-append delivered r.packages)),
      v',
      out,
    )
