-- ===== src/Client/Control/Unwatched.antt =====
-- SendPackage of the user's thread while the thread of the rounds waits in `select`.
use socket_message.Prelude.{
  ℕ, ◌<◌, ◌≡◌, refl, sym, ap, subst, ◌∙◌, Bool, true, false, not, ◌||◌, none, some, some-injective,
  List, [], ◌∷◌, inl, inr, arith, ◌==◌, length, All, Bool-cases,
}
use socket_message.Net.Result.{ok}
use socket_message.Net.ClientSocket.{Socket, Taken}
use socket_message.Client.Select.{Select, Wait, Ascending, prepare, get_client_socket, socket_at}
use socket_message.Client.Select.Turns.{prepare-eq}
use socket_message.Client.Select.Waiting.{flagged, writes, waits_for_flags}
use socket_message.Client.Control.{SendResult, send_package, put_socket}
use socket_message.Client.Control.Sending.{IsWatched, package_or_nothing}

abbrev pub has : ℕ → List ℕ → Bool
has k [] = false
has k (n ∷ ns) = (k == n) || has k ns

==_eq : (k fd : ℕ) → (k == fd) ≡ true → k ≡ fd
==_eq k fd h = ground arith

flagged_above :
    (fd : ℕ) (ss : List Socket)
    → All (λ (s : Socket). fd < s.cfd) ss
    → has fd (flagged writes ss) ≡ false
flagged_above fd [] h = refl
flagged_above fd (s ∷ ss) h = elim (Bool-cases s.cfd_is_write) [
  | inl w ↦ rw w (ground (arith, flagged_above fd ss h.1))
  | inr w ↦ rw w (flagged_above fd ss h.1)
]

-- A socket that the loop does not wait to write on is not in the write set.
not_flagged :
    (fd : ℕ) (ss : List Socket) (s : Socket)
    → Ascending ss
    → socket_at fd ss ≡ some s
    → s.cfd_is_write ≡ false
    → has fd (flagged writes ss) ≡ false
unfolding socket_at
not_flagged fd [] s h e w = cc
not_flagged fd (t ∷ ts) s h e w = elim (Bool-cases (t.cfd == fd)) [
  | inl at_t ↦
      let same = some-injective _ _ (rw at_t at e) in
      rw (ap (λ (x : Socket). x.cfd_is_write) same ∙ w) (
        flagged_above fd ts
          (subst (λ n. All (λ (u : Socket). n < u.cfd) ts) (==_eq t.cfd fd at_t) h.0))
  | inr past ↦ elim (Bool-cases t.cfd_is_write) [
    | inl tw ↦ rw tw (ground (arith, not_flagged fd ts s h.1 (rw past at e) w))
    | inr tw ↦ rw tw (not_flagged fd ts s h.1 (rw past at e) w)
  ]
]

socket_at-put :
    (fd : ℕ) (ss : List Socket) (s t : Socket)
    → socket_at fd ss ≡ some s
    → t.cfd ≡ fd
    → socket_at fd (put_socket t ss) ≡ some t
unfolding socket_at put_socket
socket_at-put fd [] s t h e = cc
socket_at-put fd (u ∷ us) s t h e = ground (arith, socket_at-put fd us s t)

not_both : (b : Bool) {X : Type 0} → b ≡ false → b ≡ true → X
not_both true f t = cc
not_both false f t = cc

refused_result :
    (sel : Select) (r : SendResult)
    → r ≡ record { result = false; select = sel; wire = [] }
    → r.result ≡ false
refused_result sel r q = ap (λ (x : SendResult). x.result) q

-- The thread of the rounds has asked `select`, and the socket of `fd` was not one to write on. A package
-- that SendPackage then takes from another thread may leave bytes in its buffer, and m_CfdIsWrite tells
-- so; but the call of `select` that is under way does not wait to write on `fd`, and has no time limit.
-- So the bytes stay until some other event ends it.
pub unsent_not_watched :
    (sel waiting : Select) (w : Wait) (fd : ℕ) (body : List ℕ) (answers : List Taken) (s : Socket)
    (r : SendResult)
    → prepare sel ≡ ok (w, waiting)
    → Ascending waiting.sockets
    → All IsWatched waiting.sockets
    → get_client_socket fd waiting ≡ some s
    → s.cfd_is_write ≡ false
    → send_package fd body answers waiting ≡ ok r
    → r.result ≡ true
    → (t : Socket) × (get_client_socket fd r.select ≡ some t)
      × (t.cfd_is_write ≡ not (length t.write_buf == 0))
      × (has fd w.write_set ≡ false)
      × (w.limit ≡ none)
unfolding get_client_socket
unsent_not_watched sel waiting w fd body answers s r p order watched there quiet sent took =
    let asked = waits_for_flags sel waiting w p in
    let kept = ap (λ (x : Select). x.sockets) (prepare-eq sel w waiting p) in
    let unasked =
      ap (has fd) asked.write_set
      ∙ ap (λ ss. has fd (flagged writes ss)) (sym kept)
      ∙ not_flagged fd waiting.sockets s order there quiet in
    elim (package_or_nothing fd body answers waiting r watched sent) [
      | inl (absent, q) ↦ not_both r.result (refused_result waiting r q) took
      | inr (s', e, at_fd, inl (full, q)) ↦ not_both r.result (refused_result waiting r q) took
      | inr (s', e, at_fd, inr (inr (w0, t, wrote, closed, c, wire, stream, result, gone))) ↦
          not_both r.result result took
      | inr (s', e, at_fd, inr (inl (w0, t, wrote, done, v, c, wire, stream, result, put))) ↦ (
        t,
        ap (λ (x : Select). socket_at fd x.sockets) put
            ∙ socket_at-put fd waiting.sockets s' t e (c ∙ at_fd),
        v.told ∙ v.left,
        unasked,
        asked.limit,
      )
    ]
