-- ===== src/Client/Select/Waiting.antt =====
-- Select::Work: what a round asks `select` for.
use socket_message.Prelude.{
  ℕ, ◌<◌, ◌≡◌, refl, sym, ap, subst, ◌∙◌, Bool, true, false, Option, none, List, [], ◌∷◌, arith,
  ltb, if◌then◌else◌, All, All-mono, Bool-cases, inl, inr,
}
use socket_message.Net.Result.{ok, >>=-eq-ok, ok-injective}
use socket_message.Net.ClientSocket.{Socket}
use socket_message.Client.Select.{Select, Wait, fd_set, fd_set_size, fill_sets, prepare, limit_of}

-- The descriptors of the sockets with a flag, in the order of the map.
abbrev pub flagged : (Socket → Bool) → List Socket → List ℕ
flagged flag [] = []
flagged flag (s ∷ ss) = if flag s then s.cfd ∷ flagged flag ss else flagged flag ss

abbrev pub reads : Socket → Bool
reads s = s.cfd_is_read

abbrev pub writes : Socket → Bool
writes s = s.cfd_is_write

-- What the sets and `maxSocket` are, for the sockets `ss`.
pub record IsWait (ss : List Socket) (time : Option ℕ) (w : Wait) : Type 0 where
  pub read_set : w.read_set ≡ flagged reads ss
  pub write_set : w.write_set ≡ flagged writes ss
  pub above : All (λ (s : Socket). s.cfd < w.nfds) ss
  pub limit : w.limit ≡ time

fd_set-flagged :
    (b : Bool) (fd : ℕ) (set out : List ℕ)
    → fd_set b fd set ≡ ok out
    → out ≡ (if b then fd ∷ set else set)
unfolding fd_set
fd_set-flagged false fd set out h = sym (ok-injective h)
fd_set-flagged true fd set out h = elim (Bool-cases (ltb fd fd_set_size)) [
  | inl fits ↦ sym (ok-injective (rw fits at h))
  | inr over ↦ cc (rw over at h)
]

fill_sets-IsWait :
    (ss : List Socket) (limit : Option ℕ) (w : Wait) → fill_sets ss limit ≡ ok w → IsWait ss limit w
unfolding fill_sets
fill_sets-IsWait [] limit w h =
    subst (IsWait [] limit) (ok-injective h)
      (record { read_set = refl; write_set = refl; above = tt; limit = refl })
fill_sets-IsWait (s ∷ ss) limit w h =
    let (v, e, h1) = >>=-eq-ok (fill_sets ss limit) _ h in
    let (rs, e1, h2) = >>=-eq-ok (fd_set s.cfd_is_read s.cfd v.read_set) _ h1 in
    let (ws, e2, h3) = >>=-eq-ok (fd_set s.cfd_is_write s.cfd v.write_set) _ h2 in
    let i = fill_sets-IsWait ss limit v e in
    subst (IsWait (s ∷ ss) limit) (ok-injective h3) (record {
      read_set =
          fd_set-flagged _ _ _ _ e1 ∙ ap (λ l. if s.cfd_is_read then s.cfd ∷ l else l) i.read_set;
      write_set =
          fd_set-flagged _ _ _ _ e2 ∙ ap (λ l. if s.cfd_is_write then s.cfd ∷ l else l) i.write_set;
      above = (ground arith, All-mono (λ t lt. ground arith) ss i.above);
      limit = refl;
    })

-- A round of Work whose descriptors all fit the sets asks `select` for exactly the sockets whose
-- m_CfdIsRead or m_CfdIsWrite is true, with a first argument above every descriptor, and without any
-- time limit, whatever SetTimeout set.
pub waits_for_flags :
    (sel waiting : Select) (w : Wait) → prepare sel ≡ ok (w, waiting) → IsWait sel.sockets none w
unfolding prepare limit_of
waits_for_flags sel waiting w h =
    let (v, e, d) = >>=-eq-ok (fill_sets sel.sockets none) _ h in
    subst (IsWait sel.sockets none) (ap (λ (x : Wait × Select). x.0) (ok-injective d))
      (fill_sets-IsWait sel.sockets none v e)
