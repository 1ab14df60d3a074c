-- ===== src/Client/Control/Keys.antt =====
-- The map of the client's sockets: what holds of its entries, and the order of its keys, under the
-- changes that Select.cpp and SocketControl.cpp make.
use socket_message.Prelude.{
  ℕ, ◌<◌, ◌≡◌, refl, List, [], ◌∷◌, inl, inr, arith, ltb, ltb→lt, ◌==◌, All, All-mono, Bool-cases,
  Option-cases, none, sym,
}
use socket_message.Net.ClientSocket.{Socket}
use socket_message.Client.Select.{
  Select, Ascending, insert_socket, erase_socket, socket_at, remove, remove_found,
}
use socket_message.Client.Control.{put_socket}

pub insert_socket-All :
    (P : Socket → Type 0) (s : Socket) (ss : List Socket)
    → P s
    → All P ss
    → All P (insert_socket s ss)
unfolding insert_socket
insert_socket-All P s [] p a = (p, tt)
insert_socket-All P s (t ∷ ts) p a = elim (Bool-cases (t.cfd == s.cfd)) [
  | inl e ↦ rw e a
  | inr e ↦ elim (Bool-cases (ltb s.cfd t.cfd)) [
    | inl l ↦ rw (e, l) (p, a)
    | inr l ↦ rw (e, l) (a.0, insert_socket-All P s ts p a.1)
  ]
]

pub insert_socket-Ascending :
    (s : Socket) (ss : List Socket) → Ascending ss → Ascending (insert_socket s ss)
unfolding insert_socket
insert_socket-Ascending s [] h = (tt, tt)
insert_socket-Ascending s (t ∷ ts) h = elim (Bool-cases (t.cfd == s.cfd)) [
  | inl e ↦ rw e h
  | inr e ↦ elim (Bool-cases (ltb s.cfd t.cfd)) [
    | inl l ↦ rw (e, l) ((ltb→lt s.cfd t.cfd l, All-mono (λ u lt. ground arith) ts h.0), h)
    | inr l ↦
        rw (e, l)
          (
            insert_socket-All (λ (u : Socket). t.cfd < u.cfd) s ts (ground arith) h.0,
            insert_socket-Ascending s ts h.1,
          )
  ]
]

pub erase_socket-All :
    (P : Socket → Type 0) (fd : ℕ) (ss : List Socket) → All P ss → All P (erase_socket fd ss)
unfolding erase_socket
erase_socket-All P fd [] a = tt
erase_socket-All P fd (s ∷ ss) a = elim (Bool-cases (s.cfd == fd)) [
  | inl e ↦ rw e a.1
  | inr e ↦ rw e (a.0, erase_socket-All P fd ss a.1)
]

pub erase_socket-Ascending :
    (fd : ℕ) (ss : List Socket) → Ascending ss → Ascending (erase_socket fd ss)
unfolding erase_socket
erase_socket-Ascending fd [] h = tt
erase_socket-Ascending fd (s ∷ ss) h = elim (Bool-cases (s.cfd == fd)) [
  | inl e ↦ rw e h.1
  | inr e ↦
      rw e (
        erase_socket-All (λ (u : Socket). s.cfd < u.cfd) fd ss h.0,
        erase_socket-Ascending fd ss h.1,
      )
]

pub put_socket-All :
    (P : Socket → Type 0) (s : Socket) (ss : List Socket)
    → ((t : Socket) → t.cfd ≡ s.cfd → P t → P s)
    → All P ss
    → All P (put_socket s ss)
unfolding put_socket
put_socket-All P s [] p a = tt
put_socket-All P s (t ∷ ts) p a = elim (Bool-cases (t.cfd == s.cfd)) [
  | inl e ↦ rw e (p t (ground arith) a.0, a.1)
  | inr e ↦ rw e (a.0, put_socket-All P s ts p a.1)
]

pub put_socket-Ascending :
    (s : Socket) (ss : List Socket) → Ascending ss → Ascending (put_socket s ss)
unfolding put_socket
put_socket-Ascending s [] h = tt
put_socket-Ascending s (t ∷ ts) h = elim (Bool-cases (t.cfd == s.cfd)) [
  | inl e ↦ rw e (All-mono (λ u lt. ground arith) ts h.0, h.1)
  | inr e ↦ rw e (
    put_socket-All (λ (u : Socket). t.cfd < u.cfd) s ts (λ u q lt. omega arith) h.0,
    put_socket-Ascending s ts h.1,
  )
]

-- A socket that is changed before it is erased.
pub erase_socket-put_socket :
    (s : Socket) (ss : List Socket) → erase_socket s.cfd (put_socket s ss) ≡ erase_socket s.cfd ss
unfolding erase_socket put_socket
erase_socket-put_socket s [] = refl
erase_socket-put_socket s (t ∷ ts) = ground (arith, erase_socket-put_socket s ts)

erase_socket-absent : (fd : ℕ) (ss : List Socket) → socket_at fd ss ≡ none → erase_socket fd ss ≡ ss
unfolding erase_socket socket_at
erase_socket-absent fd [] h = refl
erase_socket-absent fd (s ∷ ss) h = ground (arith, erase_socket-absent fd ss)

-- Remove, with or without a socket of the descriptor.
pub remove-sockets : (fd : ℕ) (sel : Select) → (remove fd sel).sockets ≡ erase_socket fd sel.sockets
unfolding remove remove_found
remove-sockets fd sel = elim (Option-cases (socket_at fd sel.sockets)) [
  | inl n ↦ rw n (sym (erase_socket-absent fd sel.sockets n))
  | inr (s, e) ↦ rw e
]
