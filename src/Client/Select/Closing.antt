-- ===== src/Client/Select/Closing.antt =====
-- Select::Work: the sockets that a round closes. A descriptor can stand in `closeSocket` twice, once for
-- Recv and once for Send.
use socket_message.Prelude.{
  ℕ, ◌<◌, ◌≡◌, ◌≢◌, refl, sym, ap, subst, ◌∙◌, Bool, true, false, ◌||◌, none, some, List, [], ◌∷◌,
  ◌++◌, map, arith, if◌then◌else◌, All, concat, All-append, All-split, All-mono, append_assoc,
  append-nil,
}
use socket_message.Net.Result.{ok, >>=-eq-ok, ok-injective}
use socket_message.Client.Connect.{no_limit}
use socket_message.Net.ClientSocket.{Socket}
use socket_message.Client.Select.{
  Select, Turn, ready, Answers, Handed, Ascending, socket_at, erase_socket, remove, remove_found,
  close_list, remove_each, turns, work, work_on, prepare,
}
use socket_message.Client.Select.Turns.{prepare-eq, socket_of, turns-Ascending}

abbrev pub is_shut : Turn → Bool
is_shut t = t.recv_closed || t.send_closed

-- The sockets that stay, and the descriptors of those that do not, in the order of the map.
unfoldable pub open_sockets : List Turn → List Socket
open_sockets [] = []
open_sockets (t ∷ ts) = if is_shut t then open_sockets ts else t.socket ∷ open_sockets ts

unfoldable pub shut_cfds : List Turn → List ℕ
shut_cfds [] = []
shut_cfds (t ∷ ts) = if is_shut t then t.socket.cfd ∷ shut_cfds ts else shut_cfds ts

abbrev Lacks : ℕ → List Socket → Type 0
Lacks fd ss = All (λ (s : Socket). s.cfd ≢ fd) ss

socket_at-Lacks : (fd : ℕ) (ss : List Socket) → Lacks fd ss → socket_at fd ss ≡ none
unfolding socket_at
socket_at-Lacks fd [] h = refl
socket_at-Lacks fd (s ∷ ss) h = ground (arith, socket_at-Lacks fd ss h.1)

socket_at-append :
    (kept : List Socket) (s : Socket) (ss : List Socket)
    → Lacks s.cfd kept
    → socket_at s.cfd (kept ++ s ∷ ss) ≡ some s
unfolding socket_at
socket_at-append [] s ss h = ground arith
socket_at-append (k ∷ kept) s ss h = ground (arith, socket_at-append kept s ss h.1)

erase_socket-append :
    (kept : List Socket) (s : Socket) (ss : List Socket)
    → Lacks s.cfd kept
    → erase_socket s.cfd (kept ++ s ∷ ss) ≡ kept ++ ss
unfolding erase_socket
erase_socket-append [] s ss h = ground arith
erase_socket-append (k ∷ kept) s ss h = ground (arith, erase_socket-append kept s ss h.1)

abbrev with_sockets : Select → List Socket → List ℕ → Select
with_sockets sel ss closed = record sel { sockets = ss; closed = closed }

remove-there :
    (sel : Select) (kept : List Socket) (s : Socket) (ss : List Socket) (closed : List ℕ)
    → Lacks s.cfd kept
    → remove s.cfd (with_sockets sel (kept ++ s ∷ ss) closed)
      ≡ with_sockets sel (kept ++ ss) (closed ++ s.cfd ∷ [])
unfolding remove remove_found
remove-there sel kept s ss closed h =
    rw (socket_at-append kept s ss h, erase_socket-append kept s ss h)

remove-gone : (sel : Select) (fd : ℕ) → Lacks fd sel.sockets → remove fd sel ≡ sel
unfolding remove remove_found
remove-gone sel fd h = rw (socket_at-Lacks fd sel.sockets h)

remove_each-append :
    (xs ys : List ℕ) (sel : Select)
    → remove_each (xs ++ ys) sel ≡ remove_each ys (remove_each xs sel)
unfolding remove_each
remove_each-append [] ys sel = refl
remove_each-append (x ∷ xs) ys sel = remove_each-append xs ys (remove x sel)

-- The list that a turn leaves, of the sockets in front, its own and those behind.
abbrev after_turn : Turn → List Socket → List Socket → List Socket
after_turn t kept ss = if is_shut t then kept ++ ss else kept ++ t.socket ∷ ss

abbrev closed_by : Turn → List ℕ
closed_by t = if is_shut t then t.socket.cfd ∷ [] else []

remove_turn :
    (r w : Bool) (sel : Select) (kept : List Socket) (s : Socket) (ps : List (List ℕ))
    (ss : List Socket) (closed : List ℕ)
    → Lacks s.cfd kept
    → Lacks s.cfd ss
    → remove_each
        (close_list (record { socket = s; packages = ps; recv_closed = r; send_closed = w }))
        (with_sockets sel (kept ++ s ∷ ss) closed)
      ≡ with_sockets sel
          (after_turn
            (record { socket = s; packages = ps; recv_closed = r; send_closed = w })
            kept
            ss)
          (closed
            ++ closed_by (record { socket = s; packages = ps; recv_closed = r; send_closed = w }))
unfolding remove_each close_list
remove_turn true true sel kept s ps ss closed hk hs =
    ap (remove s.cfd) (remove-there sel kept s ss closed hk)
    ∙ remove-gone (with_sockets sel (kept ++ ss) (closed ++ s.cfd ∷ [])) s.cfd
        (All-append (λ (t : Socket). t.cfd ≢ s.cfd) kept ss hk hs)
remove_turn true false sel kept s ps ss closed hk hs = remove-there sel kept s ss closed hk
remove_turn false true sel kept s ps ss closed hk hs = remove-there sel kept s ss closed hk
remove_turn false false sel kept s ps ss closed hk hs =
    ap (with_sockets sel (kept ++ s ∷ ss)) (sym (append-nil closed))

Ascending-apart :
    (kept : List Socket) (s : Socket) (ss : List Socket)
    → Ascending (kept ++ s ∷ ss)
    → Lacks s.cfd kept × Lacks s.cfd ss × Ascending (kept ++ ss)
Ascending-apart [] s ss (above, rest) =
    (tt, All-mono (λ t lt. λ e. absurd (omega arith)) ss above, rest)
Ascending-apart (k ∷ kept) s ss (above, rest) =
    let (a, b, c) = Ascending-apart kept s ss rest in
    let (front, back) = All-split (λ (t : Socket). k.cfd < t.cfd) kept (s ∷ ss) above in
    (
      (λ e. absurd (omega (arith, back.0)), a),
      b,
      (All-append (λ (t : Socket). k.cfd < t.cfd) kept ss front back.1, c),
    )

-- The loop over `closeSocket`, from the turns `ts` on: `kept` are the sockets before that stay.
abbrev Closes : List Turn → Select → List Socket → List ℕ → Type 0
Closes ts sel kept closed =
    remove_each (concat (map close_list ts)) (with_sockets sel (kept ++ map socket_of ts) closed)
    ≡ with_sockets sel (kept ++ open_sockets ts) (closed ++ shut_cfds ts)

after_first_turn :
    (shut : Bool) (s : Socket) (ts : List Turn) (sel : Select) (kept : List Socket)
    (closed : List ℕ)
    → ((k : List Socket) (c : List ℕ) → Ascending (k ++ map socket_of ts) → Closes ts sel k c)
    → Ascending (kept ++ s ∷ map socket_of ts)
    → remove_each (concat (map close_list ts)) (
        with_sockets sel
          (if shut then kept ++ map socket_of ts else kept ++ s ∷ map socket_of ts)
          (closed ++ (if shut then s.cfd ∷ [] else [])))
      ≡ with_sockets sel
          (kept ++ (if shut then open_sockets ts else s ∷ open_sockets ts))
          (closed ++ (if shut then s.cfd ∷ shut_cfds ts else shut_cfds ts))
after_first_turn true s ts sel kept closed ih h =
    ih kept (closed ++ s.cfd ∷ []) (Ascending-apart kept s (map socket_of ts) h).2
    ∙ ap (with_sockets sel (kept ++ open_sockets ts))
        (append_assoc closed (s.cfd ∷ []) (shut_cfds ts))
after_first_turn false s ts sel kept closed ih h =
    rw
      (
        append-nil closed,
        ← append_assoc kept (s ∷ []) (map socket_of ts),
        ← append_assoc kept (s ∷ []) (open_sockets ts),
      )
      (ih (kept ++ s ∷ []) closed (rw (append_assoc kept (s ∷ []) (map socket_of ts)) h))

remove_each-turns :
    (ts : List Turn) (sel : Select) (kept : List Socket) (closed : List ℕ)
    → Ascending (kept ++ map socket_of ts)
    → Closes ts sel kept closed
unfolding open_sockets shut_cfds remove_each
remove_each-turns [] sel kept closed h =
    ap (with_sockets sel (kept ++ [])) (sym (append-nil closed))
remove_each-turns (t ∷ ts) sel kept closed h =
    let (a, b, c) = Ascending-apart kept t.socket (map socket_of ts) h in
    remove_each-append (close_list t) (concat (map close_list ts)) _
    ∙ ap (remove_each (concat (map close_list ts))) (
        remove_turn t.recv_closed t.send_closed sel kept t.socket t.packages (map socket_of ts)
          closed a b)
    ∙ after_first_turn (is_shut t) t.socket ts sel kept closed (remove_each-turns ts sel) h

work_on-ready :
    (answers : ℕ → Answers) (sel : Select) (r : Select × List Handed)
    → Ascending sel.sockets
    → work_on (ready answers) sel ≡ ok r
    → (ts : List Turn) × (turns answers sel.sockets ≡ ok ts)
      × (r.0 ≡ with_sockets sel (open_sockets ts) (sel.closed ++ shut_cfds ts))
unfolding work_on
work_on-ready answers sel r h e =
    let (ts, e1, h1) = >>=-eq-ok (turns answers sel.sockets) _ e in
    (
      ts,
      e1,
      sym (ap (λ (x : Select × List Handed). x.0) (ok-injective h1))
          ∙ remove_each-turns ts sel [] sel.closed (turns-Ascending answers sel.sockets ts e1 h),
    )

pub round_closes_once :
    (answers : ℕ → Answers) (sel : Select) (r : Select × List Handed)
    → Ascending sel.sockets
    → work (ready answers) sel ≡ ok r
    → (ts : List Turn) × (turns answers sel.sockets ≡ ok ts)
      × (r.0.sockets ≡ open_sockets ts)
      × (r.0.closed ≡ sel.closed ++ shut_cfds ts)
unfolding work
round_closes_once answers sel r h e =
    let ((w, waiting), e1, h1) = >>=-eq-ok (prepare sel) _ e in
    let at_wait =
      subst (λ (x : Select). work_on (ready answers) x ≡ ok r) (prepare-eq sel w waiting e1) h1 in
    let (ts, e2, out) = work_on-ready answers (record sel { timeout = no_limit }) r h at_wait in
    (ts, e2, ap (λ (x : Select). x.sockets) out, ap (λ (x : Select). x.closed) out)
