-- ===== src/Client/Select/Turns.antt =====
-- Select::Work: what the turns of a round keep of the sockets.
use socket_message.Prelude.{
  ℕ, ◌<◌, ◌≡◌, refl, sym, ap, subst, ◌∙◌, Bool, true, false, Option, none, some, List, [], ◌∷◌, map,
  All,
}
use socket_message.Net.Result.{ok, >>=-eq-ok, ok-injective}
use socket_message.Client.Connect.{no_limit}
use socket_message.Net.ClientSocket.{Socket, Answer, Taken, recv, send}
use socket_message.Net.ClientSocket.Frames.{ReadsOnly, recv-ReadsOnly, send-WritesOnly}
use socket_message.Client.Select.{
  Select, Turn, Answers, Ascending, turn, turns, prepare, fill_sets, Wait, read_turn, write_turn,
  write_callback, is_close,
}

abbrev pub socket_of : Turn → Socket
socket_of t = t.socket

pub read_turn-ReadsOnly :
    (b : Bool) (answers : List Answer) (s : Socket) (t : Turn)
    → read_turn b answers s ≡ ok t
    → ReadsOnly s t.socket
unfolding read_turn
read_turn-ReadsOnly false answers s t h =
    subst (λ (u : Turn). ReadsOnly s u.socket) (ok-injective h) refl
read_turn-ReadsOnly true answers s t h =
    let (r, e, h1) = >>=-eq-ok (recv s answers) _ h in
    let (c, e1, h2) = >>=-eq-ok (is_close r.outcome) _ h1 in
    subst (λ (u : Turn). ReadsOnly s u.socket) (ok-injective h2) (recv-ReadsOnly s answers r e)

write_callback-cfd : (o : Option Bool) (s : Socket) → (write_callback o s).cfd ≡ s.cfd
unfolding write_callback
write_callback-cfd none s = refl
write_callback-cfd (some b) s = refl

write_turn-cfd :
    (b : Bool) (answers : List Taken) (t u : Turn)
    → write_turn b answers t ≡ ok u
    → u.socket.cfd ≡ t.socket.cfd
unfolding write_turn
write_turn-cfd false answers t u h = sym (ap (λ (x : Turn). x.socket.cfd) (ok-injective h))
write_turn-cfd true answers t u h =
    let (r, e, h1) = >>=-eq-ok (send t.socket answers) _ h in
    let (c, e1, h2) = >>=-eq-ok (is_close r.outcome) _ h1 in
    sym (ap (λ (x : Turn). x.socket.cfd) (ok-injective h2))
    ∙ write_callback-cfd r.callback r.socket
    ∙ ap (λ (x : Socket). x.cfd) (send-WritesOnly t.socket answers r e)

turn-cfd :
    (answers : ℕ → Answers) (s : Socket) (t : Turn) → turn answers s ≡ ok t → t.socket.cfd ≡ s.cfd
unfolding turn
turn-cfd answers s t h =
    let (u, e, h1) = >>=-eq-ok (read_turn _ _ s) _ h in
    write_turn-cfd _ _ u t h1 ∙ ap (λ (x : Socket). x.cfd) (read_turn-ReadsOnly _ _ s u e)

abbrev cfds : List Socket → List ℕ
cfds = map (λ (s : Socket). s.cfd)

turns-cfds :
    (answers : ℕ → Answers) (ss : List Socket) (ts : List Turn)
    → turns answers ss ≡ ok ts
    → cfds (map socket_of ts) ≡ cfds ss
unfolding turns
turns-cfds answers [] ts h = sym (ap (λ (x : List Turn). cfds (map socket_of x)) (ok-injective h))
turns-cfds answers (s ∷ ss) ts h =
    let (t, e, h1) = >>=-eq-ok (turn answers s) _ h in
    let (us, e1, h2) = >>=-eq-ok (turns answers ss) _ h1 in
    sym (ap (λ (x : List Turn). cfds (map socket_of x)) (ok-injective h2))
    ∙ (λ i. turn-cfd answers s t e i ∷ turns-cfds answers ss us e1 i)

-- The order of the keys depends on the keys alone.
abbrev Rising : List ℕ → Type 0
Rising [] = Unit
Rising (n ∷ ns) = All (λ k. n < k) ns × Rising ns

All-cfds :
    (n : ℕ) (ss : List Socket) → All (λ (t : Socket). n < t.cfd) ss ≡ All (λ k. n < k) (cfds ss)
All-cfds n [] = refl
All-cfds n (s ∷ ss) = ap (λ (X : Type 0). (n < s.cfd) × X) (All-cfds n ss)

Ascending-Rising : (ss : List Socket) → Ascending ss ≡ Rising (cfds ss)
Ascending-Rising [] = refl
Ascending-Rising (s ∷ ss) = λ i. All-cfds s.cfd ss i × Ascending-Rising ss i

pub turns-Ascending :
    (answers : ℕ → Answers) (ss : List Socket) (ts : List Turn)
    → turns answers ss ≡ ok ts
    → Ascending ss
    → Ascending (map socket_of ts)
turns-Ascending answers ss ts e h =
    subst (λ (X : Type 0). X)
      (Ascending-Rising ss
        ∙ sym (ap Rising (turns-cfds answers ss ts e))
        ∙ sym (Ascending-Rising (map socket_of ts)))
      h

pub prepare-eq :
    (sel : Select) (w : Wait) (waiting : Select)
    → prepare sel ≡ ok (w, waiting)
    → waiting ≡ record sel { timeout = no_limit }
unfolding prepare
prepare-eq sel w waiting e =
    let (w', e1, h) = >>=-eq-ok (fill_sets sel.sockets _) _ e in
    sym (ap (λ (x : Wait × Select). x.1) (ok-injective h))
