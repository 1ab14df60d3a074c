-- ===== src/Client/Control/Watched.antt =====
-- SocketControl.cpp and Select.cpp of the client: what every order of connections, packages and rounds of
-- the thread keeps.
use socket_message.Prelude.{
  ℕ, ◌≤◌, ◌<◌, ◌≡◌, refl, sym, ap, subst, ◌∙◌, Bool, true, false, Option, none, some, List, [], ◌∷◌,
  inl, inr, arith, if◌then◌else◌, length, map, All, length-append, Bool-cases,
}
use socket_message.Net.Result.{ok, >>=-eq-ok, ok-injective}
use socket_message.Net.ClientSocket.{Socket, Answer, Taken, Sent, buf_max_size, new_socket, send}
use socket_message.Net.ClientSocket.Writing.{send_stream}
use socket_message.Client.Connect.{Kernel, new_client_socket}
use socket_message.Client.Select.{
  Select, Selected, failed, timed_out, ready, Answers, Turn, Handed, Ascending, add, set_timeout,
  start, erase_socket, work, work_on, prepare, new_select, turn, turns, read_turn, write_turn,
  is_close,
}
use socket_message.Client.Select.Turns.{socket_of, turns-Ascending, prepare-eq, read_turn-ReadsOnly}
use socket_message.Client.Select.Closing.{is_shut, open_sockets, round_closes_once}
use socket_message.Client.Control.{
  SendResult, new_control, connect_server_socket, connected, put_socket, send_package,
}
use socket_message.Client.Control.Keys.{
  insert_socket-All, insert_socket-Ascending, erase_socket-All, erase_socket-Ascending,
  put_socket-All, put_socket-Ascending, remove-sockets, erase_socket-put_socket,
}
use socket_message.Client.Control.Sending.{IsWatched, package_or_nothing, send-IsWatched}

-- The operations of the library on the map, in the order in which they run: the map has no lock, and an
-- overlap of the user's thread with the thread of the rounds is not considered.
pub data Step : Select → Select → Type 0 where
  connects : (k : Kernel) {sel : Select} → Step sel (connect_server_socket k sel).1
  sends :
      (fd : ℕ) (body : List ℕ) (answers : List Taken) {sel : Select} {r : SendResult}
      → send_package fd body answers sel ≡ ok r
      → Step sel r.select
  rounds :
      (answer : Selected) {sel : Select} {r : Select × List Handed}
      → work answer sel ≡ ok r
      → Step sel r.0
  times : (timeout : ℕ) {sel : Select} → Step sel (set_timeout timeout sel)

pub data Reach : Select → Type 0 where
  begin : Reach new_control
  next : {sel sel' : Select} → Reach sel → Step sel sel' → Reach sel'

pub record IsGood (sel : Select) : Type 0 where
  pub order : Ascending sel.sockets
  pub watched : All IsWatched sel.sockets

-- A new connection.
new_client_socket-IsWatched : (fd : ℕ) → IsWatched (new_client_socket fd true)
unfolding new_client_socket new_socket
new_client_socket-IsWatched fd = record {
  mode = refl;
  told = refl;
  left = refl;
  fits = omega arith;
}

read_turn-IsWatched :
    (b : Bool) (answers : List Answer) (s : Socket) (t : Turn)
    → read_turn b answers s ≡ ok t
    → IsWatched s
    → IsWatched t.socket
read_turn-IsWatched b answers s t h v =
    subst IsWatched (sym (read_turn-ReadsOnly b answers s t h))
      (record { mode = v.mode; told = v.told; left = v.left; fits = v.fits })

send-fits :
    (s : Socket) (answers : List Taken) (r : Sent)
    → send s answers ≡ ok r
    → length s.write_buf ≤ buf_max_size
    → length r.socket.write_buf ≤ buf_max_size
send-fits s answers r h fits =
    omega (arith, ap length (send_stream s answers r h).0, length-append r.wire r.socket.write_buf)

write_turn-IsWatched :
    (b : Bool) (answers : List Taken) (t u : Turn)
    → write_turn b answers t ≡ ok u
    → IsWatched t.socket
    → u.send_closed ≡ false
    → IsWatched u.socket
unfolding write_turn
write_turn-IsWatched false answers t u h v c =
    subst (λ (x : Turn). IsWatched x.socket) (ok-injective h) v
write_turn-IsWatched true answers t u h v c =
    let (r, e, h1) = >>=-eq-ok (send t.socket answers) _ h in
    let (closed, e1, h2) = >>=-eq-ok (is_close r.outcome) _ h1 in
    subst (λ (x : Turn). IsWatched x.socket) (ok-injective h2)
      (send-IsWatched t.socket answers r e
        (e1 ∙ ap ok (ap (λ (x : Turn). x.send_closed) (ok-injective h2) ∙ c)) v.mode v.told
        (send-fits t.socket answers r e v.fits))

is_shut-send : (t : Turn) → is_shut t ≡ false → t.send_closed ≡ false
is_shut-send t h = elim (Bool-cases t.recv_closed) [ inl e ↦ cc (rw e at h) | inr e ↦ rw e at h ]

turn-IsWatched :
    (answers : ℕ → Answers) (s : Socket) (t : Turn)
    → turn answers s ≡ ok t
    → IsWatched s
    → is_shut t ≡ false
    → IsWatched t.socket
unfolding turn
turn-IsWatched answers s t h v c =
    let (u, e, h1) = >>=-eq-ok (read_turn _ _ s) _ h in
    write_turn-IsWatched _ _ u t h1 (read_turn-IsWatched _ _ s u e v) (is_shut-send t c)

open_cons :
    (shut : Bool) (s : Socket) (ss : List Socket)
    → (shut ≡ false → IsWatched s)
    → All IsWatched ss
    → All IsWatched (if shut then ss else s ∷ ss)
open_cons true s ss p a = a
open_cons false s ss p a = (p refl, a)

turns-IsWatched :
    (answers : ℕ → Answers) (ss : List Socket) (ts : List Turn)
    → turns answers ss ≡ ok ts
    → All IsWatched ss
    → All IsWatched (open_sockets ts)
unfolding turns open_sockets
turns-IsWatched answers [] ts h v =
    subst (λ (x : List Turn). All IsWatched (open_sockets x)) (ok-injective h) tt
turns-IsWatched answers (s ∷ ss) ts h v =
    let (t, e, h1) = >>=-eq-ok (turn answers s) _ h in
    let (us, e1, h2) = >>=-eq-ok (turns answers ss) _ h1 in
    subst (λ (x : List Turn). All IsWatched (open_sockets x)) (ok-injective h2)
      (open_cons (is_shut t) t.socket (open_sockets us) (turn-IsWatched answers s t e v.0)
        (turns-IsWatched answers ss us e1 v.1))

open_sockets-All :
    (P : Socket → Type 0) (ts : List Turn) → All P (map socket_of ts) → All P (open_sockets ts)
unfolding open_sockets
open_sockets-All P [] a = tt
open_sockets-All P (t ∷ ts) a = elim (Bool-cases (is_shut t)) [
  | inl e ↦ rw e (open_sockets-All P ts a.1)
  | inr e ↦ rw e (a.0, open_sockets-All P ts a.1)
]

open_sockets-Ascending :
    (ts : List Turn) → Ascending (map socket_of ts) → Ascending (open_sockets ts)
unfolding open_sockets
open_sockets-Ascending [] h = tt
open_sockets-Ascending (t ∷ ts) h = elim (Bool-cases (is_shut t)) [
  | inl e ↦ rw e (open_sockets-Ascending ts h.1)
  | inr e ↦ rw e (
    open_sockets-All (λ (u : Socket). t.socket.cfd < u.cfd) ts h.0,
    open_sockets-Ascending ts h.1,
  )
]

with_sockets-IsGood : (sel sel' : Select) → sel'.sockets ≡ sel.sockets → IsGood sel → IsGood sel'
with_sockets-IsGood sel sel' e g = record {
  order = subst Ascending (sym e) g.order;
  watched = subst (All IsWatched) (sym e) g.watched;
}

connected-IsGood :
    (b : Bool) (fd : Option ℕ) (sel : Select) → IsGood sel → IsGood (connected b fd sel).1
unfolding connected add start
connected-IsGood false fd sel g = g
connected-IsGood true none sel g = g
connected-IsGood true (some fd) sel g = record {
  order = insert_socket-Ascending (new_client_socket fd true) sel.sockets g.order;
  watched =
      insert_socket-All IsWatched (new_client_socket fd true) sel.sockets
        (new_client_socket-IsWatched fd) g.watched;
}

send_package-IsGood :
    (fd : ℕ) (body : List ℕ) (answers : List Taken) (sel : Select) (r : SendResult)
    → send_package fd body answers sel ≡ ok r
    → IsGood sel
    → IsGood r.select
send_package-IsGood fd body answers sel r h g =
    elim (package_or_nothing fd body answers sel r g.watched h) [
      | inl (absent, same) ↦
          with_sockets-IsGood sel r.select (ap (λ (x : SendResult). x.select.sockets) same) g
      | inr (s, e, at_fd, inl (full, same)) ↦
          with_sockets-IsGood sel r.select (ap (λ (x : SendResult). x.select.sockets) same) g
      | inr (s, e, at_fd, inr (inl (w, t, wrote, done, v, c, wire, stream, result, kept))) ↦
          with_sockets-IsGood (record sel { sockets = put_socket t sel.sockets }) r.select
            (ap (λ (x : Select). x.sockets) kept)
            (record {
              order = put_socket-Ascending t sel.sockets g.order;
              watched = put_socket-All IsWatched t sel.sockets (λ u q w. v) g.watched;
            })
      | inr (s, e, at_fd, inr (inr (w, t, wrote, closed, c, wire, stream, result, gone))) ↦
          with_sockets-IsGood (record sel { sockets = erase_socket fd sel.sockets }) r.select
            (ap (λ (x : Select). x.sockets) gone
              ∙ remove-sockets fd (record sel { sockets = put_socket t sel.sockets })
              ∙ subst (λ n. erase_socket n (put_socket t sel.sockets) ≡ erase_socket n sel.sockets)
                  c (erase_socket-put_socket t sel.sockets))
            (record {
              order = erase_socket-Ascending fd sel.sockets g.order;
              watched = erase_socket-All IsWatched fd sel.sockets g.watched;
            })
    ]

-- A round in which `select` failed or timed out.
work_quiet :
    (answer : Selected) (sel : Select) (r : Select × List Handed)
    → ((s : Select) → work_on answer s ≡ ok (s, []))
    → work answer sel ≡ ok r
    → r.0.sockets ≡ sel.sockets
unfolding work
work_quiet answer sel r quiet h =
    let ((w, waiting), e, h1) = >>=-eq-ok (prepare sel) _ h in
    sym (ap (λ (x : Select × List Handed). x.0.sockets) (ok-injective (sym (quiet waiting) ∙ h1)))
    ∙ ap (λ (x : Select). x.sockets) (prepare-eq sel w waiting e)

work-IsGood :
    (answer : Selected) (sel : Select) (r : Select × List Handed)
    → work answer sel ≡ ok r
    → IsGood sel
    → IsGood r.0
unfolding work_on
work-IsGood failed sel r h g = with_sockets-IsGood sel r.0 (work_quiet failed sel r (λ s. refl) h) g
work-IsGood timed_out sel r h g =
    with_sockets-IsGood sel r.0 (work_quiet timed_out sel r (λ s. refl) h) g
work-IsGood (ready answers) sel r h g =
    let (ts, e, left, closed) = round_closes_once answers sel r g.order h in
    with_sockets-IsGood (record sel { sockets = open_sockets ts }) r.0 left
      (record {
        order = open_sockets-Ascending ts (turns-Ascending answers sel.sockets ts e g.order);
        watched = turns-IsWatched answers sel.sockets ts e g.watched;
      })

Step-IsGood : {sel sel' : Select} → Step sel sel' → IsGood sel → IsGood sel'
unfolding connect_server_socket set_timeout
Step-IsGood (connects k {sel}) g = connected-IsGood _ _ sel g
Step-IsGood (sends fd body answers {sel} {r} h) g = send_package-IsGood fd body answers sel r h g
Step-IsGood (rounds answer {sel} {r} h) g = work-IsGood answer sel r h g
Step-IsGood (times timeout {sel}) g = with_sockets-IsGood sel _ refl g

-- After any connections, packages, rounds and SetTimeout calls, the client's map is in the order of its
-- descriptors, and every socket in it does not block, has its buffer within its capacity, and is one
-- that the loop waits to write on exactly if bytes are left in that buffer.
pub Reach-IsGood : {sel : Select} → Reach sel → IsGood sel
unfolding new_control set_timeout new_select
Reach-IsGood begin = record { order = tt; watched = tt }
Reach-IsGood (next r s) = Step-IsGood s (Reach-IsGood r)
