-- ===== src/Client/Control/Sending.antt =====
-- SocketControl.cpp of the client: what SendPackage does to the map and to the socket of its package.
use socket_message.Prelude.{
  ℕ, ◌+◌, ◌-◌, ◌≤◌, ◌<◌, ◌≡◌, refl, sym, ap, subst, ◌∙◌, Bool, true, false, not, Option, none, some,
  List, [], ◌∷◌, ◌++◌, ◌⊎◌, inl, inr, arith, ltb, ◌==◌, if◌then◌else◌, length, All, Bool-cases,
  le→ltb, ltb→le, ltb→lt, Option-cases, some-injective,
}
use socket_message.Net.Result.{ok, ◌>>=◌, >>=-eq-ok, ok-injective}
use socket_message.Net.Framing.{frame, socket_head_size}
use socket_message.Net.Framing.Complete.{length-frame}
use socket_message.Net.ClientSocket.{
  Socket, Taken, Sent, Outcome, socket_close, finished, running, buf_max_size, size_for_empty_write,
  same, send, write,
}
use socket_message.Net.ClientSocket.Writing.{send_stream, send_tells_left, write_all_or_nothing}
use socket_message.Net.ClientSocket.Frames.{send-WritesOnly}
use socket_message.Client.Select.{
  Select, get_client_socket, socket_at, remove, write_callback, is_close,
}
use socket_message.Client.Control.{SendResult, put_socket, after_write, send_to, send_package}

-- A socket of the select loop as it is between two calls: it does not block, and the loop waits to write
-- on it exactly while bytes are left in its buffer, which stays within its capacity.
pub record IsWatched (s : Socket) : Type 0 where
  pub mode : s.is_non_block ≡ true
  pub told : s.cfd_is_write ≡ s.is_writing
  pub left : s.is_writing ≡ not (length s.write_buf == 0)
  pub fits : length s.write_buf ≤ buf_max_size

is_close-finished : (o : Outcome) → is_close o ≡ ok false → o ≡ finished
unfolding is_close
is_close-finished socket_close h = absurd (cc (ok-injective h))
is_close-finished finished h = refl
is_close-finished running h = cc

is_close-closed : (o : Outcome) → is_close o ≡ ok true → o ≡ socket_close
unfolding is_close
is_close-closed socket_close h = refl
is_close-closed finished h = absurd (cc (ok-injective h))
is_close-closed running h = cc

callback_told :
    (old new : Bool) (t : Socket)
    → t.cfd_is_write ≡ old
    → (write_callback (if same old new then none else some new) t).cfd_is_write ≡ new
unfolding write_callback
callback_told true true t h = h
callback_told true false t h = refl
callback_told false true t h = refl
callback_told false false t h = h

write_callback-buf :
    (o : Option Bool) (t : Socket)
    → (write_callback o t ≡ record t { cfd_is_write = (write_callback o t).cfd_is_write })
unfolding write_callback
write_callback-buf none t = refl
write_callback-buf (some b) t = refl

-- Behind a Send that returned 0, with its callback.
pub send-IsWatched :
    (s : Socket) (answers : List Taken) (r : Sent)
    → send s answers ≡ ok r
    → is_close r.outcome ≡ ok false
    → s.is_non_block ≡ true
    → s.cfd_is_write ≡ s.is_writing
    → length r.socket.write_buf ≤ buf_max_size
    → IsWatched (write_callback r.callback r.socket)
send-IsWatched s answers r h done mode told fits =
    let only = send-WritesOnly s answers r h in
    subst IsWatched (sym (write_callback-buf r.callback r.socket)) (record {
      mode = ap (λ (t : Socket). t.is_non_block) only ∙ mode;
      told =
          subst (λ o. (write_callback o r.socket).cfd_is_write ≡ r.socket.is_writing)
            (sym (send_stream s answers r h).2)
            (callback_told s.is_writing r.socket.is_writing r.socket
              (ap (λ (t : Socket). t.cfd_is_write) only ∙ told));
      left = send_tells_left s answers r h (is_close-finished r.outcome done) mode;
      fits = fits;
    })

-- Write of data that fits is Send on the longer buffer.
write-send :
    (s : Socket) (more : List ℕ) (answers : List Taken)
    → length more ≤ buf_max_size - length s.write_buf
    → write s more answers ≡ send (record s { write_buf = s.write_buf ++ more }) answers
unfolding write
write-send s more answers fits = rw (le→ltb (buf_max_size - length s.write_buf) (length more) fits)

-- How SendPackage can end, for a socket `s` of the map with room, by what Write returned: the package is
-- kept, or the connection was found closed.
abbrev pub Kept : List ℕ → List Taken → Socket → Select → SendResult → Type 0
Kept body answers s sel r =
    (w : Sent) × (t : Socket) × (write s (frame body) answers ≡ ok w)
    × (w.outcome ≡ finished)
    × IsWatched t
    × (t.cfd ≡ s.cfd)
    × (r.wire ≡ w.wire)
    × (r.wire ++ t.write_buf ≡ s.write_buf ++ frame body)
    × (r.result ≡ true)
    × (r.select ≡ record sel { sockets = put_socket t sel.sockets })

abbrev pub Closed : ℕ → List ℕ → List Taken → Socket → Select → SendResult → Type 0
Closed fd body answers s sel r =
    (w : Sent) × (t : Socket) × (write s (frame body) answers ≡ ok w)
    × (w.outcome ≡ socket_close)
    × (t.cfd ≡ fd)
    × (r.wire ≡ w.wire)
    × (r.wire ++ t.write_buf ≡ s.write_buf ++ frame body)
    × (r.result ≡ false)
    × (r.select ≡ remove fd (record sel { sockets = put_socket t sel.sockets }))

after_write-cases :
    (fd : ℕ) (body : List ℕ) (answers : List Taken) (s t : Socket) (sel : Select) (w : Sent)
    (closed : Bool) (r : SendResult)
    → write s (frame body) answers ≡ ok w
    → is_close w.outcome ≡ ok closed
    → t.cfd ≡ s.cfd
    → s.cfd ≡ fd
    → w.wire ++ t.write_buf ≡ s.write_buf ++ frame body
    → (closed ≡ false → IsWatched t)
    → ok (record {
      result = if closed then false else true;
      select =
          if closed
          then remove fd (record sel { sockets = put_socket t sel.sockets })
          else record sel { sockets = put_socket t sel.sockets };
      wire = w.wire;
    })
      ≡ ok r
    → Kept body answers s sel r ⊎ Closed fd body answers s sel r
after_write-cases fd body answers s t sel w true r e c same_cfd at_fd stream watched h = inr (
    subst (Closed fd body answers s sel) (ok-injective h)
      (w, t, e, is_close-closed w.outcome c, same_cfd ∙ at_fd, refl, stream, refl, refl))
after_write-cases fd body answers s t sel w false r e c same_cfd at_fd stream watched h = inl (
    subst (Kept body answers s sel) (ok-injective h)
      (w, t, e, is_close-finished w.outcome c, watched refl, same_cfd, refl, stream, refl, refl))

write_fits :
    (s : Socket) (more : List ℕ) (answers : List Taken) (w : Sent)
    → length s.write_buf ≤ buf_max_size
    → length more ≤ buf_max_size - length s.write_buf
    → write s more answers ≡ ok w
    → (w.wire ++ w.socket.write_buf ≡ s.write_buf ++ more)
      × (length w.socket.write_buf ≤ buf_max_size)
write_fits s more answers w fits room e = elim (write_all_or_nothing s more answers w fits e) [
  | inl (le, stream, within) ↦ (stream, within)
  | inr (over, same) ↦ absurd (omega arith)
]

-- SendPackage for a socket of the map, with room for the package behind its size.
send_with_room :
    (fd : ℕ) (body : List ℕ) (answers : List Taken) (s : Socket) (sel : Select) (r : SendResult)
    → IsWatched s
    → s.cfd ≡ fd
    → length body + socket_head_size ≤ buf_max_size - length s.write_buf
    → (write s (frame body) answers >>= λ w. after_write fd sel w) ≡ ok r
    → Kept body answers s sel r ⊎ Closed fd body answers s sel r
unfolding after_write
send_with_room fd body answers s sel r v at_fd room h =
    let (w, e, h1) = >>=-eq-ok (write s (frame body) answers) _ h in
    let (closed, e1, h2) = >>=-eq-ok (is_close w.outcome) _ h1 in
    let le : length (frame body) ≤ buf_max_size - length s.write_buf =
      omega (arith, length-frame body) in
    let longer : Socket = record s { write_buf = s.write_buf ++ frame body } in
    let sent : send longer answers ≡ ok w = sym (write-send s (frame body) answers le) ∙ e in
    let (stream, fits) = write_fits s (frame body) answers w v.fits le e in
    let same_buf = write_callback-buf w.callback w.socket in
    after_write-cases fd body answers s (write_callback w.callback w.socket) sel w closed r e e1
      (ap (λ (t : Socket). t.cfd) same_buf
        ∙ ap (λ (t : Socket). t.cfd) (send-WritesOnly longer answers w sent))
      at_fd (ap (λ (t : Socket). w.wire ++ t.write_buf) same_buf ∙ stream)
      (λ c. send-IsWatched longer answers w sent (e1 ∙ ap ok c) v.mode v.told fits) h2

socket_at-cfd : (fd : ℕ) (ss : List Socket) (s : Socket) → socket_at fd ss ≡ some s → s.cfd ≡ fd
unfolding socket_at
socket_at-cfd fd [] s h = cc
socket_at-cfd fd (t ∷ ts) s h = elim (Bool-cases (t.cfd == fd)) [
  | inl e ↦ subst (λ (x : Socket). x.cfd ≡ fd) (some-injective _ _ (rw e at h)) (ground arith)
  | inr e ↦ socket_at-cfd fd ts s (rw e at h)
]

pub socket_at-All :
    (P : Socket → Type 0) (fd : ℕ) (ss : List Socket) (s : Socket)
    → All P ss
    → socket_at fd ss ≡ some s
    → P s
unfolding socket_at
socket_at-All P fd [] s a h = cc
socket_at-All P fd (t ∷ ts) s a h = elim (Bool-cases (t.cfd == fd)) [
  | inl e ↦ subst P (some-injective _ _ (rw e at h)) a.0
  | inr e ↦ socket_at-All P fd ts s a.1 (rw e at h)
]

-- SendPackage changes nothing and sends nothing.
abbrev pub Refused : Select → SendResult → Type 0
Refused sel r = r ≡ record { result = false; select = sel; wire = [] }

send_to-cases :
    (fd : ℕ) (body : List ℕ) (answers : List Taken) (s : Socket) (sel : Select) (r : SendResult)
    → IsWatched s
    → s.cfd ≡ fd
    → send_to (some s) fd body answers sel ≡ ok r
    → ((buf_max_size < length s.write_buf + (length body + socket_head_size)) × Refused sel r)
      ⊎ (Kept body answers s sel r ⊎ Closed fd body answers s sel r)
unfolding send_to size_for_empty_write
send_to-cases fd body answers s sel r v at_fd h =
    elim (Bool-cases (ltb (size_for_empty_write s) (length body + socket_head_size))) [
      | inl over ↦ inl (
        omega
            (arith, v.fits, ltb→lt (size_for_empty_write s) (length body + socket_head_size) over),
        sym (ok-injective (rw over at h)),
      )
      | inr room ↦ inr (
          send_with_room fd body answers s sel r v at_fd
            (ltb→le (size_for_empty_write s) (length body + socket_head_size) room) (rw room at h))
    ]

-- SendPackage on a map whose sockets are as they are between two calls: without a socket of the
-- descriptor, or without room in its buffer for the package and its size, it returns false and
-- changes and sends nothing. Otherwise Write returned SOCKET_CLOSE, and the socket is removed with
-- false; or Write returned 0, and it returns true and keeps the socket, with the loop waiting to
-- write on it exactly if bytes are left. Both ways what the kernel took, before what is left in the
-- buffer, is the old buffer and then the package behind its size.
pub package_or_nothing :
    (fd : ℕ) (body : List ℕ) (answers : List Taken) (sel : Select) (r : SendResult)
    → All IsWatched sel.sockets
    → send_package fd body answers sel ≡ ok r
    → ((get_client_socket fd sel ≡ none) × Refused sel r)
      ⊎ ((s : Socket) × (get_client_socket fd sel ≡ some s)
          × (s.cfd ≡ fd)
          × (((buf_max_size < length s.write_buf + (length body + socket_head_size))
                × Refused sel r)
              ⊎ (Kept body answers s sel r ⊎ Closed fd body answers s sel r)))
unfolding send_package get_client_socket
package_or_nothing fd body answers sel r v h = elim (Option-cases (socket_at fd sel.sockets)) [
  | inl n ↦ inl (n, unfold send_to in sym (ok-injective (rw n at h)))
  | inr (s, e) ↦
      let at_fd = socket_at-cfd fd sel.sockets s e in
      inr (
        s,
        e,
        at_fd,
        send_to-cases fd body answers s sel r (socket_at-All IsWatched fd sel.sockets s v e) at_fd
            (sym (ap (λ o. send_to o fd body answers sel) e) ∙ h),
      )
]
