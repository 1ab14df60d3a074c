-- ===== src/Net/Listen/Accepts.antt =====
-- ServerSocket.cpp and SocketControl.cpp: what Init leaves open, and what an event of the server's socket
-- does to the kernel's set and to the clients.
use socket_message.Prelude.{
  ℕ, ◌+◌, ◌≡◌, ◌⊎◌, inl, inr, refl, sym, ap, ◌∙◌, Bool, true, false, not, ◌&&◌, ◌||◌, Option, none,
  some, List, [], ◌∷◌, arith, ltb, ◌==◌, ==_refl, if◌then◌else◌, length, Bool-cases, Option-cases,
}
use socket_message.Wire.Bytes.{is_neg}
use socket_message.Net.Interest.{Epoll, Events, add, remove, add_client_read}
use socket_message.Net.Control.{client_connect}
use socket_message.Net.Listen.{
  Kernel, Listener, Server, init, init_socket, open_fd, close_fd, erase_fd, set_non_block,
  set_non_block_of, init_server, connect_client, accept, watch_server, unwatch_server, server_event,
  accept_task,
}

-- What a descriptor is registered for at first.
abbrev pub reads_only : Events
reads_only = record { is_read = true; is_write = false }

-- The descriptors that a call of Accept takes.
unfoldable pub accepted : Bool → List ℕ → List ℕ
accepted mode [] = []
accepted mode (cfd ∷ answers) =
    let rest = accepted mode answers in
    if ltb 0 cfd && not (is_neg cfd) then (if mode then cfd ∷ rest else cfd ∷ []) else []

abbrev pub has : ℕ → List ℕ → Bool
has k [] = false
has k (n ∷ ns) = (k == n) || has k ns

-- A registration that was there stays; another one is made for reading.
unfoldable pub with_new : Option Events → Bool → Option Events
with_new (some e) b = some e
with_new none true = some reads_only
with_new none false = none

with_new-or : (o : Option Events) (a b : Bool) → with_new (with_new o a) b ≡ with_new o (a || b)
unfolding with_new
with_new-or (some e) a b = refl
with_new-or none true b = refl
with_new-or none false b = refl

with_new-false : (o : Option Events) → with_new o false ≡ o
unfolding with_new
with_new-false (some e) = refl
with_new-false none = refl

or_false : (b : Bool) → b ≡ (b || false)
or_false true = refl
or_false false = refl

==_eq : (k fd : ℕ) → (k == fd) ≡ true → k ≡ fd
==_eq k fd h = ground arith

-- By the test `k == fd`.
add_none :
    (b : Bool) (o : Option Events)
    → (b ≡ true → o ≡ none)
    → (if b then some reads_only else o) ≡ with_new o b
unfolding with_new
add_none true o h = rw (h refl)
add_none false o h = sym (with_new-false o)

add_some : (b : Bool) (o : Option Events) {e : Events} → (b ≡ true → o ≡ some e) → o ≡ with_new o b
unfolding with_new
add_some true o h = rw (h refl)
add_some false o h = sym (with_new-false o)

add_at :
    (o : Option Events) (ep : Epoll) (fd k : ℕ)
    → ep fd ≡ o
    → add ep fd false true k ≡ with_new (ep k) (k == fd)
unfolding add
add_at none ep fd k e = rw (e, add) (add_none (k == fd) (ep k) (λ h. ap ep (==_eq k fd h) ∙ e))
add_at (some v) ep fd k e = rw (e, add) (add_some (k == fd) (ep k) (λ h. ap ep (==_eq k fd h) ∙ e))

connect_client-epoll :
    (cfd k : ℕ) (s : Server) → (connect_client cfd s).epoll k ≡ with_new (s.epoll k) (k == cfd)
unfolding connect_client add_client_read
connect_client-epoll cfd k s = add_at (s.epoll cfd) s.epoll cfd k refl

accept-epoll :
    (mode : Bool) (answers : List ℕ) (k : ℕ) (s : Server)
    → (accept mode answers s).epoll k ≡ with_new (s.epoll k) (has k (accepted mode answers))
unfolding accept accepted
accept-epoll mode [] k s = sym (with_new-false (s.epoll k))
accept-epoll mode (cfd ∷ answers) k s = elim (Bool-cases (ltb 0 cfd && not (is_neg cfd))) [
  | inr stop ↦ rw stop (sym (with_new-false (s.epoll k)))
  | inl go ↦ elim (Bool-cases mode) [
    | inl m ↦
        rw (go, m)
          (accept-epoll mode answers k (connect_client cfd s)
            ∙ ap (λ o. with_new o (has k (accepted mode answers))) (connect_client-epoll cfd k s)
            ∙ with_new-or (s.epoll k) (k == cfd) (has k (accepted mode answers)))
    | inr m ↦
        rw (go, m) (connect_client-epoll cfd k s ∙ ap (with_new (s.epoll k)) (or_false (k == cfd)))
  ]
]

accept-control :
    (mode : Bool) (answers : List ℕ) (s : Server)
    → ((accept mode answers s).control.client_socket_count
        ≡ s.control.client_socket_count + length (accepted mode answers))
      × ((accept mode answers s).listener ≡ s.listener)
unfolding accept accepted connect_client client_connect
accept-control mode [] s = (omega arith, refl)
accept-control mode (cfd ∷ answers) s = elim (Bool-cases (ltb 0 cfd && not (is_neg cfd))) [
  | inr stop ↦ rw stop (omega arith, refl)
  | inl go ↦ elim (Bool-cases mode) [
    | inl m ↦
        let ih = accept-control mode answers (connect_client cfd s) in
        rw (go, m) (omega (arith, ih.0), ih.1)
    | inr m ↦ rw (go, m) (omega arith, refl)
  ]
]

-- What the kernel has of `k` behind an event of the server's socket `sfd` and its task.
abbrev pub after_accept : ℕ → List ℕ → Epoll → ℕ → Option Events
after_accept sfd new ep k = if k == sfd then some reads_only else with_new (ep k) (has k new)

with_new_twice :
    (b c : Bool) (o : Option Events)
    → with_new (with_new (if b then none else o) c) b
      ≡ (if b then some reads_only else with_new o c)
unfolding with_new
with_new_twice true true o = refl
with_new_twice true false o = refl
with_new_twice false true (some e) = refl
with_new_twice false true none = refl
with_new_twice false false (some e) = refl
with_new_twice false false none = refl

-- An event of the listening socket `sfd`, with the task that it queues, over any answers of `accept`: the
-- kernel waits on `sfd` for reading again, and for reading on each new descriptor, unless it waited on
-- that one before; its registration of any other is unchanged, and m_ClientSocketCount has grown by the
-- number of new connections, which are the answers up to the first that is not above 0, or the first
-- alone where the socket blocks.
pub accept_task_watches :
    (sfd k : ℕ) (answers : List ℕ) (s : Server)
    → s.listener.sfd ≡ some sfd
    → ((accept_task answers (server_event s)).epoll k
        ≡ after_accept sfd (accepted s.listener.is_non_block answers) s.epoll k)
      × ((accept_task answers (server_event s)).control.client_socket_count
          ≡ s.control.client_socket_count + length (accepted s.listener.is_non_block answers))
unfolding accept_task server_event unwatch_server watch_server remove
accept_task_watches sfd k answers s e =
    let mode = s.listener.is_non_block in
    let t : Server = record s { epoll = unwatch_server s.listener.sfd s.epoll } in
    let (count, kept) = accept-control mode answers t in
    (
      ap (λ o. watch_server o (accept mode answers t).epoll k)
            (ap (λ (l : Listener). l.sfd) kept ∙ e)
          ∙ add_at _ (accept mode answers t).epoll sfd k refl
          ∙ ap (λ o. with_new o (k == sfd))
              (accept-epoll mode answers k t
                ∙ ap (λ o. with_new (unwatch_server o s.epoll k) (has k (accepted mode answers))) e)
          ∙ with_new_twice (k == sfd) (has k (accepted mode answers)) (s.epoll k),
      count,
    )

-- SocketControl::Init: it was initialised before, and nothing changes; or all of its calls succeeded, and
-- it has one more descriptor, the listening one, which does not block and is added to the kernel's set;
-- or it returns false, and has no descriptor that it had not before, and no other change.
pub init_server_ends :
    (k : Kernel) (timeout : ℕ) (s : Server)
    → ((s.is_init ≡ true) × (init_server k timeout s ≡ (true, s)))
      ⊎ (((fd : ℕ) × (k.socket ≡ some fd)
            × (k.bound ≡ true)
            × (k.listening ≡ true)
            × (init_server k timeout s ≡ (
              true,
              record s {
                listener = record {
                  sfd = some fd;
                  is_non_block = true;
                  open_fds = fd ∷ s.listener.open_fds;
                };
                epoll = add s.epoll fd false true;
                epoll_timeout = timeout;
                is_init = true;
              },
            )))
          ⊎ (init_server k timeout s ≡ (false, s)))
unfolding init_server init init_socket open_fd close_fd erase_fd set_non_block set_non_block_of
    watch_server
init_server_ends k timeout s = elim (Bool-cases s.is_init) [
  | inl done ↦ inl (done, rw done)
  | inr new ↦ inr (elim (Option-cases k.socket) [
    | inl n ↦ inr (rw (new, n) refl)
    | inr (fd, o) ↦ elim (Bool-cases k.bound) [
      | inr nb ↦ inr (rw (new, o, nb, ==_refl fd) refl)
      | inl b ↦ elim (Bool-cases k.listening) [
        | inr nl ↦ inr (rw (new, o, b, nl, ==_refl fd) refl)
        | inl l ↦ inl (fd, o, b, l, rw (new, o, b, l) refl)
      ]
    ]
  ])
]
