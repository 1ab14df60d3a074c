-- ===== src/Server/Main/Joins.antt =====
-- MainControl.cpp: what the start and the callbacks guarantee.
use socket_message.Prelude.{
  ℕ, ◌+◌, ◌-◌, ◌≡◌, refl, sym, ap, subst, ◌∙◌, false, Option, none, some, List, [], ◌∷◌, ◌++◌,
  if◌then◌else◌, ◌==◌, length, drop, arith, ltb, append-nil, append_assoc, drop-append_length,
  Bool-cases, Option-cases, inl, inr,
}
use socket_message.Wire.Bytes.{name_size}
use socket_message.Net.Framing.{frame, socket_head_size}
use socket_message.Net.ClientSocket.{Socket, size_for_empty_write}
use socket_message.Net.Control.{
  Control, Client, Task, Notice, get_client_socket, client_socket_close, close_and_delete,
  send_package, erase_client,
}
use socket_message.Net.Control.Entries.{entries, entries-erase_client}
use socket_message.Server.Online.{Entry, erase_first, client_socket_state}
use socket_message.Server.Database.{MySql}
use socket_message.Server.DataHandler.{ok, >>=-eq-ok, ok-injective, Sent, thread_work}
use socket_message.Server.Blocks.Sent.{sent_is_well_sized}
use socket_message.Server.Main.{Main, notify, main_close, accepted, send_all, main_work}

-- The users who are online at `k`, and those who are not.
abbrev pub users_at : ℕ → List Entry → List Entry
users_at k [] = []
users_at k (e ∷ m) = let rest = users_at k m in if e.cfd == k then e ∷ rest else rest

abbrev pub users_off : ℕ → List Entry → List Entry
users_off k [] = []
users_off k (e ∷ m) = let rest = users_off k m in if e.cfd == k then rest else e ∷ rest

-- What a close of `fd` leaves, by the client that it has: one entry of the map of clients is gone, m_ClientSocketCount
-- is one less, and the state callback was told; the first of the users at `fd` is off the map of online
-- users, and nothing else has changed.
abbrev pub Closes : Option Socket → ℕ → ℕ → Main → Main → Type 0
Closes none fd k m t = t ≡ m
Closes (some _) fd k m t =
    (entries k t.control.clients + (if fd == k then 1 else 0) ≡ entries k m.control.clients)
    × (t.control ≡ record (m.control) {
      clients = t.control.clients;
      client_socket_count = m.control.client_socket_count - 1;
      notices = m.control.notices ++ record { cfd = fd; is_open = false } ∷ [];
    })
    × (users_at fd t.handler.online ≡ drop 1 (users_at fd m.handler.online))
    × (users_off fd t.handler.online ≡ users_off fd m.handler.online)
    × (t.handler ≡ record (m.handler) { online = t.handler.online })

users_at-erase_first :
    (k : ℕ) (m : List Entry) → users_at k (erase_first k m) ≡ drop 1 (users_at k m)
unfolding erase_first
users_at-erase_first k [] = refl
users_at-erase_first k (e ∷ m) = ground (arith, users_at-erase_first k m)

users_off-erase_first : (k : ℕ) (m : List Entry) → users_off k (erase_first k m) ≡ users_off k m
unfolding erase_first
users_off-erase_first k [] = refl
users_off-erase_first k (e ∷ m) = ground (arith, users_off-erase_first k m)

notify-closed :
    (notices : List Notice) (fd : ℕ) (m : List Entry)
    → notify (drop (length notices) (notices ++ record { cfd = fd; is_open = false } ∷ [])) m
      ≡ erase_first fd m
unfolding notify client_socket_state
notify-closed notices fd m =
    ap (λ ns. notify ns m) (drop-append_length notices (record { cfd = fd; is_open = false } ∷ []))

notify-none :
    (notices : List Notice) (m : List Entry) → notify (drop (length notices) notices) m ≡ m
unfolding notify
notify-none notices m =
    ap (λ ns. notify (drop (length notices) ns) m) (sym (append-nil notices))
    ∙ ap (λ ns. notify ns m) (drop-append_length notices [])

close_none :
    (fd : ℕ) (c : Control) → get_client_socket fd c.clients ≡ none → client_socket_close fd c ≡ c
unfolding client_socket_close
close_none fd c n = ground arith

close_some :
    (fd : ℕ) (s : Socket) (c : Control)
    → get_client_socket fd c.clients ≡ some s
    → client_socket_close fd c ≡ record c {
      clients = erase_client fd c.clients;
      client_socket_count = c.client_socket_count - 1;
      notices = c.notices ++ record { cfd = fd; is_open = false } ∷ [];
    }
unfolding client_socket_close close_and_delete
close_some fd s c e = ground arith

-- ClientSocketClose, from what the SocketControl is behind it.
main_close-control :
    (fd : ℕ) (m : Main) (c : Control)
    → client_socket_close fd m.control ≡ c
    → main_close fd m ≡ record {
      control = c;
      handler = record (m.handler) {
        online = notify (drop (length m.control.notices) c.notices) m.handler.online;
      };
    }
unfolding main_close
main_close-control fd m c e = λ i. record {
  control = e i;
  handler = record (m.handler) {
    online = notify (drop (length m.control.notices) (e i).notices) m.handler.online;
  };
}

-- A close of a descriptor that has a client takes one entry of it out of the map of clients and none of
-- another, counts one client less, and tells the state callback; the first of the users online at the
-- descriptor goes off the map, so that the second of two who logged in over one connection stays, and
-- those of other descriptors are as before, and so is all else. Of a descriptor without a client nothing
-- at all changes.
pub main_close_offline :
    (fd other : ℕ) (m : Main)
    → Closes (get_client_socket fd m.control.clients) fd other m (main_close fd m)
main_close_offline fd other m = elim (Option-cases (get_client_socket fd m.control.clients)) [
  | inl n ↦ rw n (
      main_close-control fd m m.control (close_none fd m.control n)
      ∙ ap (λ o. record m { handler = record (m.handler) { online = o } })
          (notify-none m.control.notices m.handler.online))
  | inr (s, e) ↦ rw e (
      subst (Closes (some s) fd other m)
        (sym (
          main_close-control fd m _ (close_some fd s m.control e)
          ∙ ap
              (λ o. record {
                control = record (m.control) {
                  clients = erase_client fd m.control.clients;
                  client_socket_count = m.control.client_socket_count - 1;
                  notices = m.control.notices ++ record { cfd = fd; is_open = false } ∷ [];
                };
                handler = record (m.handler) { online = o };
              })
              (notify-closed m.control.notices fd m.handler.online)))
        (
          entries-erase_client other fd s m.control.clients e,
          refl,
          users_at-erase_first fd m.handler.online,
          users_off-erase_first fd m.handler.online,
          refl,
        ))
]

-- The tasks that SendPackage queues for the packages of a list: one for each whose descriptor has a client
-- with room for it and its size.
unfoldable pub task_of : Option Socket → Sent → List Task
task_of none p = []
task_of (some s) p =
    if ltb (size_for_empty_write s) (length p.block + socket_head_size)
    then []
    else record { cfd = p.cfd; send_data = frame p.block } ∷ []

unfoldable pub tasks_of : List Client → List Sent → List Task
tasks_of cs [] = []
tasks_of cs (p ∷ ps) = task_of (get_client_socket p.cfd cs) p ++ tasks_of cs ps

send_one :
    (o : Option Socket) (p : Sent) (c : Control)
    → get_client_socket p.cfd c.clients ≡ o
    → accepted c (send_package p.cfd p.block c) ≡ record c { tasks = c.tasks ++ task_of o p }
unfolding accepted send_package task_of
send_one none p c e =
    rw (e, accepted, send_package) (ap (λ ts. record c { tasks = ts }) (sym (append-nil c.tasks)))
send_one (some s) p c e =
    elim (Bool-cases (ltb (size_for_empty_write s) (length p.block + socket_head_size))) [
      | inl full ↦
          rw (e, full, accepted, send_package)
            (ap (λ ts. record c { tasks = ts }) (sym (append-nil c.tasks)))
      | inr room ↦ rw (e, room, accepted, send_package) refl
    ]

send_all-tasks :
    (ps : List Sent) (c : Control)
    → send_all ps c ≡ record c { tasks = c.tasks ++ tasks_of c.clients ps }
unfolding send_all tasks_of
send_all-tasks [] c = ap (λ ts. record c { tasks = ts }) (sym (append-nil c.tasks))
send_all-tasks (p ∷ ps) c =
    ap (send_all ps) (send_one _ p c refl)
    ∙ send_all-tasks ps _
    ∙ ap (λ ts. record c { tasks = ts }) (append_assoc c.tasks _ (tasks_of c.clients ps))

-- Where the work on a package of a client ends, SocketControl has, behind the tasks that it had, one task
-- for each answer whose descriptor has a client with room for it, in the order of the answers, with the
-- answer behind its size; the other answers are dropped, and nothing else of SocketControl changes. The
-- UserName arrays have 32 chars.
pub answers_are_queued :
    (sql : MySql) (blank : List ℕ) (now cfd : ℕ) (bytes : List ℕ) (m n : Main)
    → length blank ≡ name_size
    → main_work sql blank now cfd bytes m ≡ ok n
    → (new : List Sent) × (n.handler.sent ≡ m.handler.sent ++ new)
      × (n.control
          ≡ record (m.control) { tasks = m.control.tasks ++ tasks_of m.control.clients new })
unfolding main_work
answers_are_queued sql blank now cfd bytes m n hb h =
    let (t, e, d) = >>=-eq-ok (thread_work sql blank now cfd bytes m.handler) _ h in
    let (new, sent, good) = sent_is_well_sized sql blank now cfd bytes m.handler t hb e in
    (
      new,
      ap (λ (x : Main). x.handler.sent) (sym (ok-injective d)) ∙ sent,
      ap (λ (x : Main). x.control) (sym (ok-injective d))
          ∙ ap (λ ps. send_all ps m.control)
              (ap (drop (length m.handler.sent)) sent ∙ drop-append_length m.handler.sent new)
          ∙ send_all-tasks new m.control,
    )
