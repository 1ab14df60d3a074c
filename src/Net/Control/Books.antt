-- ===== src/Net/Control/Books.antt =====
-- SocketControl.cpp: the map of clients, the count of clients and the state callback tell one story.
use socket_message.Prelude.{
  ℕ, ◌+◌, ◌-◌, ◌≤◌, ◌≡◌, refl, sym, subst, ◌∙◌, true, false, Option, none, some, List, [], ◌∷◌,
  ◌++◌, length, arith, Option-cases, inl, inr,
}
use socket_message.Net.Result.{ok, >>=-eq-ok, ok-injective}
use socket_message.Net.ClientSocket.{
  Socket, Outcome, socket_close, finished, running, Taken, Sent, write,
}
use socket_message.Net.Control.{
  Task, Control, get_client_socket, erase_client, insert_client, client_connect, close_and_delete,
  client_socket_close, send_package, written, close_by, count_sent, after_write, send_task,
  run_first, run_task, Step, connects, sends, runs, closes, Reach, here, next,
}
use socket_message.Net.Control.Entries.{
  entries, entries-erase_client, entries-none, entries-put_socket, length-erase_client,
  length-put_socket, opens, opens-append, shuts, shuts-append,
}

pub record Inv (c : Control) : Type 0 where
  pub once : (k : ℕ) → entries k c.clients ≤ 1
  pub count : c.client_socket_count ≡ length c.clients
  pub notices : (k : ℕ) → opens k c.notices ≡ shuts k c.notices + entries k c.clients

client_connect-Inv :
    (fd : ℕ) (c : Control)
    → Inv c
    → get_client_socket fd c.clients ≡ none
    → Inv (client_connect fd c)
unfolding client_connect insert_client entries
client_connect-Inv fd c h new = record {
  once = λ k. ground (arith, h.once k, entries-none fd c.clients new);
  count = ground (arith, h.count);
  notices = λ k.
      ground
        (arith, h.notices k, opens-append k fd true c.notices, shuts-append k fd true c.notices);
}

erased : ℕ → Control → Control
erased fd c = record c {
  clients = erase_client fd c.clients;
  client_socket_count = c.client_socket_count - 1;
  notices = c.notices ++ record { cfd = fd; is_open = false } ∷ [];
}

erased-Inv :
    (fd : ℕ) (s : Socket) (c : Control)
    → Inv c
    → get_client_socket fd c.clients ≡ some s
    → Inv (erased fd c)
unfolding erased
erased-Inv fd s c h e = record {
  once = λ k. omega (arith, h.once k, entries-erase_client k fd s c.clients e);
  count = omega (arith, h.count, length-erase_client fd s c.clients e);
  notices = λ k. ground (
    arith,
    h.notices k,
    opens-append k fd false c.notices,
    shuts-append k fd false c.notices,
    entries-erase_client k fd s c.clients e,
  );
}

close_absent :
    (fd : ℕ) (c : Control) → get_client_socket fd c.clients ≡ none → close_and_delete fd c ≡ c
unfolding close_and_delete
close_absent fd c e = ground arith

close_present :
    (fd : ℕ) (s : Socket) (c : Control)
    → get_client_socket fd c.clients ≡ some s
    → close_and_delete fd c ≡ erased fd c
unfolding close_and_delete erased
close_present fd s c e = ground arith

close_and_delete-Inv : (fd : ℕ) (c : Control) → Inv c → Inv (close_and_delete fd c)
close_and_delete-Inv fd c h = elim (Option-cases (get_client_socket fd c.clients)) [
  | inl e ↦ subst Inv (sym (close_absent fd c e)) h
  | inr (s, e) ↦ subst Inv (sym (close_present fd s c e)) (erased-Inv fd s c h e)
]

client_socket_close_lem : (fd : ℕ) (c : Control) → client_socket_close fd c ≡ close_and_delete fd c
unfolding client_socket_close close_and_delete
client_socket_close_lem fd c = ground arith

send_package-Inv :
    (cfd : ℕ) (body : List ℕ) (c d : Control) → Inv c → send_package cfd body c ≡ some d → Inv d
unfolding send_package
send_package-Inv cfd body c d h e = record {
  once = λ k. ground (arith, h.once k);
  count = ground (arith, h.count);
  notices = λ k. ground (arith, h.notices k);
}

-- The counters play no part.
same_books :
    (c d : Control)
    → d.clients ≡ c.clients
    → d.client_socket_count ≡ c.client_socket_count
    → d.notices ≡ c.notices
    → Inv c
    → Inv d
same_books c d a b e h = record {
  once = λ k. ground (arith, h.once k);
  count = ground (arith, h.count);
  notices = λ k. ground (arith, h.notices k);
}

written-Inv : (t : Task) (r : Sent) (c : Control) → Inv c → Inv (written t r c)
unfolding written
written-Inv t r c h = record {
  once = λ k. omega (arith, h.once k, entries-put_socket k t.cfd r.socket c.clients);
  count = omega (arith, h.count, length-put_socket t.cfd r.socket c.clients);
  notices = λ k. omega (arith, h.notices k, entries-put_socket k t.cfd r.socket c.clients);
}

close_by-Inv : (o : Outcome) (cfd : ℕ) (c : Control) → Inv c → Inv (close_by o cfd c)
unfolding close_by
close_by-Inv socket_close cfd c h = close_and_delete-Inv cfd c h
close_by-Inv finished cfd c h = h
close_by-Inv running cfd c h = h

after_write-Inv : (t : Task) (r : Sent) (c : Control) → Inv c → Inv (after_write t r c)
unfolding after_write count_sent
after_write-Inv t r c h =
    same_books _ _ refl refl refl
      (close_by-Inv r.outcome t.cfd (written t r c) (written-Inv t r c h))

send_task-Inv :
    (t : Task) (answers : List Taken) (o : Option Socket) (c d : Control)
    → Inv c
    → send_task t answers o c ≡ ok d
    → Inv d
unfolding send_task
send_task-Inv t answers none c d h e = subst Inv (ok-injective e) h
send_task-Inv t answers (some s) c d h e =
    let (r, w, q) = >>=-eq-ok (write s t.send_data answers) _ e in
    subst Inv (ok-injective q) (after_write-Inv t r c h)

run_first-Inv :
    (tasks : List Task) (answers : List Taken) (c d : Control)
    → Inv c
    → run_first tasks answers c ≡ ok d
    → Inv d
unfolding run_first
run_first-Inv [] answers c d h e = subst Inv (ok-injective e) h
run_first-Inv (t ∷ rest) answers c d h e =
    send_task-Inv t answers _ (record c { tasks = rest }) d (same_books c _ refl refl refl h) e

run_task-Inv : (answers : List Taken) (c d : Control) → Inv c → run_task answers c ≡ ok d → Inv d
unfolding run_task
run_task-Inv answers c d h e = run_first-Inv c.tasks answers c d h e

Step-Inv : {c d : Control} → Inv c → Step c d → Inv d
Step-Inv {c} {d} h (connects fd new e) = subst Inv (sym e) (client_connect-Inv fd c h new)
Step-Inv {c} {d} h (sends cfd body e) = send_package-Inv cfd body c d h e
Step-Inv {c} {d} h (runs answers e) = run_task-Inv answers c d h e
Step-Inv {c} {d} h (closes fd e) =
    subst Inv (sym (e ∙ client_socket_close_lem fd c)) (close_and_delete-Inv fd c h)

Reach-Inv : {c d : Control} → Inv c → Reach c d → Inv d
Reach-Inv h here = h
Reach-Inv h (next r s) = Step-Inv (Reach-Inv h r) s

abbrev pub no_clients : Control
no_clients = record {
  clients = [];
  client_socket_count = 0;
  notices = [];
  tasks = [];
  wire = [];
  send_package_count = 0;
  send_byte_count = 0;
}

-- From a SocketControl without clients, after any new connections (each with a descriptor that no client
-- has), calls of SendPackage, tasks of them under any answers of the kernel, and calls of
-- ClientSocketClose: a descriptor has at most one client, m_ClientSocketCount is the number of clients,
-- and the state callback was called for a descriptor with `true` once more than with `false` if it has a
-- client, and as often if it has none.
pub books_agree :
    (c : Control) (fd : ℕ)
    → Reach no_clients c
    → (entries fd c.clients ≤ 1)
      × (c.client_socket_count ≡ length c.clients)
      × (opens fd c.notices ≡ shuts fd c.notices + entries fd c.clients)
unfolding entries opens shuts
books_agree c fd r =
    let h : Inv c =
      Reach-Inv (record { once = λ k. omega arith; count = refl; notices = λ k. refl }) r in
    (h.once fd, h.count, h.notices fd)
