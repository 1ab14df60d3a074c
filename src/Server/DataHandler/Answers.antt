-- ===== src/Server/DataHandler/Answers.antt =====
-- DataHandler.cpp: the blocks that DataHandlerC2SLogin sends, and who is online after it.
use socket_message.Prelude.{
  ℕ, ◌≡◌, refl, sym, ap, ◌∙◌, Bool, true, false, some, List, [], ◌∷◌, ◌++◌, map, if◌then◌else◌,
  append_assoc, append-nil,
}
use socket_message.Wire.Login.{Named, serialize, unserialize}
use socket_message.Wire.Users.{UserList, serialize_users}
use socket_message.Wire.Groups.{GroupList, serialize_groups}
use socket_message.Server.Online.{client_open}
use socket_message.Server.Database.{MySql, login, all_user_list, user_all_group}
use socket_message.Server.DataHandler.{
  ok, or_fault, >>=-eq-ok, or_fault-eq-ok, ok-injective, Sent, Handler, pop, push, send_package,
  send_lists, handle_login,
}

-- The answers to one client.
abbrev pub to_client : ℕ → List (List ℕ) → List Sent
to_client cfd blocks = map (λ block. record { cfd = cfd; block = block }) blocks

-- The lists that follow a right login: all users, and the user's groups.
abbrev pub AreLists : MySql → List ℕ → ℕ → List (List ℕ) → Type 0
AreLists sql blank user_id blocks =
    (users : UserList) × (u : UserList × List ℕ) × (groups : GroupList) × (g : GroupList × List ℕ)
    × (all_user_list sql blank ≡ some users)
    × (serialize_users users ≡ some u)
    × (user_all_group sql blank user_id ≡ some groups)
    × (serialize_groups groups ≡ some g)
    × (blocks ≡ u.1 ∷ g.1 ∷ [])

-- What the second half of the handler adds.
abbrev pub Follows : MySql → List ℕ → ℕ → Bool → ℕ → List (List ℕ) → Type 0
Follows sql blank cfd true user_id blocks = AreLists sql blank user_id blocks
Follows sql blank cfd false user_id blocks = blocks ≡ []

abbrev Adds : MySql → List ℕ → ℕ → Bool → ℕ → Handler → Handler → Type 0
Adds sql blank cfd b user_id s t =
    (blocks : List (List ℕ)) × Follows sql blank cfd b user_id blocks
    × (t.sent ≡ s.sent ++ to_client cfd blocks)
    × (t.online ≡ (if b then client_open cfd user_id s.online else s.online))
    × (t.saved ≡ s.saved)

send_lists-Adds :
    (sql : MySql) (blank : List ℕ) (cfd user_id : ℕ) (s t : Handler)
    → send_lists sql blank cfd user_id s ≡ ok t
    → Adds sql blank cfd true user_id s t
unfolding send_lists send_package
send_lists-Adds sql blank cfd user_id s t h =
    let (users, e1, r1) = >>=-eq-ok (or_fault (all_user_list sql blank)) _ h in
    let (u, e2, r2) = >>=-eq-ok (or_fault (serialize_users users)) _ r1 in
    let (groups, e3, r3) = >>=-eq-ok (or_fault (user_all_group sql blank user_id)) _ r2 in
    let (g, e4, r4) = >>=-eq-ok (or_fault (serialize_groups groups)) _ r3 in
    (
      u.1 ∷ g.1 ∷ [],
      (
        users,
        u,
        groups,
        g,
        or_fault-eq-ok _ e1,
        or_fault-eq-ok _ e2,
        or_fault-eq-ok _ e3,
        or_fault-eq-ok _ e4,
        refl,
      ),
      ap (λ (x : Handler). x.sent) (sym (ok-injective r4))
          ∙ append_assoc s.sent (to_client cfd (u.1 ∷ [])) (to_client cfd (g.1 ∷ [])),
      ap (λ (x : Handler). x.online) (sym (ok-injective r4)),
      ap (λ (x : Handler). x.saved) (sym (ok-injective r4)),
    )

second_half-Adds :
    (sql : MySql) (blank : List ℕ) (cfd user_id : ℕ) (b : Bool) (s t : Handler)
    → (if b then send_lists sql blank cfd user_id s else ok s) ≡ ok t
    → Adds sql blank cfd b user_id s t
second_half-Adds sql blank cfd user_id true s t h = send_lists-Adds sql blank cfd user_id s t h
second_half-Adds sql blank cfd user_id false s t h = (
  [],
  refl,
  ap (λ (x : Handler). x.sent) (sym (ok-injective h)) ∙ sym (append-nil s.sent),
  ap (λ (x : Handler). x.online) (sym (ok-injective h)),
  ap (λ (x : Handler). x.saved) (sym (ok-injective h)),
)

-- The first answer goes before what the second half adds.
login_end :
    (sql : MySql) (blank : List ℕ) (cfd user_id : ℕ) (b : Bool) (block : List ℕ) (c : ℕ × List ℕ)
    (s s3 t : Handler)
    → Adds sql blank cfd b user_id (send_package cfd block (record s { connections = c.1 })) s3
    → ok (record s3 { connections = push c.0 s3.connections }) ≡ ok t
    → (blocks : List (List ℕ)) × Follows sql blank cfd b user_id blocks
      × (t.sent ≡ s.sent ++ to_client cfd (block ∷ blocks))
      × (t.online ≡ (if b then client_open cfd user_id s.online else s.online))
      × (t.saved ≡ s.saved)
unfolding send_package
login_end sql blank cfd user_id b block c s s3 t (blocks, follows, sent, online, saved) h =
    let e = sym (ok-injective h) in
    (
      blocks,
      follows,
      ap (λ (x : Handler). x.sent) e
          ∙ sent
          ∙ append_assoc s.sent (to_client cfd (block ∷ [])) (to_client cfd blocks),
      ap (λ (x : Handler). x.online) e ∙ online,
      ap (λ (x : Handler). x.saved) e ∙ saved,
    )

-- Where the handler of a login ends, it has read the login and asked the database, and sent to the
-- client, behind what was sent before, first the S2CLogin with the answer; after a right login then the
-- list of all users and the list of the user's groups, in this order, and after a wrong one nothing
-- more. The user of the answer is online, as ClientOpen has it, after a right login; nobody's state
-- changes after a wrong one. No message is stored.
pub login_answered :
    (sql : MySql) (blank : List ℕ) (cfd : ℕ) (bytes : List ℕ) (s t : Handler)
    → handle_login sql blank cfd bytes s ≡ ok t
    → (m : Named) × (b : Bool) × (ret : Named) × (block : List ℕ) × (blocks : List (List ℕ))
      × (unserialize bytes ≡ some m)
      × (login sql blank m ≡ some (b, ret))
      × (serialize ret ≡ some block)
      × Follows sql blank cfd b ret.user_id blocks
      × (t.sent ≡ s.sent ++ to_client cfd (block ∷ blocks))
      × (t.online ≡ (if b then client_open cfd ret.user_id s.online else s.online))
      × (t.saved ≡ s.saved)
unfolding handle_login
login_answered sql blank cfd bytes s t h =
    let (m, e1, r1) = >>=-eq-ok (or_fault (unserialize bytes)) _ h in
    let (c, e2, r2) = >>=-eq-ok (pop s.connections) _ r1 in
    let (ret, e3, r3) = >>=-eq-ok (or_fault (login sql blank m)) _ r2 in
    let (block, e4, r4) = >>=-eq-ok (or_fault (serialize ret.1)) _ r3 in
    let s2 : Handler = send_package cfd block (record s { connections = c.1 }) in
    let (s3, e5, r5) =
      >>=-eq-ok (if ret.0 then send_lists sql blank cfd ret.1.user_id s2 else ok s2) _ r4 in
    let added = second_half-Adds sql blank cfd ret.1.user_id ret.0 s2 s3 e5 in
    let (blocks, follows, sent, online, saved) =
      login_end sql blank cfd ret.1.user_id ret.0 block c s s3 t added r5 in
    (
      m,
      ret.0,
      ret.1,
      block,
      blocks,
      or_fault-eq-ok _ e1,
      or_fault-eq-ok _ e3,
      or_fault-eq-ok _ e4,
      follows,
      sent,
      online,
      saved,
    )
