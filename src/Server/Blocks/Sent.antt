-- ===== src/Server/Blocks/Sent.antt =====
-- DataHandler.cpp: every block that a handler sends begins with its own size and a type that the client
-- knows.
use socket_message.Prelude.{
  ℕ, ◌≡◌, refl, sym, ap, subst, ◌∙◌, Bool, true, false, some, some-injective, List, [], ◌∷◌, ◌++◌,
  arith, ltb, ◌==◌, if◌then◌else◌, length, All, All-mono, append-nil, inl, inr,
}
use socket_message.Wire.Bytes.{name_size, data_head_size}
use socket_message.Wire.Login.{
  Named, named_bytes, length-named_bytes, head_of-head_bytes, new_s2c_login, serialize,
  unserialize_get, head_of, c2s_login, c2s_data_msg, c2s_get_data_msg_list, s2c_login, s2c_data_msg,
}
use socket_message.Wire.Bytes.{take_whole}
use socket_message.Wire.Users.{serialize_users}
use socket_message.Wire.Groups.{serialize_groups}
use socket_message.Wire.Msgs.{new_data_msg_list, unserialize_msg, serialize_msg, serialize_msgs}
use socket_message.Server.Database.{MySql, get_data_msg_list}
use socket_message.Server.DataHandler.{
  Outcome, ok, or_fault, >>=-eq-ok, or_fault-eq-ok, ok-injective, Sent, Handler, pop, send_package,
  handle_login, handle_get_data_msg_list, handle_data_msg, server_msg, handle, thread_work,
  send_users, save,
}
use socket_message.Server.DataHandler.Answers.{Follows, to_client, login_answered}
use socket_message.Server.DataHandler.Chat.{packets, packets-block, send_each-packets}
use socket_message.Server.Blocks.{IsBlock, IsServerBlock}
use socket_message.Server.Blocks.Sized.{
  serialize_users-IsBlock, serialize_groups-IsBlock, serialize_msg-IsBlock, serialize_msgs-IsBlock,
}
use socket_message.Server.Blocks.Named.{
  IsAnswer, login-IsAnswer, all_user_list-HasName, user_all_group-HasNames,
  get_data_msg_list-HasType,
}

abbrev pub AreGood : List Sent → Type 0
AreGood = All (λ (p : Sent). IsServerBlock p.block)

-- What a piece of work adds to what was sent.
abbrev pub AddsGood : Handler → Handler → Type 0
AddsGood s t = (new : List Sent) × (t.sent ≡ s.sent ++ new) × AreGood new

AddsGood-refl : (s : Handler) → AddsGood s s
AddsGood-refl s = ([], sym (append-nil s.sent), tt)

named-IsBlock :
    (uid : ℕ) (chars : List ℕ)
    → length chars ≡ name_size
    → (serialize (new_s2c_login uid chars) ≡ some (named_bytes (new_s2c_login uid chars)))
      × IsBlock s2c_login (named_bytes (new_s2c_login uid chars))
unfolding new_s2c_login serialize named_bytes
named-IsBlock uid chars len =
    let size = length-named_bytes (new_s2c_login uid chars) in
    (
      take_whole 44 _ (omega (arith, size, len)),
      (
        record { data_size = 44; data_type = s2c_login },
        head_of-head_bytes (record { data_size = 44; data_type = s2c_login }) _ (omega arith)
            (omega arith),
        omega (arith, size, len),
        refl,
        omega (arith, size, len),
      ),
    )

answer-IsServerBlock :
    (m : Named) (block : List ℕ) → IsAnswer m → serialize m ≡ some block → IsServerBlock block
answer-IsServerBlock m block (uid, chars, e, len) h =
    let (written, good) = named-IsBlock uid chars len in
    (
      s2c_login,
      inl refl,
      subst (IsBlock s2c_login) (some-injective _ _ (sym written ∙ ap serialize (sym e) ∙ h)) good,
    )

to_client-AreGood :
    (cfd : ℕ) (blocks : List (List ℕ)) → All IsServerBlock blocks → AreGood (to_client cfd blocks)
to_client-AreGood cfd [] h = tt
to_client-AreGood cfd (b ∷ bs) h = (h.0, to_client-AreGood cfd bs h.1)

Follows-good :
    (sql : MySql) (blank : List ℕ) (cfd : ℕ) (b : Bool) (uid : ℕ) (blocks : List (List ℕ))
    → length blank ≡ name_size
    → Follows sql blank cfd b uid blocks
    → All IsServerBlock blocks
Follows-good sql blank cfd false uid blocks hb h = subst (All IsServerBlock) (sym h) tt
Follows-good sql blank cfd true uid blocks hb (users, u, groups, g, e1, e2, e3, e4, e5) =
    let (us, l1, n1) = all_user_list-HasName blank hb sql users e1 in
    let (gs, l2, n2) = user_all_group-HasNames blank hb sql uid groups e3 in
    subst (All IsServerBlock) (sym e5) (
      (_, inr (inl refl), serialize_users-IsBlock us u n1 (ap serialize_users (sym l1) ∙ e2)),
      (
        (
          _,
          inr (inr (inl refl)),
          serialize_groups-IsBlock gs g n2 (ap serialize_groups (sym l2) ∙ e4),
        ),
        tt,
      ),
    )

handle_login-AddsGood :
    (sql : MySql) (blank : List ℕ) (cfd : ℕ) (bytes : List ℕ) (s t : Handler)
    → length blank ≡ name_size
    → handle_login sql blank cfd bytes s ≡ ok t
    → AddsGood s t
handle_login-AddsGood sql blank cfd bytes s t hb h =
    let (m, b, ret, block, blocks, e1, e2, e3, follows, sent, online, saved) =
      login_answered sql blank cfd bytes s t h in
    (
      to_client cfd (block ∷ blocks),
      sent,
      to_client-AreGood cfd (block ∷ blocks) (
        answer-IsServerBlock ret block (login-IsAnswer blank hb sql m (b, ret) e2) e3,
        Follows-good sql blank cfd b ret.user_id blocks hb follows,
      ),
    )

handle_get-AddsGood :
    (sql : MySql) (cfd : ℕ) (bytes : List ℕ) (s t : Handler)
    → handle_get_data_msg_list sql cfd bytes s ≡ ok t
    → AddsGood s t
unfolding handle_get_data_msg_list send_package new_data_msg_list
handle_get-AddsGood sql cfd bytes s t h =
    let (m, e1, r1) = >>=-eq-ok (or_fault (unserialize_get bytes)) _ h in
    let (c, e2, r2) = >>=-eq-ok (pop s.connections) _ r1 in
    let (msgs, e3, r3) = >>=-eq-ok (or_fault (get_data_msg_list sql m)) _ r2 in
    let (out, e4, r4) = >>=-eq-ok (or_fault (serialize_msgs msgs)) _ r3 in
    let (ms, l, types) = get_data_msg_list-HasType sql m msgs (or_fault-eq-ok _ e3) in
    (
      record { cfd = cfd; block = out.1 } ∷ [],
      ap (λ (x : Handler). x.sent) (sym (ok-injective r4)),
      (
        (
          _,
          inr (inr (inr (inr refl))),
          serialize_msgs-IsBlock (new_data_msg_list ms) out (omega arith) types
              (ap serialize_msgs (sym l) ∙ or_fault-eq-ok _ e4),
        ),
        tt,
      ),
    )

handle_data_msg-AddsGood :
    (sql : MySql) (now : ℕ) (bytes : List ℕ) (s t : Handler)
    → handle_data_msg sql now bytes s ≡ ok t
    → AddsGood s t
unfolding handle_data_msg save server_msg
handle_data_msg-AddsGood sql now bytes s t h =
    let (m, e1, r1) = >>=-eq-ok (or_fault (unserialize_msg bytes 0)) _ h in
    let (c, e2, r2) = >>=-eq-ok (pop s.connections) _ r1 in
    let (users, e3, r3) = >>=-eq-ok (or_fault (send_users sql m)) _ r2 in
    let (out, e4, r4) = >>=-eq-ok (or_fault (serialize_msg (server_msg sql now m))) _ r3 in
    let good =
      serialize_msg-IsBlock (server_msg sql now m) out (omega arith) (or_fault-eq-ok _ e4) in
    (
      packets m.sender out.1 users s.online,
      ap (λ (x : Handler). x.sent)
          (sym (ok-injective r4) ∙ send_each-packets m.sender out.1 users _),
      All-mono
          (λ p q. subst IsServerBlock (sym q) (s2c_data_msg, inr (inr (inr (inl refl))), good.1)) _
          (packets-block m.sender out.1 users s.online),
    )

if-AddsGood :
    (b : Bool) (x y : Outcome Handler) (s t : Handler)
    → (x ≡ ok t → AddsGood s t)
    → (y ≡ ok t → AddsGood s t)
    → (if b then x else y) ≡ ok t
    → AddsGood s t
if-AddsGood true x y s t hx hy h = hx h
if-AddsGood false x y s t hx hy h = hy h

kept-AddsGood : (s t : Handler) → ok s ≡ ok t → AddsGood s t
kept-AddsGood s t h = subst (AddsGood s) (ok-injective h) (AddsGood-refl s)

handle-AddsGood :
    (sql : MySql) (blank : List ℕ) (now ty cfd : ℕ) (bytes : List ℕ) (s t : Handler)
    → length blank ≡ name_size
    → handle sql blank now ty cfd bytes s ≡ ok t
    → AddsGood s t
unfolding handle
handle-AddsGood sql blank now ty cfd bytes s t hb h =
    if-AddsGood (ty == c2s_login) (handle_login sql blank cfd bytes s) _ s t
      (handle_login-AddsGood sql blank cfd bytes s t hb)
      (if-AddsGood (ty == c2s_data_msg) (handle_data_msg sql now bytes s) _ s t
        (handle_data_msg-AddsGood sql now bytes s t)
        (if-AddsGood (ty == c2s_get_data_msg_list) (handle_get_data_msg_list sql cfd bytes s) _ s t
          (handle_get-AddsGood sql cfd bytes s t) (kept-AddsGood s t)))
      h

-- Where the work on a block ends, whatever block, database answers and messages, every block that was
-- sent meanwhile is of one of the types that the client has a handler for, and has its own size as the
-- DataSize it begins with. The UserName arrays have 32 chars.
pub sent_is_well_sized :
    (sql : MySql) (blank : List ℕ) (now cfd : ℕ) (bytes : List ℕ) (s t : Handler)
    → length blank ≡ name_size
    → thread_work sql blank now cfd bytes s ≡ ok t
    → (new : List Sent) × (t.sent ≡ s.sent ++ new) × All (λ (p : Sent). IsServerBlock p.block) new
unfolding thread_work
sent_is_well_sized sql blank now cfd bytes s t hb h =
    if-AddsGood (ltb (length bytes) data_head_size) (ok s) _ s t (kept-AddsGood s t)
      (λ w.
        let (head, e1, r1) = >>=-eq-ok (or_fault (head_of bytes)) _ w in
        if-AddsGood (head.data_size == length bytes)
          (handle sql blank now head.data_type cfd bytes s) (ok s) s t
          (handle-AddsGood sql blank now head.data_type cfd bytes s t hb) (kept-AddsGood s t) r1)
      h
