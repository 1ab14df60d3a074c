-- ===== src/Server/DataHandler/Ends.antt =====
-- DataHandler.cpp: what every block leaves behind, and the blocks that no handler gets.
use socket_message.Prelude.{
  ℕ, ◌<◌, ◌≡◌, ◌≢◌, refl, sym, ap, ◌∙◌, Bool, true, false, some, List, ltb, ◌==◌, if◌then◌else◌,
  length, arith, Bool-cases, inl, inr, ◌⊎◌,
}
use socket_message.Wire.Bytes.{data_head_size}
use socket_message.Wire.Login.{
  DataHead, head_of, serialize, unserialize, unserialize_get, c2s_login, c2s_data_msg,
  c2s_get_data_msg_list,
}
use socket_message.Wire.Users.{serialize_users}
use socket_message.Wire.Groups.{serialize_groups}
use socket_message.Wire.Msgs.{serialize_msgs}
use socket_message.Server.Database.{MySql, login, all_user_list, user_all_group, get_data_msg_list}
use socket_message.Server.DataHandler.{
  ok, or_fault, >>=-eq-ok, ok-injective, Handler, pop, push, send_package, send_lists, handle_login,
  handle_get_data_msg_list, handle_data_msg, handle, thread_work,
}
use socket_message.Server.DataHandler.Chat.{handle_data_msg-ok, after_chat, pop-push}

send_package-connections :
    (cfd : ℕ) (block : List ℕ) (s : Handler)
    → (send_package cfd block s).connections ≡ s.connections
unfolding send_package
send_package-connections cfd block s = refl

send_lists-connections :
    (sql : MySql) (blank : List ℕ) (cfd user_id : ℕ) (s t : Handler)
    → send_lists sql blank cfd user_id s ≡ ok t
    → t.connections ≡ s.connections
unfolding send_lists send_package
send_lists-connections sql blank cfd user_id s t h =
    let (users, e1, r1) = >>=-eq-ok (or_fault (all_user_list sql blank)) _ h in
    let (u, e2, r2) = >>=-eq-ok (or_fault (serialize_users users)) _ r1 in
    let (groups, e3, r3) = >>=-eq-ok (or_fault (user_all_group sql blank user_id)) _ r2 in
    let (g, e4, r4) = >>=-eq-ok (or_fault (serialize_groups groups)) _ r3 in
    ap (λ (x : Handler). x.connections) (sym (ok-injective r4))

after_login-connections :
    (sql : MySql) (blank : List ℕ) (cfd user_id : ℕ) (is_login : Bool) (s t : Handler)
    → (if is_login then send_lists sql blank cfd user_id s else ok s) ≡ ok t
    → t.connections ≡ s.connections
after_login-connections sql blank cfd user_id true s t h =
    send_lists-connections sql blank cfd user_id s t h
after_login-connections sql blank cfd user_id false s t h =
    ap (λ (x : Handler). x.connections) (sym (ok-injective h))

handle_login-connections :
    (sql : MySql) (blank : List ℕ) (cfd : ℕ) (bytes : List ℕ) (s t : Handler)
    → handle_login sql blank cfd bytes s ≡ ok t
    → t.connections ≡ s.connections
unfolding handle_login
handle_login-connections sql blank cfd bytes s t h =
    let (m, e1, r1) = >>=-eq-ok (or_fault (unserialize bytes)) _ h in
    let (c, e2, r2) = >>=-eq-ok (pop s.connections) _ r1 in
    let (ret, e3, r3) = >>=-eq-ok (or_fault (login sql blank m)) _ r2 in
    let (block, e4, r4) = >>=-eq-ok (or_fault (serialize ret.1)) _ r3 in
    let s2 : Handler = send_package cfd block (record s { connections = c.1 }) in
    let (s3, e5, r5) =
      >>=-eq-ok (if ret.0 then send_lists sql blank cfd ret.1.user_id s2 else ok s2) _ r4 in
    ap (λ (x : Handler). x.connections) (sym (ok-injective r5))
    ∙ ap (push c.0) (
        after_login-connections sql blank cfd ret.1.user_id ret.0 s2 s3 e5
        ∙ send_package-connections cfd block (record s { connections = c.1 }))
    ∙ pop-push s.connections c e2

handle_get-connections :
    (sql : MySql) (cfd : ℕ) (bytes : List ℕ) (s t : Handler)
    → handle_get_data_msg_list sql cfd bytes s ≡ ok t
    → t.connections ≡ s.connections
unfolding handle_get_data_msg_list send_package
handle_get-connections sql cfd bytes s t h =
    let (m, e1, r1) = >>=-eq-ok (or_fault (unserialize_get bytes)) _ h in
    let (c, e2, r2) = >>=-eq-ok (pop s.connections) _ r1 in
    let (msgs, e3, r3) = >>=-eq-ok (or_fault (get_data_msg_list sql m)) _ r2 in
    let (out, e4, r4) = >>=-eq-ok (or_fault (serialize_msgs msgs)) _ r3 in
    ap (λ (x : Handler). x.connections) (sym (ok-injective r4)) ∙ pop-push s.connections c e2

handle_data_msg-connections :
    (sql : MySql) (now : ℕ) (bytes : List ℕ) (s t : Handler)
    → handle_data_msg sql now bytes s ≡ ok t
    → t.connections ≡ s.connections
unfolding after_chat
handle_data_msg-connections sql now bytes s t h =
    let (m, users, e1, e2, e) = handle_data_msg-ok sql now bytes s h in
    ap (λ (x : Handler). x.connections) e

handle-connections :
    (sql : MySql) (blank : List ℕ) (now data_type cfd : ℕ) (bytes : List ℕ) (s t : Handler)
    → handle sql blank now data_type cfd bytes s ≡ ok t
    → t.connections ≡ s.connections
unfolding handle
handle-connections sql blank now data_type cfd bytes s t h =
    elim (Bool-cases (data_type == c2s_login)) [
      | inl a ↦ handle_login-connections sql blank cfd bytes s t (rw (a) at h)
      | inr a ↦ elim (Bool-cases (data_type == c2s_data_msg)) [
        | inl b ↦ handle_data_msg-connections sql now bytes s t (rw (a, b) at h)
        | inr b ↦ elim (Bool-cases (data_type == c2s_get_data_msg_list)) [
          | inl c ↦ handle_get-connections sql cfd bytes s t (rw (a, b, c) at h)
          | inr c ↦ ap (λ (x : Handler). x.connections) (sym (ok-injective (rw (a, b, c) at h)))
        ]
      ]
    ]

-- A block shorter than its head, or whose DataSize is not its size, or of a type without handler.
abbrev pub IsIgnored : List ℕ → Type 0
IsIgnored bytes =
    (length bytes < data_head_size)
    ⊎ ((h : DataHead) × (head_of bytes ≡ some h)
        × ((h.data_size ≢ length bytes)
            ⊎ ((h.data_type ≢ c2s_login)
                × (h.data_type ≢ c2s_data_msg)
                × (h.data_type ≢ c2s_get_data_msg_list))))

-- Whatever the client sends and the database answers: where the work on a block ends, MySqlPool holds
-- the connections that it held before, in the same order.
pub connections_returned :
    (sql : MySql) (blank : List ℕ) (now cfd : ℕ) (bytes : List ℕ) (s t : Handler)
    → thread_work sql blank now cfd bytes s ≡ ok t
    → t.connections ≡ s.connections
unfolding thread_work
connections_returned sql blank now cfd bytes s t h =
    elim (Bool-cases (ltb (length bytes) data_head_size)) [
      | inl a ↦ ap (λ (x : Handler). x.connections) (sym (ok-injective (rw (a) at h)))
      | inr a ↦
          let (head, e, r) = >>=-eq-ok (or_fault (head_of bytes)) _ (rw (a) at h) in
          elim (Bool-cases (head.data_size == length bytes)) [
            | inl b ↦ handle-connections sql blank now head.data_type cfd bytes s t (rw (b) at r)
            | inr b ↦ ap (λ (x : Handler). x.connections) (sym (ok-injective (rw (b) at r)))
          ]
    ]

-- A block that is shorter than a DataHead, whose DataSize differs from its size, or whose DataType is
-- none of C2SLogin, C2SDataMsg and C2SGetDataMsgList changes nothing and sends nothing.
pub thread_work-IsIgnored :
    (sql : MySql) (blank : List ℕ) (now cfd : ℕ) (bytes : List ℕ) (s : Handler)
    → IsIgnored bytes
    → thread_work sql blank now cfd bytes s ≡ ok s
unfolding thread_work handle
thread_work-IsIgnored sql blank now cfd bytes s (inl short) = ground arith
thread_work-IsIgnored sql blank now cfd bytes s (inr (h, e, inl differs)) = ground arith
thread_work-IsIgnored sql blank now cfd bytes s (inr (h, e, inr (a, b, c))) = ground arith
