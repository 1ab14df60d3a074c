-- ===== src/Client/Session/Chat.antt =====
-- A message from SendDataMsg through DataHandlerC2SDataMsg to the message callback of a receiver. Each end
-- that reads it drops one byte of its Extend.
use socket_message.Prelude.{
  ℕ, ◌≤◌, ◌≡◌, refl, ap, subst, ◌∙◌, true, none, some, List, [], ◌∷◌, ◌++◌, arith, length, drop,
  All, All-mono, drop-drop,
}
use socket_message.Wire.Bytes.{IsInt}
use socket_message.Wire.Login.{s2c_data_msg}
use socket_message.Wire.Msgs.{DataMsg, msg_sized, msg_bytes}
use socket_message.Wire.Msgs.RoundTrip.{IsChat, received_msg, unserialize_msg_past_end}
use socket_message.Server.Database.{MySql, insert_of, save_msg_data}
use socket_message.Server.DataHandler.{
  ok, Sent, Handler, handle_data_msg, server_msg, timed_msg, send_users,
}
use socket_message.Client.Sdk.{Sdk, ChatMsg, called, data_msg_got, new_c2s_data_msg, data_msg_block}
use socket_message.Client.Sdk.Dispatch.{read_package, chat_msg}
use socket_message.Client.Session.SentOn.{
  read_msg, sent_on, sent_on-IsChat, sent_on-IsMsg, sent_on-size, server_sends, unserialize_chat,
  chat_ends,
}

-- The message as the receiver's callback gets it.
unfoldable pub told : MySql → ℕ → DataMsg → ChatMsg
told sql now m = record {
  msg_id = sql.insert (insert_of sql (timed_msg now (received_msg m)));
  msg_type = m.msg_type;
  sender = m.sender;
  receiver = m.receiver;
  is_group = m.is_group;
  created_time = now;
  msg = m.msg;
  extend = drop 2 m.extend;
}

told-chat_msg :
    (sql : MySql) (now : ℕ) (m : DataMsg)
    → chat_msg (received_msg (sent_on sql now m)) ≡ told sql now m
unfolding chat_msg told sent_on server_msg received_msg timed_msg save_msg_data msg_sized
told-chat_msg sql now m = ap (λ l. record (told sql now m) { extend = l }) (drop-drop 1 1 m.extend)

sent_on-type :
    (sql : MySql) (now : ℕ) (m : DataMsg) → (sent_on sql now m).head.data_type ≡ s2c_data_msg
unfolding sent_on server_msg
sent_on-type sql now m = refl

told-msg_id :
    (sql : MySql) (now : ℕ) (m : DataMsg) → (told sql now m).msg_id ≡ (sent_on sql now m).msg_id
unfolding told sent_on server_msg save_msg_data
told-msg_id sql now m = refl

read_sent_on :
    (sql : MySql) (now fd : ℕ) (m : DataMsg) (c : Sdk)
    → IsChat m
    → 2 ≤ length m.extend
    → IsInt now
    → IsInt (told sql now m).msg_id
    → c.has_data_msg ≡ true
    → read_package fd (msg_bytes (msg_sized (sent_on sql now m))) c
      ≡ some (called (data_msg_got fd (told sql now m)) c)
read_sent_on sql now fd m c h two hn hi has =
    let hi' = subst IsInt (told-msg_id sql now m) hi in
    let chat = sent_on-IsChat sql now m h hn hi' two in
    read_msg fd (sent_on sql now m) c chat.0 chat.4 (sent_on-type sql now m) has
    ∙ rw (unserialize_chat (sent_on sql now m) chat)
        (ap (λ x. some (called (data_msg_got fd x) c)) (told-chat_msg sql now m))

sent_on-texts :
    (sql : MySql) (now : ℕ) (m : DataMsg)
    → ((sent_on sql now m).extend ≡ drop 1 m.extend) × ((sent_on sql now m).msg ≡ m.msg)
unfolding sent_on server_msg received_msg timed_msg save_msg_data msg_sized
sent_on-texts sql now m = (refl, refl)

nil_of_one : (xs : List ℕ) → length xs ≡ 1 → drop 1 xs ≡ []
nil_of_one [] h = refl
nil_of_one (x ∷ []) h = refl
nil_of_one (x ∷ y ∷ xs) h = absurd (omega arith)

read_emptied :
    (sql : MySql) (now fd : ℕ) (m : DataMsg) (c : Sdk)
    → IsChat m
    → length m.extend ≡ 1
    → IsInt now
    → IsInt (told sql now m).msg_id
    → c.has_data_msg ≡ true
    → read_package fd (msg_bytes (msg_sized (sent_on sql now m))) c ≡ none
read_emptied sql now fd m c h one hn hi has =
    let hi' = subst IsInt (told-msg_id sql now m) hi in
    let is_msg = sent_on-IsMsg sql now m h.0 hn hi' in
    let (extend_eq, msg_eq) = sent_on-texts sql now m in
    read_msg fd (sent_on sql now m) c is_msg (omega (arith, sent_on-size sql now m, h.4))
      (sent_on-type sql now m) has
    ∙ rw
        (unserialize_msg_past_end (sent_on sql now m) is_msg (extend_eq ∙ nil_of_one m.extend one)
          (omega (arith, ap length msg_eq, h.3))).1

-- A message that SendDataMsg sent goes through the server's handler to a client with a message callback.
-- At a server with a free connection, whose database names the receivers, the handler ends, and every
-- block that it sent makes that client call the callback, once, with the text, the sender, the receiver
-- and the group flag as they were sent, the id of the database's row, the server's time, and the Extend
-- without its first two bytes: each end that reads it drops one. The Extend has two bytes at least, no
-- byte of the texts is zero, the text has under 127 bytes, and the other fields have the range of their
-- types.
pub chat_session :
    (sql : MySql) (blank_id msg_type sender receiver is_group sent_at now fd connection : ℕ)
    (msg extend block left users : List ℕ) (s : Handler) (c : Sdk)
    → IsChat (new_c2s_data_msg blank_id msg_type sender receiver is_group sent_at msg extend)
    → 2 ≤ length extend
    → IsInt now
    → IsInt
        (told sql now
          (new_c2s_data_msg blank_id msg_type sender receiver is_group sent_at msg extend)).msg_id
    → data_msg_block
        (new_c2s_data_msg blank_id msg_type sender receiver is_group sent_at msg extend)
      ≡ some block
    → s.connections ≡ connection ∷ left
    → send_users sql
        (new_c2s_data_msg blank_id msg_type sender receiver is_group sent_at msg extend)
      ≡ some users
    → c.has_data_msg ≡ true
    → (t : Handler) × (sent : List Sent) × (handle_data_msg sql now block s ≡ ok t)
      × (t.sent ≡ s.sent ++ sent)
      × All
          (λ (p : Sent).
            read_package fd p.block c
            ≡ some (
                called
                  (data_msg_got fd (
                    told sql now (
                      new_c2s_data_msg blank_id msg_type sender receiver is_group sent_at msg
                        extend)))
                  c))
          sent
unfolding new_c2s_data_msg
chat_session sql blank_id msg_type sender receiver is_group sent_at now fd connection msg extend
      block left users s c h two hn hi built free found has =
    let m = new_c2s_data_msg blank_id msg_type sender receiver is_group sent_at msg extend in
    let (t, handled) = chat_ends sql now connection left users m block s h built free found in
    let (sent, e, same) = server_sends sql now m block s t h built handled in
    (
      t,
      sent,
      handled,
      e,
      All-mono
          (λ p q. ap (λ b. read_package fd b c) q ∙ read_sent_on sql now fd m c h two hn hi has)
          sent same,
    )

-- With an Extend of one byte the same message, at the same server, makes every client that gets it, and
-- has a message callback, read past the end of the package: the server has dropped the byte, and sends
-- an empty Extend.
pub chat_session_past_end :
    (sql : MySql) (blank_id msg_type sender receiver is_group sent_at now fd connection : ℕ)
    (msg extend block left users : List ℕ) (s : Handler) (c : Sdk)
    → IsChat (new_c2s_data_msg blank_id msg_type sender receiver is_group sent_at msg extend)
    → length extend ≡ 1
    → IsInt now
    → IsInt
        (told sql now
          (new_c2s_data_msg blank_id msg_type sender receiver is_group sent_at msg extend)).msg_id
    → data_msg_block
        (new_c2s_data_msg blank_id msg_type sender receiver is_group sent_at msg extend)
      ≡ some block
    → s.connections ≡ connection ∷ left
    → send_users sql
        (new_c2s_data_msg blank_id msg_type sender receiver is_group sent_at msg extend)
      ≡ some users
    → c.has_data_msg ≡ true
    → (t : Handler) × (sent : List Sent) × (handle_data_msg sql now block s ≡ ok t)
      × (t.sent ≡ s.sent ++ sent)
      × All (λ (p : Sent). read_package fd p.block c ≡ none) sent
unfolding new_c2s_data_msg
chat_session_past_end sql blank_id msg_type sender receiver is_group sent_at now fd connection msg
      extend block left users s c h one hn hi built free found has =
    let m = new_c2s_data_msg blank_id msg_type sender receiver is_group sent_at msg extend in
    let (t, handled) = chat_ends sql now connection left users m block s h built free found in
    let (sent, e, same) = server_sends sql now m block s t h built handled in
    (
      t,
      sent,
      handled,
      e,
      All-mono
          (λ p q. ap (λ b. read_package fd b c) q ∙ read_emptied sql now fd m c h one hn hi has)
          sent same,
    )
