-- ===== src/Server/DataHandler/Chat.antt =====
-- DataHandler.cpp: DataHandlerC2SDataMsg, the delivery of a message to the users that are online.
use socket_message.Prelude.{
  ℕ, ◌+◌, ◌≡◌, sym, ap, ◌∙◌, not, ◌&&◌, some, List, [], ◌∷◌, ◌++◌, ltb, ◌==◌, if◌then◌else◌, All,
  arith, append_assoc, append-nil,
}
use socket_message.Wire.Bytes.{is_neg}
use socket_message.Wire.Msgs.{DataMsg, serialize_msg, unserialize_msg, msg_sized, msg_bytes}
use socket_message.Server.Online.{Entry, user_id_to_cfd}
use socket_message.Server.Database.{MySql, Insert, insert_of}
use socket_message.Server.DataHandler.{
  ok, or_fault, >>=-eq-ok, or_fault-eq-ok, ok-injective, Sent, Handler, pop, push, send_package,
  send_each, send_users, server_msg, timed_msg, save, handle_data_msg,
}

-- The packets to the descriptor `d`.
abbrev pub count_to : ℕ → List Sent → ℕ
count_to d [] = 0
count_to d (p ∷ ps) = (if p.cfd == d then 1 else 0) + count_to d ps

-- The users of the list, other than the sender, whose descriptor is `d`.
abbrev pub receivers : ℕ → ℕ → List Entry → List ℕ → ℕ
receivers d sender online [] = 0
receivers d sender online (u ∷ us) =
    (if u == sender then 0 else (if user_id_to_cfd u online == d then 1 else 0))
    + receivers d sender online us

-- What the loop adds.
unfoldable pub packets : ℕ → List ℕ → List ℕ → List Entry → List Sent
packets sender block [] online = []
packets sender block (u ∷ us) online =
    let cfd = user_id_to_cfd u online in
    let rest = packets sender block us online in
    if u == sender
    then rest
    else (if ltb 0 cfd && not (is_neg cfd)
        then record { cfd = cfd; block = block } ∷ rest
        else rest)

pub send_each-packets :
    (sender : ℕ) (block users : List ℕ) (s : Handler)
    → send_each sender block users s
      ≡ record s { sent = s.sent ++ packets sender block users s.online }
unfolding send_each packets send_package
send_each-packets sender block [] s = ap (λ l. record s { sent = l }) (sym (append-nil s.sent))
send_each-packets sender block (u ∷ us) s = ground (
  arith,
  send_each-packets sender block us s,
  send_each-packets sender block us (send_package (user_id_to_cfd u s.online) block s),
  append_assoc s.sent (record { cfd = user_id_to_cfd u s.online; block = block } ∷ [])
      (packets sender block us s.online),
)

pub packets-block :
    (sender : ℕ) (block users : List ℕ) (online : List Entry)
    → All (λ (p : Sent). p.block ≡ block) (packets sender block users online)
unfolding packets
packets-block sender block [] online = tt
packets-block sender block (u ∷ us) online = ground (arith, packets-block sender block us online)

serialize_msg-block :
    (m : DataMsg) (r : DataMsg × List ℕ) → serialize_msg m ≡ some r → r.1 ≡ msg_bytes (msg_sized m)
unfolding serialize_msg
serialize_msg-block m r h = ground arith

pub pop-push : (cs : List ℕ) (r : ℕ × List ℕ) → pop cs ≡ ok r → push r.0 r.1 ≡ cs
unfolding pop push
pop-push [] r h = cc
pop-push (c ∷ cs) r h = ground arith

unfoldable pub after_chat : MySql → ℕ → DataMsg → List ℕ → Handler → Handler
after_chat sql now m users s = record s {
  sent = s.sent ++ packets m.sender (msg_bytes (msg_sized (server_msg sql now m))) users s.online;
  saved =
      s.saved
      ++ (if sql.insert (insert_of sql (timed_msg now m)) == 0
          then []
          else insert_of sql (timed_msg now m) ∷ []);
}

after_chat_lem :
    (sql : MySql) (now : ℕ) (m : DataMsg) (users : List ℕ) (s t : Handler) (c : ℕ × List ℕ)
    (out : DataMsg × List ℕ)
    → pop s.connections ≡ ok c
    → serialize_msg (server_msg sql now m) ≡ some out
    → ok (send_each m.sender out.1 users (save sql now m (record s { connections = push c.0 c.1 })))
      ≡ ok t
    → t ≡ after_chat sql now m users s
unfolding save after_chat
after_chat_lem sql now m users s t c out hc ho h =
    sym (ok-injective h) ∙ send_each-packets m.sender out.1 users _ ∙ λ i. record s {
      connections = pop-push s.connections c hc i;
      sent =
          s.sent
          ++ packets m.sender (serialize_msg-block (server_msg sql now m) out ho i) users s.online;
      saved =
          s.saved
          ++ (if sql.insert (insert_of sql (timed_msg now m)) == 0
              then []
              else insert_of sql (timed_msg now m) ∷ []);
    }

-- The state that the handler leaves, from the values on its way.
pub handle_data_msg-ok :
    (sql : MySql) (now : ℕ) (bytes : List ℕ) (s : Handler) {t : Handler}
    → handle_data_msg sql now bytes s ≡ ok t
    → (m : DataMsg) × (users : List ℕ) × (unserialize_msg bytes 0 ≡ some m)
      × (send_users sql m ≡ some users)
      × (t ≡ after_chat sql now m users s)
unfolding handle_data_msg
handle_data_msg-ok sql now bytes s {t} h =
    let (m, e1, r1) = >>=-eq-ok (or_fault (unserialize_msg bytes 0)) _ h in
    let (c, e2, r2) = >>=-eq-ok (pop s.connections) _ r1 in
    let (users, e3, r3) = >>=-eq-ok (or_fault (send_users sql m)) _ r2 in
    let (out, e4, r4) = >>=-eq-ok (or_fault (serialize_msg (server_msg sql now m))) _ r3 in
    (
      m,
      users,
      or_fault-eq-ok _ e1,
      or_fault-eq-ok _ e3,
      after_chat_lem sql now m users s t c out e2 (or_fault-eq-ok _ e4) r4,
    )

-- The row of a message, with the server's time; and the message that goes to the receivers, with the
-- row's id, or 0 if the insert failed, and the type S2CDataMsg.
abbrev pub row_of : MySql → ℕ → DataMsg → Insert
row_of sql now m = record {
  msg_type = m.msg_type;
  sender = m.sender;
  receiver = m.receiver;
  is_group = if m.is_group == 0 then 0 else 1;
  created_time = now;
  msg = sql.escape_string m.msg;
  extend = sql.escape_string m.extend;
}

abbrev pub delivered : MySql → ℕ → DataMsg → DataMsg
delivered sql now m = record {
  head = record { data_size = m.head.data_size; data_type = 205 };
  msg_id = sql.insert (row_of sql now m);
  msg_type = m.msg_type;
  sender = m.sender;
  receiver = m.receiver;
  is_group = m.is_group;
  created_time = now;
  msg = m.msg;
  extend = m.extend;
}
