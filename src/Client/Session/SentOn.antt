-- ===== src/Client/Session/SentOn.antt =====
-- A message from SendDataMsg to the blocks that DataHandlerC2SDataMsg sends on, and to its reading there.
use socket_message.Prelude.{
  ℕ, ◌^◌, ◌≤◌, ◌<◌, ◌≡◌, ◌≢◌, refl, sym, ap, subst, ◌∙◌, true, some, some-injective, List, [], ◌++◌,
  ◌∷◌, arith, ◌>>=◌, >>=-eq-some, length, All, All-drop, append-nil, length-drop,
}
use socket_message.Wire.Bytes.{IsInt}
use socket_message.Wire.Login.{s2c_data_msg}
use socket_message.Wire.Msgs.{
  DataMsg, msg_size, msg_sized, msg_bytes, serialize_msg, unserialize_msg,
}
use socket_message.Wire.Msgs.Fields.{IsMsg, head_of-msg_bytes}
use socket_message.Wire.Msgs.RoundTrip.{
  IsChat, received_msg, length-block, unserialize_msg-serialize_msg, serialize_msg_lem,
}
use socket_message.Server.Database.{MySql, save_msg_data}
use socket_message.Server.DataHandler.{
  ok, Sent, Handler, handle_data_msg, server_msg, timed_msg, send_users, pop, push, send_each, save,
}
use socket_message.Server.DataHandler.Chat.{after_chat, packets, packets-block, handle_data_msg-ok}
use socket_message.Client.Sdk.{Sdk, called, data_msg_got, data_msg_block}
use socket_message.Client.Sdk.Dispatch.{read_package, dispatch, handle_s2c_data_msg, chat_msg}
use socket_message.Client.Session.Dispatched.{read_package-dispatch}

data_msg_block-bytes :
    (m : DataMsg) (block : List ℕ)
    → IsChat m
    → data_msg_block m ≡ some block
    → block ≡ msg_bytes (msg_sized m)
unfolding data_msg_block
data_msg_block-bytes m block h e =
    let (r, e1, e2) = >>=-eq-some (serialize_msg m) _ e in
    sym (some-injective _ _ e2)
    ∙ ap (λ (x : DataMsg × List ℕ). x.1)
        (some-injective _ _ (sym e1 ∙ (unserialize_msg-serialize_msg m [] h).0))

pub unserialize_chat :
    (m : DataMsg) → IsChat m → unserialize_msg (msg_bytes (msg_sized m)) 0 ≡ some (received_msg m)
unserialize_chat m h =
    ap (λ b. unserialize_msg b 0) (sym (append-nil (msg_bytes (msg_sized m))))
    ∙ (unserialize_msg-serialize_msg m [] h).1

-- The package of any message of the server reaches the handler of messages.
pub read_msg :
    (fd : ℕ) (m : DataMsg) (c : Sdk)
    → IsMsg m
    → msg_size m < 2 ^ 31
    → m.head.data_type ≡ s2c_data_msg
    → c.has_data_msg ≡ true
    → read_package fd (msg_bytes (msg_sized m)) c ≡ (
        unserialize_msg (msg_bytes (msg_sized m)) 0 >>= λ r.
        some (called (data_msg_got fd (chat_msg r)) c))
unfolding dispatch handle_s2c_data_msg msg_sized msg_size
read_msg fd m c h fits ty has =
    read_package-dispatch fd (msg_bytes (msg_sized m)) (msg_sized m).head c
      (omega (arith, length-block m)) (head_of-msg_bytes (msg_sized m) (omega arith) h.0)
      (sym (length-block m))
    ∙ rw (ty, has) refl

-- The message that the server sends on, and what the receiver is told.
unfoldable pub sent_on : MySql → ℕ → DataMsg → DataMsg
sent_on sql now m = server_msg sql now (received_msg m)

pub sent_on-IsMsg :
    (sql : MySql) (now : ℕ) (m : DataMsg)
    → IsMsg m
    → IsInt now
    → IsInt (sent_on sql now m).msg_id
    → IsMsg (sent_on sql now m)
unfolding sent_on server_msg received_msg timed_msg save_msg_data msg_sized
sent_on-IsMsg sql now m h hn hi = (omega arith, hi, h.2, h.3, h.4, h.5, hn, h.7)

pub sent_on-size : (sql : MySql) (now : ℕ) (m : DataMsg) → msg_size (sent_on sql now m) ≤ msg_size m
unfolding sent_on server_msg received_msg timed_msg save_msg_data msg_sized msg_size
sent_on-size sql now m = omega (arith, length-drop 1 m.extend)

pub sent_on-IsChat :
    (sql : MySql) (now : ℕ) (m : DataMsg)
    → IsChat m
    → IsInt now
    → IsInt (sent_on sql now m).msg_id
    → 2 ≤ length m.extend
    → IsChat (sent_on sql now m)
unfolding sent_on server_msg received_msg timed_msg save_msg_data msg_sized
sent_on-IsChat sql now m (h, he, pos, short, fits) hn hi two = (
  sent_on-IsMsg sql now m h hn hi,
  All-drop (λ b. b ≢ 0) 1 m.extend he,
  omega (arith, length-drop 1 m.extend),
  short,
  omega (arith, sent_on-size sql now m),
)

-- What the handler of the block that SendDataMsg built adds to what was sent.
pub server_sends :
    (sql : MySql) (now : ℕ) (m : DataMsg) (block : List ℕ) (s t : Handler)
    → IsChat m
    → data_msg_block m ≡ some block
    → handle_data_msg sql now block s ≡ ok t
    → (sent : List Sent) × (t.sent ≡ s.sent ++ sent)
      × All (λ (p : Sent). p.block ≡ msg_bytes (msg_sized (sent_on sql now m))) sent
unfolding after_chat sent_on
server_sends sql now m block s t h built handled =
    let (r, users, e1, e2, e) = handle_data_msg-ok sql now block s handled in
    let read =
      ap (λ b. unserialize_msg b 0) (data_msg_block-bytes m block h built) ∙ unserialize_chat m h in
    let same = some-injective _ _ (sym e1 ∙ read) in
    (
      packets r.sender (msg_bytes (msg_sized (server_msg sql now r))) users s.online,
      ap (λ (x : Handler). x.sent) e,
      subst
          (λ (x : DataMsg).
            All (λ (p : Sent). p.block ≡ msg_bytes (msg_sized (server_msg sql now x)))
              (packets r.sender (msg_bytes (msg_sized (server_msg sql now r))) users s.online))
          same (packets-block r.sender _ users s.online),
    )

sent_on-written :
    (sql : MySql) (now : ℕ) (m : DataMsg)
    → IsChat m
    → serialize_msg (server_msg sql now (received_msg m))
      ≡ some (msg_sized (sent_on sql now m), msg_bytes (msg_sized (sent_on sql now m)))
unfolding sent_on
sent_on-written sql now m h =
    serialize_msg_lem (server_msg sql now (received_msg m))
      (omega (arith, sent_on-size sql now m, h.4))

receivers_kept : (sql : MySql) (m : DataMsg) → send_users sql (received_msg m) ≡ send_users sql m
unfolding send_users received_msg msg_sized
receivers_kept sql m = refl

-- With a free connection, and rows of the group's users that are numbers, the handler of the block ends.
pub chat_ends :
    (sql : MySql) (now connection : ℕ) (left users : List ℕ) (m : DataMsg) (block : List ℕ)
    (s : Handler)
    → IsChat m
    → data_msg_block m ≡ some block
    → s.connections ≡ connection ∷ left
    → send_users sql m ≡ some users
    → (t : Handler) × (handle_data_msg sql now block s ≡ ok t)
unfolding handle_data_msg pop
chat_ends sql now connection left users m block s h built free found = (
  send_each (received_msg m).sender (msg_bytes (msg_sized (sent_on sql now m))) users
      (save sql now (received_msg m) (record s { connections = push connection left })),
  rw
      (
        ap (λ b. unserialize_msg b 0) (data_msg_block-bytes m block h built) ∙ unserialize_chat m h,
        free,
        receivers_kept sql m ∙ found,
        sent_on-written sql now m h,
      )
      refl,
)
