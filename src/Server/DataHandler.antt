-- ===== src/Server/DataHandler.antt =====
-- DataHandler.cpp (with the connections of MySqlPool.cpp): a data block from a client, its handler, and
-- what the handler sends through the callback, which is SocketControl::SendPackage.
use socket_message.Prelude.{
  ℕ, zero, suc, ◌+◌, ◌-◌, ◌^◌, ◌<◌, ◌≡◌, refl, ap, Bool, true, false, not, ◌&&◌, ◌||◌, Option, none,
  some, List, [], ◌∷◌, ◌++◌, ltb, leb, ◌==◌, if◌then◌else◌, length,
}
use socket_message.Wire.Bytes.{is_neg, data_head_size}
use socket_message.Wire.Login.{
  DataHead, head_of, Named, serialize, unserialize, unserialize_get, c2s_login, c2s_data_msg,
  c2s_get_data_msg_list, s2c_data_msg,
}
use socket_message.Wire.Users.{serialize_users}
use socket_message.Wire.Groups.{serialize_groups}
use socket_message.Wire.Msgs.{DataMsg, serialize_msg, unserialize_msg, serialize_msgs}
use socket_message.Server.Online.{Entry, client_open, user_id_to_cfd}
use socket_message.Server.Database.{
  MySql, Insert, insert_of, login, all_user_list, user_all_group, user_id_by_group_id,
  get_data_msg_list, save_msg_data,
}
pub mod Ends
pub mod Login
pub mod Chat
pub mod Answers

-- How a handler ends.
pub data Outcome {ℓ} (A : Type ℓ) : Type ℓ where
  ok : A → Outcome A
  -- Every connection is taken: the thread waits in MySqlPool::Pop.
  waits : Outcome A
  -- An access outside a buffer, or an exception.
  faults : Outcome A

infixl 5 ◌>>=◌
abbrev pub ◌>>=◌ {ℓ κ} : {A : Type ℓ} {B : Type κ} → Outcome A → (A → Outcome B) → Outcome B
ok a >>= f = f a
waits >>= f = waits
faults >>= f = faults

abbrev pub or_fault {ℓ} : {A : Type ℓ} → Option A → Outcome A
or_fault none = faults
or_fault (some a) = ok a

pub >>=-eq-ok {ℓ κ} :
    {A : Type ℓ} {B : Type κ} (r : Outcome A) (f : A → Outcome B) {b : B}
    → (r >>= f) ≡ ok b
    → (a : A) × (r ≡ ok a) × (f a ≡ ok b)
>>=-eq-ok (ok a) f h = (a, refl, h)
>>=-eq-ok waits f h = cc
>>=-eq-ok faults f h = cc

pub or_fault-eq-ok {ℓ} : {A : Type ℓ} (o : Option A) {a : A} → or_fault o ≡ ok a → o ≡ some a
or_fault-eq-ok none h = cc
or_fault-eq-ok (some x) h = cc

pub ok-injective {ℓ} : {A : Type ℓ} {a b : A} → ok a ≡ ok b → a ≡ b
ok-injective {a = a} e = ap (λ r. elim r [ ok x ↦ x | waits ↦ a | faults ↦ a ]) e

-- A call of SendPackage: the descriptor and the block.
pub record Sent : Type 0 where
  pub cfd : ℕ
  pub block : List ℕ

-- `connections` is m_MySqlVector with its back first.
pub record Handler : Type 0 where
  pub online : List Entry
  pub connections : List ℕ
  pub sent : List Sent
  -- The rows that SaveMsgData inserted.
  pub saved : List Insert

-- MySqlPool::Pop
unfoldable pub pop : List ℕ → Outcome (ℕ × List ℕ)
pop [] = waits
pop (c ∷ cs) = ok (c, cs)

-- MySqlPool::Push
unfoldable pub push : ℕ → List ℕ → List ℕ
push c cs = c ∷ cs

unfoldable pub send_package : ℕ → List ℕ → Handler → Handler
send_package cfd block s = record s { sent = s.sent ++ record { cfd = cfd; block = block } ∷ [] }

-- The second half of DataHandlerC2SLogin, once the login is right.
unfoldable pub send_lists : MySql → List ℕ → ℕ → ℕ → Handler → Outcome Handler
send_lists sql blank cfd user_id s0 = do
  let s : Handler = record s0 { online = client_open cfd user_id s0.online }
  users ← or_fault (all_user_list sql blank)
  (users', users_block) ← or_fault (serialize_users users)
  let s2 = send_package cfd users_block s
  groups ← or_fault (user_all_group sql blank user_id)
  (groups', groups_block) ← or_fault (serialize_groups groups)
  ok (send_package cfd groups_block s2)

-- DataHandlerC2SLogin; `blank` is what a new UserName array holds.
unfoldable pub handle_login : MySql → List ℕ → ℕ → List ℕ → Handler → Outcome Handler
handle_login sql blank cfd bytes s0 = do
  m ← or_fault (unserialize bytes)
  (connection, left) ← pop s0.connections
  (is_login, ret) ← or_fault (login sql blank m)
  block ← or_fault (serialize ret)
  let s : Handler = send_package cfd block (record s0 { connections = left })
  s2 ← (if is_login then send_lists sql blank cfd ret.user_id s else ok s)
  ok (record s2 { connections = push connection s2.connections })

-- DataHandlerC2SGetDataMsgList
unfoldable pub handle_get_data_msg_list : MySql → ℕ → List ℕ → Handler → Outcome Handler
handle_get_data_msg_list sql cfd bytes s0 = do
  m ← or_fault (unserialize_get bytes)
  (connection, left) ← pop s0.connections
  msgs ← or_fault (get_data_msg_list sql m)
  (msgs', block) ← or_fault (serialize_msgs msgs)
  let s : Handler = send_package cfd block (record s0 { connections = left })
  ok (record s { connections = push connection s.connections })

-- The loop of DataHandlerC2SDataMsg over `sendUserVector`.
unfoldable pub send_each : ℕ → List ℕ → List ℕ → Handler → Handler
send_each sender block [] s = s
send_each sender block (user_id ∷ users) s =
    let cfd = user_id_to_cfd user_id s.online in
    send_each sender block users (
      if user_id == sender
      then s
      else (if ltb 0 cfd && not (is_neg cfd) then send_package cfd block s else s))

-- `sendUserVector`
unfoldable pub send_users : MySql → DataMsg → Option (List ℕ)
send_users sql m =
    if m.is_group == 0 then some (m.receiver ∷ []) else user_id_by_group_id sql m.receiver

-- The message once its time is the server's.
unfoldable pub timed_msg : ℕ → DataMsg → DataMsg
timed_msg now m = record m { created_time = now }

-- The message that goes out: its id is the database's, its type S2CDataMsg.
unfoldable pub server_msg : MySql → ℕ → DataMsg → DataMsg
server_msg sql now m =
    let saved : DataMsg = save_msg_data sql (timed_msg now m) in
    record saved { head = record (saved.head) { data_type = s2c_data_msg } }

-- SaveMsgData's insert, of which no row comes where it fails: ExeSqlGetId is 0 then.
unfoldable pub save : MySql → ℕ → DataMsg → Handler → Handler
save sql now m s =
    let row = insert_of sql (timed_msg now m) in
    record s { saved = s.saved ++ (if sql.insert row == 0 then [] else row ∷ []) }

-- DataHandlerC2SDataMsg; `now` is GetTimeStampSeconds.
unfoldable pub handle_data_msg : MySql → ℕ → List ℕ → Handler → Outcome Handler
handle_data_msg sql now bytes s0 = do
  m ← or_fault (unserialize_msg bytes 0)
  (connection, left) ← pop s0.connections
  users ← or_fault (send_users sql m)
  let s : Handler = save sql now m (record s0 { connections = push connection left })
  (sent_msg, block) ← or_fault (serialize_msg (server_msg sql now m))
  ok (send_each m.sender block users s)

-- m_DataTypeMap at the type of the block.
unfoldable pub handle : MySql → List ℕ → ℕ → ℕ → ℕ → List ℕ → Handler → Outcome Handler
handle sql blank now data_type cfd bytes s =
    if data_type == c2s_login
    then handle_login sql blank cfd bytes s
    else (if data_type == c2s_data_msg
        then handle_data_msg sql now bytes s
        else (if data_type == c2s_get_data_msg_list
            then handle_get_data_msg_list sql cfd bytes s
            else ok s))

-- ThreadWork on the block that AddData got.
unfoldable pub thread_work : MySql → List ℕ → ℕ → ℕ → List ℕ → Handler → Outcome Handler
thread_work sql blank now cfd bytes s = if ltb (length bytes) data_head_size then ok s else (do
  head ← or_fault (head_of bytes)
  if head.data_size == length bytes then handle sql blank now head.data_type cfd bytes s else ok s)
