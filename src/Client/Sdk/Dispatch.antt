-- ===== src/Client/Sdk/Dispatch.antt =====
-- SocketMessageSdkInterface.cpp: SocketReadReadPackageCallback and the handlers of the server's packages,
-- and a round of the thread with them.
use socket_message.Prelude.{
  ℕ, Bool, true, false, Option, none, some, List, [], ◌∷◌, map, ltb, ◌==◌, if◌then◌else◌, ◌>>=◌,
  length,
}
use socket_message.Wire.Bytes.{data_head_size, c_str}
use socket_message.Wire.Login.{
  head_of, Named, unserialize, s2c_login, s2c_user_list, s2c_group_list, s2c_data_msg,
  s2c_data_msg_list,
}
use socket_message.Wire.Users.{unserialize_users}
use socket_message.Wire.Groups.{Group, unserialize_groups}
use socket_message.Wire.Msgs.{DataMsg, unserialize_msg, unserialize_msgs}
use socket_message.Net.Result.{Result, ok, err, out_of_buffer}
use socket_message.Client.Connect.{no_limit}
use socket_message.Client.Select.{Select, Selected, Handed, work}
use socket_message.Client.Sdk.{
  UserInfo, GroupInfo, ChatMsg, login_got, user_list_got, group_list_got, data_msg_got,
  data_msg_list_got, Sdk, called, with_control,
}

-- `login.UserId != -1`
unfoldable pub set_self : ℕ → Sdk → Sdk
set_self user_id s = record s {
  self_user_id = if user_id == no_limit then s.self_user_id else user_id;
}

unfoldable pub handle_s2c_login : Bool → ℕ → List ℕ → Sdk → Option Sdk
handle_s2c_login false fd bytes s = some s
handle_s2c_login true fd bytes s = do
  m ← unserialize bytes
  user_name ← c_str m.chars
  some (called (login_got fd m.user_id user_name) (set_self m.user_id s))

-- The loop that fills `userVector`, and `gi.UserList`.
unfoldable pub user_infos : List Named → Option (List UserInfo)
user_infos [] = some []
user_infos (u ∷ us) = do
  user_name ← c_str u.chars
  rest ← user_infos us
  some (record { user_id = u.user_id; user_name = user_name } ∷ rest)

unfoldable pub handle_s2c_user_list : Bool → ℕ → List ℕ → Sdk → Option Sdk
handle_s2c_user_list false fd bytes s = some s
handle_s2c_user_list true fd bytes s = do
  l ← unserialize_users bytes
  users ← user_infos l.users
  some (called (user_list_got fd users) s)

unfoldable pub group_infos : List Group → Option (List GroupInfo)
group_infos [] = some []
group_infos (g ∷ gs) = do
  group_name ← c_str g.group_name
  users ← user_infos g.user_list.users
  rest ← group_infos gs
  some (
      record {
        group_id = g.group_id;
        group_name = group_name;
        admin_id = g.admin_id;
        user_list = users;
      }
      ∷ rest)

unfoldable pub handle_s2c_group_list : Bool → ℕ → List ℕ → Sdk → Option Sdk
handle_s2c_group_list false fd bytes s = some s
handle_s2c_group_list true fd bytes s = do
  l ← unserialize_groups bytes
  groups ← group_infos l.groups
  some (called (group_list_got fd groups) s)

unfoldable pub chat_msg : DataMsg → ChatMsg
chat_msg m = record {
  msg_id = m.msg_id;
  msg_type = m.msg_type;
  sender = m.sender;
  receiver = m.receiver;
  is_group = m.is_group;
  created_time = m.created_time;
  msg = m.msg;
  extend = m.extend;
}

unfoldable pub handle_s2c_data_msg : Bool → ℕ → List ℕ → Sdk → Option Sdk
handle_s2c_data_msg false fd bytes s = some s
handle_s2c_data_msg true fd bytes s = do
  m ← unserialize_msg bytes 0
  some (called (data_msg_got fd (chat_msg m)) s)

unfoldable pub handle_s2c_data_msg_list : Bool → ℕ → List ℕ → Sdk → Option Sdk
handle_s2c_data_msg_list false fd bytes s = some s
handle_s2c_data_msg_list true fd bytes s = do
  l ← unserialize_msgs bytes
  some (called (data_msg_list_got fd (map chat_msg l.msgs)) s)

-- m_DataTypeMap at the type of the package, with the handlers of RegeditDataHandler.
unfoldable pub dispatch : ℕ → ℕ → List ℕ → Sdk → Option Sdk
dispatch data_type fd bytes s =
    if data_type == s2c_login
    then handle_s2c_login s.has_login fd bytes s
    else (if data_type == s2c_user_list
        then handle_s2c_user_list s.has_user_list fd bytes s
        else (if data_type == s2c_group_list
            then handle_s2c_group_list s.has_group_list fd bytes s
            else (if data_type == s2c_data_msg
                then handle_s2c_data_msg s.has_data_msg fd bytes s
                else (if data_type == s2c_data_msg_list
                    then handle_s2c_data_msg_list s.has_data_msg_list fd bytes s
                    else some s))))

-- SocketReadReadPackageCallback; `none` is a read outside the package.
unfoldable pub read_package : ℕ → List ℕ → Sdk → Option Sdk
read_package fd bytes s = if ltb (length bytes) data_head_size then some s else (do
  head ← head_of bytes
  if head.data_size == length bytes then dispatch head.data_type fd bytes s else some s)

unfoldable pub read_each : ℕ → List (List ℕ) → Sdk → Option Sdk
read_each fd [] s = some s
read_each fd (p ∷ ps) s = do s' ← read_package fd p s; read_each fd ps s'

unfoldable pub read_handed : List Handed → Sdk → Option Sdk
read_handed [] s = some s
read_handed (h ∷ hs) s = do s' ← read_each h.cfd h.packages s; read_handed hs s'

-- A round of Select::Work with the interface's callbacks: the packages, then the closed sockets.
unfoldable pub finish_round : Option Sdk → Select → Result Sdk
finish_round none sel = err out_of_buffer
finish_round (some s) sel = ok (with_control sel s)

unfoldable pub work_round : Selected → Sdk → Result Sdk
work_round answer s = elim (work answer s.control) [
  | ok r ↦ finish_round (read_handed r.1 s) r.0
  | err e ↦ err e
]
