-- ===== src/Client/Sdk.antt =====
-- SocketMessageSdkInterface.cpp: what the user of the client library calls, the packages that it sends,
-- and the callbacks that the server's packages reach.
use socket_message.Prelude.{
  ℕ, ◌+◌, ◌-◌, ◌≡◌, Bool, true, false, ◌||◌, Option, none, some, List, [], ◌∷◌, ◌++◌, map, ltb,
  ◌==◌, if◌then◌else◌, ◌>>=◌, length, take, drop,
}
use socket_message.Wire.Bytes.{name_size, data_head_size, c_str}
use socket_message.Wire.Login.{
  DataHead, head_of, Named, serialize, unserialize, serialize_get, new_c2s_login,
  new_get_data_msg_list, c2s_data_msg, s2c_login, s2c_user_list, s2c_group_list, s2c_data_msg,
  s2c_data_msg_list,
}
use socket_message.Wire.Users.{UserList, unserialize_users}
use socket_message.Wire.Groups.{Group, GroupList, unserialize_groups}
use socket_message.Wire.Msgs.{
  DataMsg, DataMsgList, serialize_msg, unserialize_msg, unserialize_msgs,
}
use socket_message.Net.Result.{Result, ok, err, out_of_buffer, Fault}
use socket_message.Net.ClientSocket.{Taken}
use socket_message.Client.Connect.{Kernel, no_limit}
use socket_message.Client.Select.{Select, Selected, Handed, work}
pub mod Dispatch
pub mod LoginPackets
use socket_message.Client.Control.{new_control, connect_server_socket, SendResult, send_package}

-- SocketMessageSdkDataType.h
pub record UserInfo : Type 0 where
  pub user_id : ℕ
  pub user_name : List ℕ

pub record GroupInfo : Type 0 where
  pub group_id : ℕ
  pub group_name : List ℕ
  pub admin_id : ℕ
  pub user_list : List UserInfo

pub record ChatMsg : Type 0 where
  pub msg_id : ℕ
  pub msg_type : ℕ
  pub sender : ℕ
  pub receiver : ℕ
  pub is_group : ℕ
  pub created_time : ℕ
  pub msg : List ℕ
  pub extend : List ℕ

-- A call of one of the user's callbacks, with the descriptor of the connection.
pub data Call : Type 0 where
  disconnected : ℕ → Call
  login_got : ℕ → ℕ → List ℕ → Call
  user_list_got : ℕ → List UserInfo → Call
  group_list_got : ℕ → List GroupInfo → Call
  data_msg_got : ℕ → ChatMsg → Call
  data_msg_list_got : ℕ → List ChatMsg → Call

-- `has_...` tells whether the callback is set; `calls` are the calls so far.
pub record Sdk : Type 0 where
  pub control : Select
  pub self_user_id : ℕ
  pub has_disconnect : Bool
  pub has_login : Bool
  pub has_user_list : Bool
  pub has_group_list : Bool
  pub has_data_msg : Bool
  pub has_data_msg_list : Bool
  pub calls : List Call

-- The constructor. RegeditDataHandler's map is the tests of `dispatch`.
unfoldable pub new_sdk : Sdk
new_sdk = record {
  control = new_control;
  self_user_id = 0;
  has_disconnect = false;
  has_login = false;
  has_user_list = false;
  has_group_list = false;
  has_data_msg = false;
  has_data_msg_list = false;
  calls = [];
}

-- `ID_INVALID`, the `int` -1 as an `unsigned int`.
abbrev pub id_invalid : ℕ
id_invalid = no_limit

unfoldable pub called : Call → Sdk → Sdk
called c s = record s { calls = s.calls ++ c ∷ [] }

-- The callback that the constructor sets for closed sockets.
unfoldable pub disconnect_calls : Bool → List ℕ → List Call
disconnect_calls false fds = []
disconnect_calls true fds = map disconnected fds

-- The connections after an operation on them, which may have closed some.
unfoldable pub with_control : Select → Sdk → Sdk
with_control sel s = record s {
  control = sel;
  calls = s.calls ++ disconnect_calls s.has_disconnect (drop (length s.control.closed) sel.closed);
}

-- ConnectServer, with `ID_INVALID` where it fails.
unfoldable pub id_of : Option ℕ → ℕ
id_of none = id_invalid
id_of (some fd) = fd

unfoldable pub connect_server : Kernel → Sdk → ℕ × Sdk
connect_server k s = let r = connect_server_socket k s.control in (id_of r.0, with_control r.1 s)

-- The copy of the password and its terminator, as far as `Password` goes; `blank` is what the new array
-- holds.
unfoldable pub copy_password : List ℕ → List ℕ → List ℕ
copy_password blank password =
    let n = if ltb (length password + 1) name_size then length password + 1 else name_size in
    take n (password ++ 0 ∷ []) ++ drop n blank

unfoldable pub login_block : List ℕ → ℕ → List ℕ → Option (List ℕ)
login_block blank user_id password =
    serialize (new_c2s_login user_id (copy_password blank password))

-- The C2SDataMsg of SendDataMsg; `MsgId` is not set and holds `blank_id`.
unfoldable pub new_c2s_data_msg : ℕ → ℕ → ℕ → ℕ → ℕ → ℕ → List ℕ → List ℕ → DataMsg
new_c2s_data_msg blank_id msg_type sender receiver is_group now msg extend = record {
  head = record { data_size = 0; data_type = c2s_data_msg };
  msg_id = blank_id;
  msg_type = msg_type;
  sender = sender;
  receiver = receiver;
  is_group = is_group;
  created_time = now;
  msg = msg;
  extend = extend;
}

unfoldable pub data_msg_block : DataMsg → Option (List ℕ)
data_msg_block m = do (sized, block) ← serialize_msg m; some block

-- What a Send function returns, the state, and the bytes that the kernel took.
pub record Sent : Type 0 where
  pub result : Bool
  pub sdk : Sdk
  pub wire : List ℕ

unfoldable pub refuse : Sdk → Result Sent
refuse s = ok (record { result = false; sdk = s; wire = [] })

-- SEND_DATA; the block has `DataSize` bytes. Without a block Serialize has no result.
unfoldable pub send_data : ℕ → Option (List ℕ) → List Taken → Sdk → Result Sent
send_data id none answers s = err out_of_buffer
send_data id (some block) answers s = elim (send_package id block answers s.control) [
  | ok r ↦ ok (record { result = r.result; sdk = with_control r.select s; wire = r.wire })
  | err e ↦ err e
]

unfoldable pub send_login : List ℕ → ℕ → ℕ → List ℕ → List Taken → Sdk → Result Sent
send_login blank id user_id password answers s =
    if id == id_invalid
    then refuse s
    else send_data id (login_block blank user_id password) answers s

unfoldable pub send_data_msg :
    ℕ → ℕ → ℕ → ℕ → ℕ → ℕ → List ℕ → List ℕ → List Taken → Sdk → Result Sent
send_data_msg blank_id now id msg_type receiver is_group msg extend answers s =
    if id == id_invalid || s.self_user_id == 0
    then refuse s
    else send_data id
        (data_msg_block
          (new_c2s_data_msg blank_id msg_type s.self_user_id receiver is_group now msg extend))
        answers s

unfoldable pub send_get_data_msg_list : ℕ → ℕ → List Taken → Sdk → Result Sent
send_get_data_msg_list id last_msg_id answers s =
    if id == id_invalid || s.self_user_id == 0
    then refuse s
    else send_data id (serialize_get (new_get_data_msg_list last_msg_id s.self_user_id)) answers s
