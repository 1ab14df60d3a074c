-- ===== src/Server/Database.antt =====
-- DBUser.cpp, DBGroup.cpp, DBMsg.cpp over MySql.cpp: the queries and what is made of their rows. `none`
-- is a copy out of its buffer, or an exception of `at` or `stoi`. An `int` is its bit pattern.
use socket_message.Prelude.{
  ℕ, ◌+◌, ◌-◌, ◌*◌, ◌%◌, ◌^◌, Bool, true, false, not, ◌&&◌, ◌||◌, Option, none, some, List, [], ◌∷◌,
  ltb, leb, ◌==◌, if◌then◌else◌, ◌>>=◌, ◌>>◌, guard, length, get_elem?,
}
pub mod Stoi
use socket_message.Server.Database.Stoi.{stoi}
use socket_message.Wire.Bytes.{is_neg, c_str, copy_name}
use socket_message.Wire.Login.{Named, GetDataMsgList, new_s2c_login, new_s2c_user, s2c_data_msg}
use socket_message.Wire.Groups.{Group, GroupList, new_group, new_group_list}
use socket_message.Wire.Users.{UserList, new_user_list}
use socket_message.Wire.Msgs.{DataMsg, DataMsgList, new_data_msg_list}

-- The statements that the code prints, with the values that it prints into them.
pub data Query : Type 0 where
  -- The user's id and the escaped password.
  find_user : ℕ → List ℕ → Query
  all_users : Query
  user_groups group_users group_user_ids : ℕ → Query
  -- The receiver, and the `MsgId` to begin behind, or none: the first 100.
  msgs_for : ℕ → Option ℕ → Query

pub record Insert : Type 0 where
  pub msg_type : ℕ
  pub sender : ℕ
  pub receiver : ℕ
  pub is_group : ℕ
  pub created_time : ℕ
  -- Escaped.
  pub msg : List ℕ
  pub extend : List ℕ

-- A row is its cells, each a C string, with `""` for NULL.
abbrev pub Row : Type 0
Row = List (List ℕ)

-- The MySQL server and its client library. `select i q` is what ExecSqlGetResult leaves in its vector
-- for the `i`-th query of a handler; other threads may write between two queries. A query that fails
-- leaves no rows. `insert` is the `int` of mysql_insert_id, 0 for a statement that fails.
pub record MySql : Type 0 where
  pub escape_string : List ℕ → List ℕ
  pub select : ℕ → Query → List Row
  pub insert : Insert → ℕ

-- `std::stoi(row.at(i))`
unfoldable pub int_cell : Row → ℕ → Option ℕ
int_cell row i = get_elem? row i >>= λ text. stoi text

-- The number of digits of a value below 2 ^ 32.
unfoldable pub digit_count : ℕ → ℕ
digit_count n =
    if ltb n 10
    then 1
    else (if ltb n 100
        then 2
        else (if ltb n 1000
            then 3
            else (if ltb n 10000
                then 4
                else (if ltb n 100000
                    then 5
                    else (if ltb n 1000000
                        then 6
                        else (if ltb n 10000000
                            then 7
                            else (if ltb n 100000000
                                then 8
                                else (if ltb n 1000000000 then 9 else 10))))))))

-- What `%d` prints.
unfoldable pub printed_size : ℕ → ℕ
printed_size w = if is_neg w then 1 + digit_count (2 ^ 32 - w) else digit_count w

-- What `sprintf` writes for the query of DBUser::Login: 78 bytes of text, the id, the password and the
-- terminator.
unfoldable pub login_sql_size : ℕ → List ℕ → ℕ
login_sql_size user_id password = 78 + printed_size user_id + length password + 1

-- `char sql[128]`
abbrev pub login_sql_capacity : ℕ
login_sql_capacity = 128

-- "用户名密码错误" in UTF-8.
abbrev pub login_error : List ℕ
login_error =
    231 ∷ 148 ∷ 168 ∷ 230 ∷ 136 ∷ 183 ∷ 229 ∷ 144 ∷ 141 ∷ 229 ∷ 175 ∷ 134 ∷ 231 ∷ 160 ∷ 129 ∷ 233
    ∷ 148 ∷ 153 ∷ 232 ∷ 175 ∷ 175 ∷ []

-- The `int` -1.
abbrev pub minus_one : ℕ
minus_one = 4294967295

-- The second half of Login: the answer by the rows. `blank` is the uninitialised UserName.
unfoldable pub login_result : List ℕ → List Row → Option (Bool × Named)
login_result blank [] = do
  name ← copy_name blank login_error
  some (false, new_s2c_login minus_one name)
login_result blank (row ∷ rows) = do
  user_id ← int_cell row 0
  user_name ← get_elem? row 1
  name ← copy_name blank user_name
  some (true, new_s2c_login user_id name)

-- DBUser::Login
unfoldable pub login : MySql → List ℕ → Named → Option (Bool × Named)
login sql blank m = do
  password ← c_str m.chars
  let escaped = sql.escape_string password
  guard (leb (login_sql_size m.user_id escaped) login_sql_capacity)
  login_result blank (sql.select 0 (find_user m.user_id escaped))

-- DBUser::Vector2UserList
unfoldable pub vector_to_user_list : List ℕ → List Row → Option (List Named)
vector_to_user_list blank [] = some []
vector_to_user_list blank (row ∷ rows) = do
  user_id ← int_cell row 0
  user_name ← get_elem? row 1
  name ← copy_name blank user_name
  rest ← vector_to_user_list blank rows
  some (new_s2c_user user_id name ∷ rest)

-- DBUser::AllUserList
unfoldable pub all_user_list : MySql → List ℕ → Option UserList
all_user_list sql blank = do
  users ← vector_to_user_list blank (sql.select 1 all_users)
  some (new_user_list users)

-- The loop of DBGroup::GetUserAllGroup; `i` numbers the query for a group's users.
unfoldable pub groups_of_rows : MySql → List ℕ → ℕ → List Row → Option (List Group)
groups_of_rows sql blank i [] = some []
groups_of_rows sql blank i (row ∷ rows) = do
  group_id ← int_cell row 0
  group_name ← get_elem? row 1
  name ← copy_name blank group_name
  admin_id ← int_cell row 2
  users ← vector_to_user_list blank (sql.select i (group_users group_id))
  rest ← groups_of_rows sql blank (i + 1) rows
  some (new_group group_id name admin_id users ∷ rest)

-- DBGroup::GetUserAllGroup
unfoldable pub user_all_group : MySql → List ℕ → ℕ → Option GroupList
user_all_group sql blank user_id = do
  groups ← groups_of_rows sql blank 3 (sql.select 2 (user_groups user_id))
  some (new_group_list groups)

-- DBGroup::GetUserIdByGroupId, its loop and itself.
unfoldable pub ids_of_rows : List Row → Option (List ℕ)
ids_of_rows [] = some []
ids_of_rows (row ∷ rows) = do
  user_id ← int_cell row 0
  rest ← ids_of_rows rows
  some (user_id ∷ rest)

unfoldable pub user_id_by_group_id : MySql → ℕ → Option (List ℕ)
user_id_by_group_id sql group_id = ids_of_rows (sql.select 0 (group_user_ids group_id))

-- The loop of DBMsg::GetDataMsgList. `IsGroup` is a `bool`.
unfoldable pub msgs_of_rows : List Row → Option (List DataMsg)
msgs_of_rows [] = some []
msgs_of_rows (row ∷ rows) = do
  msg_id ← int_cell row 0
  msg_type ← int_cell row 1
  msg ← get_elem? row 2
  sender ← int_cell row 3
  receiver ← int_cell row 4
  is_group ← int_cell row 5
  created_time ← int_cell row 6
  extend ← get_elem? row 7
  rest ← msgs_of_rows rows
  some (
      record {
        head = record { data_size = 0; data_type = s2c_data_msg };
        msg_id = msg_id;
        msg_type = msg_type;
        sender = sender;
        receiver = receiver;
        is_group = if is_group == 0 then 0 else 1;
        created_time = created_time;
        msg = msg;
        extend = extend;
      }
      ∷ rest)

-- `LastMsgId > 0`, on `int`s.
unfoldable pub last_msg : ℕ → Option ℕ
last_msg w = if ltb 0 w && not (is_neg w) then some w else none

-- DBMsg::GetDataMsgList
unfoldable pub get_data_msg_list : MySql → GetDataMsgList → Option DataMsgList
get_data_msg_list sql m = do
  msgs ← msgs_of_rows (sql.select 0 (msgs_for m.user_id (last_msg m.last_msg_id)))
  some (new_data_msg_list msgs)

-- The statement of DBMsg::SaveMsgData; its buffer has room for the two texts and 256 bytes more.
unfoldable pub insert_of : MySql → DataMsg → Insert
insert_of sql m = record {
  msg_type = m.msg_type;
  sender = m.sender;
  receiver = m.receiver;
  is_group = if m.is_group == 0 then 0 else 1;
  created_time = m.created_time;
  msg = sql.escape_string m.msg;
  extend = sql.escape_string m.extend;
}

-- DBMsg::SaveMsgData sets `MsgId`; whether the statement succeeded is not used.
unfoldable pub save_msg_data : MySql → DataMsg → DataMsg
save_msg_data sql m = record m { msg_id = sql.insert (insert_of sql m) }
