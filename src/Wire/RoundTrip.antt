-- ===== src/Wire/RoundTrip.antt =====
-- DataType.h: the structs of a fixed size and S2CUserList, written and read back.
use socket_message.Prelude.{
  ℕ, ◌^◌, ◌<◌, ◌≡◌, none, some, List, ◌++◌, arith, length, drop, take, All, lt→ltb, length-drop,
  >>=-none,
}
use socket_message.Wire.Bytes.{IsInt, name_size, bytes_at, take_exactly_short, int_at, take_whole}
use socket_message.Wire.Counted.{counted}
use socket_message.Wire.Login.{
  Named, IsNamed, named_size, named_bytes, named_of, serialize, unserialize, length-named_bytes,
  named_of-named_bytes, GetDataMsgList, IsGetDataMsgList, get_data_msg_list_size,
  get_data_msg_list_bytes, serialize_get, unserialize_get, get_bytes_lem, head_of, head_bytes,
}
use socket_message.Wire.Users.{
  UserList, user_list_size, user_list_sized, user_list_bytes, serialize_users, unserialize_users,
  unserialize_users-bytes,
}

-- A C2SLogin, S2CLogin or S2CUser whose `DataSize` is its size is written as its 44 bytes, and these
-- are read back as the same struct whatever follows them in the block. The ids are 32-bit values and
-- the array has 32 chars.
pub unserialize-serialize :
    (m : Named) (rest : List ℕ)
    → IsNamed m
    → m.head.data_size ≡ named_size
    → (serialize m ≡ some (named_bytes m)) × (unserialize (named_bytes m ++ rest) ≡ some m)
unfolding serialize unserialize
unserialize-serialize m rest h size = (
  take_whole m.head.data_size (named_bytes m) (omega (arith, length-named_bytes m, h.3)),
  named_of-named_bytes m rest h,
)

-- A C2SGetDataMsgList whose `DataSize` is its size is written as its 16 bytes, and these are read back
-- as the same struct whatever follows them in the block. Its two ids are 32-bit values.
pub unserialize_get-serialize_get :
    (m : GetDataMsgList) (rest : List ℕ)
    → IsGetDataMsgList m
    → m.head.data_size ≡ get_data_msg_list_size
    → (serialize_get m ≡ some (get_data_msg_list_bytes m))
      × (unserialize_get (get_data_msg_list_bytes m ++ rest) ≡ some m)
unfolding serialize_get get_data_msg_list_bytes head_bytes
unserialize_get-serialize_get m rest h size =
    (take_whole m.head.data_size (get_data_msg_list_bytes m) (omega arith), get_bytes_lem m rest h)

-- A block of under 44 bytes is too short for a C2SLogin, S2CLogin or S2CUser: UnSerialize reads past
-- its end, since it copies the size of the struct whatever `DataSize` the block announces.
pub unserialize_short : (block : List ℕ) → length block < named_size → unserialize block ≡ none
unfolding unserialize named_of bytes_at
unserialize_short block short = >>=-none (head_of block) _ λ head.
    >>=-none (int_at block 8) _ λ user_id.
      rw (take_exactly_short name_size (drop 12 block) (omega (arith, length-drop 12 block)))

-- A list of users that S2CUserList::Serialize wrote is read back by S2CUserList::UnSerialize with its
-- `DataSize` set and up to the count's low byte: of `n` users the first `n % 256`, and none where
-- `n % 256` is 128 or more. What follows the block is not read. The users have the range of their
-- types, and the size of the block fits an `int`.
pub unserialize_users-serialize_users :
    (l : UserList) (rest : List ℕ)
    → IsInt l.head.data_type
    → All IsNamed l.users
    → user_list_size l < 2 ^ 31
    → (serialize_users l ≡ some (user_list_sized l, user_list_bytes (user_list_sized l)))
      × (unserialize_users (user_list_bytes (user_list_sized l) ++ rest)
          ≡ some (record (user_list_sized l) { users = take (counted (length l.users)) l.users }))
unfolding serialize_users user_list_sized
unserialize_users-serialize_users l rest ht h fits = (
  rw (lt→ltb (user_list_size l) (2 ^ 31) fits),
  unserialize_users-bytes (user_list_sized l) rest (omega arith) ht h,
)
