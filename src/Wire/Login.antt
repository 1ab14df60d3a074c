-- ===== src/Wire/Login.antt =====
-- DataType.h: DataHead, EDataType and the structs of a fixed size, C2SLogin, S2CLogin and
-- C2SGetDataMsgList, with the memcpy of DefaultDataSerializeAndUnSerialize. The structs are packed,
-- so that their memory is their fields in order.
use socket_message.Prelude.{ℕ, ◌+◌, ◌≡◌, Option, some, List, ◌++◌, arith, ◌>>=◌, length}
use socket_message.Wire.Bytes.{
  IsInt, le32, int_at, bytes_at, name_size, take_exactly, take_exactly-append,
}

-- EDataType
abbrev pub c2s_login : ℕ
c2s_login = 100

abbrev pub c2s_data_msg : ℕ
c2s_data_msg = 101

abbrev pub c2s_get_data_msg_list : ℕ
c2s_get_data_msg_list = 102

abbrev pub s2c_login : ℕ
s2c_login = 200

abbrev pub s2c_user : ℕ
s2c_user = 201

abbrev pub s2c_user_list : ℕ
s2c_user_list = 202

abbrev pub s2c_group : ℕ
s2c_group = 203

abbrev pub s2c_group_list : ℕ
s2c_group_list = 204

abbrev pub s2c_data_msg : ℕ
s2c_data_msg = 205

abbrev pub s2c_data_msg_list : ℕ
s2c_data_msg_list = 206

pub record DataHead : Type 0 where
  pub data_size : ℕ
  pub data_type : ℕ

unfoldable pub head_bytes : DataHead → List ℕ
unfolding le32
head_bytes h = le32 h.data_size ++ le32 h.data_type

-- `DataHead * dh = (DataHead *)data`
unfoldable pub head_of : List ℕ → Option DataHead
unfolding int_at
head_of bytes = do
  data_size ← int_at bytes 0
  data_type ← int_at bytes 4
  some (record { data_size = data_size; data_type = data_type })

-- C2SLogin, and S2CLogin and S2CUser, which have the same shape: an id and 32 chars.
pub record Named : Type 0 where
  pub head : DataHead
  pub user_id : ℕ
  pub chars : List ℕ

-- `sizeof(C2SLogin)`
abbrev pub named_size : ℕ
named_size = 44

abbrev pub IsNamed : Named → Type 0
IsNamed m =
    IsInt m.head.data_size × IsInt m.head.data_type × IsInt m.user_id × (length m.chars ≡ name_size)

-- What `new` leaves in an uninitialised array is an argument.
unfoldable pub new_c2s_login : ℕ → List ℕ → Named
new_c2s_login user_id chars = record {
  head = record { data_size = named_size; data_type = c2s_login };
  user_id = user_id;
  chars = chars;
}

unfoldable pub new_s2c_login : ℕ → List ℕ → Named
new_s2c_login user_id chars = record {
  head = record { data_size = named_size; data_type = s2c_login };
  user_id = user_id;
  chars = chars;
}

unfoldable pub new_s2c_user : ℕ → List ℕ → Named
new_s2c_user user_id chars = record {
  head = record { data_size = named_size; data_type = s2c_user };
  user_id = user_id;
  chars = chars;
}

unfoldable pub named_bytes : Named → List ℕ
unfolding head_bytes le32
named_bytes m = head_bytes m.head ++ le32 m.user_id ++ m.chars

unfoldable pub named_of : List ℕ → Option Named
unfolding head_of int_at bytes_at
named_of bytes = do
  head ← head_of bytes
  user_id ← int_at bytes 8
  chars ← bytes_at bytes 12 name_size
  some (record { head = head; user_id = user_id; chars = chars })

-- `memcpy(p, this, DataSize)`: a `DataSize` above the size of the struct reads past it.
unfoldable pub serialize : Named → Option (List ℕ)
unfolding named_bytes
serialize m = take_exactly m.head.data_size (named_bytes m)

-- `memcpy(this, data, DataSize)` on a new struct, whose `DataSize` is its size.
unfoldable pub unserialize : List ℕ → Option Named
unfolding named_of
unserialize bytes = named_of bytes

pub record GetDataMsgList : Type 0 where
  pub head : DataHead
  pub last_msg_id : ℕ
  pub user_id : ℕ

abbrev pub get_data_msg_list_size : ℕ
get_data_msg_list_size = 16

abbrev pub IsGetDataMsgList : GetDataMsgList → Type 0
IsGetDataMsgList m =
    IsInt m.head.data_size × IsInt m.head.data_type × IsInt m.last_msg_id × IsInt m.user_id

unfoldable pub new_get_data_msg_list : ℕ → ℕ → GetDataMsgList
new_get_data_msg_list last_msg_id user_id = record {
  head = record { data_size = get_data_msg_list_size; data_type = c2s_get_data_msg_list };
  last_msg_id = last_msg_id;
  user_id = user_id;
}

unfoldable pub get_data_msg_list_bytes : GetDataMsgList → List ℕ
unfolding head_bytes le32
get_data_msg_list_bytes m = head_bytes m.head ++ le32 m.last_msg_id ++ le32 m.user_id

unfoldable pub serialize_get : GetDataMsgList → Option (List ℕ)
unfolding get_data_msg_list_bytes
serialize_get m = take_exactly m.head.data_size (get_data_msg_list_bytes m)

unfoldable pub unserialize_get : List ℕ → Option GetDataMsgList
unfolding head_of int_at
unserialize_get bytes = do
  head ← head_of bytes
  last_msg_id ← int_at bytes 8
  user_id ← int_at bytes 12
  some (record { head = head; last_msg_id = last_msg_id; user_id = user_id })

pub head_of-head_bytes :
    (h : DataHead) (rest : List ℕ)
    → IsInt h.data_size
    → IsInt h.data_type
    → head_of (head_bytes h ++ rest) ≡ some h
unfolding head_of head_bytes
head_of-head_bytes h rest hs ht = ground arith

pub length-named_bytes : (m : Named) → length (named_bytes m) ≡ 12 + length m.chars
unfolding named_bytes
length-named_bytes m = omega arith

-- Whatever follows the struct in the block is not read.
pub named_of-named_bytes :
    (m : Named) (rest : List ℕ) → IsNamed m → named_of (named_bytes m ++ rest) ≡ some m
unfolding named_of named_bytes head_of head_bytes
named_of-named_bytes m rest (hs, ht, hi, hc) =
    ground (arith, take_exactly-append name_size m.chars rest hc)

pub get_bytes_lem :
    (m : GetDataMsgList) (rest : List ℕ)
    → IsGetDataMsgList m
    → unserialize_get (get_data_msg_list_bytes m ++ rest) ≡ some m
unfolding unserialize_get get_data_msg_list_bytes head_of head_bytes
get_bytes_lem m rest (hs, ht, hl, hi) = ground arith
