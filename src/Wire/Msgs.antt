-- ===== src/Wire/Msgs.antt =====
-- DataType.h: DataMsg (C2SDataMsg and S2CDataMsg are DataMsg with another DataType) and DataMsgList.
-- A block is a list and a pointer into it an offset, since DataMsg::UnSerialize can move backwards.
pub mod Fields
pub mod RoundTrip
pub mod Lists
pub mod Reads
use socket_message.Prelude.{
  ℕ, zero, suc, ◌+◌, ◌-◌, ◌*◌, ◌/◌, ◌%◌, ◌^◌, ◌≤◌, ◌<◌, ◌≡◌, ◌≢◌, refl, ap, sym, ◌∙◌, Bool, true,
  false, Option, none, some, List, [], ◌∷◌, ◌++◌, map, arith, ltb, leb, ◌==◌, if◌then◌else◌, ◌>>=◌,
  ◌>>◌, guard, length, drop, take, All, concat, length-append, drop-append_length, length-drop,
  take-append_length, append_assoc, append-nil, lt→ltb,
}
use socket_message.Wire.Bytes.{IsInt, le32, int_at, char_at, c_str}
use socket_message.Wire.Counted.{count_of, list_block}
use socket_message.Wire.Login.{
  DataHead, head_bytes, head_of, c2s_data_msg, s2c_data_msg, s2c_data_msg_list,
}

-- EMsgType
abbrev pub msg_type_text : ℕ
msg_type_text = 1

-- `is_group` is the byte of the `bool`.
pub record DataMsg : Type 0 where
  pub head : DataHead
  pub msg_id : ℕ
  pub msg_type : ℕ
  pub sender : ℕ
  pub receiver : ℕ
  pub is_group : ℕ
  pub created_time : ℕ
  pub msg : List ℕ
  pub extend : List ℕ

-- `size1`, the fields before `Msg`.
abbrev pub msg_fixed_size : ℕ
msg_fixed_size = 29

unfoldable pub msg_fixed_bytes : DataMsg → List ℕ
msg_fixed_bytes m =
    head_bytes m.head
    ++ (le32 m.msg_id
        ++ (le32 m.msg_type
            ++ (le32 m.sender ++ (le32 m.receiver ++ (m.is_group ∷ le32 m.created_time)))))

-- `Msg` and `Extend`, each with its size and its terminator counted in.
unfoldable pub msg_texts : DataMsg → List ℕ
msg_texts m =
    le32 (length m.msg + 1) ++ (m.msg ++ 0 ∷ (le32 (length m.extend + 1) ++ (m.extend ++ 0 ∷ [])))

unfoldable pub msg_size : DataMsg → ℕ
msg_size m = msg_fixed_size + 4 + length m.msg + 4 + length m.extend + 2

unfoldable pub msg_sized : DataMsg → DataMsg
msg_sized m = record m { head = record (m.head) { data_size = msg_size m } }

unfoldable pub msg_bytes : DataMsg → List ℕ
msg_bytes m = msg_fixed_bytes m ++ msg_texts m

-- `Serialize` and `Serialize2`: `DataSize` is set, and its block returned.
unfoldable pub serialize_msg : DataMsg → Option (DataMsg × List ℕ)
serialize_msg m = do guard (ltb (msg_size m) (2 ^ 31)); some (msg_sized m, msg_bytes (msg_sized m))

-- The offset behind a text whose size is read from the signed byte `b`: `offset += MsgSize; ++offset`.
-- A negative size moves back, and a result below 0 points before the block.
unfoldable pub skip_text : ℕ → ℕ → Option ℕ
skip_text offset b =
    if ltb b 128
    then some (offset + b + 1)
    else (if leb 256 (offset + b + 1) then some (offset + b + 1 - 256) else none)

-- `UnSerialize(data)` with `data` at the offset `base` of the block.
unfoldable pub unserialize_msg : List ℕ → ℕ → Option DataMsg
unserialize_msg block base = do
  let bytes = drop base block
  head ← head_of bytes
  msg_id ← int_at bytes 8
  msg_type ← int_at bytes 12
  sender ← int_at bytes 16
  receiver ← int_at bytes 20
  is_group ← char_at bytes 24
  created_time ← int_at bytes 25
  msg_len ← char_at bytes msg_fixed_size
  msg ← c_str (drop 33 bytes)
  offset ← skip_text (base + 33) msg_len
  extend_len ← char_at block offset
  extend ← c_str (drop (offset + 4) block)
  some (record {
    head = head;
    msg_id = msg_id;
    msg_type = msg_type;
    sender = sender;
    receiver = receiver;
    is_group = is_group;
    created_time = created_time;
    msg = msg;
    extend = extend;
  })

pub record DataMsgList : Type 0 where
  pub head : DataHead
  pub msgs : List DataMsg

-- S2CDataMsgList
unfoldable pub new_data_msg_list : List DataMsg → DataMsgList
new_data_msg_list msgs = record {
  head = record { data_size = 0; data_type = s2c_data_msg_list };
  msgs = msgs;
}

unfoldable pub serialize_each_msg : List DataMsg → Option (List DataMsg × List (List ℕ))
serialize_each_msg [] = some ([], [])
serialize_each_msg (m ∷ ms) = do
  (m', block) ← serialize_msg m
  (ms', blocks) ← serialize_each_msg ms
  some (m' ∷ ms', block ∷ blocks)

unfoldable pub msg_sizes : List DataMsg → ℕ
msg_sizes [] = 0
msg_sizes (m ∷ ms) = m.head.data_size + msg_sizes ms

unfoldable pub serialize_msgs : DataMsgList → Option (DataMsgList × List ℕ)
serialize_msgs l = do
  (msgs, blocks) ← serialize_each_msg l.msgs
  let size = 12 + msg_sizes msgs
  guard (ltb size (2 ^ 31))
  let head : DataHead = record (l.head) { data_size = size }
  some (record { head = head; msgs = msgs }, list_block head (length msgs) (concat blocks))

-- The loop over `i < count` with its `offset`. A negative offset points before the block.
unfoldable pub read_msgs : ℕ → List ℕ → ℕ → Option (List DataMsg)
read_msgs zero block offset = some []
read_msgs (suc n) block offset = do
  guard (ltb offset (2 ^ 31))
  msg ← unserialize_msg block offset
  rest ← read_msgs n block ((offset + msg.head.data_size) % 2 ^ 32)
  some (msg ∷ rest)

unfoldable pub unserialize_msgs : List ℕ → Option DataMsgList
unserialize_msgs block = do
  head ← head_of block
  count ← char_at block 8
  msgs ← read_msgs (count_of count) block 12
  some (record { head = head; msgs = msgs })
