-- ===== src/Wire/Msgs/Fields.antt =====
-- DataType.h: DataMsg::UnSerialize on the block of DataMsg::Serialize, field by field.
use socket_message.Prelude.{
  ℕ, ◌+◌, ◌≡◌, ◌≢◌, refl, ap, some, List, [], ◌∷◌, ◌++◌, arith, length, drop, All, length-append,
}
use socket_message.Wire.Bytes.{IsInt, IsByte, le32, of_le32, int_at, char_at}
use socket_message.Wire.Login.{head_bytes, head_of}
use socket_message.Wire.Msgs.{
  DataMsg, msg_fixed_size, msg_fixed_bytes, msg_texts, msg_bytes, msg_size,
}

-- The 32-bit fields, the byte of the `bool`, and a text without zero bytes.
abbrev pub IsMsg : DataMsg → Type 0
IsMsg m =
    IsInt m.head.data_type
    × IsInt m.msg_id
    × IsInt m.msg_type
    × IsInt m.sender
    × IsInt m.receiver
    × IsByte m.is_group
    × IsInt m.created_time
    × All (λ b. b ≢ 0) m.msg

pub length-msg_bytes : (m : DataMsg) → length (msg_bytes m) ≡ msg_size m
unfolding msg_bytes msg_texts msg_fixed_bytes msg_size head_bytes le32
length-msg_bytes m = omega (
  arith,
  length-append m.msg (0 ∷ (le32 (length m.extend + 1) ++ (m.extend ++ 0 ∷ []))),
  length-append m.extend (0 ∷ []),
)

pub head_of-msg_bytes :
    (m : DataMsg)
    → IsInt m.head.data_size
    → IsInt m.head.data_type
    → head_of (msg_bytes m) ≡ some m.head
unfolding msg_bytes msg_fixed_bytes head_of head_bytes int_at le32 of_le32
head_of-msg_bytes m hs ht = ground arith

module _ (m : DataMsg) (later : List ℕ) (h : IsMsg m) where
  unfoldable pub fixed : List ℕ
  fixed = msg_fixed_bytes m ++ later

  pub head_of-fixed : IsInt m.head.data_size → head_of fixed ≡ some m.head
  unfolding fixed msg_fixed_bytes head_of head_bytes int_at le32 of_le32
  head_of-fixed hs = ground arith

  pub read_msg_id : int_at fixed 8 ≡ some m.msg_id
  unfolding fixed msg_fixed_bytes head_bytes int_at le32 of_le32
  read_msg_id = ap some (omega arith)

  pub read_msg_type : int_at fixed 12 ≡ some m.msg_type
  unfolding fixed msg_fixed_bytes head_bytes int_at le32 of_le32
  read_msg_type = ap some (omega arith)

  pub read_sender : int_at fixed 16 ≡ some m.sender
  unfolding fixed msg_fixed_bytes head_bytes int_at le32 of_le32
  read_sender = ap some (omega arith)

  pub read_receiver : int_at fixed 20 ≡ some m.receiver
  unfolding fixed msg_fixed_bytes head_bytes int_at le32 of_le32
  read_receiver = ap some (omega arith)

  pub read_is_group : char_at fixed 24 ≡ some m.is_group
  unfolding fixed msg_fixed_bytes head_bytes char_at le32
  read_is_group = refl

  pub read_created_time : int_at fixed 25 ≡ some m.created_time
  unfolding fixed msg_fixed_bytes head_bytes int_at le32 of_le32
  read_created_time = ap some (omega arith)

  pub drop-fixed : drop msg_fixed_size fixed ≡ later
  unfolding fixed msg_fixed_bytes head_bytes le32
  drop-fixed = refl
