-- ===== src/Wire/Msgs/Reads.antt =====
-- DataType.h: what DataMsg::UnSerialize makes of the block of DataMsg::Serialize.
use socket_message.Prelude.{
  ℕ, ◌+◌, ◌/◌, ◌%◌, ◌≤◌, ◌<◌, ◌≡◌, refl, ap, ◌∙◌, none, some, List, [], ◌∷◌, ◌++◌, arith, ◌>>=◌,
  length, drop, length-append, append_assoc, drop-append_eq, drop-append_add,
}
use socket_message.Wire.Bytes.{IsInt, le32, char_at, c_str, c_str-append}
use socket_message.Wire.Login.{head_bytes}
use socket_message.Wire.Msgs.{
  DataMsg, msg_fixed_size, msg_fixed_bytes, msg_texts, msg_bytes, skip_text, unserialize_msg,
}
use socket_message.Wire.Msgs.Fields.{
  IsMsg, fixed, head_of-fixed, read_msg_id, read_msg_type, read_sender, read_receiver,
  read_is_group, read_created_time,
}

-- A message in a block, with what stands before and behind it.
module _ (m : DataMsg) (before rest block : List ℕ) (base : ℕ) (h : IsMsg m)
    (at_base : length before ≡ base) (there : block ≡ before ++ (msg_bytes m ++ rest)) where
  -- From the count of `Extend` on.
  extend_part : List ℕ
  extend_part = m.extend ++ 0 ∷ rest

  up_to_extend : List ℕ
  up_to_extend = before ++ (msg_fixed_bytes m ++ (le32 (length m.msg + 1) ++ (m.msg ++ 0 ∷ [])))

  block-fixed : drop base block ≡ fixed m (msg_texts m ++ rest) h
  unfolding fixed msg_bytes
  block-fixed =
      drop-append_eq before (msg_bytes m ++ rest) block base at_base there
      ∙ append_assoc (msg_fixed_bytes m) (msg_texts m) rest

  read_msg_len :
      char_at (fixed m (msg_texts m ++ rest) h) msg_fixed_size ≡ some ((length m.msg + 1) % 256)
  unfolding fixed msg_fixed_bytes msg_texts head_bytes le32 char_at
  read_msg_len = refl

  read_msg : c_str (drop 33 (fixed m (msg_texts m ++ rest) h)) ≡ some m.msg
  unfolding fixed msg_fixed_bytes msg_texts head_bytes le32
  read_msg =
      ap c_str (append_assoc m.msg (0 ∷ (le32 (length m.extend + 1) ++ (m.extend ++ 0 ∷ []))) rest)
      ∙ c_str-append m.msg _ h.7

  block-extend : block ≡ up_to_extend ++ (le32 (length m.extend + 1) ++ extend_part)
  unfolding up_to_extend extend_part msg_bytes msg_texts
  block-extend = there ∙ simp append_assoc

  length-up_to_extend : length up_to_extend ≡ base + 34 + length m.msg
  unfolding up_to_extend msg_fixed_bytes head_bytes le32
  length-up_to_extend = omega (
    arith,
    length-append before (msg_fixed_bytes m ++ (le32 (length m.msg + 1) ++ (m.msg ++ 0 ∷ []))),
    length-append m.msg (0 ∷ []),
  )

  drop-block :
      (k offset : ℕ)
      → offset ≡ base + 34 + length m.msg + k
      → drop offset block ≡ drop k (le32 (length m.extend + 1) ++ extend_part)
  drop-block k offset e =
      rw (block-extend, e)
        (drop-append_add (base + 34 + length m.msg) k up_to_extend
          (le32 (length m.extend + 1) ++ extend_part) length-up_to_extend)

  -- `UnSerialize` skips one byte more than `Serialize` wrote, so the text starts one byte late.
  read_extend_len :
      (offset : ℕ)
      → offset ≡ base + 35 + length m.msg
      → char_at block offset ≡ some ((length m.extend + 1) / 256 % 256)
  unfolding char_at le32
  read_extend_len offset e = rw (drop-block 1 offset (omega arith), char_at) refl

  drop-extend :
      (offset : ℕ)
      → offset ≡ base + 35 + length m.msg
      → drop (offset + 4) block ≡ drop 1 extend_part
  unfolding le32
  drop-extend offset e = drop-block 5 (offset + 4) (omega arith)

  skip_msg :
      length m.msg < 127
      → skip_text (base + 33) ((length m.msg + 1) % 256) ≡ some (base + 35 + length m.msg)
  unfolding skip_text
  skip_msg short = ground arith

  skip_long_msg :
      127 ≤ length m.msg
      → base + length m.msg < 221
      → skip_text (base + 33) ((length m.msg + 1) % 256) ≡ none
  unfolding skip_text
  skip_long_msg long near = ground arith

  -- The size of a long text reads as a negative number, which leads before the block.
  pub unserialize_long_msg :
      IsInt m.head.data_size
      → 127 ≤ length m.msg
      → base + length m.msg < 221
      → unserialize_msg block base ≡ none
  unfolding unserialize_msg
  unserialize_long_msg hs long near = rw (
    block-fixed,
    head_of-fixed m later h hs,
    read_msg_id m later h,
    read_msg_type m later h,
    read_sender m later h,
    read_receiver m later h,
    read_is_group m later h,
    read_created_time m later h,
    read_msg_len,
    read_msg,
    skip_long_msg long near,
  )
    where
      later : List ℕ
      later = msg_texts m ++ rest

  pub unserialize_msg_lem :
      IsInt m.head.data_size
      → length m.msg < 127
      → unserialize_msg block base
        ≡ (do extend ← c_str (drop 1 (m.extend ++ 0 ∷ rest)); some (record m { extend = extend }))
  unfolding unserialize_msg extend_part
  unserialize_msg_lem hs short = rw (
    block-fixed,
    head_of-fixed m later h hs,
    read_msg_id m later h,
    read_msg_type m later h,
    read_sender m later h,
    read_receiver m later h,
    read_is_group m later h,
    read_created_time m later h,
    read_msg_len,
    read_msg,
    skip_msg short,
    read_extend_len (base + 35 + length m.msg) refl,
    drop-extend (base + 35 + length m.msg) refl,
  )
    where
      later : List ℕ
      later = msg_texts m ++ rest
