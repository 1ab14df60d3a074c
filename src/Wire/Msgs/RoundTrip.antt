-- ===== src/Wire/Msgs/RoundTrip.antt =====
-- DataType.h: what DataMsg reads back of what it wrote.
use socket_message.Prelude.{
  ℕ, ◌+◌, ◌^◌, ◌≤◌, ◌<◌, ◌≡◌, ◌≢◌, refl, ap, sym, ◌∙◌, none, some, List, [], ◌∷◌, ◌++◌, arith,
  length, drop, All, append-nil, lt→ltb,
}
use socket_message.Wire.Bytes.{c_str, c_str-append}
use socket_message.Wire.Msgs.{
  DataMsg, msg_bytes, msg_size, msg_sized, serialize_msg, unserialize_msg,
}
use socket_message.Wire.Msgs.Fields.{IsMsg, length-msg_bytes}
use socket_message.Wire.Msgs.Reads.{unserialize_msg_lem, unserialize_long_msg}

-- A message that survives the trip up to the first byte of its `Extend`.
abbrev pub IsChat : DataMsg → Type 0
IsChat m =
    IsMsg m
    × All (λ b. b ≢ 0) m.extend
    × (0 < length m.extend)
    × (length m.msg < 127)
    × (msg_size m < 2 ^ 31)

-- The message that `UnSerialize` gives back.
unfoldable pub received_msg : DataMsg → DataMsg
received_msg m = record (msg_sized m) { extend = drop 1 m.extend }

c_str_late :
    (s rest : List ℕ)
    → All (λ b. b ≢ 0) s
    → 0 < length s
    → c_str (drop 1 (s ++ 0 ∷ rest)) ≡ some (drop 1 s)
c_str_late [] rest h pos = absurd (omega arith)
c_str_late (b ∷ s) rest h pos = c_str-append s rest h.1

pub serialize_msg_lem :
    (m : DataMsg)
    → msg_size m < 2 ^ 31
    → serialize_msg m ≡ some (msg_sized m, msg_bytes (msg_sized m))
unfolding serialize_msg
serialize_msg_lem m h = rw (lt→ltb (msg_size m) (2 ^ 31) h)

msg_sized-IsMsg : (m : DataMsg) → IsMsg m → IsMsg (msg_sized m)
unfolding msg_sized
msg_sized-IsMsg m h = h

msg_sized-msg : (m : DataMsg) → length (msg_sized m).msg ≡ length m.msg
unfolding msg_sized
msg_sized-msg m = refl

msg_sized-extend : (m : DataMsg) → (msg_sized m).extend ≡ m.extend
unfolding msg_sized
msg_sized-extend m = refl

size-short : (m : DataMsg) → length m.msg < 127 → msg_size m < 166 + length m.extend
unfolding msg_size
size-short m h = omega arith

pub msg_sized-size : (m : DataMsg) → (msg_sized m).head.data_size ≡ msg_size m
unfolding msg_sized
msg_sized-size m = refl

pub length-block : (m : DataMsg) → length (msg_bytes (msg_sized m)) ≡ msg_size m
unfolding msg_sized msg_size
length-block m = length-msg_bytes (msg_sized m)

pub unserialize_block :
    (m : DataMsg) (before rest block : List ℕ) (base : ℕ)
    → IsChat m
    → length before ≡ base
    → block ≡ before ++ (msg_bytes (msg_sized m) ++ rest)
    → unserialize_msg block base ≡ some (received_msg m)
unfolding received_msg msg_sized
unserialize_block m before rest block base (h, he, pos, short, fits) at_base there =
    unserialize_msg_lem (msg_sized m) before rest block base (msg_sized-IsMsg m h) at_base there
      (omega arith) short
    ∙ rw (c_str_late m.extend rest he pos)

-- A message that DataMsg::Serialize wrote is read back by DataMsg::UnSerialize with its `DataSize` set
-- and without the first byte of its `Extend`, all else equal, whatever follows the block. `Extend` is
-- not empty, neither text has a zero byte, `Msg` has under 127 bytes, and the other fields have the
-- range of their types.
pub unserialize_msg-serialize_msg :
    (m : DataMsg) (rest : List ℕ)
    → IsChat m
    → (serialize_msg m ≡ some (msg_sized m, msg_bytes (msg_sized m)))
      × (unserialize_msg (msg_bytes (msg_sized m) ++ rest) 0 ≡ some (received_msg m))
unserialize_msg-serialize_msg m rest h =
    (serialize_msg_lem m h.4, unserialize_block m [] rest _ 0 h refl refl)

-- Of a message with an empty `Extend`, DataMsg::UnSerialize reads past the end of the block that
-- DataMsg::Serialize wrote. `Msg` has under 127 bytes, none of them zero, and the other fields have
-- the range of their types.
pub unserialize_msg_past_end :
    (m : DataMsg)
    → IsMsg m
    → m.extend ≡ []
    → length m.msg < 127
    → (serialize_msg m ≡ some (msg_sized m, msg_bytes (msg_sized m)))
      × (unserialize_msg (msg_bytes (msg_sized m)) 0 ≡ none)
unfolding c_str
unserialize_msg_past_end m h e short = (serialize_msg_lem m fits, reads)
  where
    fits : msg_size m < 2 ^ 31
    fits = omega (arith, size-short m short, ap length e)

    reads : unserialize_msg (msg_bytes (msg_sized m)) 0 ≡ none
    reads =
        unserialize_msg_lem (msg_sized m) [] [] (msg_bytes (msg_sized m)) 0 (msg_sized-IsMsg m h)
          refl (sym (append-nil _)) (omega (arith, fits, msg_sized-size m))
          (omega (arith, msg_sized-msg m))
        ∙ rw (msg_sized-extend m, e)

-- Of a message whose `Msg` has 127 to 220 bytes, DataMsg::UnSerialize reads a negative size and goes
-- on before the block that DataMsg::Serialize wrote, whatever follows the block. `Msg` has no zero
-- byte, `DataSize` fits the `int`, and the other fields have the range of their types.
pub unserialize_msg_before_block :
    (m : DataMsg) (rest : List ℕ)
    → IsMsg m
    → msg_size m < 2 ^ 31
    → 127 ≤ length m.msg
    → length m.msg ≤ 220
    → (serialize_msg m ≡ some (msg_sized m, msg_bytes (msg_sized m)))
      × (unserialize_msg (msg_bytes (msg_sized m) ++ rest) 0 ≡ none)
unserialize_msg_before_block m rest h fits long near = (
  serialize_msg_lem m fits,
  unserialize_long_msg (msg_sized m) [] rest _ 0 (msg_sized-IsMsg m h) refl refl
      (omega (arith, msg_sized-size m)) (omega (arith, msg_sized-msg m))
      (omega (arith, msg_sized-msg m)),
)
