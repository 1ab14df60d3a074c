-- ===== src/Wire/Msgs/Lists.antt =====
-- DataType.h: what DataMsgList reads back of what it wrote.
use socket_message.Prelude.{
  ℕ, zero, suc, ◌+◌, ◌%◌, ◌^◌, ◌≤◌, ◌<◌, ◌≡◌, refl, ap, sym, ◌∙◌, some, List, [], ◌∷◌, ◌++◌, map,
  arith, length, take, All, concat, length-append, append_assoc, lt→ltb, length-map,
}
use socket_message.Wire.Bytes.{IsInt}
use socket_message.Wire.Counted.{
  counted, counted-le, list_block, head_of-list_block, char_at-list_block, append-list_block,
  length-list_block,
}
use socket_message.Wire.Login.{DataHead}
use socket_message.Wire.Msgs.{
  DataMsg, DataMsgList, msg_bytes, msg_size, msg_sized, serialize_each_msg, msg_sizes,
  serialize_msgs, read_msgs, unserialize_msgs,
}
use socket_message.Wire.Msgs.RoundTrip.{
  IsChat, received_msg, serialize_msg_lem, unserialize_block, length-block, msg_sized-size,
}

abbrev blocks : List DataMsg → List (List ℕ)
blocks = map (λ m. msg_bytes (msg_sized m))

serialize_each_msg-blocks :
    (ms : List DataMsg) → All IsChat ms → serialize_each_msg ms ≡ some (map msg_sized ms, blocks ms)
unfolding serialize_each_msg
serialize_each_msg-blocks [] h = refl
serialize_each_msg-blocks (m ∷ ms) (hm, hs) =
    rw (serialize_msg_lem m hm.4, serialize_each_msg-blocks ms hs)

received_msg-size : (m : DataMsg) → (received_msg m).head.data_size ≡ msg_size m
unfolding received_msg msg_sized
received_msg-size m = refl

read_msgs-blocks :
    (n : ℕ) (ms : List DataMsg) (before rest bytes : List ℕ) (offset : ℕ)
    → All IsChat ms
    → n ≤ length ms
    → length before ≡ offset
    → offset + msg_sizes (map msg_sized ms) < 2 ^ 31
    → bytes ≡ before ++ (concat (blocks ms) ++ rest)
    → read_msgs n bytes offset ≡ some (take n (map received_msg ms))
unfolding read_msgs msg_sizes
read_msgs-blocks zero ms before rest bytes offset h le ho fits e = refl
read_msgs-blocks (suc n) [] before rest bytes offset h le ho fits e = elim le [ ]
read_msgs-blocks (suc n) (m ∷ ms) before rest bytes offset (hm, hs) le ho fits e = rw (
  lt→ltb offset (2 ^ 31) (omega arith),
  unserialize_block m before (concat (blocks ms) ++ rest) bytes offset hm ho there,
  next,
  read_msgs-blocks n ms (before ++ block) rest bytes (offset + msg_size m) hs (omega arith)
      (omega (arith, length-append before block, length-block m)) (omega (arith, msg_sized-size m))
      (there ∙ sym (append_assoc before block (concat (blocks ms) ++ rest))),
)
  where
    block : List ℕ
    block = msg_bytes (msg_sized m)

    there : bytes ≡ before ++ (block ++ (concat (blocks ms) ++ rest))
    there = e ∙ ap (◌++◌ before) (append_assoc block (concat (blocks ms)) rest)

    next : (offset + (received_msg m).head.data_size) % 2 ^ 32 ≡ offset + msg_size m
    next = omega (arith, received_msg-size m, msg_sized-size m)

abbrev pub IsChatList : DataMsgList → Type 0
IsChatList l =
    IsInt l.head.data_type × All IsChat l.msgs × (12 + msg_sizes (map msg_sized l.msgs) < 2 ^ 31)

unfoldable pub msgs_sized : DataMsgList → DataMsgList
msgs_sized l = record {
  head = record (l.head) { data_size = 12 + msg_sizes (map msg_sized l.msgs) };
  msgs = map msg_sized l.msgs;
}

unfoldable pub msgs_bytes : DataMsgList → List ℕ
msgs_bytes l = list_block l.head (length l.msgs) (concat (map msg_bytes l.msgs))

blocks_eq : (ms : List DataMsg) → map msg_bytes (map msg_sized ms) ≡ blocks ms
blocks_eq [] = refl
blocks_eq (m ∷ ms) = ap (◌∷◌ (msg_bytes (msg_sized m))) (blocks_eq ms)

serialize_msgs_lem :
    (l : DataMsgList)
    → IsChatList l
    → serialize_msgs l ≡ some (msgs_sized l, msgs_bytes (msgs_sized l))
unfolding serialize_msgs msgs_sized msgs_bytes
serialize_msgs_lem l (ht, hm, fits) = rw (
  serialize_each_msg-blocks l.msgs hm,
  lt→ltb (12 + msg_sizes (map msg_sized l.msgs)) (2 ^ 31) fits,
  blocks_eq l.msgs,
)

-- A list of messages that DataMsgList::Serialize wrote is read back by DataMsgList::UnSerialize up to
-- the count's low byte (of `n` messages `n % 256`, and none where that is 128 or more), each message
-- with its `DataSize` set and without the first byte of its `Extend`. Every message meets the
-- conditions of the round trip of one, and the sizes fit an `int`; what follows the block is not read.
pub unserialize_msgs-serialize_msgs :
    (l : DataMsgList) (rest : List ℕ)
    → IsChatList l
    → (serialize_msgs l ≡ some (msgs_sized l, msgs_bytes (msgs_sized l)))
      × (unserialize_msgs (msgs_bytes (msgs_sized l) ++ rest)
          ≡ some (record (msgs_sized l) {
            msgs = take (counted (length l.msgs)) (map received_msg l.msgs);
          }))
unfolding unserialize_msgs msgs_bytes msgs_sized counted
unserialize_msgs-serialize_msgs l rest (ht, hm, fits) = (serialize_msgs_lem l (ht, hm, fits), reads)
  where
    head : DataHead
    head = (msgs_sized l).head

    n : ℕ
    n = length l.msgs

    body : List ℕ
    body = concat (blocks l.msgs) ++ rest

    reads :
        unserialize_msgs (msgs_bytes (msgs_sized l) ++ rest)
        ≡ some (record (msgs_sized l) {
          msgs = take (counted (length l.msgs)) (map received_msg l.msgs);
        })
    reads = rw (
      blocks_eq l.msgs,
      length-map msg_sized l.msgs,
      append-list_block head n (concat (blocks l.msgs)) rest,
      head_of-list_block head n body (omega arith) ht,
      char_at-list_block head n body,
      read_msgs-blocks (counted n) l.msgs (list_block head n []) rest (list_block head n body) 12 hm
          (counted-le n) (length-list_block head n []) fits
          (sym (append-list_block head n [] body)),
    )
