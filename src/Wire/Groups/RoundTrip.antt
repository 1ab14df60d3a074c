-- ===== src/Wire/Groups/RoundTrip.antt =====
-- DataType.h: what S2CGroupList::UnSerialize reads of what S2CGroupList::Serialize wrote.
use socket_message.Prelude.{
  ℕ, zero, suc, ◌+◌, ◌%◌, ◌^◌, ◌≤◌, ◌<◌, ◌≡◌, refl, ap, sym, ◌∙◌, some, List, [], ◌∷◌, ◌++◌, map,
  arith, length, take, All, concat, length-append, append_assoc, lt→ltb, length-map, drop-append_eq,
}
use socket_message.Wire.Bytes.{IsInt}
use socket_message.Wire.Counted.{
  counted, counted-le, list_block, head_of-list_block, char_at-list_block, append-list_block,
  length-list_block,
}
use socket_message.Wire.Login.{DataHead}
use socket_message.Wire.Groups.{
  Group, GroupList, group_bytes, group_size, group_sized, serialize_group, unserialize_group,
  serialize_each_group, group_sizes, serialize_groups, read_groups, unserialize_groups,
}
use socket_message.Wire.Groups.Fields.{
  IsGroup, received, length-group_bytes, group_sized-IsGroup, unserialize_group-bytes,
}

abbrev blocks : List Group → List (List ℕ)
blocks = map (λ g. group_bytes (group_sized g))

received_lem :
    (g : Group) (rest : List ℕ)
    → IsGroup g
    → unserialize_group (group_bytes (group_sized g) ++ rest) ≡ some (received g)
unfolding received group_sized group_size
received_lem g rest h =
    unserialize_group-bytes (group_sized g) rest (group_sized-IsGroup g h) (omega arith)
      (omega arith)

length-block : (g : Group) → IsGroup g → length (group_bytes (group_sized g)) ≡ group_size g
unfolding group_sized group_size
length-block g h = length-group_bytes (group_sized g) h.2 h.5

group_sized-size : (g : Group) → (group_sized g).head.data_size ≡ group_size g
unfolding group_sized
group_sized-size g = refl

received-size : (g : Group) → (received g).head.data_size ≡ group_size g
unfolding received group_sized
received-size g = refl

serialize_group_lem :
    (g : Group) → IsGroup g → serialize_group g ≡ some (group_sized g, group_bytes (group_sized g))
unfolding serialize_group
serialize_group_lem g h = rw (lt→ltb (group_size g) (2 ^ 31) h.6)

serialize_each_group-blocks :
    (gs : List Group)
    → All IsGroup gs
    → serialize_each_group gs ≡ some (map group_sized gs, blocks gs)
unfolding serialize_each_group
serialize_each_group-blocks [] h = refl
serialize_each_group-blocks (g ∷ gs) (hg, hs) =
    rw (serialize_group_lem g hg, serialize_each_group-blocks gs hs)

-- The loop of `UnSerialize` from the group at `offset` on.
read_groups-blocks :
    (n : ℕ) (gs : List Group) (before rest bytes : List ℕ) (offset : ℕ)
    → All IsGroup gs
    → n ≤ length gs
    → length before ≡ offset
    → offset + group_sizes (map group_sized gs) < 2 ^ 31
    → bytes ≡ before ++ (concat (blocks gs) ++ rest)
    → read_groups n bytes offset ≡ some (take n (map received gs))
unfolding read_groups group_sizes
read_groups-blocks zero gs before rest bytes offset h le ho fits e = refl
read_groups-blocks (suc n) [] before rest bytes offset h le ho fits e = elim le [ ]
read_groups-blocks (suc n) (g ∷ gs) before rest bytes offset (hg, hs) le ho fits e = rw (
  lt→ltb offset (2 ^ 31) (omega arith),
  drop-append_eq before (block ++ later) bytes offset ho there,
  received_lem g later hg,
  next,
  read_groups-blocks n gs (before ++ block) rest bytes (offset + group_size g) hs (omega arith)
      (omega (arith, length-append before block, length-block g hg))
      (omega (arith, group_sized-size g)) (there ∙ sym (append_assoc before block later)),
)
  where
    block : List ℕ
    block = group_bytes (group_sized g)

    later : List ℕ
    later = concat (blocks gs) ++ rest

    there : bytes ≡ before ++ (block ++ later)
    there = e ∙ ap (◌++◌ before) (append_assoc block (concat (blocks gs)) rest)

    next : (offset + (received g).head.data_size) % 2 ^ 32 ≡ offset + group_size g
    next = omega (arith, received-size g, group_sized-size g)

-- The list and the block that `Serialize` leaves.
unfoldable pub groups_sized : GroupList → GroupList
groups_sized l = record {
  head = record (l.head) { data_size = 12 + group_sizes (map group_sized l.groups) };
  groups = map group_sized l.groups;
}

unfoldable pub groups_bytes : GroupList → List ℕ
groups_bytes l = list_block l.head (length l.groups) (concat (map group_bytes l.groups))

blocks_eq : (gs : List Group) → map group_bytes (map group_sized gs) ≡ blocks gs
blocks_eq [] = refl
blocks_eq (g ∷ gs) = ap (◌∷◌ (group_bytes (group_sized g))) (blocks_eq gs)

abbrev pub IsGroupList : GroupList → Type 0
IsGroupList l =
    IsInt l.head.data_type
    × All IsGroup l.groups
    × (12 + group_sizes (map group_sized l.groups) < 2 ^ 31)

pub serialize_groups_lem :
    (l : GroupList)
    → IsGroupList l
    → serialize_groups l ≡ some (groups_sized l, groups_bytes (groups_sized l))
unfolding serialize_groups groups_sized groups_bytes
serialize_groups_lem l (ht, hg, fits) = rw (
  serialize_each_group-blocks l.groups hg,
  lt→ltb (12 + group_sizes (map group_sized l.groups)) (2 ^ 31) fits,
  blocks_eq l.groups,
)

-- A list of groups that S2CGroupList::Serialize wrote is read back by S2CGroupList::UnSerialize up to
-- the count's low byte: of `n` groups, `n % 256` are read, and none where `n % 256` is 128 or more;
-- so for the users in each group. `Serialize` sets every `DataSize`, and bytes behind the block are
-- not read. The ids are 32-bit values, the names fill their 32 chars, and the sizes fit an `int`.
pub unserialize_groups-serialize_groups :
    (l : GroupList) (rest : List ℕ)
    → IsGroupList l
    → (serialize_groups l ≡ some (groups_sized l, groups_bytes (groups_sized l)))
      × (unserialize_groups (groups_bytes (groups_sized l) ++ rest)
          ≡ some (record (groups_sized l) {
            groups = take (counted (length l.groups)) (map received l.groups);
          }))
unfolding unserialize_groups groups_bytes groups_sized counted
unserialize_groups-serialize_groups l rest (ht, hg, fits) =
    (serialize_groups_lem l (ht, hg, fits), reads)
  where
    head : DataHead
    head = (groups_sized l).head

    n : ℕ
    n = length l.groups

    body : List ℕ
    body = concat (blocks l.groups) ++ rest

    counts : length (map group_sized l.groups) ≡ n
    counts = length-map group_sized l.groups

    reads :
        unserialize_groups (groups_bytes (groups_sized l) ++ rest)
        ≡ some (record (groups_sized l) {
          groups = take (counted (length l.groups)) (map received l.groups);
        })
    reads = rw (
      blocks_eq l.groups,
      counts,
      append-list_block head n (concat (blocks l.groups)) rest,
      head_of-list_block head n body (omega arith) ht,
      char_at-list_block head n body,
      read_groups-blocks (counted n) l.groups (list_block head n []) rest (list_block head n body)
          12 hg (counted-le n) (length-list_block head n []) fits
          (sym (append-list_block head n [] body)),
    )
