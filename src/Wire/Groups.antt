-- ===== src/Wire/Groups.antt =====
-- DataType.h: S2CGroup, a head, an id, a name and an admin before the block of its S2CUserList, and
-- S2CGroupList, a head, a count and the groups one after another.
pub mod Fields
pub mod RoundTrip
use socket_message.Prelude.{
  ℕ, zero, suc, ◌+◌, ◌-◌, ◌*◌, ◌/◌, ◌%◌, ◌^◌, ◌≤◌, ◌<◌, ◌≡◌, ◌≢◌, refl, ap, sym, ◌∙◌, Bool, true,
  false, Option, none, some, List, [], ◌∷◌, ◌++◌, map, arith, ltb, leb, ◌==◌, if◌then◌else◌, ◌>>=◌,
  ◌>>◌, guard, length, drop, take, All, concat, length-append, drop-append_length, length-drop,
  take-append_length, append_assoc, append-nil, lt→ltb,
}
use socket_message.Wire.Bytes.{
  IsInt, IsByte, le32, of_le32, int_at, bytes_at, char_at, name_size, length-le32, of_le32-le32,
  take_exactly, take_exactly-append,
}
use socket_message.Wire.Counted.{
  count_of, counted, counted-le, list_block, head_of-list_block, char_at-list_block,
  drop-list_block, append-list_block, length-list_block,
}
use socket_message.Wire.Login.{
  DataHead, Named, IsNamed, head_bytes, head_of, named_size, s2c_group, s2c_group_list,
  head_of-head_bytes,
}
use socket_message.Wire.Users.{
  UserList, new_user_list, user_list_size, user_list_sized, user_list_bytes, serialize_users,
  unserialize_users, unserialize_users-bytes, length-users_bytes, users_bytes,
}

pub record Group : Type 0 where
  pub head : DataHead
  pub group_id : ℕ
  pub group_name : List ℕ
  pub admin_id : ℕ
  pub user_list : UserList

unfoldable pub new_group : ℕ → List ℕ → ℕ → List Named → Group
unfolding new_user_list
new_group id name admin users = record {
  head = record { data_size = 0; data_type = s2c_group };
  group_id = id;
  group_name = name;
  admin_id = admin;
  user_list = new_user_list users;
}

-- `size1`
abbrev pub group_fixed_size : ℕ
group_fixed_size = 48

-- The fields before `UserList`, which `memcpy(p, this, size1)` copies.
unfoldable pub group_fixed_bytes : Group → List ℕ
unfolding head_bytes le32
group_fixed_bytes g = head_bytes g.head ++ (le32 g.group_id ++ (g.group_name ++ le32 g.admin_id))

unfoldable pub group_bytes : Group → List ℕ
group_bytes g = group_fixed_bytes g ++ user_list_bytes g.user_list

unfoldable pub group_size : Group → ℕ
unfolding user_list_size
group_size g = group_fixed_size + user_list_size g.user_list

-- `Serialize` sets the `DataSize` of the group and of its list of users.
unfoldable pub group_sized : Group → Group
unfolding group_size user_list_sized
group_sized g = record g {
  head = record (g.head) { data_size = group_size g };
  user_list = user_list_sized g.user_list;
}

unfoldable pub serialize_group : Group → Option (Group × List ℕ)
serialize_group g = do
  guard (ltb (group_size g) (2 ^ 31))
  some (group_sized g, group_bytes (group_sized g))

unfoldable pub unserialize_group : List ℕ → Option Group
unserialize_group bytes = do
  head ← head_of bytes
  group_id ← int_at bytes 8
  group_name ← bytes_at bytes 12 name_size
  admin_id ← int_at bytes 44
  user_list ← unserialize_users (drop group_fixed_size bytes)
  some (record {
    head = head;
    group_id = group_id;
    group_name = group_name;
    admin_id = admin_id;
    user_list = user_list;
  })

pub record GroupList : Type 0 where
  pub head : DataHead
  pub groups : List Group

unfoldable pub new_group_list : List Group → GroupList
new_group_list groups = record {
  head = record { data_size = 0; data_type = s2c_group_list };
  groups = groups;
}

-- The first loop: each group's block, with its `DataSize` set.
unfoldable pub serialize_each_group : List Group → Option (List Group × List (List ℕ))
serialize_each_group [] = some ([], [])
serialize_each_group (g ∷ gs) = do
  (g', block) ← serialize_group g
  (gs', blocks) ← serialize_each_group gs
  some (g' ∷ gs', block ∷ blocks)

unfoldable pub group_sizes : List Group → ℕ
group_sizes [] = 0
group_sizes (g ∷ gs) = g.head.data_size + group_sizes gs

unfoldable pub serialize_groups : GroupList → Option (GroupList × List ℕ)
serialize_groups l = do
  (groups, blocks) ← serialize_each_group l.groups
  let size = 12 + group_sizes groups
  guard (ltb size (2 ^ 31))
  let head : DataHead = record (l.head) { data_size = size }
  some (record { head = head; groups = groups }, list_block head (length groups) (concat blocks))

-- The loop over `i < count` with its `offset`. A negative offset points before the block.
unfoldable pub read_groups : ℕ → List ℕ → ℕ → Option (List Group)
read_groups zero bytes offset = some []
read_groups (suc n) bytes offset = do
  guard (ltb offset (2 ^ 31))
  group ← unserialize_group (drop offset bytes)
  rest ← read_groups n bytes ((offset + group.head.data_size) % 2 ^ 32)
  some (group ∷ rest)

unfoldable pub unserialize_groups : List ℕ → Option GroupList
unserialize_groups bytes = do
  head ← head_of bytes
  count ← char_at bytes 8
  groups ← read_groups (count_of count) bytes 12
  some (record { head = head; groups = groups })
