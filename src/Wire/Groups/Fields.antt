-- ===== src/Wire/Groups/Fields.antt =====
-- DataType.h: the fields of a group, read from a block that begins with it.
use socket_message.Prelude.{
  ℕ, ◌^◌, ◌<◌, ◌≡◌, ap, ◌∙◌, some, List, ◌++◌, arith, length, drop, take, All, length-append,
  append_assoc, drop-append_add,
}
use socket_message.Wire.Bytes.{
  IsInt, le32, of_le32, int_at, bytes_at, name_size, of_le32-le32, take_exactly-append,
}
use socket_message.Wire.Counted.{counted, list_block}
use socket_message.Wire.Login.{IsNamed, head_bytes, head_of, head_of-head_bytes}
use socket_message.Wire.Users.{
  UserList, user_list_sized, user_list_bytes, unserialize_users-bytes, length-users_bytes,
}
use socket_message.Wire.Groups.{
  Group, group_fixed_size, group_fixed_bytes, group_bytes, group_size, group_sized,
  unserialize_group,
}

abbrev pub IsGroup : Group → Type 0
IsGroup g =
    IsInt g.head.data_type
    × IsInt g.group_id
    × (length g.group_name ≡ name_size)
    × IsInt g.admin_id
    × IsInt g.user_list.head.data_type
    × All IsNamed g.user_list.users
    × (group_size g < 2 ^ 31)

-- What a reader gets of a list of users.
unfoldable pub received_users : UserList → UserList
received_users l = record l { users = take (counted (length l.users)) l.users }

-- What a reader gets of a group that the writer had sized.
unfoldable pub received : Group → Group
unfolding received_users group_sized
received g = record (group_sized g) { user_list = received_users (user_list_sized g.user_list) }

pub length-group_bytes :
    (g : Group)
    → length g.group_name ≡ name_size
    → All IsNamed g.user_list.users
    → length (group_bytes g) ≡ group_size g
unfolding group_bytes group_size group_fixed_bytes user_list_bytes list_block
length-group_bytes g hn hu = omega (
  arith,
  length-append (g.group_name ++ le32 g.admin_id) (user_list_bytes g.user_list),
  length-append g.group_name (le32 g.admin_id),
  length-users_bytes g.user_list.users hu,
)

-- The fields of a group, read from a block that begins with them.
module _ (g : Group) (rest : List ℕ) (h : IsGroup g) where
  block : List ℕ
  block = head_bytes g.head ++ (le32 g.group_id ++ (g.group_name ++ (le32 g.admin_id ++ rest)))

  group_fixed_bytes-block : group_fixed_bytes g ++ rest ≡ block
  unfolding group_fixed_bytes block
  group_fixed_bytes-block = simp append_assoc

  read_id : int_at block 8 ≡ some g.group_id
  unfolding int_at block head_bytes
  read_id = of_le32-le32 g.group_id (g.group_name ++ (le32 g.admin_id ++ rest)) h.1

  read_name : bytes_at block 12 name_size ≡ some g.group_name
  unfolding bytes_at block head_bytes
  read_name = take_exactly-append name_size g.group_name (le32 g.admin_id ++ rest) h.2

  read_admin : int_at block 44 ≡ some g.admin_id
  unfolding int_at block head_bytes
  read_admin =
      ap of_le32 (drop-append_add 32 0 g.group_name (le32 g.admin_id ++ rest) h.2)
      ∙ of_le32-le32 g.admin_id rest h.3

  read_rest : drop group_fixed_size block ≡ rest
  unfolding block head_bytes
  read_rest = drop-append_add 32 4 g.group_name (le32 g.admin_id ++ rest) h.2

  read_head : IsInt g.head.data_size → head_of block ≡ some g.head
  unfolding block
  read_head hs = head_of-head_bytes g.head _ hs h.0

pub group_sized-IsGroup : (g : Group) → IsGroup g → IsGroup (group_sized g)
unfolding group_sized group_size
group_sized-IsGroup g h = h

pub unserialize_group-bytes :
    (g : Group) (rest : List ℕ)
    → IsGroup g
    → IsInt g.head.data_size
    → IsInt g.user_list.head.data_size
    → unserialize_group (group_bytes g ++ rest)
      ≡ some (record g { user_list = received_users g.user_list })
unfolding unserialize_group group_bytes received_users
unserialize_group-bytes g rest h hs hu =
    let X = user_list_bytes g.user_list ++ rest in
    rw (
      append_assoc (group_fixed_bytes g) (user_list_bytes g.user_list) rest,
      group_fixed_bytes-block g X h,
      read_head g X h hs,
      read_id g X h,
      read_name g X h,
      read_admin g X h,
      read_rest g X h,
      unserialize_users-bytes g.user_list rest hu h.4 h.5,
    )
