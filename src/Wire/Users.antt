-- ===== src/Wire/Users.antt =====
-- DataType.h: S2CUserList, a head, a count and the users one after another.
use socket_message.Prelude.{
  ℕ, zero, suc, ◌+◌, ◌*◌, ◌^◌, ◌≤◌, ◌≡◌, refl, Option, some, List, [], ◌∷◌, ◌++◌, map, arith, ltb,
  ◌>>=◌, ◌>>◌, guard, length, drop, take, All, concat, length-append, drop-append_length,
  append_assoc,
}
use socket_message.Wire.Bytes.{IsInt, char_at}
use socket_message.Wire.Counted.{
  count_of, counted, counted-le, list_block, head_of-list_block, char_at-list_block,
  drop-list_block, append-list_block,
}
use socket_message.Wire.Login.{
  DataHead, Named, IsNamed, head_of, named_bytes, named_of, named_size, s2c_user_list,
  length-named_bytes, named_of-named_bytes,
}

pub record UserList : Type 0 where
  pub head : DataHead
  pub users : List Named

unfoldable pub new_user_list : List Named → UserList
new_user_list users = record {
  head = record { data_size = 0; data_type = s2c_user_list };
  users = users;
}

unfoldable pub users_bytes : List Named → List ℕ
users_bytes users = concat (map named_bytes users)

-- The new `DataSize`; from 2 ^ 31 on it does not fit the `int`, and `new char[]` throws or the
-- block is too small for what is copied.
unfoldable pub user_list_size : UserList → ℕ
user_list_size l = 12 + named_size * length l.users

unfoldable pub user_list_sized : UserList → UserList
unfolding user_list_size
user_list_sized l = record l { head = record (l.head) { data_size = user_list_size l } }

unfoldable pub user_list_bytes : UserList → List ℕ
user_list_bytes l = list_block l.head (length l.users) (users_bytes l.users)

-- `Serialize` sets `DataSize` and returns the block.
unfoldable pub serialize_users : UserList → Option (UserList × List ℕ)
unfolding user_list_size user_list_sized
serialize_users l = do
  guard (ltb (user_list_size l) (2 ^ 31))
  some (user_list_sized l, user_list_bytes (user_list_sized l))

-- The loop over `i < count`, from the current `data + offset`.
unfoldable pub read_users : ℕ → List ℕ → Option (List Named)
read_users zero p = some []
read_users (suc n) p = do
  user ← named_of p
  rest ← read_users n (drop named_size p)
  some (user ∷ rest)

unfoldable pub unserialize_users : List ℕ → Option UserList
unserialize_users bytes = do
  head ← head_of bytes
  count ← char_at bytes 8
  users ← read_users (count_of count) (drop 12 bytes)
  some (record { head = head; users = users })

pub length-users_bytes :
    (users : List Named)
    → All IsNamed users
    → length (users_bytes users) ≡ named_size * length users
unfolding users_bytes
length-users_bytes [] h = refl
length-users_bytes (u ∷ us) (hu, hs) = omega (
  arith,
  length-append (named_bytes u) (users_bytes us),
  length-named_bytes u,
  hu.3,
  length-users_bytes us hs,
)

drop-named_bytes :
    (u : Named) (rest : List ℕ) → IsNamed u → drop named_size (named_bytes u ++ rest) ≡ rest
drop-named_bytes u rest h = rw (← size) (drop-append_length (named_bytes u) rest)
  where
    size : length (named_bytes u) ≡ named_size
    size = omega (arith, length-named_bytes u, h.3)

-- Reading `n` of the users that stand in the block gives the first `n`.
pub read_users-users_bytes :
    (n : ℕ) (users : List Named) (rest : List ℕ)
    → All IsNamed users
    → n ≤ length users
    → read_users n (users_bytes users ++ rest) ≡ some (take n users)
unfolding read_users users_bytes
read_users-users_bytes zero users rest h le = refl
read_users-users_bytes (suc n) [] rest h le = elim le [ ]
read_users-users_bytes (suc n) (u ∷ us) rest (hu, hs) le = rw (
  append_assoc (named_bytes u) (users_bytes us) rest,
  named_of-named_bytes u (users_bytes us ++ rest) hu,
  drop-named_bytes u (users_bytes us ++ rest) hu,
  read_users-users_bytes n us rest hs (omega arith),
)

pub unserialize_users-bytes :
    (l : UserList) (rest : List ℕ)
    → IsInt l.head.data_size
    → IsInt l.head.data_type
    → All IsNamed l.users
    → unserialize_users (user_list_bytes l ++ rest)
      ≡ some (record l { users = take (counted (length l.users)) l.users })
unfolding unserialize_users user_list_bytes counted
unserialize_users-bytes l rest hs ht h = rw (
  append-list_block l.head n (users_bytes l.users) rest,
  head_of-list_block l.head n body hs ht,
  char_at-list_block l.head n body,
  drop-list_block l.head n body,
  read_users-users_bytes (counted n) l.users rest h (counted-le n),
)
  where
    n : ℕ
    n = length l.users

    body : List ℕ
    body = users_bytes l.users ++ rest
