-- ===== src/Wire/Runs.antt =====
-- The round trips of the structs, at small messages.
use socket_message.Prelude.{
  ℕ, ◌≡◌, ◌++◌, refl, List, [], ◌∷◌, none, some, arith, replicate, take, map,
}
use socket_message.Wire.Login.{Named}
use socket_message.Wire.Users.{UserList, user_list_size}
use socket_message.Wire.Counted.{counted}
use socket_message.Wire.Groups.{
  GroupList, group_size, group_sizes, group_sized, serialize_groups, unserialize_groups,
}
use socket_message.Wire.Groups.Fields.{received}
use socket_message.Wire.Groups.RoundTrip.{
  groups_sized, groups_bytes, unserialize_groups-serialize_groups,
}
use socket_message.Wire.Msgs.{
  DataMsg, msg_bytes, msg_size, msg_sized, serialize_msg, unserialize_msg,
}
use socket_message.Wire.Msgs.RoundTrip.{
  received_msg, unserialize_msg-serialize_msg, unserialize_msg_before_block,
}

-- A login of user 7 with the password "ab", and two bytes behind it.
abbrev login_7 : Named
login_7 = record {
  head = record { data_size = 44; data_type = 100 };
  user_id = 7;
  chars = 97 ∷ 98 ∷ replicate 30 0;
}

abbrev behind : List ℕ
behind = 1 ∷ 2 ∷ []

abbrev one_user : UserList
one_user = record { head = record { data_size = 0; data_type = 202 }; users = login_7 ∷ [] }

abbrev one_group : GroupList
one_group = record {
  head = record { data_size = 0; data_type = 204 };
  groups =
      record {
        head = record { data_size = 0; data_type = 203 };
        group_id = 5;
        group_name = 103 ∷ replicate 31 0;
        admin_id = 7;
        user_list = one_user;
      }
      ∷ [];
}

unserialize_groups-serialize_groups_example :
    (serialize_groups one_group
      ≡ some (groups_sized one_group, groups_bytes (groups_sized one_group)))
    × (unserialize_groups (groups_bytes (groups_sized one_group) ++ behind)
        ≡ some (record (groups_sized one_group) {
          groups = take (counted 1) (map received one_group.groups);
        }))
unfolding group_size group_sizes group_sized user_list_size
unserialize_groups-serialize_groups_example = unserialize_groups-serialize_groups one_group behind (
  omega arith,
  (
    (
      omega arith,
      omega arith,
      refl,
      omega arith,
      omega arith,
      ((omega arith, omega arith, omega arith, refl), tt),
      omega arith,
    ),
    tt,
  ),
  omega arith,
)

-- "hi" from 1 to 2, with the extend "xy".
abbrev hi : DataMsg
hi = record {
  head = record { data_size = 0; data_type = 101 };
  msg_id = 9;
  msg_type = 1;
  sender = 1;
  receiver = 2;
  is_group = 0;
  created_time = 100;
  msg = 104 ∷ 105 ∷ [];
  extend = 120 ∷ 121 ∷ [];
}

-- A text of 130 letters.
abbrev long_hi : DataMsg
long_hi = record hi { msg = replicate 130 97 }

unserialize_msg-serialize_msg_example :
    (serialize_msg hi ≡ some (msg_sized hi, msg_bytes (msg_sized hi)))
    × (unserialize_msg (msg_bytes (msg_sized hi) ++ behind) 0 ≡ some (received_msg hi))
unfolding msg_size
unserialize_msg-serialize_msg_example = unserialize_msg-serialize_msg hi behind (
  (
    omega arith,
    omega arith,
    omega arith,
    omega arith,
    omega arith,
    omega arith,
    omega arith,
    (omega arith, (omega arith, tt)),
  ),
  (omega arith, (omega arith, tt)),
  omega arith,
  omega arith,
  omega arith,
)

unserialize_msg_before_block_example :
    (serialize_msg long_hi ≡ some (msg_sized long_hi, msg_bytes (msg_sized long_hi)))
    × (unserialize_msg (msg_bytes (msg_sized long_hi) ++ behind) 0 ≡ none)
unfolding msg_size
unserialize_msg_before_block_example =
    unserialize_msg_before_block long_hi behind
      (
        omega arith,
        omega arith,
        omega arith,
        omega arith,
        omega arith,
        omega arith,
        omega arith,
        omega arith,
      )
      (omega arith) (omega arith) (omega arith)
