-- ===== src/Server/Blocks/Sized.antt =====
-- DataType.h: the size of the block that each Serialize writes, where the names have 32 chars.
use socket_message.Prelude.{
  ℕ, ◌+◌, ◌*◌, ◌^◌, ◌<◌, ◌≡◌, refl, sym, ap, subst, ◌∙◌, Bool, true, false, some, some-injective,
  List, [], ◌∷◌, ◌++◌, concat, arith, ltb, ltb→lt, length, All, guard, >>=-eq-some, length-append,
}
use socket_message.Wire.Bytes.{IsInt, name_size, le32}
use socket_message.Wire.Counted.{list_block, head_of-list_block, length-list_block}
use socket_message.Wire.Login.{
  DataHead, Named, named_size, named_bytes, length-named_bytes, s2c_user_list, s2c_group_list,
}
use socket_message.Wire.Users.{
  UserList, new_user_list, users_bytes, user_list_size, user_list_sized, user_list_bytes,
  serialize_users,
}
use socket_message.Wire.Groups.{
  Group, GroupList, new_group_list, group_bytes, group_fixed_bytes, group_size, group_sized,
  group_sizes, serialize_group, serialize_each_group, serialize_groups,
}
use socket_message.Wire.Msgs.{
  DataMsg, DataMsgList, msg_size, msg_sized, msg_sizes, serialize_msg, serialize_each_msg,
  serialize_msgs,
}
use socket_message.Wire.Msgs.Fields.{head_of-msg_bytes}
use socket_message.Wire.Msgs.RoundTrip.{length-block}
use socket_message.Server.Blocks.{IsBlock}

guard-eq-some : (b : Bool) {u : Unit {0}} → guard b ≡ some u → b ≡ true
guard-eq-some true h = refl
guard-eq-some false h = cc

abbrev pub HasName : Named → Type 0
HasName u = length u.chars ≡ name_size

length-users :
    (users : List Named)
    → All HasName users
    → length (users_bytes users) ≡ named_size * length users
unfolding users_bytes
length-users [] h = refl
length-users (u ∷ us) h = omega (
  arith,
  length-append (named_bytes u) (users_bytes us),
  length-named_bytes u,
  h.0,
  length-users us h.1,
)

-- A list, as its head has it.
list_block-IsBlock :
    (h : DataHead) (n : ℕ) (body : List ℕ)
    → h.data_size < 2 ^ 31
    → IsInt h.data_type
    → h.data_size ≡ 12 + length body
    → IsBlock h.data_type (list_block h n body)
list_block-IsBlock h n body small ty size = (
  h,
  head_of-list_block h n body (omega arith) ty,
  omega (arith, length-list_block h n body),
  refl,
  omega (arith, length-list_block h n body),
)

length-user_list :
    (l : UserList)
    → All HasName l.users
    → length (user_list_bytes (user_list_sized l)) ≡ user_list_size l
unfolding user_list_bytes user_list_sized user_list_size
length-user_list l h = omega (
  arith,
  length-list_block (user_list_sized l).head (length l.users) (users_bytes l.users),
  length-users l.users h,
)

pub serialize_users-IsBlock :
    (users : List Named) (r : UserList × List ℕ)
    → All HasName users
    → serialize_users (new_user_list users) ≡ some r
    → IsBlock s2c_user_list r.1
unfolding serialize_users new_user_list user_list_bytes user_list_sized user_list_size
serialize_users-IsBlock users r h e =
    let (u, e1, e2) = >>=-eq-some (guard (ltb (12 + named_size * length users) (2 ^ 31))) _ e in
    subst (IsBlock s2c_user_list) (ap (λ (x : UserList × List ℕ). x.1) (some-injective _ _ e2)) (
      list_block-IsBlock _ (length users) (users_bytes users) (ltb→lt _ _ (guard-eq-some _ e1))
        (omega arith) (omega (arith, length-users users h)))

abbrev pub HasNames : Group → Type 0
HasNames g = (length g.group_name ≡ name_size) × All HasName g.user_list.users

length-group_bytes :
    (g : Group)
    → length (group_bytes g) ≡ 16 + length g.group_name + length (user_list_bytes g.user_list)
unfolding group_bytes group_fixed_bytes le32
length-group_bytes g = omega (
  arith,
  length-append (g.group_name ++ le32 g.admin_id) (user_list_bytes g.user_list),
  length-append g.group_name (le32 g.admin_id),
)

length-group : (g : Group) → HasNames g → length (group_bytes (group_sized g)) ≡ group_size g
unfolding group_sized group_size
length-group g h =
    length-group_bytes (group_sized g)
    ∙ ap (λ n. 16 + n + length (user_list_bytes (user_list_sized g.user_list))) h.0
    ∙ ap (λ n. 16 + 32 + n) (length-user_list g.user_list h.1)

-- What each Serialize of a loop gives: the sizes that it set, and as many bytes.
serialize_group-size :
    (g : Group) (r : Group × List ℕ)
    → HasNames g
    → serialize_group g ≡ some r
    → r.0.head.data_size ≡ length r.1
unfolding serialize_group group_sized
serialize_group-size g r h e =
    let (u, e1, e2) = >>=-eq-some (guard (ltb (group_size g) (2 ^ 31))) _ e in
    subst (λ (x : Group × List ℕ). x.0.head.data_size ≡ length x.1) (some-injective _ _ e2)
      (sym (length-group g h))

serialize_each_group-size :
    (gs : List Group) (r : List Group × List (List ℕ))
    → All HasNames gs
    → serialize_each_group gs ≡ some r
    → group_sizes r.0 ≡ length (concat r.1)
unfolding serialize_each_group group_sizes
serialize_each_group-size [] r h e =
    subst (λ (x : List Group × List (List ℕ)). group_sizes x.0 ≡ length (concat x.1))
      (some-injective _ _ e) refl
serialize_each_group-size (g ∷ gs) r h e =
    let (b, e1, f1) = >>=-eq-some (serialize_group g) _ e in
    let (bs, e2, f2) = >>=-eq-some (serialize_each_group gs) _ f1 in
    subst (λ (x : List Group × List (List ℕ)). group_sizes x.0 ≡ length (concat x.1))
      (some-injective _ _ f2)
      (omega (
        arith,
        serialize_group-size g b h.0 e1,
        serialize_each_group-size gs bs h.1 e2,
        length-append b.1 (concat bs.1),
      ))

pub serialize_groups-IsBlock :
    (gs : List Group) (r : GroupList × List ℕ)
    → All HasNames gs
    → serialize_groups (new_group_list gs) ≡ some r
    → IsBlock s2c_group_list r.1
unfolding serialize_groups new_group_list
serialize_groups-IsBlock gs r h e =
    let (bs, e1, f1) = >>=-eq-some (serialize_each_group gs) _ e in
    let (u, e2, f2) = >>=-eq-some (guard (ltb (12 + group_sizes bs.0) (2 ^ 31))) _ f1 in
    subst (IsBlock s2c_group_list) (ap (λ (x : GroupList × List ℕ). x.1) (some-injective _ _ f2)) (
      list_block-IsBlock _ (length bs.0) (concat bs.1) (ltb→lt _ _ (guard-eq-some _ e2))
        (omega arith) (omega (arith, serialize_each_group-size gs bs h e1)))

-- The block of one message.
pub serialize_msg-IsBlock :
    (m : DataMsg) (r : DataMsg × List ℕ)
    → IsInt m.head.data_type
    → serialize_msg m ≡ some r
    → (r.0.head.data_size ≡ length r.1) × IsBlock m.head.data_type r.1
unfolding serialize_msg msg_sized msg_size
serialize_msg-IsBlock m r ty e =
    let (u, e1, e2) = >>=-eq-some (guard (ltb (msg_size m) (2 ^ 31))) _ e in
    let small = ltb→lt (msg_size m) (2 ^ 31) (guard-eq-some _ e1) in
    subst
      (λ (x : DataMsg × List ℕ). (x.0.head.data_size ≡ length x.1) × IsBlock m.head.data_type x.1)
      (some-injective _ _ e2)
      (
        sym (length-block m),
        (
          (msg_sized m).head,
          head_of-msg_bytes (msg_sized m) (omega arith) ty,
          sym (length-block m),
          refl,
          omega (arith, length-block m),
        ),
      )

serialize_each_msg-size :
    (ms : List DataMsg) (r : List DataMsg × List (List ℕ))
    → All (λ (m : DataMsg). IsInt m.head.data_type) ms
    → serialize_each_msg ms ≡ some r
    → msg_sizes r.0 ≡ length (concat r.1)
unfolding serialize_each_msg msg_sizes
serialize_each_msg-size [] r h e =
    subst (λ (x : List DataMsg × List (List ℕ)). msg_sizes x.0 ≡ length (concat x.1))
      (some-injective _ _ e) refl
serialize_each_msg-size (m ∷ ms) r h e =
    let (b, e1, f1) = >>=-eq-some (serialize_msg m) _ e in
    let (bs, e2, f2) = >>=-eq-some (serialize_each_msg ms) _ f1 in
    subst (λ (x : List DataMsg × List (List ℕ)). msg_sizes x.0 ≡ length (concat x.1))
      (some-injective _ _ f2)
      (omega (
        arith,
        (serialize_msg-IsBlock m b h.0 e1).0,
        serialize_each_msg-size ms bs h.1 e2,
        length-append b.1 (concat bs.1),
      ))

pub serialize_msgs-IsBlock :
    (l : DataMsgList) (r : DataMsgList × List ℕ)
    → IsInt l.head.data_type
    → All (λ (m : DataMsg). IsInt m.head.data_type) l.msgs
    → serialize_msgs l ≡ some r
    → IsBlock l.head.data_type r.1
unfolding serialize_msgs
serialize_msgs-IsBlock l r ty h e =
    let (bs, e1, f1) = >>=-eq-some (serialize_each_msg l.msgs) _ e in
    let (u, e2, f2) = >>=-eq-some (guard (ltb (12 + msg_sizes bs.0) (2 ^ 31))) _ f1 in
    subst (IsBlock l.head.data_type)
      (ap (λ (x : DataMsgList × List ℕ). x.1) (some-injective _ _ f2))
      (list_block-IsBlock _ (length bs.0) (concat bs.1) (ltb→lt _ _ (guard-eq-some _ e2)) ty
        (omega (arith, serialize_each_msg-size l.msgs bs h e1)))
