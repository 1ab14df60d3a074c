-- ===== src/Server/Blocks/Named.antt =====
-- DBUser.cpp, DBGroup.cpp, DBMsg.cpp: every name that they copy fills an array of 32 chars.
use socket_message.Prelude.{
  ℕ, ◌+◌, ◌≡◌, refl, sym, subst, ◌∙◌, Bool, some, some-injective, List, [], ◌∷◌, arith, leb, leb→le,
  length, drop, get_elem?, All, guard, >>=-eq-some, length-append, length-drop, Bool-cases, inl,
  inr,
}
use socket_message.Wire.Bytes.{IsInt, name_size, copy_name, c_str}
use socket_message.Wire.Login.{Named, GetDataMsgList, new_s2c_login, new_s2c_user}
use socket_message.Wire.Groups.{Group, GroupList, new_group, new_group_list}
use socket_message.Wire.Users.{UserList, new_user_list}
use socket_message.Wire.Msgs.{DataMsg, DataMsgList, new_data_msg_list}
use socket_message.Server.Database.{
  MySql, Row, find_user, int_cell, login, login_result, login_error, login_sql_size,
  login_sql_capacity, minus_one, vector_to_user_list, all_user_list, groups_of_rows, user_all_group,
  msgs_of_rows, get_data_msg_list,
}
use socket_message.Server.Blocks.Sized.{HasName, HasNames}

length-copy_name : (array s r : List ℕ) → copy_name array s ≡ some r → length r ≡ length array
unfolding copy_name
length-copy_name array s r h = elim (Bool-cases (leb (length s + 1) (length array))) [
  | inl fits ↦
      subst (λ (x : List ℕ). length x ≡ length array) (some-injective _ _ (rw fits at h))
        (omega (
          arith,
          leb→le (length s + 1) (length array) fits,
          length-append s (0 ∷ drop (length s + 1) array),
          length-drop (length s + 1) array,
        ))
  | inr over ↦ cc (rw over at h)
]

-- The answer of DBUser::Login.
abbrev pub IsAnswer : Named → Type 0
IsAnswer m =
    (uid : ℕ) × (chars : List ℕ) × (m ≡ new_s2c_login uid chars) × (length chars ≡ name_size)

module _ (blank : List ℕ) (whole : length blank ≡ name_size) where
  login_result-IsAnswer :
      (rows : List Row) (r : Bool × Named) → login_result blank rows ≡ some r → IsAnswer r.1
  unfolding login_result
  login_result-IsAnswer [] r h =
      let (name, e1, f1) = >>=-eq-some (copy_name blank login_error) _ h in
      subst (λ (x : Bool × Named). IsAnswer x.1) (some-injective _ _ f1)
        (minus_one, name, refl, length-copy_name blank login_error name e1 ∙ whole)
  login_result-IsAnswer (row ∷ rows) r h =
      let (uid, e1, f1) = >>=-eq-some (int_cell row 0) _ h in
      let (text, e2, f2) = >>=-eq-some (get_elem? row 1) _ f1 in
      let (name, e3, f3) = >>=-eq-some (copy_name blank text) _ f2 in
      subst (λ (x : Bool × Named). IsAnswer x.1) (some-injective _ _ f3)
        (uid, name, refl, length-copy_name blank text name e3 ∙ whole)

  pub login-IsAnswer :
      (sql : MySql) (m : Named) (r : Bool × Named) → login sql blank m ≡ some r → IsAnswer r.1
  unfolding login
  login-IsAnswer sql m r h =
      let (password, e1, f1) = >>=-eq-some (c_str m.chars) _ h in
      let (u, e2, f2) =
        >>=-eq-some
          (guard (leb (login_sql_size m.user_id (sql.escape_string password)) login_sql_capacity)) _
          f1 in
      login_result-IsAnswer (sql.select 0 (find_user m.user_id (sql.escape_string password))) r f2

  vector_to_user_list-HasName :
      (rows : List Row) (us : List Named)
      → vector_to_user_list blank rows ≡ some us
      → All HasName us
  unfolding vector_to_user_list new_s2c_user
  vector_to_user_list-HasName [] us h = subst (All HasName) (some-injective _ _ h) tt
  vector_to_user_list-HasName (row ∷ rows) us h =
      let (uid, e1, f1) = >>=-eq-some (int_cell row 0) _ h in
      let (text, e2, f2) = >>=-eq-some (get_elem? row 1) _ f1 in
      let (name, e3, f3) = >>=-eq-some (copy_name blank text) _ f2 in
      let (rest, e4, f4) = >>=-eq-some (vector_to_user_list blank rows) _ f3 in
      subst (All HasName) (some-injective _ _ f4)
        (length-copy_name blank text name e3 ∙ whole, vector_to_user_list-HasName rows rest e4)

  pub all_user_list-HasName :
      (sql : MySql) (l : UserList)
      → all_user_list sql blank ≡ some l
      → (us : List Named) × (l ≡ new_user_list us) × All HasName us
  unfolding all_user_list
  all_user_list-HasName sql l h =
      let (us, e1, f1) = >>=-eq-some (vector_to_user_list blank _) _ h in
      (us, sym (some-injective _ _ f1), vector_to_user_list-HasName _ us e1)

  groups_of_rows-HasNames :
      (sql : MySql) (i : ℕ) (rows : List Row) (gs : List Group)
      → groups_of_rows sql blank i rows ≡ some gs
      → All HasNames gs
  unfolding groups_of_rows new_group new_user_list
  groups_of_rows-HasNames sql i [] gs h = subst (All HasNames) (some-injective _ _ h) tt
  groups_of_rows-HasNames sql i (row ∷ rows) gs h =
      let (gid, e1, f1) = >>=-eq-some (int_cell row 0) _ h in
      let (text, e2, f2) = >>=-eq-some (get_elem? row 1) _ f1 in
      let (name, e3, f3) = >>=-eq-some (copy_name blank text) _ f2 in
      let (admin, e4, f4) = >>=-eq-some (int_cell row 2) _ f3 in
      let (us, e5, f5) = >>=-eq-some (vector_to_user_list blank _) _ f4 in
      let (rest, e6, f6) = >>=-eq-some (groups_of_rows sql blank (i + 1) rows) _ f5 in
      subst (All HasNames) (some-injective _ _ f6) (
        (length-copy_name blank text name e3 ∙ whole, vector_to_user_list-HasName _ us e5),
        groups_of_rows-HasNames sql (i + 1) rows rest e6,
      )

  pub user_all_group-HasNames :
      (sql : MySql) (uid : ℕ) (l : GroupList)
      → user_all_group sql blank uid ≡ some l
      → (gs : List Group) × (l ≡ new_group_list gs) × All HasNames gs
  unfolding user_all_group
  user_all_group-HasNames sql uid l h =
      let (gs, e1, f1) = >>=-eq-some (groups_of_rows sql blank 3 _) _ h in
      (gs, sym (some-injective _ _ f1), groups_of_rows-HasNames sql 3 _ gs e1)

abbrev pub HasType : DataMsg → Type 0
HasType m = IsInt m.head.data_type

msgs_of_rows-HasType :
    (rows : List Row) (ms : List DataMsg) → msgs_of_rows rows ≡ some ms → All HasType ms
unfolding msgs_of_rows
msgs_of_rows-HasType [] ms h = subst (All HasType) (some-injective _ _ h) tt
msgs_of_rows-HasType (row ∷ rows) ms h =
    let (a, e1, f1) = >>=-eq-some (int_cell row 0) _ h in
    let (b, e2, f2) = >>=-eq-some (int_cell row 1) _ f1 in
    let (c, e3, f3) = >>=-eq-some (get_elem? row 2) _ f2 in
    let (d, e4, f4) = >>=-eq-some (int_cell row 3) _ f3 in
    let (e, e5, f5) = >>=-eq-some (int_cell row 4) _ f4 in
    let (f, e6, f6) = >>=-eq-some (int_cell row 5) _ f5 in
    let (g, e7, f7) = >>=-eq-some (int_cell row 6) _ f6 in
    let (k, e8, f8) = >>=-eq-some (get_elem? row 7) _ f7 in
    let (rest, e9, f9) = >>=-eq-some (msgs_of_rows rows) _ f8 in
    subst (All HasType) (some-injective _ _ f9) (omega arith, msgs_of_rows-HasType rows rest e9)

pub get_data_msg_list-HasType :
    (sql : MySql) (m : GetDataMsgList) (l : DataMsgList)
    → get_data_msg_list sql m ≡ some l
    → (ms : List DataMsg) × (l ≡ new_data_msg_list ms) × All HasType ms
unfolding get_data_msg_list
get_data_msg_list-HasType sql m l h =
    let (ms, e1, f1) = >>=-eq-some (msgs_of_rows _) _ h in
    (ms, sym (some-injective _ _ f1), msgs_of_rows-HasType _ ms e1)
