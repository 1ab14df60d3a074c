-- ===== src/Client/Sdk/LoginPackets.antt =====
-- SendLogin and the login handler of the client, with the server's end of both.
use socket_message.Prelude.{
  ℕ, ◌+◌, ◌≤◌, ◌<◌, ◌≡◌, ◌≢◌, refl, sym, ap, ◌∙◌, Option, none, some, List, [], ◌∷◌, ◌++◌, arith,
  ltb, if◌then◌else◌, length, take, drop, All, length-append, length-drop, length-take_le,
  append-nil, take-append_le, append_assoc, All-take, Bool-cases, inl, inr, ltb→lt, ltb→le,
}
use socket_message.Wire.Bytes.{IsInt, name_size, c_str, c_str-append}
use socket_message.Wire.Login.{Named, unserialize, new_c2s_login, named_bytes}
use socket_message.Wire.RoundTrip.{unserialize-serialize}
use socket_message.Client.Sdk.{copy_password, login_block}

c_str_full : (s : List ℕ) → All (λ b. b ≢ 0) s → c_str s ≡ none
unfolding c_str
c_str_full [] h = refl
c_str_full (b ∷ s) h = ground (arith, c_str_full s h.1)

take_all : (xs : List ℕ) → take (length xs) xs ≡ xs
take_all [] = refl
take_all (x ∷ xs) = ap (◌∷◌ x) (take_all xs)

drop_all : (xs : List ℕ) → drop (length xs) xs ≡ []
drop_all [] = refl
drop_all (x ∷ xs) = drop_all xs

-- A password that fits, and the bytes of the array behind it.
copy_password_short :
    (blank password : List ℕ)
    → length password < name_size
    → copy_password blank password ≡ password ++ 0 ∷ drop (length password + 1) blank
unfolding copy_password
copy_password_short blank password short =
    ap (λ n. take n (password ++ 0 ∷ []) ++ drop n blank) size
    ∙ ap (λ n. take n (password ++ 0 ∷ []) ++ drop (length password + 1) blank)
        (sym (length-append password (0 ∷ [])))
    ∙ ap (λ l. l ++ drop (length password + 1) blank) (take_all (password ++ 0 ∷ []))
    ∙ append_assoc password (0 ∷ []) (drop (length password + 1) blank)
  where
    size :
        (if ltb (length password + 1) name_size then length password + 1 else name_size)
        ≡ length password + 1
    size = ground arith

-- A longer one is cut, without its terminator.
copy_password_long :
    (blank password : List ℕ)
    → length blank ≡ name_size
    → name_size ≤ length password
    → copy_password blank password ≡ take name_size password
unfolding copy_password
copy_password_long blank password hb long =
    ap (λ n. take n (password ++ 0 ∷ []) ++ drop n blank) size
    ∙ ap (λ l. take name_size (password ++ 0 ∷ []) ++ l)
        (ap (λ n. drop n blank) (sym hb) ∙ drop_all blank)
    ∙ append-nil (take name_size (password ++ 0 ∷ []))
    ∙ take-append_le name_size password (0 ∷ []) long
  where
    size :
        (if ltb (length password + 1) name_size then length password + 1 else name_size) ≡ name_size
    size = ground arith

length_spliced :
    (n : ℕ) (xs blank : List ℕ)
    → n ≤ length xs
    → n ≤ length blank
    → length (take n xs ++ drop n blank) ≡ length blank
length_spliced n xs blank hx hb =
    omega
      (arith, length-append (take n xs) (drop n blank), length-take_le n xs hx, length-drop n blank)

length-copy_password :
    (blank password : List ℕ)
    → length blank ≡ name_size
    → length (copy_password blank password) ≡ name_size
unfolding copy_password
length-copy_password blank password hb =
    length_spliced _ (password ++ 0 ∷ []) blank
      (omega (arith, n_le, length-append password (0 ∷ []))) (omega (arith, n_small))
    ∙ hb
  where
    n_le :
        (if ltb (length password + 1) name_size then length password + 1 else name_size)
        ≤ length password + 1
    n_le = ground arith

    n_small :
        (if ltb (length password + 1) name_size then length password + 1 else name_size) ≤ name_size
    n_small = ground arith

-- What the server's UnSerialize reads of the block that SendLogin built, on a new array of 32 chars.
abbrev pub ReadsPassword : List ℕ → ℕ → List ℕ → Option (List ℕ) → Type 0
ReadsPassword blank user_id password out =
    (block : List ℕ) × (m : Named) × (login_block blank user_id password ≡ some block)
    × (unserialize block ≡ some m)
    × (m.user_id ≡ user_id)
    × (c_str m.chars ≡ out)

read_password :
    (blank password : List ℕ) (user_id : ℕ) (out : Option (List ℕ))
    → length blank ≡ name_size
    → IsInt user_id
    → c_str (copy_password blank password) ≡ out
    → ReadsPassword blank user_id password out
unfolding login_block new_c2s_login
read_password blank password user_id out hb hu h =
    let m = new_c2s_login user_id (copy_password blank password) in
    let (written, back) =
      unserialize-serialize m []
        (omega arith, omega arith, hu, length-copy_password blank password hb) refl in
    (named_bytes m, m, written, ap unserialize (sym (append-nil (named_bytes m))) ∙ back, refl, h)

-- The C2SLogin that SendLogin builds is read by the server with the user's id and, as a C string, the
-- password, if it has under 32 bytes; of a longer one the array has no terminator, and the server
-- reads past its end. No byte of the password is zero.
pub password_reaches_server :
    (blank password : List ℕ) (user_id : ℕ)
    → length blank ≡ name_size
    → IsInt user_id
    → All (λ b. b ≢ 0) password
    → ReadsPassword blank user_id password
        (if ltb (length password) name_size then some password else none)
password_reaches_server blank password user_id hb hu h =
    elim (Bool-cases (ltb (length password) name_size)) [
      | inl short ↦ rw short (
          read_password blank password user_id (some password) hb hu (
            ap c_str (copy_password_short blank password (ltb→lt _ _ short))
            ∙ c_str-append password _ h))
      | inr long ↦ rw long (
          read_password blank password user_id none hb hu (
            ap c_str (copy_password_long blank password hb (ltb→le _ _ long))
            ∙ c_str_full (take name_size password) (All-take (λ b. b ≢ 0) name_size password h)))
    ]
