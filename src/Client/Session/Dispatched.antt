-- ===== src/Client/Session/Dispatched.antt =====
-- SocketReadReadPackageCallback on a package with the right size.
use socket_message.Prelude.{
  ℕ, ◌≤◌, ◌<◌, ◌≡◌, ◌≢◌, ◌⊎◌, inl, inr, refl, sym, ap, ◌∙◌, Bool, true, false, Option, some, List,
  [], arith, ltb, ◌==◌, if◌then◌else◌, length, le→ltb, lt→ltb, ==_refl, append-nil, Bool-cases,
}
use socket_message.Wire.Bytes.{IsInt, name_size, data_head_size, c_str}
use socket_message.Wire.Login.{
  DataHead, Named, head_of, head_of-head_bytes, named_bytes, length-named_bytes, new_s2c_login,
  s2c_login, s2c_user_list, s2c_group_list, s2c_data_msg, s2c_data_msg_list, unserialize,
}
use socket_message.Wire.RoundTrip.{unserialize-serialize}
use socket_message.Server.DataHandler.{Sent}
use socket_message.Server.Blocks.{IsServerType}
use socket_message.Client.Sdk.{Sdk, called, login_got}
use socket_message.Client.Sdk.Dispatch.{read_package, dispatch, handle_s2c_login, set_self}

pub read_package-dispatch :
    (fd : ℕ) (bytes : List ℕ) (h : DataHead) (s : Sdk)
    → data_head_size ≤ length bytes
    → head_of bytes ≡ some h
    → h.data_size ≡ length bytes
    → read_package fd bytes s ≡ dispatch h.data_type fd bytes s
unfolding read_package
read_package-dispatch fd bytes h s long e size =
    rw (le→ltb (length bytes) data_head_size long, e, size, ==_refl (length bytes)) refl

-- A package that the client does not look at.
abbrev pub IsIgnored : List ℕ → Type 0
IsIgnored bytes =
    (length bytes < data_head_size)
    ⊎ ((h : DataHead) × (head_of bytes ≡ some h)
        × ((h.data_size ≢ length bytes)
            ⊎ ((h.data_type ≢ s2c_login)
                × (h.data_type ≢ s2c_user_list)
                × (h.data_type ≢ s2c_group_list)
                × (h.data_type ≢ s2c_data_msg)
                × (h.data_type ≢ s2c_data_msg_list))))

if_same : (b : Bool) (x : Option Sdk) → (if b then x else x) ≡ x
if_same true x = refl
if_same false x = refl

==_false : (a b : ℕ) → a ≢ b → (a == b) ≡ false
==_false a b h = ground arith

-- A package that is shorter than a DataHead, whose DataSize is not its size, or of a type for which no
-- handler is registered changes nothing in the client and reaches no callback.
pub read_package-IsIgnored :
    (fd : ℕ) (bytes : List ℕ) (s : Sdk) → IsIgnored bytes → read_package fd bytes s ≡ some s
unfolding read_package dispatch
read_package-IsIgnored fd bytes s (inl short) = rw (lt→ltb (length bytes) data_head_size short)
read_package-IsIgnored fd bytes s (inr (h, e, why)) =
    elim (Bool-cases (ltb (length bytes) data_head_size)) [
      | inl short ↦ rw short
      | inr long ↦
          rw (long, e)
            (elim why [
              | inl size ↦ rw (==_false h.data_size (length bytes) size)
              | inr (a, b, c, d, f) ↦
                  rw
                    (
                      ==_false h.data_type s2c_login a,
                      ==_false h.data_type s2c_user_list b,
                      ==_false h.data_type s2c_group_list c,
                      ==_false h.data_type s2c_data_msg d,
                      ==_false h.data_type s2c_data_msg_list f,
                    )
                    (if_same (h.data_size == length bytes) (some s))
            ])
    ]

-- An S2CLogin.
pub read_login_answer :
    (fd user_id : ℕ) (chars name : List ℕ) (s : Sdk)
    → IsInt user_id
    → length chars ≡ name_size
    → c_str chars ≡ some name
    → s.has_login ≡ true
    → read_package fd (named_bytes (new_s2c_login user_id chars)) s
      ≡ some (called (login_got fd user_id name) (set_self user_id s))
unfolding dispatch new_s2c_login
read_login_answer fd user_id chars name s hu hc e has =
    read_package-dispatch fd (named_bytes m) m.head s (omega (arith, length-named_bytes m, hc))
      (unfold named_bytes in head_of-head_bytes m.head _ (omega arith) (omega arith))
      (omega (arith, length-named_bytes m, hc))
    ∙ unfold handle_s2c_login in rw (has, unserialized, e) refl
  where
    m : Named
    m = new_s2c_login user_id chars

    unserialized : unserialize (named_bytes m) ≡ some m
    unserialized =
        ap unserialize (sym (append-nil (named_bytes m)))
        ∙ (unserialize-serialize m [] (omega arith, omega arith, hu, hc) refl).1

-- A package that goes to the handler of a type.
abbrev pub IsDispatched : ℕ → Sdk → List ℕ → Type 0
IsDispatched fd c block =
    (ty : ℕ) × IsServerType ty × (read_package fd block c ≡ dispatch ty fd block c)
