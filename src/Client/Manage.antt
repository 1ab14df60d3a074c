-- ===== src/Client/Manage.antt =====
-- SocketMessageSdk.cpp with the static map of SocketMessageSdkInterface.cpp: each object of the public
-- class finds its interface by its own address.
use socket_message.Prelude.{
  ℕ, ◌≡◌, refl, Bool, true, false, Option, none, some, List, [], ◌∷◌, arith, ◌==◌, if◌then◌else◌,
}
use socket_message.Client.Connect.{Kernel}
use socket_message.Client.Sdk.{Sdk, new_sdk, connect_server, id_invalid}

-- An entry of s_ManageMap, with what its pointer points to.
pub record Managed : Type 0 where
  pub key : ℕ
  pub sdk : Sdk

-- Get2Manage; none is the null pointer.
unfoldable pub get_manage : ℕ → List Managed → Option Sdk
get_manage key [] = none
get_manage key (e ∷ es) = let rest = get_manage key es in if e.key == key then some e.sdk else rest

-- Add2Manage: `insert` keeps an entry that is there.
unfoldable pub add_found : Option Sdk → ℕ → Sdk → List Managed → List Managed
add_found none key sdk es = record { key = key; sdk = sdk } ∷ es
add_found (some _) key sdk es = es

unfoldable pub add_manage : ℕ → Sdk → List Managed → List Managed
add_manage key sdk es = add_found (get_manage key es) key sdk es

-- remove2Manage
unfoldable pub remove_manage : ℕ → List Managed → List Managed
remove_manage key [] = []
remove_manage key (e ∷ es) =
    let rest = remove_manage key es in if e.key == key then rest else e ∷ rest

-- The constructor and the destructor of SocketMessageSdk.
unfoldable pub construct : ℕ → List Managed → List Managed
construct key es = add_manage key new_sdk es

unfoldable pub destruct : ℕ → List Managed → List Managed
destruct key es = remove_manage key es

-- A method: the interface of `this` is called, and changed. Without one the null pointer is used.
unfoldable pub put_manage : ℕ → Sdk → List Managed → List Managed
put_manage key sdk [] = []
put_manage key sdk (e ∷ es) =
    let rest = put_manage key sdk es in
    if e.key == key then record { key = key; sdk = sdk } ∷ es else e ∷ rest

unfoldable pub on_manage {ℓ} :
    {A : Type ℓ} → Option Sdk → ℕ → (Sdk → A × Sdk) → List Managed → Option (A × List Managed)
on_manage none key f es = none
on_manage (some s) key f es = some ((f s).0, put_manage key (f s).1 es)

unfoldable pub method {ℓ} :
    {A : Type ℓ} → ℕ → (Sdk → A × Sdk) → List Managed → Option (A × List Managed)
method key f es = on_manage (get_manage key es) key f es

-- ConnectServer with its result and `isConnect`.
unfoldable pub connect_result : Kernel → Sdk → (ℕ × Bool) × Sdk
connect_result k s =
    let r = connect_server k s in ((r.0, if r.0 == id_invalid then false else true), r.1)

unfoldable pub connect_method : ℕ → Kernel → List Managed → Option ((ℕ × Bool) × List Managed)
connect_method key k es = method key (connect_result k) es

get_manage-put_manage :
    (key other : ℕ) (sdk old : Sdk) (es : List Managed)
    → get_manage key es ≡ some old
    → get_manage other (put_manage key sdk es)
      ≡ (if other == key then some sdk else get_manage other es)
unfolding get_manage put_manage
get_manage-put_manage key other sdk old [] h = cc
get_manage-put_manage key other sdk old (e ∷ es) h =
    ground (arith, get_manage-put_manage key other sdk old es)

get_manage-remove_manage :
    (key : ℕ) (es : List Managed) → get_manage key (remove_manage key es) ≡ none
unfolding get_manage remove_manage
get_manage-remove_manage key [] = refl
get_manage-remove_manage key (e ∷ es) = ground (arith, get_manage-remove_manage key es)

get_manage-add_manage :
    (key : ℕ) (sdk : Sdk) (es : List Managed)
    → get_manage key es ≡ none
    → get_manage key (add_manage key sdk es) ≡ some sdk
unfolding add_manage add_found
get_manage-add_manage key sdk es h = rw h (unfold get_manage in ground arith)

-- A method of an object that was constructed and not destructed runs on the object's own interface, gives
-- that call's result, and leaves the interfaces of all other objects as they were.
pub method_runs_on_own {ℓ} :
    {A : Type ℓ} (key other : ℕ) (f : Sdk → A × Sdk) (s : Sdk) (es : List Managed)
    → get_manage key es ≡ some s
    → (r : A × List Managed) × (method key f es ≡ some r)
      × (r.0 ≡ (f s).0)
      × (get_manage other r.1 ≡ (if other == key then some (f s).1 else get_manage other es))
unfolding method on_manage
method_runs_on_own key other f s es h = (
  ((f s).0, put_manage key (f s).1 es),
  rw h,
  refl,
  get_manage-put_manage key other (f s).1 s es h,
)

-- Between the constructor and the destructor of an object whose address has no entry, a method of it runs
-- on a new interface; behind the destructor a method would use a null pointer.
pub method_lifetime {ℓ} :
    {A : Type ℓ} (key : ℕ) (f : Sdk → A × Sdk) (es : List Managed)
    → get_manage key es ≡ none
    → ((r : A × List Managed) × (method key f (construct key es) ≡ some r) × (r.0 ≡ (f new_sdk).0))
      × (method key f (destruct key es) ≡ none)
unfolding method on_manage construct destruct
method_lifetime key f es h = (
  (
    ((f new_sdk).0, put_manage key (f new_sdk).1 (add_manage key new_sdk es)),
    rw (get_manage-add_manage key new_sdk es h),
    refl,
  ),
  rw (get_manage-remove_manage key es),
)
