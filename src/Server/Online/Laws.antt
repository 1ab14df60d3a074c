-- ===== src/Server/Online/Laws.antt =====
-- DataHandler.cpp: what the map of online users answers after ClientOpen and ClientSocketState.
use socket_message.Prelude.{
  ℕ, ◌+◌, ◌-◌, ◌^◌, ◌<◌, ◌≡◌, ◌≢◌, refl, ap, Bool, true, false, none, some, List, [], ◌∷◌, ◌==◌,
  if◌then◌else◌, All, arith,
}
use socket_message.Server.Online.{
  Entry, order_of, find, insert, client_open, erase_first, client_socket_state, user_id_to_cfd,
  Change, opened, socket_state, change, changes,
}

-- The keys after `k` are all greater.
abbrev pub Above : ℕ → List Entry → Type 0
Above k m = All (λ e. order_of k < order_of e.user_id) m

abbrev pub Sorted : List Entry → Type 0
Sorted [] = Unit
Sorted (e ∷ m) = Above e.user_id m × Sorted m

-- The ids of the entries are 32-bit values.
abbrev pub HasInts : List Entry → Type 0
HasInts m = All (λ e. e.user_id < 2 ^ 32) m

order_of-ne : (a b : ℕ) → a < 2 ^ 32 → b < 2 ^ 32 → a ≢ b → order_of a ≢ order_of b
unfolding order_of
order_of-ne a b ha hb n = omega arith

find-Above : (k : ℕ) (m : List Entry) → Above k m → find k m ≡ none
unfolding find
find-Above k [] h = refl
find-Above k (e ∷ m) (a, h) = ground (arith, find-Above k m h, λ (q : e.user_id ≡ k). ap order_of q)

Above-trans : (j k : ℕ) (m : List Entry) → order_of j < order_of k → Above k m → Above j m
Above-trans j k [] l h = tt
Above-trans j k (e ∷ m) l (a, h) = (omega arith, Above-trans j k m l h)

insert-Above :
    (j k v : ℕ) (m : List Entry) → order_of j < order_of k → Above j m → Above j (insert k v m)
unfolding insert
insert-Above j k v [] l h = (l, tt)
insert-Above j k v (e ∷ m) l (a, h) = ground (arith, insert-Above j k v m l h)

insert-Sorted :
    (k v : ℕ) (m : List Entry) → k < 2 ^ 32 → HasInts m → Sorted m → Sorted (insert k v m)
unfolding insert
insert-Sorted k v [] hk hm h = (tt, tt)
insert-Sorted k v (e ∷ m) hk (he, hm) (a, h) = ground (
  arith,
  insert-Sorted k v m hk hm h,
  insert-Above e.user_id k v m,
  order_of-ne e.user_id k he hk,
  λ (l : order_of k < order_of e.user_id). Above-trans k e.user_id m l a,
)

insert-HasInts : (k v : ℕ) (m : List Entry) → k < 2 ^ 32 → HasInts m → HasInts (insert k v m)
unfolding insert
insert-HasInts k v [] hk hm = (hk, tt)
insert-HasInts k v (e ∷ m) hk (he, hm) = ground (arith, insert-HasInts k v m hk hm)

find-insert :
    (j k v : ℕ) (m : List Entry)
    → Sorted m
    → find j (insert k v m)
      ≡ (if k == j then some (elim (find j m) [ none ↦ v | some w ↦ w ]) else find j m)
unfolding find insert
find-insert j k v [] h = ground arith
find-insert j k v (e ∷ m) (a, h) = ground (
  arith,
  find-insert j k v m h,
  λ (l : order_of k < order_of e.user_id). find-Above k m (Above-trans k e.user_id m l a),
)

erase_first-Above : (j c : ℕ) (m : List Entry) → Above j m → Above j (erase_first c m)
unfolding erase_first
erase_first-Above j c [] h = tt
erase_first-Above j c (e ∷ m) (a, h) = ground (arith, erase_first-Above j c m h)

erase_first-Sorted : (c : ℕ) (m : List Entry) → Sorted m → Sorted (erase_first c m)
unfolding erase_first
erase_first-Sorted c [] h = tt
erase_first-Sorted c (e ∷ m) (a, h) =
    ground (arith, erase_first-Sorted c m h, erase_first-Above e.user_id c m a)

erase_first-HasInts : (c : ℕ) (m : List Entry) → HasInts m → HasInts (erase_first c m)
unfolding erase_first
erase_first-HasInts c [] h = tt
erase_first-HasInts c (e ∷ m) (a, h) = ground (arith, erase_first-HasInts c m h)

-- The users whose entry has this descriptor.
unfoldable pub users_on : ℕ → List Entry → ℕ
users_on c [] = 0
users_on c (e ∷ m) = (if e.cfd == c then 1 else 0) + users_on c m

users_on-erase_first :
    (c d : ℕ) (m : List Entry)
    → users_on d (erase_first c m) ≡ (if c == d then users_on d m - 1 else users_on d m)
unfolding users_on erase_first
users_on-erase_first c d [] = ground arith
users_on-erase_first c d (e ∷ m) = ground (arith, users_on-erase_first c d m)

-- A change that a socket or a login makes: the ids are 32-bit values.
abbrev pub IsChange : Change → Type 0
IsChange (opened cfd user_id) = user_id < 2 ^ 32
IsChange (socket_state cfd state) = Unit

change-lem :
    (m : List Entry) (c : Change)
    → IsChange c
    → HasInts m × Sorted m
    → HasInts (change m c) × Sorted (change m c)
unfolding change client_open client_socket_state
change-lem m (opened cfd user_id) hc (hm, h) =
    (insert-HasInts user_id cfd m hc hm, insert-Sorted user_id cfd m hc hm h)
change-lem m (socket_state cfd true) hc h = h
change-lem m (socket_state cfd false) hc (hm, h) =
    (erase_first-HasInts cfd m hm, erase_first-Sorted cfd m h)

changes-lem :
    (m : List Entry) (cs : List Change)
    → All IsChange cs
    → HasInts m × Sorted m
    → HasInts (changes m cs) × Sorted (changes m cs)
unfolding changes
changes-lem m [] hc h = h
changes-lem m (c ∷ cs) (hc, hs) h = changes-lem (change m c) cs hs (change-lem m c hc h)

user_id_to_cfd-client_open :
    (m : List Entry) (cfd user_id other : ℕ)
    → Sorted m
    → user_id_to_cfd other (client_open cfd user_id m) ≡ (
        if user_id == other
        then elim (find other m) [ none ↦ cfd | some old ↦ old ]
        else user_id_to_cfd other m)
unfolding client_open user_id_to_cfd
user_id_to_cfd-client_open m cfd user_id other h = ground (arith, find-insert other user_id cfd m h)

-- After any sequence of logins (of 32-bit user ids) and socket state changes from the empty map, one more
-- ClientOpen changes UserId2Cfd for its user alone. That user gets the new descriptor if it was
-- offline; if it was online it keeps the descriptor of its earlier login, and the new one is dropped.
pub client_open_keeps_old :
    (cs : List Change) (cfd user_id other : ℕ)
    → All IsChange cs
    → user_id_to_cfd other (client_open cfd user_id (changes [] cs)) ≡ (
        if user_id == other
        then elim (find other (changes [] cs)) [ none ↦ cfd | some old ↦ old ]
        else user_id_to_cfd other (changes [] cs))
client_open_keeps_old cs cfd user_id other h =
    user_id_to_cfd-client_open (changes [] cs) cfd user_id other (changes-lem [] cs h (tt, tt)).1

-- ClientSocketState for a closed socket takes exactly one of the users that its descriptor had off the
-- map, if there was one, and leaves the number of users of every other descriptor; for an opened socket
-- it changes nothing. So the second of two users that logged in over one connection stays on the map.
pub one_user_goes_offline :
    (m : List Entry) (cfd other : ℕ) (state : Bool)
    → users_on other (client_socket_state cfd state m) ≡ (
        if state
        then users_on other m
        else (if cfd == other then users_on other m - 1 else users_on other m))
unfolding client_socket_state
one_user_goes_offline m cfd other true = refl
one_user_goes_offline m cfd other false = users_on-erase_first cfd other m
