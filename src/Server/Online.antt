-- ===== src/Server/Online.antt =====
-- DataHandler.cpp: m_OnlineUserMap, the std::map from a user's id to the client's descriptor. Both are
-- `int`s as bit patterns; the list holds the entries in the map's order, that of signed `int`s.
use socket_message.Prelude.{
  ℕ, zero, suc, ◌+◌, ◌%◌, ◌^◌, ◌<◌, ◌≡◌, Bool, true, false, Option, none, some, List, [], ◌∷◌, ltb,
  ◌==◌, if◌then◌else◌, length, All,
}
pub mod Laws

pub record Entry : Type 0 where
  pub user_id : ℕ
  pub cfd : ℕ

-- The place of an `int` in the order of the `int`s.
unfoldable pub order_of : ℕ → ℕ
order_of w = (w + 2 ^ 31) % 2 ^ 32

-- `m_OnlineUserMap.at`, where `count` is 1.
unfoldable pub find : ℕ → List Entry → Option ℕ
find k [] = none
find k (e ∷ m) = let rest = find k m in if e.user_id == k then some e.cfd else rest

-- `insert`: an entry that is there stays.
unfoldable pub insert : ℕ → ℕ → List Entry → List Entry
insert k v [] = record { user_id = k; cfd = v } ∷ []
insert k v (e ∷ m) =
    let rest = insert k v m in
    if e.user_id == k
    then e ∷ m
    else (if ltb (order_of k) (order_of e.user_id)
        then record { user_id = k; cfd = v } ∷ (e ∷ m)
        else e ∷ rest)

-- `ClientOpen(cfd, userId)`
unfoldable pub client_open : ℕ → ℕ → List Entry → List Entry
client_open cfd user_id m = insert user_id cfd m

-- The loop of ClientSocketState: the first entry with this descriptor goes.
unfoldable pub erase_first : ℕ → List Entry → List Entry
erase_first cfd [] = []
erase_first cfd (e ∷ m) = let rest = erase_first cfd m in if e.cfd == cfd then m else e ∷ rest

-- `ClientSocketState(cfd, state)`
unfoldable pub client_socket_state : ℕ → Bool → List Entry → List Entry
client_socket_state cfd true m = m
client_socket_state cfd false m = erase_first cfd m

unfoldable pub user_id_to_cfd : ℕ → List Entry → ℕ
user_id_to_cfd k m = elim (find k m) [ none ↦ 0 | some cfd ↦ cfd ]

-- `GetOnLineUserCount`
unfoldable pub online_user_count : List Entry → ℕ
online_user_count m = length m

pub data Change : Type 0 where
  opened : ℕ → ℕ → Change
  socket_state : ℕ → Bool → Change

unfoldable pub change : List Entry → Change → List Entry
change m (opened cfd user_id) = client_open cfd user_id m
change m (socket_state cfd state) = client_socket_state cfd state m

unfoldable pub changes : List Entry → List Change → List Entry
changes m [] = m
changes m (c ∷ cs) = changes (change m c) cs
