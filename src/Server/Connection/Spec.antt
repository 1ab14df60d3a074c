-- ===== src/Server/Connection/Spec.antt =====
-- MySql.cpp: the transactions that a connection is meant to give, over a MySQL library as it is documented.
use socket_message.Prelude.{
  ℕ, ◌≡◌, Bool, true, false, Option, none, some, List, [], ◌∷◌, ◌++◌, if◌then◌else◌, ◌&&◌, ◌||◌,
  ◌==◌,
}
use socket_message.Server.Connection.{Library, Open, exec_sql, auto_commit_off, commit, rollback}

-- Whether a text begins with the first one.
unfoldable pub starts_with : List ℕ → List ℕ → Bool
starts_with [] text = true
starts_with (x ∷ xs) [] = false
starts_with (x ∷ xs) (y ∷ ys) = (x == y) && starts_with xs ys

-- The statements of the program begin with SELECT or INSERT. Others may end a transaction by themselves.
unfoldable pub is_plain : List ℕ → Bool
is_plain q =
    starts_with (83 ∷ 69 ∷ 76 ∷ 69 ∷ 67 ∷ 84 ∷ []) q
    || starts_with (73 ∷ 78 ∷ 83 ∷ 69 ∷ 82 ∷ 84 ∷ []) q

-- What MySQL documents of the calls that succeed, on transactional tables: a SELECT or an INSERT takes
-- effect at once while autocommit is on, and is pending while it is off; COMMIT stores the pending ones
-- and ROLLBACK drops them; and turning autocommit on stores what is pending.
pub record IsTransactional {S : Type 0} (lib : Library S) : Type 0 where
  pub auto : S → Bool
  pub pending : S → List (List ℕ)
  pub stored : S → List (List ℕ)
  pub turned_on :
      (s : S)
      → (lib.autocommit true s).0 ≡ true
      → (auto (lib.autocommit true s).1 ≡ true)
        × (stored (lib.autocommit true s).1 ≡ stored s ++ pending s)
        × (pending (lib.autocommit true s).1 ≡ [])
  pub turned_off :
      (s : S)
      → (lib.autocommit false s).0 ≡ true
      → (auto (lib.autocommit false s).1 ≡ false)
        × (stored (lib.autocommit false s).1 ≡ stored s)
        × (pending (lib.autocommit false s).1 ≡ pending s)
  pub committed :
      (s : S)
      → (lib.commit s).0 ≡ true
      → (stored (lib.commit s).1 ≡ stored s ++ pending s) × (pending (lib.commit s).1 ≡ [])
  pub rolled_back :
      (s : S)
      → (lib.rollback s).0 ≡ true
      → (stored (lib.rollback s).1 ≡ stored s) × (pending (lib.rollback s).1 ≡ [])
  pub queried :
      (q : List ℕ) (s : S)
      → is_plain q ≡ true
      → (lib.query q s).0 ≡ true
      → (auto (lib.query q s).1 ≡ auto s)
        × (stored (lib.query q s).1 ≡ stored s ++ (if auto s then q ∷ [] else []))
        × (pending (lib.query q s).1 ≡ pending s ++ (if auto s then [] else q ∷ []))

pub data Op : Type 0 where
  off_op commit_op rollback_op : Op
  sql_op : List ℕ → Op

-- The abstract database: the statements stored, and those of the transaction, if one is open.
pub record Spec : Type 0 where
  pub stored : List (List ℕ)
  pub transaction : Option (List (List ℕ))

-- A statement, which goes into the transaction or to the store.
unfoldable pub put_spec : List ℕ → Option (List (List ℕ)) → Spec → Spec
put_spec q none a = record a { stored = a.stored ++ q ∷ [] }
put_spec q (some p) a = record a { transaction = some (p ++ q ∷ []) }

unfoldable pub begin_spec : Option (List (List ℕ)) → Spec → Spec
begin_spec none a = record a { transaction = some [] }
begin_spec (some p) a = a

unfoldable pub commit_spec : Option (List (List ℕ)) → Spec → Spec
commit_spec none a = a
commit_spec (some p) a = record { stored = a.stored ++ p; transaction = none }

unfoldable pub spec_step : Op → Spec → Spec
spec_step off_op a = begin_spec a.transaction a
spec_step commit_op a = commit_spec a.transaction a
spec_step rollback_op a = record a { transaction = none }
spec_step (sql_op q) a = put_spec q a.transaction a

unfoldable pub spec_run : List Op → Spec → Spec
spec_run [] a = a
spec_run (op ∷ ops) a = spec_run ops (spec_step op a)

module _ {S : Type 0} (lib : Library S) where
  unfoldable pub step : Op → Open lib → Open lib
  step off_op c = auto_commit_off lib c
  step commit_op c = commit lib c
  step rollback_op c = rollback lib c
  step (sql_op q) c = (exec_sql lib q c).1

  unfoldable pub run : List Op → Open lib → Open lib
  run [] c = c
  run (op ∷ ops) c = run ops (step op c)

  -- The library's calls in an operation succeed, from the mode and session given, and its statement is a
  -- SELECT or an INSERT.
  abbrev pub Succeeds : Op → Bool → S → Type 0
  Succeeds off_op true s = (lib.autocommit false s).0 ≡ true
  Succeeds off_op false s = Unit
  Succeeds commit_op true s = Unit
  Succeeds commit_op false s =
      ((lib.commit s).0 ≡ true) × ((lib.autocommit true (lib.commit s).1).0 ≡ true)
  Succeeds rollback_op true s = Unit
  Succeeds rollback_op false s =
      ((lib.rollback s).0 ≡ true) × ((lib.autocommit true (lib.rollback s).1).0 ≡ true)
  Succeeds (sql_op q) b s = (is_plain q ≡ true) × ((lib.query q s).0 ≡ true)

  unfoldable pub AllSucceed : List Op → Open lib → Type 0
  AllSucceed [] c = Unit
  AllSucceed (op ∷ ops) c = Succeeds op c.is_auto_mode c.session × AllSucceed ops (step op c)

-- Nothing is pending outside a transaction.
abbrev pub IsSettled : Bool → List (List ℕ) → Type 0
IsSettled true p = p ≡ []
IsSettled false p = Unit

module _ {S : Type 0} (lib : Library S) (law : IsTransactional lib) where
  abbrev pub IsGood : Open lib → Type 0
  IsGood c =
      (law.auto c.session ≡ c.is_auto_mode) × IsSettled c.is_auto_mode (law.pending c.session)

  unfoldable pub view : Open lib → Spec
  view c = record {
    stored = law.stored c.session;
    transaction = if c.is_auto_mode then none else some (law.pending c.session);
  }
