-- ===== src/Server/Connection/Refines.antt =====
-- MySql.cpp: AutoCommitOff, Commit, Rollback and the statements between them, as the transactions that
-- they are meant to be.
use socket_message.Prelude.{
  ℕ, ◌≡◌, refl, ap, ◌∙◌, Bool, true, false, none, some, List, [], ◌∷◌, ◌++◌, append-nil,
  if◌then◌else◌,
}
use socket_message.Server.Connection.{Library, Open, exec_sql, auto_commit_off, commit, rollback}
use socket_message.Server.Connection.Spec.{
  put_spec, begin_spec, commit_spec, spec_step, spec_run, step, run, IsGood, view, IsTransactional,
  Op, off_op, commit_op, rollback_op, sql_op, Succeeds, AllSucceed,
}

module _ {S : Type 0} (lib : Library S) (law : IsTransactional lib) where
  abbrev Steps : Op → Open lib → Type 0
  Steps op c =
      (view lib law (step lib op c) ≡ spec_step op (view lib law c))
      × IsGood lib law (step lib op c)

  off-Steps :
      (b : Bool) (s : S)
      → Succeeds lib off_op b s
      → IsGood lib law (record { is_auto_mode = b; session = s })
      → Steps off_op (record { is_auto_mode = b; session = s })
  unfolding step auto_commit_off view spec_step begin_spec
  off-Steps true s done (a, p) =
      let (off, stored, pending) = law.turned_off s done in
      (λ i. record { stored = stored i; transaction = some ((pending ∙ p) i) }, (off, tt))
  off-Steps false s done (a, p) = (refl, (a, tt))

  commit-Steps :
      (b : Bool) (s : S)
      → Succeeds lib commit_op b s
      → IsGood lib law (record { is_auto_mode = b; session = s })
      → Steps commit_op (record { is_auto_mode = b; session = s })
  unfolding step commit view spec_step commit_spec
  commit-Steps true s done g = (refl, g)
  commit-Steps false s (done, on) g =
      let t = (lib.commit s).1 in
      let (stored, pending) = law.committed s done in
      let (auto, kept, settled) = law.turned_on t on in
      (
        ap (λ l. record { stored = l; transaction = none })
            (kept ∙ ap (λ l. law.stored t ++ l) pending ∙ append-nil (law.stored t) ∙ stored),
        (auto, settled),
      )

  rollback-Steps :
      (b : Bool) (s : S)
      → Succeeds lib rollback_op b s
      → IsGood lib law (record { is_auto_mode = b; session = s })
      → Steps rollback_op (record { is_auto_mode = b; session = s })
  unfolding step rollback view spec_step
  rollback-Steps true s done g = (refl, g)
  rollback-Steps false s (done, on) g =
      let t = (lib.rollback s).1 in
      let (stored, pending) = law.rolled_back s done in
      let (auto, kept, settled) = law.turned_on t on in
      (
        ap (λ l. record { stored = l; transaction = none })
            (kept ∙ ap (λ l. law.stored t ++ l) pending ∙ append-nil (law.stored t) ∙ stored),
        (auto, settled),
      )

  -- A statement, in each mode.
  sql-Steps :
      (q : List ℕ) (b : Bool) (s : S)
      → Succeeds lib (sql_op q) b s
      → IsGood lib law (record { is_auto_mode = b; session = s })
      → Steps (sql_op q) (record { is_auto_mode = b; session = s })
  unfolding step exec_sql view spec_step put_spec
  sql-Steps q true s (plain, done) (a, p) =
      let (auto, stored, pending) = law.queried q s plain done in
      (
        ap (λ l. record { stored = l; transaction = none })
            (stored ∙ ap (λ x. law.stored s ++ (if x then q ∷ [] else [])) a),
        (
          auto ∙ a,
          pending
              ∙ ap (λ x. law.pending s ++ (if x then [] else q ∷ [])) a
              ∙ append-nil (law.pending s)
              ∙ p,
        ),
      )
  sql-Steps q false s (plain, done) (a, p) =
      let (auto, stored, pending) = law.queried q s plain done in
      let nothing =
        stored
        ∙ ap (λ x. law.stored s ++ (if x then q ∷ [] else [])) a
        ∙ append-nil (law.stored s) in
      let put = pending ∙ ap (λ x. law.pending s ++ (if x then [] else q ∷ [])) a in
      (λ i. record { stored = nothing i; transaction = some (put i) }, (auto ∙ a, tt))

  step-Steps :
      (op : Op) (c : Open lib)
      → Succeeds lib op c.is_auto_mode c.session
      → IsGood lib law c
      → Steps op c
  step-Steps off_op c done g = off-Steps c.is_auto_mode c.session done g
  step-Steps commit_op c done g = commit-Steps c.is_auto_mode c.session done g
  step-Steps rollback_op c done g = rollback-Steps c.is_auto_mode c.session done g
  step-Steps (sql_op q) c done g = sql-Steps q c.is_auto_mode c.session done g

  run-view :
      (ops : List Op) (c : Open lib)
      → AllSucceed lib ops c
      → IsGood lib law c
      → (view lib law (run lib ops c) ≡ spec_run ops (view lib law c))
        × IsGood lib law (run lib ops c)
  unfolding run spec_run AllSucceed
  run-view [] c done g = (refl, g)
  run-view (op ∷ ops) c (first, done) g =
      let (same, good) = step-Steps op c first g in
      let (rest, kept) = run-view ops (step lib op c) done good in
      (rest ∙ ap (spec_run ops) same, kept)

-- Over a MySQL library that does as documented what succeeds, every run of AutoCommitOff, Commit, Rollback
-- and SELECT and INSERT statements on a connection, with every call of the library successful, does to
-- the statements that took effect and the open transaction what the abstract database does with the
-- same operations: a statement outside a transaction takes effect at once, Commit stores those of the
-- transaction in order, Rollback drops them, and each ends it. Before the run, and after it, m_IsAutoMode
-- agrees with the session, and nothing is pending outside a transaction.
pub run_refines :
    {S : Type 0} (lib : Library S) (law : IsTransactional lib) (ops : List Op) (c : Open lib)
    → AllSucceed lib ops c
    → IsGood lib law c
    → (view lib law (run lib ops c) ≡ spec_run ops (view lib law c))
      × IsGood lib law (run lib ops c)
run_refines lib law ops c done g = run-view lib law ops c done g
