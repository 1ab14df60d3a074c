-- ===== src/Server/Connection/Runs.antt =====
-- A connection to a database that keeps its statements in lists.
use socket_message.Prelude.{ℕ, ◌≡◌, refl, Bool, true, false, List, [], ◌∷◌, ◌++◌, if◌then◌else◌}
use socket_message.Server.Connection.{Library, Open, auto_commit_off, rollback, exec_sql}
use socket_message.Server.Connection.Spec.{
  IsTransactional, Op, off_op, commit_op, rollback_op, sql_op, run, step, spec_run, AllSucceed,
  is_plain, starts_with, view, IsGood,
}
use socket_message.Server.Connection.Refines.{run_refines}

record Session : Type 0 where
  auto : Bool
  pending : List (List ℕ)
  stored : List (List ℕ)

store : List ℕ → Session → Session
store q s = record s {
  pending = s.pending ++ (if s.auto then [] else q ∷ []);
  stored = s.stored ++ (if s.auto then q ∷ [] else []);
}

set_auto : Bool → Session → Session
set_auto true s = record { auto = true; pending = []; stored = s.stored ++ s.pending }
set_auto false s = record s { auto = false }

abbrev library : Library Session
library = record {
  connect = record { auto = true; pending = []; stored = [] };
  autocommit = λ b s. (true, set_auto b s);
  commit = λ s. (true, record s { pending = []; stored = s.stored ++ s.pending });
  rollback = λ s. (true, record s { pending = [] });
  query = λ q s. (true, store q s);
  affected_rows = λ s. 1;
  insert_id = λ s. 12;
}

library_laws : IsTransactional library
unfolding set_auto store
library_laws = record {
  auto = λ s. s.auto;
  pending = λ s. s.pending;
  stored = λ s. s.stored;
  turned_on = λ s done. (refl, refl, refl);
  turned_off = λ s done. (refl, refl, refl);
  committed = λ s done. (refl, refl);
  rolled_back = λ s done. (refl, refl);
  queried = λ q s plain done. (refl, refl, refl);
}

abbrev opened : Open library
opened = record { is_auto_mode = true; session = record { auto = true; pending = []; stored = [] } }

-- "INSERT" and a byte.
abbrev insert : ℕ → List ℕ
insert n = 73 ∷ 78 ∷ 83 ∷ 69 ∷ 82 ∷ 84 ∷ n ∷ []

-- One statement outside, one dropped, one stored.
abbrev ops : List Op
ops =
    sql_op (insert 1)
    ∷ off_op
    ∷ sql_op (insert 2)
    ∷ rollback_op
    ∷ off_op
    ∷ sql_op (insert 3)
    ∷ commit_op
    ∷ []

ops_succeed : AllSucceed library ops opened
unfolding AllSucceed step auto_commit_off rollback exec_sql is_plain starts_with
ops_succeed = (
  (refl, refl),
  (refl, ((refl, refl), ((refl, refl), (refl, ((refl, refl), ((refl, refl), tt)))))),
)

run_refines_example :
    (view library library_laws (run library ops opened)
      ≡ spec_run ops (view library library_laws opened))
    × IsGood library library_laws (run library ops opened)
unfolding library_laws
run_refines_example = run_refines library library_laws ops opened ops_succeed (refl, refl)
