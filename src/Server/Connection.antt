-- ===== src/Server/Connection.antt =====
-- MySql.cpp: a connection to the database with its transactions, and the set-up of MySqlPool.cpp. The
-- MySQL client library is a parameter.
use socket_message.Prelude.{
  ℕ, ◌+◌, ◌≡◌, Bool, true, false, ◌&&◌, Option, none, some, List, [], ◌∷◌, ◌++◌, leb, ltb, ◌||◌,
  ◌==◌, if◌then◌else◌, length, replicate,
}
use socket_message.Wire.Bytes.{is_neg}
pub mod Spec
pub mod Refines
mod Runs

-- The library over the state of a session: what a new connection is, and mysql_autocommit, mysql_commit,
-- mysql_rollback and mysql_query, each with whether it succeeds. A statement is its text.
pub record Library (S : Type 0) : Type 0 where
  pub connect : S
  pub autocommit : Bool → S → Bool × S
  pub commit : S → Bool × S
  pub rollback : S → Bool × S
  pub query : List ℕ → S → Bool × S
  pub affected_rows : S → ℕ
  pub insert_id : S → ℕ

-- Whether mysql_init, mysql_set_character_set and mysql_real_connect succeed.
pub record Answers : Type 0 where
  pub init : Bool
  pub character_set : Bool
  pub connected : Bool

module _ {S : Type 0} (lib : Library S) where
  -- `session` is m_pMYSQL.
  pub record MySqlConnection : Type 0 where
    pub is_init : Bool
    pub is_auto_mode : Bool
    pub session : Option S

  unfoldable pub new_my_sql : MySqlConnection
  new_my_sql = record { is_init = false; is_auto_mode = true; session = none }

  -- Init
  unfoldable pub init : Answers → MySqlConnection → Bool × MySqlConnection
  init a c =
      if c.is_init
      then (true, c)
      else (if a.init && (a.character_set && a.connected)
          then (true, record c { is_init = true; session = some lib.connect })
          else (false, record c { session = none }))

  -- The calls of an initialised connection, on its session.
  pub record Open : Type 0 where
    pub is_auto_mode : Bool
    pub session : S

  -- ExecSql
  unfoldable pub exec_sql : List ℕ → Open → Bool × Open
  exec_sql sql c = let r = lib.query sql c.session in (r.0, record c { session = r.1 })

  -- ExecSqlGetRows; -1 where the statement fails.
  unfoldable pub exec_sql_get_rows : List ℕ → Open → ℕ × Open
  exec_sql_get_rows sql c =
      let r = exec_sql sql c in ((if r.0 then lib.affected_rows r.1.session else 4294967295), r.1)

  -- ExeSqlGetId
  unfoldable pub exe_sql_get_id : List ℕ → Open → ℕ × Open
  exe_sql_get_id sql c =
      let r = exec_sql sql c in ((if r.0 then lib.insert_id r.1.session else 0), r.1)

  -- AutoCommitOff, Commit and Rollback do not look at whether the calls succeed.
  unfoldable pub auto_commit_off : Open → Open
  auto_commit_off c =
      if c.is_auto_mode
      then record { is_auto_mode = false; session = (lib.autocommit false c.session).1 }
      else c

  unfoldable pub commit : Open → Open
  commit c = if c.is_auto_mode then c else record {
    is_auto_mode = true;
    session = (lib.autocommit true (lib.commit c.session).1).1;
  }

  unfoldable pub rollback : Open → Open
  rollback c = if c.is_auto_mode then c else record {
    is_auto_mode = true;
    session = (lib.autocommit true (lib.rollback c.session).1).1;
  }

  -- MySqlPool: the constructor with its count as an `int`, and Init of every connection.
  unfoldable pub pool_count : ℕ → ℕ
  pool_count count = if count == 0 || is_neg count then 1 else count

  unfoldable pub new_pool : ℕ → List MySqlConnection
  new_pool count = replicate (pool_count count) new_my_sql

  -- `answers i` is what the library answers the connection at position i.
  unfoldable pub init_pool : (ℕ → Answers) → List MySqlConnection → Bool × List MySqlConnection
  init_pool answers [] = (true, [])
  init_pool answers (c ∷ cs) =
      let made = init (answers 0) c in
      let rest = init_pool (λ i. answers (i + 1)) cs in
      ((if made.0 then rest.0 else false), made.1 ∷ rest.1)

  unfoldable pub get_available_count : List MySqlConnection → ℕ
  get_available_count cs = length cs
