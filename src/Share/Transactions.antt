-- ===== src/Share/Transactions.antt =====
-- How internal/share/service.go runs statements: BeginTx, the statements, Commit, and the deferred
-- Rollback on every return before it.
use u_paste.Prelude.{
  ◌≡◌, ◌⊎◌, arith, inl, inr, Bool-cases, Result-cases, ℕ, Option, none, some, ◌==◌, if◌then◌else◌,
  Result, ok, err, ◌>>=◌, ◌>>◌, require, or_fail,
}
use u_paste.Database.{Db}
use u_paste.Share.{Env, Error, Statement, database}

-- One statement: refused by the database, or failed by the driver.
unfoldable pub execute {ℓ} : {A : Type ℓ} → Env → Statement → Option A → Result Error A
execute env statement result = do require (env.runs statement) database; or_fail result database

-- requireOneRow
unfoldable pub require_one_row : Db × ℕ → Result Error Db
require_one_row (db, rows) = do require (rows == 1) database; ok db

-- The database after `body` is kept only if its transaction begins, returns and commits.
unfoldable pub transact {ℓ} :
    {A : Type ℓ} → Env → (Db → Result Error (A × Db)) → Db → Result Error A × Db
transact env body db =
    if env.begins
    then elim (body db) [
      | err e ↦ (err e, db)
      | ok (a, db') ↦ if env.commits then (ok a, db') else (err database, db)
    ]
    else (err database, db)

pub execute-eq-ok {ℓ} :
    {A : Type ℓ} (env : Env) (statement : Statement) (result : Option A) (a : A)
    → execute env statement result ≡ ok a
    → result ≡ some a
unfolding execute
execute-eq-ok env statement none a h = ground arith
execute-eq-ok env statement (some b) a h = ground arith

-- A transaction keeps what its body establishes when it returns.
pub transact_keeps {ℓ κ} :
    {A : Type ℓ} (P : Db → Type κ) (env : Env) (body : Db → Result Error (A × Db)) (db : Db)
    → P db
    → ((a : A) (db' : Db) → body db ≡ ok (a, db') → P db')
    → P (transact env body db).1
unfolding transact
transact_keeps P env body db before after = elim (Bool-cases env.begins) [
  | inr b ↦ rw b before
  | inl b ↦ elim (Result-cases (body db)) [
    | inr (e, r) ↦ rw (b, r, transact) before
    | inl ((a, db'), r) ↦ elim (Bool-cases env.commits) [
      | inl c ↦ rw (b, r, c, transact) (after a db' r)
      | inr c ↦ rw (b, r, c, transact) before
    ]
  ]
]

-- A transaction either returns what its body returned, with the database that the body left, or
-- fails and leaves the database as it was.
pub transact_outcome {ℓ} :
    {A : Type ℓ} (env : Env) (body : Db → Result Error (A × Db)) (db : Db)
    → ((a : A) × (db' : Db) × (body db ≡ ok (a, db')) × (transact env body db ≡ (ok a, db')))
      ⊎ ((e : Error) × (transact env body db ≡ (err e, db)))
unfolding transact
transact_outcome env body db = elim (Bool-cases env.begins) [
  | inr b ↦ inr (database, rw b)
  | inl b ↦ elim (Result-cases (body db)) [
    | inr (e, r) ↦ inr (e, rw (b, r, transact))
    | inl ((a, db'), r) ↦ elim (Bool-cases env.commits) [
      | inl c ↦ inl (a, db', r, rw (b, r, c, transact))
      | inr c ↦ inr (database, rw (b, r, c, transact))
    ]
  ]
]

-- A statement that must affect one row did, and left the database that is returned.
pub execute_one_row-eq-ok :
    (env : Env) (statement : Statement) (result : Option (Db × ℕ)) (db' : Db)
    → (execute env statement result >>= require_one_row) ≡ ok db'
    → result ≡ some (db', 1)
unfolding execute require_one_row
execute_one_row-eq-ok env statement none db' h = ground arith
execute_one_row-eq-ok env statement (some r) db' h = ground arith

pub execute_total_row-eq-ok :
    (env : Env) (statement : Statement) (result : Db × ℕ) (db' : Db)
    → (execute env statement (some result) >>= require_one_row) ≡ ok db'
    → result.0 ≡ db'
unfolding execute require_one_row
execute_total_row-eq-ok env statement result db' h = ground arith
