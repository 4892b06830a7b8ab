-- ===== src/Maintenance/Runs.antt =====
-- RunOnce and CleanupExpired of internal/maintenance/maintenance.go.
pub mod Whole
use u_paste.Prelude.{
  ℕ, ◌-◌, ◌*◌, ◌/◌, Bool, true, false, not, Option, none, some, List, [], ◌∷◌, if◌then◌else◌, ltb,
  length, Bytes,
}
use u_paste.Database.{Db, FileRow}
use u_paste.Database.Tables.{Table}
use u_paste.ObjectStore.{Store}
use u_paste.ObjectStore.Reconcile.{Counts}
use u_paste.Maintenance.{Run, Progress, purge_batches, due_ids, batch_size, max_per_run}

-- 30 minutes
abbrev pub grace : ℕ
grace = 1800000000000

-- The Reconciler that a Store may be.
abbrev pub Reconciler : Store → Type 0
Reconciler store = List Bytes → ℕ → store.State → Bool × Counts × store.State

-- Which calls of the driver fail, those of the batches among them.
pub record Calls : Type 0 where
  pub batches : ℕ → Run
  pub counts : Bool
  pub lists : Bool

pub record RunResult : Type 0 where
  pub progress : Progress
  pub backlog : Bool
  pub reconciled : Counts

-- SELECT storage_key FROM file_payloads
unfoldable pub storage_keys : Table FileRow → List Bytes
storage_keys [] = []
storage_keys ((id, row) ∷ files) = row.storage_key ∷ storage_keys files

abbrev pub no_progress : Progress
no_progress = record { purged = 0; objects_deleted = 0; cleanup_failures = 0 }

abbrev pub no_counts : Counts
no_counts = record {
  stages_deleted = 0;
  orphans_deleted = 0;
  missing_referenced = 0;
  anomalies = 0;
}

module _ (store : Store) (reconciler : Option (Reconciler store)) where
  -- After the references are read.
  unfoldable pub reconcile_all :
      ℕ → Progress → Bool → Db → store.State → Bool × RunResult × Db × store.State
  unfolding storage_keys
  reconcile_all now p backlog db objects = elim reconciler [
    | none ↦ (true, record { progress = p; backlog = backlog; reconciled = no_counts }, db, objects)
    | some reconcile ↦
        let (done, counts, objects') = reconcile (storage_keys db.files) (now - grace) objects in
        (done, record { progress = p; backlog = backlog; reconciled = counts }, db, objects')
  ]

  unfoldable pub after_purge :
      Calls → ℕ → Progress → Db → store.State → Bool × RunResult × Db × store.State
  unfolding reconcile_all due_ids
  after_purge calls now p db objects =
      if not calls.counts
      then (false, record { progress = p; backlog = false; reconciled = no_counts }, db, objects)
      else (let backlog = ltb 0 (length (due_ids now db.shares)) in
          if not calls.lists
          then (
            false,
            record { progress = p; backlog = backlog; reconciled = no_counts },
            db,
            objects,
          )
          else reconcile_all now p backlog db objects)

  -- RunOnce: whether it returned no error, its result, and what it left.
  unfoldable pub run_once : Calls → ℕ → Db → store.State → Bool × RunResult × Db × store.State
  unfolding purge_batches after_purge
  run_once calls now db objects =
      let (going, p, db', objects') =
        purge_batches store (max_per_run / batch_size) calls.batches now no_progress db objects in
      if going
      then after_purge calls now p db' objects'
      else (false, record { progress = p; backlog = false; reconciled = no_counts }, db', objects')

  unfoldable pub cleanup_expired : Calls → ℕ → Db → store.State → Option ℕ × Db × store.State
  unfolding run_once
  cleanup_expired calls now db objects =
      let (done, result, db', objects') = run_once calls now db objects in
      ((if done then some result.progress.purged else none), db', objects')
