-- ===== src/Maintenance.antt =====
-- purgeBatch and the purging loop of RunOnce, in internal/maintenance/maintenance.go. Which calls of
-- the driver fail is a `Run`, one for each batch. Times are nanoseconds, columns milliseconds.
pub mod Purges
pub mod Served
pub mod Runs
use u_paste.Prelude.{
  ℕ, zero, suc, ◌+◌, Bool, true, false, ◌&&◌, not, Option, none, some, List, [], ◌∷◌, ◌==◌, ltb,
  leb, if◌then◌else◌, Bytes, length, take,
}
use u_paste.Database.{Db, ShareRow, FileRow}
use u_paste.Database.Tables.{Table, find}
use u_paste.Database.Statements.{delete_share}
use u_paste.ObjectStore.{Store}
use u_paste.Share.{to_millis}

abbrev pub batch_size : ℕ
batch_size = 256

abbrev pub max_per_run : ℕ
max_per_run = 2048

pub record Run : Type 0 where
  pub begins : Bool
  pub selects : Bool
  pub deletes : Bytes → Bool
  pub commits : Bool

-- expires_at IS NOT NULL AND expires_at <= now
unfoldable pub is_due : ℕ → ShareRow → Bool
is_due now row = elim row.expires_at [ none ↦ false | some e ↦ leb e (to_millis now) ]

unfoldable pub due_ids : ℕ → Table ShareRow → List Bytes
unfolding is_due
due_ids now [] = []
due_ids now ((id, row) ∷ shares) =
    let rest = due_ids now shares in if is_due now row then id ∷ rest else rest

-- The order of the primary key: bytewise.
unfoldable pub is_before : Bytes → Bytes → Bool
is_before [] k = true
is_before (b ∷ j) [] = false
is_before (b ∷ j) (c ∷ k) =
    let rest = is_before j k in if ltb b c then true else if b == c then rest else false

unfoldable pub put : Bytes → List Bytes → List Bytes
unfolding is_before
put id [] = id ∷ []
put id (j ∷ ids) = let rest = put id ids in if is_before id j then id ∷ j ∷ ids else j ∷ rest

unfoldable pub order : List Bytes → List Bytes
unfolding put
order [] = []
order (id ∷ ids) = put id (order ids)

-- The storage key that the SELECT joins to an id; empty for a text.
abbrev pub storage_key_of : Option FileRow → Bytes
storage_key_of none = []
storage_key_of (some f) = f.storage_key

-- DELETE FROM shares WHERE id AND the expiration is due: the rows affected.
unfoldable pub purge_row : ℕ → Bytes → Db → Db × ℕ
unfolding find is_due delete_share
purge_row now id db = elim (find id db.shares) [
  | none ↦ (db, 0)
  | some row ↦ if is_due now row then delete_share id db else (db, 0)
]

abbrev pub add_key : ℕ → Bytes → List Bytes → List Bytes
add_key affected [] keys = keys
add_key affected (b ∷ key) keys = if affected == 1 then (b ∷ key) ∷ keys else keys

abbrev pub with_key : ℕ → Bytes → Option (List Bytes × Db) → Option (List Bytes × Db)
with_key affected key none = none
with_key affected key (some (keys, db)) = some (add_key affected key keys, db)

-- The loop over the selected rows: the keys to delete, or a failed statement.
unfoldable pub purge_ids : Run → ℕ → Table FileRow → List Bytes → Db → Option (List Bytes × Db)
unfolding find purge_row
purge_ids run now files [] db = some ([], db)
purge_ids run now files (id ∷ ids) db =
    let rest = purge_ids run now files ids (purge_row now id db).0 in
    if run.deletes id
    then with_key (purge_row now id db).1 (storage_key_of (find id files)) rest
    else none

unfoldable pub selected : ℕ → Db → List Bytes
unfolding order due_ids
selected now db = take batch_size (order (due_ids now db.shares))

-- The keys and the number of selected rows, or an error with nothing changed.
unfoldable pub purge_batch : Run → ℕ → Db → Option (List Bytes × ℕ) × Db
unfolding purge_ids selected
purge_batch run now db =
    if run.begins && run.selects
    then elim (purge_ids run now db.files (selected now db) db) [
      | none ↦ (none, db)
      | some (keys, after) ↦
          if run.commits then (some (keys, length (selected now db)), after) else (none, db)
    ]
    else (none, db)

pub record Progress : Type 0 where
  pub purged : ℕ
  pub objects_deleted : ℕ
  pub cleanup_failures : ℕ

module _ (store : Store) where
  -- A deletion that fails is counted, and the loop goes on.
  unfoldable pub delete_objects : List Bytes → Progress → store.State → Progress × store.State
  delete_objects [] p objects = (p, objects)
  delete_objects (key ∷ keys) p objects =
      let (done, objects') = store.delete key objects in
      delete_objects keys
        (record {
          purged = p.purged;
          objects_deleted = if done then p.objects_deleted + 1 else p.objects_deleted;
          cleanup_failures = if done then p.cleanup_failures else p.cleanup_failures + 1;
        })
        objects'

  abbrev pub count_purged : ℕ → Progress → Progress
  count_purged n p = record {
    purged = p.purged + n;
    objects_deleted = p.objects_deleted;
    cleanup_failures = p.cleanup_failures;
  }

  -- The batches that are left: whether no batch failed, and what was done. A batch that is not full is
  -- the last.
  unfoldable pub purge_batches :
      ℕ → (ℕ → Run) → ℕ → Progress → Db → store.State → Bool × Progress × Db × store.State
  unfolding purge_batch delete_objects
  purge_batches zero runs now p db objects = (true, p, db, objects)
  purge_batches (suc n) runs now p db objects =
      let after = (purge_batch (runs n) now db).1 in
      elim (purge_batch (runs n) now db).0 [
        | none ↦ (false, p, after, objects)
        | some found ↦
            let (p', objects') = delete_objects found.0 (count_purged found.1 p) objects in
            let rest = purge_batches n runs now p' after objects' in
            if ltb found.1 batch_size then (true, p', after, objects') else rest
      ]
