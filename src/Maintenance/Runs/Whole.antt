-- ===== src/Maintenance/Runs/Whole.antt =====
-- What a whole run of the maintenance leaves.
use u_paste.Prelude.{
  ℕ, ◌-◌, ◌≡◌, ◌∙◌, sym, refl, Bool, true, Option, none, some, List, [], ◌∷◌, Bytes, bytes_eq_iff,
  arith, inl, inr, Bool-cases, ltb, length,
}
use u_paste.Database.{Db, FileRow}
use u_paste.Database.Tables.{Table, find}
use u_paste.ObjectStore.{Store, StoreLaws}
use u_paste.ObjectStore.Local.{Faults, local_store}
use u_paste.ObjectStore.Reconcile.{Listing, is_referenced, reconcile}
use u_paste.ObjectStore.Reconcile.Safety.{reconcile-referenced}
use u_paste.Share.Objects.{IsServed}
use u_paste.Maintenance.{Progress, purge_batches, due_ids}
use u_paste.Maintenance.Served.{Kept, purge_batches-Kept}
use u_paste.Maintenance.Runs.{
  Reconciler, Calls, storage_keys, no_progress, reconcile_all, after_purge, run_once,
}

find-storage_keys :
    (id : Bytes) (t : Table FileRow) (f : FileRow)
    → find id t ≡ some f
    → is_referenced f.storage_key (storage_keys t) ≡ true
unfolding find storage_keys is_referenced
find-storage_keys id [] f h = absurd (ground (arith, h))
find-storage_keys id ((j, row) ∷ t) f h =
    ground (arith, h, find-storage_keys id t f, bytes_eq_iff row.storage_key f.storage_key)

-- A Reconciler that leaves what is referenced.
abbrev pub Spares : (store : Store) → Option (Reconciler store) → Type 0
Spares store none = Unit
Spares store (some reconcile) =
    (references : List Bytes) (stale_before : ℕ) (objects : store.State) (key : Bytes)
    → is_referenced key references ≡ true
    → store.contents (reconcile references stale_before objects).2 key ≡ store.contents objects key

module _ (store : Store) (laws : StoreLaws store) where
  reconcile_all-IsServed :
      (reconciler : Option (Reconciler store)) (now : ℕ) (p : Progress) (backlog : Bool) (db : Db)
      (objects : store.State)
      → Spares store reconciler
      → IsServed store db objects
      → IsServed store db (reconcile_all store reconciler now p backlog db objects).3
  unfolding reconcile_all
  reconcile_all-IsServed none now p backlog db objects spares h = h
  reconcile_all-IsServed (some reconcile) now p backlog db objects spares h = record {
    own_keys = h.own_keys;
    stored = λ id f q gone. h.stored id f q (
        sym (
          spares (storage_keys db.files) (now - 1800000000000) objects f.storage_key
            (find-storage_keys id db.files f q))
        ∙ gone);
  }

  reconcile_all-db :
      (reconciler : Option (Reconciler store)) (now : ℕ) (p : Progress) (backlog : Bool) (db : Db)
      (objects : store.State)
      → (reconcile_all store reconciler now p backlog db objects).2 ≡ db
  unfolding reconcile_all
  reconcile_all-db none now p backlog db objects = refl
  reconcile_all-db (some reconcile) now p backlog db objects = refl

  after_purge-Kept :
      (reconciler : Option (Reconciler store)) (calls : Calls) (now : ℕ) (p : Progress)
      (before db : Db) (objects : store.State)
      → Spares store reconciler
      → Kept store laws now before db objects
      → let r = after_purge store reconciler calls now p db objects in
        Kept store laws now before r.2 r.3
  unfolding after_purge
  after_purge-Kept reconciler calls now p before db objects spares h =
      elim (Bool-cases calls.counts) [
        | inr c ↦ rw (c, after_purge) h
        | inl c ↦ elim (Bool-cases calls.lists) [
          | inr l ↦ rw (c, l, after_purge) h
          | inl l ↦
              let backlog = ltb 0 (length (due_ids now db.shares)) in
              rw (c, l, after_purge, reconcile_all-db reconciler now p backlog db objects)
                (record {
                  purged = h.purged;
                  served =
                      reconcile_all-IsServed reconciler now p backlog db objects spares h.served;
                })
        ]
      ]

  -- If every File row has its own key and an object in the store, and the Reconciler, if the
  -- store is one, leaves what is referenced: RunOnce, whatever of it fails, removes only Shares
  -- that are expired, and every File row that is left still has its own key and its object.
  pub run_once-Kept :
      (reconciler : Option (Reconciler store)) (calls : Calls) (now : ℕ) (db : Db)
      (objects : store.State)
      → Spares store reconciler
      → IsServed store db objects
      → let r = run_once store reconciler calls now db objects in Kept store laws now db r.2 r.3
  unfolding run_once
  run_once-Kept reconciler calls now db objects spares h =
      let batches = purge_batches store 8 calls.batches now no_progress db objects in
      let kept = purge_batches-Kept store laws 8 calls.batches now no_progress db objects h in
      elim (Bool-cases batches.0) [
        | inr q ↦ rw (q, run_once) kept
        | inl q ↦
            rw (q, run_once)
              (after_purge-Kept reconciler calls now batches.1 db batches.2 batches.3 spares kept)
      ]

pub local-Spares :
    (faults : Faults) (listing : Listing) → Spares (local_store faults) (some (reconcile listing))
local-Spares faults listing references stale_before objects key k =
    reconcile-referenced listing references stale_before objects key k
