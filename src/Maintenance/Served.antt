-- ===== src/Maintenance/Served.antt =====
-- What a purge does to the File rows and the objects.
use u_paste.Prelude.{
  ℕ, zero, suc, ◌+◌, ◌≡◌, ◌≢◌, refl, inl, inr, sym, ◌∙◌, Option, none, some, List, [], ◌∷◌, ◌==◌,
  arith, ltb, if◌then◌else◌, Option-cases, Bool-cases, Bytes, All,
}
use u_paste.Database.{Db, ShareRow, FileRow}
use u_paste.Database.Tables.{Table, find}
use u_paste.Database.Statements.{delete_share}
use u_paste.ObjectStore.{Store, StoreLaws}
use u_paste.Share.Consistent.Deletes.{delete_share-Deletes}
use u_paste.Share.Objects.{HaveOwnKeys, AreStored, IsServed}
use u_paste.Maintenance.{
  Run, Progress, purge_row, purge_ids, purge_batch, purge_batches, delete_objects, count_purged,
  selected, storage_key_of, with_key, add_key, batch_size,
}
use u_paste.Maintenance.Purges.{
  Purged, Purged-refl, Purged-trans, purge_row_cases, purge_row-Purged,
}

-- No File row uses any of the keys.
abbrev pub Unused : List Bytes → Table FileRow → Type 0
Unused keys t =
    All (λ key. (id : Bytes) (f : FileRow) → find id t ≡ some f → f.storage_key ≢ key) keys

-- What a batch did: the rows that are due went, and the keys it names are free.
pub record Batch (now : ℕ) (db : Db) (keys : List Bytes) (db' : Db) : Type 0 where
  pub purged : Purged now db db'
  pub unused : Unused keys db'.files

with_key-eq-some :
    (affected : ℕ) (key : Bytes) (r : Option (List Bytes × Db)) (keys : List Bytes) (db : Db)
    → with_key affected key r ≡ some (keys, db)
    → (keys' : List Bytes) × (r ≡ some (keys', db)) × (keys ≡ add_key affected key keys')
with_key-eq-some affected key none keys db h = absurd (ground (arith, h))
with_key-eq-some affected key (some (keys', db')) keys db h =
    (keys', ground (arith, h), ground (arith, h))

freed :
    (now : ℕ) (files : Table FileRow) (id : Bytes) (db db' : Db) (b : ℕ) (k : Bytes)
    (row : ShareRow)
    → HaveOwnKeys files
    → ((j : Bytes) (f : FileRow) → find j db.files ≡ some f → find j files ≡ some f)
    → find id db.shares ≡ some row
    → storage_key_of (find id files) ≡ b ∷ k
    → Purged now (delete_share id db).0 db'
    → Purged now db (delete_share id db).0
    → (j : Bytes) (f : FileRow) → find j db'.files ≡ some f
    → f.storage_key ≢ b ∷ k
freed now files id db db' b k row own within q s p first j f h e =
    elim (Option-cases (find id files)) [
      | inl n ↦ ground (arith, n, s)
      | inr (f0, r) ↦
          let h1 = p.files j f h in
          let h2 = within j f (first.files j f h1) in
          let same = own j id f f0 h2 r (ground (arith, r, s, e)) in
          ground (arith, h1, same, (delete_share-Deletes id db row q).gone.file)
    ]

-- The key joins the list only if a row was affected.
add_key-Unused :
    (affected : ℕ) (key : Bytes) (keys : List Bytes) (t : Table FileRow)
    → Unused keys t
    → ((b : ℕ) (k : Bytes)
        → affected ≡ 1
        → key ≡ b ∷ k
        → (j : Bytes) (f : FileRow) → find j t ≡ some f
        → f.storage_key ≢ b ∷ k)
    → Unused (add_key affected key keys) t
add_key-Unused affected [] keys t h free = h
add_key-Unused affected (b ∷ k) keys t h free = elim (Bool-cases (affected == 1)) [
  | inl q ↦ rw q (free b k (ground (arith, q)) refl, h)
  | inr q ↦ rw q h
]

purge_ids-Batch :
    (run : Run) (now : ℕ) (files : Table FileRow) (ids : List Bytes) (db db' : Db)
    (keys : List Bytes)
    → HaveOwnKeys files
    → ((j : Bytes) (f : FileRow) → find j db.files ≡ some f → find j files ≡ some f)
    → purge_ids run now files ids db ≡ some (keys, db')
    → Batch now db keys db'
unfolding purge_ids
purge_ids-Batch run now files [] db db' keys own within h =
    let e : db ≡ db' = ground (arith, h) in
    let none_left : [] ≡ keys = ground (arith, h) in
    rw (← e, ← none_left) (record { purged = Purged-refl now db; unused = tt })
purge_ids-Batch run now files (id ∷ ids) db db' keys own within h =
    let (keys', r, e) =
      with_key-eq-some (purge_row now id db).1 (storage_key_of (find id files))
        (purge_ids run now files ids (purge_row now id db).0) keys db' (ground (arith, h)) in
    let first = purge_row-Purged now id db in
    let rest =
      purge_ids-Batch run now files ids (purge_row now id db).0 db' keys' own
        (λ j f g. within j f (first.files j f g)) r in
    record {
      purged = Purged-trans now db (purge_row now id db).0 db' first rest.purged;
      unused = rw e (
          add_key-Unused (purge_row now id db).1 (storage_key_of (find id files)) keys' db'.files
            rest.unused
            (λ b k one s. elim (purge_row_cases now id db) [
              | inl none_affected ↦ absurd (ground (arith, one, none_affected))
              | inr (row, q, d, at, _) ↦
                  freed now files id db db' b k row own within q s (rw at at rest.purged)
                    (rw at at first)
            ]));
    }

pub purge_batch-Batch :
    (run : Run) (now : ℕ) (db db' : Db) (keys : List Bytes) (count : ℕ)
    → HaveOwnKeys db.files
    → purge_batch run now db ≡ (some (keys, count), db')
    → Batch now db keys db'
unfolding purge_batch
purge_batch-Batch run now db db' keys count own h =
    elim (Option-cases (purge_ids run now db.files (selected now db) db)) [
      | inl n ↦ absurd (ground (arith, n, h))
      | inr ((keys', after), r) ↦
          purge_ids-Batch run now db.files (selected now db) db db' keys own (λ j f g. g)
            (ground (arith, r, h))
    ]

-- A batch that fails has changed nothing.
pub purge_batch-failed :
    (run : Run) (now : ℕ) (db : Db)
    → (purge_batch run now db).0 ≡ none
    → (purge_batch run now db).1 ≡ db
unfolding purge_batch
purge_batch-failed run now db h =
    elim (Option-cases (purge_ids run now db.files (selected now db) db)) [
      | inl n ↦ ground (arith, n, h)
      | inr ((keys, after), r) ↦ ground (arith, r, h)
    ]

module _ (store : Store) (laws : StoreLaws store) where
  delete_objects-AreStored :
      (keys : List Bytes) (p : Progress) (t : Table FileRow) (objects : store.State)
      → Unused keys t
      → AreStored store t objects
      → AreStored store t (delete_objects store keys p objects).1
  unfolding delete_objects
  delete_objects-AreStored [] p t objects u h = h
  delete_objects-AreStored (key ∷ keys) p t objects u h =
      delete_objects-AreStored keys
        (record {
          purged = p.purged;
          objects_deleted =
              if (store.delete key objects).0 then p.objects_deleted + 1 else p.objects_deleted;
          cleanup_failures =
              if (store.delete key objects).0 then p.cleanup_failures else p.cleanup_failures + 1;
        })
        t (store.delete key objects).1 u.1
        λ id f g gone.
          h id f g
            (sym (laws.delete_frame key f.storage_key objects (λ e. u.0 id f g (sym e))) ∙ gone)

  -- What is left after a run: the rows of the Shares that are not due, with their objects.
  pub record Kept (now : ℕ) (db : Db) (db' : Db) (objects' : store.State) : Type 0 where
    pub purged : Purged now db db'
    pub served : IsServed store db' objects'

  Batch-Kept :
      (now : ℕ) (db db' : Db) (keys : List Bytes) (p : Progress) (objects : store.State)
      → IsServed store db objects
      → Batch now db keys db'
      → Kept now db db' (delete_objects store keys p objects).1
  Batch-Kept now db db' keys p objects h b = record {
    purged = b.purged;
    served = record {
      own_keys = λ id j f g x y. h.own_keys id j f g (b.purged.files id f x) (b.purged.files j g y);
      stored =
          delete_objects-AreStored keys p db'.files objects b.unused
            (λ id f x. h.stored id f (b.purged.files id f x));
    };
  }

  -- If every File row has its own key and an object in the store, then after any number of purge
  -- batches, whatever calls fail, it is so again; a Share that is not due keeps its rows; no File
  -- row is new; and a consistent database is consistent.
  pub purge_batches-Kept :
      (n : ℕ) (runs : ℕ → Run) (now : ℕ) (p : Progress) (db : Db) (objects : store.State)
      → IsServed store db objects
      → let r = purge_batches store n runs now p db objects in Kept now db r.2 r.3
  unfolding purge_batches
  purge_batches-Kept zero runs now p db objects h = record {
    purged = Purged-refl now db;
    served = h;
  }
  purge_batches-Kept (suc n) runs now p db objects h =
      elim (Option-cases (purge_batch (runs n) now db).0) [
        | inl q ↦
            rw (q, purge_batches)
              (rw (purge_batch-failed (runs n) now db q)
                (record { purged = Purged-refl now db; served = h }))
        | inr ((keys, count), q) ↦
            let after = (purge_batch (runs n) now db).1 in
            let b =
              Batch-Kept now db after keys (count_purged store count p) objects h (
                purge_batch-Batch (runs n) now db after keys count h.own_keys
                  (ground (arith, q))) in
            let (p', objects') = delete_objects store keys (count_purged store count p) objects in
            let more = purge_batches-Kept n runs now p' after objects' b.served in
            elim (Bool-cases (ltb count batch_size)) [
              | inl small ↦ rw (q, small, purge_batches) b
              | inr full ↦
                  rw (q, full, purge_batches)
                    (record {
                      purged = Purged-trans now db after _ b.purged more.purged;
                      served = more.served;
                    })
            ]
      ]
