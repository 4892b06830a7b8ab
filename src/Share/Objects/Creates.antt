-- ===== src/Share/Objects/Creates.antt =====
-- CreateFile and the objects of the store.
use u_paste.Prelude.{
  ℕ, ◌≡◌, refl, sym, true, false, Option, none, some, arith, Bytes, bytes_eq, bytes_eq_iff, Result,
  ok, err, inl, inr, Result-cases, Bool-cases, Option-cases, ◌∷◌, ◌>>◌, require,
}
use u_paste.Capability.{OwnerToken, verifier}
use u_paste.Database.{Db, FileRow, uses_key}
use u_paste.Database.Statements.{insert_share, insert_file}
use u_paste.Database.Tables.{Table, find}
use u_paste.ObjectStore.{Store, StoreLaws, Staged}
use u_paste.Share.{Env, Error, Share, File, database}
use u_paste.Share.Create.{insert_metadata_row}
use u_paste.Share.Files.{file_of, file_draft, file_row, file_transaction, settle, create_staged}
use u_paste.Share.Consistent.Files.{Recorded, file_transaction-Recorded}
use u_paste.Share.Objects.{HaveOwnKeys, AreStored, IsServed, uses_key_of_find}

-- A new row with an unused key keeps the keys apart.
new_row-HaveOwnKeys :
    (id : Bytes) (f : FileRow) (t : Table FileRow)
    → uses_key f.storage_key t ≡ false
    → HaveOwnKeys t
    → HaveOwnKeys ((id, f) ∷ t)
unfolding find
new_row-HaveOwnKeys id f t u h i j g k a b e = ground (
  arith,
  bytes_eq_iff id i,
  bytes_eq_iff id j,
  h i j g k,
  uses_key_of_find i f.storage_key t g u,
  uses_key_of_find j f.storage_key t k u,
)

module _ (store : Store) (laws : StoreLaws store) (staged : Staged) (objects : store.State) where
  -- The objects of the rows that do not use the staged key stay through a commit.
  commit-AreStored :
      (t : Table FileRow)
      → uses_key staged.key t ≡ false
      → AreStored store t objects
      → AreStored store t (store.commit staged objects).1
  commit-AreStored t u h id f e =
      rw
        (laws.commit_frame staged f.storage_key objects
          (λ q. uses_key_of_find id staged.key t f u e (sym q)))
        (h id f e)

  delete-AreStored :
      (t : Table FileRow)
      → uses_key staged.key t ≡ false
      → AreStored store t objects
      → AreStored store t (store.delete staged.key objects).1
  delete-AreStored t u h id f e =
      rw
        (laws.delete_frame staged.key f.storage_key objects
          (λ q. uses_key_of_find id staged.key t f u e (sym q)))
        (h id f e)

  abort-AreStored :
      (t : Table FileRow)
      → AreStored store t objects
      → AreStored store t (store.abort staged objects)
  abort-AreStored t h id f e = rw (laws.abort_frame staged f.storage_key objects) (h id f e)

  new_row-AreStored :
      (id : Bytes) (f : FileRow) (t : Table FileRow)
      → f.storage_key ≡ staged.key
      → staged.committed ≡ false
      → uses_key staged.key t ≡ false
      → (store.commit staged objects).0 ≡ true
      → AreStored store t objects
      → AreStored store ((id, f) ∷ t) (store.commit staged objects).1
  unfolding find
  new_row-AreStored id f t k n u c h i g e = elim (Bool-cases (bytes_eq id i)) [
    | inl same ↦
        let key : g.storage_key ≡ staged.key = ground (arith, same, e, k) in
        rw key (laws.commit_stores staged objects n c)
    | inr other ↦ commit-AreStored t u h i g (ground (arith, other, e))
  ]

insert-files :
    (db with_share db' : Db) (id : Bytes) (row : _) (f : FileRow)
    → insert_share id row db ≡ some with_share
    → insert_file id f with_share ≡ some db'
    → db'.files ≡ (id, f) ∷ db.files
unfolding insert_share insert_file
insert-files db with_share db' id row f a b = ground arith

module _ (store : Store) (laws : StoreLaws store) (env : Env) (share : Share) (value : File)
    (owner_verifier : Bytes) (staged : Staged) (db : Db) (objects : store.State)
    (own : value.storage_key ≡ staged.key) (new : staged.committed ≡ false)
    (unused : uses_key staged.key db.files ≡ false) (h : IsServed store db objects) where
  Recorded-IsServed :
      (db' : Db) (objects' : store.State)
      → Recorded store env share value owner_verifier staged db db' objects objects'
      → IsServed store db' (store.abort staged objects')
  Recorded-IsServed db' objects' w =
      let files =
        insert-files db w.with_share db' share.id.value _ (file_row value) w.share_inserted
          w.file_inserted in
      record {
        own_keys = rw files (
            new_row-HaveOwnKeys share.id.value (file_row value) db.files (rw own unused)
              h.own_keys);
        stored =
            rw (files, w.objects_after)
              (abort-AreStored store laws staged _ _ (
                new_row-AreStored store laws staged objects share.id.value (file_row value) db.files
                  own new unused w.committed h.stored));
      }

  -- Whatever a File transaction did to the objects, those of the rows are still there.
  transaction-AreStored :
      AreStored store db.files
        (file_transaction store env share value owner_verifier staged db objects).1
  unfolding file_transaction
  transaction-AreStored =
      elim (Result-cases
        (require env.begins database >> insert_metadata_row env share owner_verifier db)) [
          | inr (e, r) ↦ rw (r, file_transaction) h.stored
          | inl (with_share, r) ↦
              rw (r, file_transaction)
                (commit-AreStored store laws staged objects db.files unused h.stored)
        ]

settled-IsServed :
    (store : Store) (laws : StoreLaws store) (staged : Staged) (made : Share × OwnerToken) (db : Db)
    (r : Result Error Db × store.State)
    → uses_key staged.key db.files ≡ false
    → HaveOwnKeys db.files
    → AreStored store db.files r.1
    → ((db' : Db) → r.0 ≡ ok db' → IsServed store db' (store.abort staged r.1))
    → IsServed store (settle store staged made db r).1 (settle store staged made db r).2
unfolding settle
settled-IsServed store laws staged made db (ok db', objects) u own stored k = k db' refl
settled-IsServed store laws staged made db (err e, objects) u own stored k = record {
  own_keys = own;
  stored =
      abort-AreStored store laws staged (store.delete staged.key objects).1 db.files
        (delete-AreStored store laws staged objects db.files u stored);
}

-- If every File row has its own key and an object in the store, so it is after CreateFile on a
-- stage that is not committed and whose key no row uses, returned or failed at any point.
pub create_staged-IsServed :
    (store : Store) (laws : StoreLaws store) (env : Env) (filename : Bytes) (staged : Staged)
    (expiration : Option ℕ) (db : Db) (objects : store.State)
    → staged.committed ≡ false
    → uses_key staged.key db.files ≡ false
    → IsServed store db objects
    → let r = create_staged store env filename staged expiration db objects in
      IsServed store r.1 r.2
unfolding create_staged
create_staged-IsServed store laws env filename staged expiration db objects n u h =
    elim (Result-cases (file_draft env (file_of env filename staged) expiration)) [
      | inr (e, r) ↦
          rw (r, create_staged)
            (record {
              own_keys = h.own_keys;
              stored = abort-AreStored store laws staged objects db.files h.stored;
            })
      | inl ((share, token), r) ↦
          let value = file_of env filename staged in
          let owner = verifier env.sha256 token in
          rw (r, create_staged)
            (settled-IsServed store laws staged (share, token) db
              (file_transaction store env share value owner staged db objects) u h.own_keys
              (transaction-AreStored store laws env share value owner staged db objects refl n u h)
              λ db' q.
                Recorded-IsServed store laws env share value owner staged db objects refl n u h db'
                  _ (file_transaction-Recorded store env share value owner staged db objects db' q))
    ]

settle-failed :
    (store : Store) (staged : Staged) (made : Share × OwnerToken) (db : Db)
    (r : Result Error Db × store.State) (e : Error)
    → r.0 ≡ err e
    → settle store staged made db r
      ≡ (err e, db, store.abort staged (store.delete staged.key r.1).1)
unfolding settle
settle-failed store staged made db (ok db', objects) e h = cc
settle-failed store staged made db (err e', objects) e h = ground arith

-- If the key of the stage is the key of a stored File, and Delete works on the store before and
-- after the commit, CreateFile changes no row and yet removes that File's object: the commit
-- finds the key taken, and the deferred cleanup deletes what stands there.
pub create_staged_collision :
    (store : Store) (laws : StoreLaws store) (env : Env) (filename : Bytes) (staged : Staged)
    (expiration : Option ℕ) (db : Db) (objects : store.State) (id : Bytes) (f : FileRow)
    (made : Share × OwnerToken)
    → staged.committed ≡ false
    → IsServed store db objects
    → find id db.files ≡ some f
    → f.storage_key ≡ staged.key
    → file_draft env (file_of env filename staged) expiration ≡ ok made
    → (store.delete staged.key objects).0 ≡ true
    → (store.delete staged.key (store.commit staged objects).1).0 ≡ true
    → let r = create_staged store env filename staged expiration db objects in
      (r.1 ≡ db) × (store.contents r.2 f.storage_key ≡ none)
unfolding create_staged
create_staged_collision store laws env filename staged expiration db objects id f (share, token) n h
      e k d before after =
    elim (Result-cases run.0) [
      | inl (db', q) ↦ absurd (taken db' q)
      | inr (c, q) ↦
          rw (d, create_staged, settle-failed store staged (share, token) db run c q)
            (
              refl,
              rw (k, laws.abort_frame staged staged.key (store.delete staged.key run.1).1)
                  (laws.delete_removes staged.key run.1 works),
            )
    ]
  where
    run : Result Error Db × store.State
    run =
        file_transaction store env share (file_of env filename staged) (verifier env.sha256 token)
          staged db objects

    works : (store.delete staged.key run.1).0 ≡ true
    works =
        let row =
          require env.begins database
          >> insert_metadata_row env share (verifier env.sha256 token) db in
        elim (Result-cases row) [
          | inl (with_share, q) ↦ rw (q, file_transaction) after
          | inr (x, q) ↦ rw (q, file_transaction) before
        ]

    taken : (db' : Db) → run.0 ≡ ok db' → ⊥
    taken db' q = elim (Option-cases (store.contents objects staged.key)) [
      | inl missing ↦ h.stored id f e (rw k missing)
      | inr (body, there) ↦ ground (
        arith,
        laws.commit_taken staged objects body n there,
        (file_transaction-Recorded store env share (file_of env filename staged)
            (verifier env.sha256 token) staged db objects db' q).committed,
      )
    ]
