-- ===== src/Share/Objects/Deletes.antt =====
-- Deletions and the objects of the store.
use u_paste.Prelude.{
  ℕ, ◌≡◌, ◌≢◌, sym, ◌∙◌, some, arith, Bytes, bytes_eq, bytes_eq_iff, Result, ok, inl, inr, ◌⊎◌,
  Bool-cases, Option-cases, [], ◌∷◌, bind-eq-ok,
}
use u_paste.Capability.{ShareId}
use u_paste.Domain.{PayloadKind, text, file}
use u_paste.Database.{Db, FileRow}
use u_paste.Database.Tables.{find}
use u_paste.ObjectStore.{Store, StoreLaws}
use u_paste.Share.{Env, Error, select_storage_key, server_now}
use u_paste.Share.Owner.{authorize}
use u_paste.Share.Delete.{
  key_of, select_key, delete_rows, delete_body, admin_delete_body, clean_up, finish, delete,
  admin_delete,
}
use u_paste.Share.Transactions.{execute-eq-ok, transact, transact_outcome}
use u_paste.Share.Consistent.Deletes.{Deletes, delete_body-Deletes, admin_delete_body-Deletes}
use u_paste.Share.Objects.{HaveOwnKeys, AreStored, IsServed}

-- The key that a deletion hands on: that of the file row under the id, or the empty string.
abbrev pub IsKeyAt : Bytes → Db → Bytes → Type 0
IsKeyAt id db key =
    ((f : FileRow) × (find id db.files ≡ some f) × (f.storage_key ≡ key)) ⊎ (key ≡ [])

select_key-IsKeyAt :
    (env : Env) (k : PayloadKind) (id : Bytes) (db : Db) (key : Bytes)
    → select_key env k id db ≡ ok key
    → IsKeyAt id db key
unfolding select_key
select_key-IsKeyAt env text id db key h = inr (ground arith)
select_key-IsKeyAt env file id db key h = elim (Option-cases (find id db.files)) [
  | inl e ↦
      ground (arith, e, execute-eq-ok env select_storage_key (key_of (find id db.files)) key h)
  | inr (f, e) ↦ inl (
    f,
    e,
    ground (arith, e, execute-eq-ok env select_storage_key (key_of (find id db.files)) key h),
  )
]

delete_body-IsKeyAt :
    (env : Env) (id candidate : Bytes) (now : ℕ) (db db' : Db) (key : Bytes)
    → delete_body env id candidate now db ≡ ok (key, db')
    → IsKeyAt id db key
unfolding delete_body
delete_body-IsKeyAt env id candidate now db db' key h =
    let (found, a, h1) = bind-eq-ok (authorize env db id candidate now) _ h in
    let (k, b, h2) = bind-eq-ok (select_key env found.kind id db) _ h1 in
    let (after, c, h3) = bind-eq-ok (delete_rows env id db) _ h2 in
    let same : k ≡ key = ground (arith, h3) in
    select_key-IsKeyAt env found.kind id db key (rw (← same) b)

admin_delete_body-IsKeyAt :
    (env : Env) (id : Bytes) (db db' : Db) (key : Bytes)
    → admin_delete_body env id db ≡ ok (key, db')
    → IsKeyAt id db key
unfolding admin_delete_body
admin_delete_body-IsKeyAt env id db db' key h = elim (Option-cases (find id db.files)) [
  | inl e ↦ inr (ground (arith, e))
  | inr (f, e) ↦ inl (f, e, ground (arith, e))
]

-- A file row that is left is one of before, under another id.
left_row :
    (id : Bytes) (db db' : Db)
    → Deletes id db db'
    → (j : Bytes) (g : FileRow) → find j db'.files ≡ some g
    → (find j db.files ≡ some g) × (id ≢ j)
left_row id db db' d j g e = elim (Bool-cases (bytes_eq id j)) [
  | inl same ↦ ground (arith, d.gone.file, bytes_eq_iff id j)
  | inr other ↦ (sym (d.frame j other).files ∙ e, λ q. ground (arith, bytes_eq_iff id j))
]

module _ (store : Store) (laws : StoreLaws store) (env : Env) (id : Bytes) (db db' : Db)
    (d : Deletes id db db') (objects : store.State) where
  left-HaveOwnKeys : HaveOwnKeys db.files → HaveOwnKeys db'.files
  left-HaveOwnKeys own i j f g a b k =
      own i j f g (left_row id db db' d i f a).0 (left_row id db db' d j g b).0 k

  left-AreStored : AreStored store db.files objects → AreStored store db'.files objects
  left-AreStored stored j g e = stored j g (left_row id db db' d j g e).0

  clean_up-AreStored :
      (key : Bytes)
      → IsKeyAt id db key
      → IsServed store db objects
      → AreStored store db'.files (clean_up store env key objects).1
  unfolding clean_up
  clean_up-AreStored [] at h = left-AreStored h.stored
  clean_up-AreStored (c ∷ cs) (inr e) h = cc
  clean_up-AreStored (c ∷ cs) (inl (f, a, k)) h = elim (Bool-cases env.has_store) [
    | inr none_there ↦ rw (none_there, clean_up) (left-AreStored h.stored)
    | inl there ↦
        rw (there, clean_up)
          λ j g e.
            let (b, other) = left_row id db db' d j g e in
            rw
              (laws.delete_frame (c ∷ cs) g.storage_key objects
                (λ q. other (h.own_keys id j f g a b (k ∙ q))))
              (h.stored j g b)
  ]

  pub finish-IsServed :
      (key : Bytes)
      → IsKeyAt id db key
      → IsServed store db objects
      → let r = finish store env (ok key, db') objects in IsServed store r.1 r.2
  unfolding finish
  finish-IsServed key at h = record {
    own_keys = left-HaveOwnKeys h.own_keys;
    stored = clean_up-AreStored key at h;
  }

module _ (store : Store) (laws : StoreLaws store) (env : Env) (id : ShareId) (db : Db)
    (objects : store.State) (h : IsServed store db objects) where
  transacted-IsServed :
      (body : Db → Result Error (Bytes × Db))
      → ((key : Bytes) (db' : Db)
          → body db ≡ ok (key, db')
          → Deletes id.value db db' × IsKeyAt id.value db key)
      → let r = finish store env (transact env body db) objects in IsServed store r.1 r.2
  transacted-IsServed body does = elim (transact_outcome env body db) [
    | inl (key, db', a, r) ↦
        let (d, at) = does key db' a in
        rw r (finish-IsServed store laws env id.value db db' d objects key at h)
    | inr (e, r) ↦ rw r (unfold finish in h)
  ]

  -- If every File row has its own key and an object in the store, so it is after a deletion by an
  -- owner, returned or failed.
  pub delete-IsServed :
      (candidate : Bytes)
      → let r = delete store env id candidate db objects in IsServed store r.1 r.2
  unfolding delete
  delete-IsServed candidate =
      transacted-IsServed (delete_body env id.value candidate (server_now env)) λ key db' a. (
        delete_body-Deletes env id.value candidate (server_now env) db db' key a,
        delete_body-IsKeyAt env id.value candidate (server_now env) db db' key a,
      )

  -- If every File row has its own key and an object in the store, so it is after a deletion by
  -- the admin, returned or failed.
  pub admin_delete-IsServed : let r = admin_delete store env id db objects in IsServed store r.1 r.2
  unfolding admin_delete
  admin_delete-IsServed = transacted-IsServed (admin_delete_body env id.value) λ key db' a. (
    admin_delete_body-Deletes env id.value db db' key a,
    admin_delete_body-IsKeyAt env id.value db db' key a,
  )
