-- ===== src/Share/Objects/Outcomes.antt =====
-- The three ways in which a deletion can end.
use u_paste.Prelude.{
  ℕ, ◌≡◌, ◌≢◌, refl, ◌∙◌, ap, true, none, some, arith, Bytes, Result, ok, err, inl, inr, ◌⊎◌,
  Bool-cases, Option-cases, [], ◌∷◌, length, bind-eq-ok,
}
use u_paste.Capability.{ShareId}
use u_paste.Domain.{PayloadKind, text, file, parse_payload_kind}
use u_paste.Database.{Db, ShareRow, FileRow, file_checks}
use u_paste.Database.Tables.{find}
use u_paste.ObjectStore.{Store, StoreLaws}
use u_paste.Share.{Env, Error, cleanup, select_storage_key, server_now}
use u_paste.Share.Owner.{authorize}
use u_paste.Share.Authorized.{authorize-Authorized}
use u_paste.Share.Delete.{
  key_of, select_key, delete_rows, delete_body, admin_delete_body, clean_up, finish, delete,
  admin_delete,
}
use u_paste.Share.Transactions.{execute-eq-ok, transact, transact_outcome}
use u_paste.Share.Consistent.{fits, row_fits, payload_fits, fits_at, IsConsistent}
use u_paste.Share.Consistent.Deletes.{Deletes, delete_body-Deletes, admin_delete_body-Deletes}

-- `removed`: the rows are gone, and the object of the File. `left`: the rows are gone, and a
-- CleanupError names the key of an object that was not removed. `refused`: nothing has changed.
pub data Outcome (store : Store) (id : Bytes) (db : Db) (objects : store.State)
    (r : Result Error (Unit {0}) × Db × store.State) : Type 0 where
  removed :
      r.0 ≡ ok tt
      → Deletes id db r.1
      → ((f : FileRow) → find id db.files ≡ some f → store.contents r.2 f.storage_key ≡ none)
      → Outcome store id db objects r
  left :
      (f : FileRow)
      → find id db.files ≡ some f
      → r.0 ≡ err (cleanup f.storage_key)
      → Deletes id db r.1
      → store.contents r.2 f.storage_key ≡ store.contents objects f.storage_key
      → Outcome store id db objects r
  refused : (e : Error) → r.0 ≡ err e → r.1 ≡ db → r.2 ≡ objects → Outcome store id db objects r

-- The key that a deletion hands on names the file row under the id, if there is one.
abbrev IsKeyOf : Bytes → Db → Bytes → Type 0
IsKeyOf id db key =
    ((find id db.files ≡ none) × (key ≡ []))
    ⊎ ((f : FileRow) × (find id db.files ≡ some f) × (f.storage_key ≡ key) × (key ≢ []))

file_key-nonempty :
    (db : Db) (id : Bytes) (row : ShareRow) (f : FileRow)
    → fits_at db id ≡ true
    → find id db.shares ≡ some row
    → find id db.files ≡ some f
    → f.storage_key ≢ []
file_key-nonempty db id row f h s e q =
    unfold fits row_fits payload_fits file_checks in ground (arith, h, s, e, ap length q)

absent_file :
    (db : Db) (id : Bytes) (row : ShareRow)
    → fits_at db id ≡ true
    → find id db.shares ≡ some row
    → parse_payload_kind row.payload_kind ≡ some text
    → find id db.files ≡ none
absent_file db id row h s p = unfold fits row_fits payload_fits in ground (arith, h, s, p)

select_key-IsKeyOf :
    (env : Env) (k : PayloadKind) (id : Bytes) (db : Db) (row : ShareRow) (key : Bytes)
    → fits_at db id ≡ true
    → find id db.shares ≡ some row
    → parse_payload_kind row.payload_kind ≡ some k
    → select_key env k id db ≡ ok key
    → IsKeyOf id db key
unfolding select_key
select_key-IsKeyOf env text id db row key h e p s =
    inl (absent_file db id row h e p, ground (arith, s))
select_key-IsKeyOf env file id db row key h e p s = elim (Option-cases (find id db.files)) [
  | inl a ↦
      ground (arith, a, execute-eq-ok env select_storage_key (key_of (find id db.files)) key s)
  | inr (f, a) ↦
      let q : f.storage_key ≡ key =
        ground (arith, a, execute-eq-ok env select_storage_key (key_of (find id db.files)) key s) in
      inr (f, a, q, λ z. file_key-nonempty db id row f h e a (q ∙ z))
]

delete_body-IsKeyOf :
    (env : Env) (id candidate : Bytes) (now : ℕ) (db db' : Db) (key : Bytes)
    → fits_at db id ≡ true
    → delete_body env id candidate now db ≡ ok (key, db')
    → IsKeyOf id db key
unfolding delete_body
delete_body-IsKeyOf env id candidate now db db' key c h =
    let (found, a, h1) = bind-eq-ok (authorize env db id candidate now) _ h in
    let (k, b, h2) = bind-eq-ok (select_key env found.kind id db) _ h1 in
    let (after, d, h3) = bind-eq-ok (delete_rows env id db) _ h2 in
    let same : k ≡ key = ground (arith, h3) in
    let w = authorize-Authorized env db id candidate now found a in
    rw same at (select_key-IsKeyOf env found.kind id db w.row k c w.present w.kind b)

admin_delete_body-IsKeyOf :
    (env : Env) (id : Bytes) (db db' : Db) (key : Bytes)
    → fits_at db id ≡ true
    → admin_delete_body env id db ≡ ok (key, db')
    → IsKeyOf id db key
unfolding admin_delete_body
admin_delete_body-IsKeyOf env id db db' key c h = elim (Option-cases (find id db.shares)) [
  | inl e ↦ ground (arith, e, h)
  | inr (row, e) ↦ elim (Option-cases (find id db.files)) [
    | inl a ↦ inl (a, ground (arith, a, h))
    | inr (f, a) ↦
        let q : f.storage_key ≡ key = ground (arith, a, h) in
        inr (f, a, q, λ z. file_key-nonempty db id row f c e a (q ∙ z))
  ]
]

module _ (store : Store) (laws : StoreLaws store) (env : Env) (id : Bytes) (db : Db)
    (objects : store.State) where
  finish-Outcome :
      (db' : Db) (key : Bytes)
      → Deletes id db db'
      → IsKeyOf id db key
      → Outcome store id db objects (finish store env (ok key, db') objects)
  unfolding finish clean_up
  finish-Outcome db' [] d (inl (a, e)) = removed refl d (λ f q. ground (arith, a, q))
  finish-Outcome db' (c ∷ cs) d (inl (a, e)) = cc
  finish-Outcome db' [] d (inr (f, a, q, z)) = absurd (z refl)
  finish-Outcome db' (c ∷ cs) d (inr (f, a, q, z)) = elim (Bool-cases env.has_store) [
    | inr b ↦ left f a (rw (b, finish, clean_up) (rw q refl)) d (rw (b, finish, clean_up) refl)
    | inl b ↦ elim (Bool-cases (store.delete (c ∷ cs) objects).0) [
      | inl w ↦ removed (ground (arith, b, w)) d λ g e.
          let same : g.storage_key ≡ c ∷ cs = ground (arith, a, e, q) in
          rw (b, finish, clean_up) (rw same (laws.delete_removes (c ∷ cs) objects w))
      | inr w ↦
          left f a (rw q (ground (arith, b, w))) d
            (rw (b, finish, clean_up) (rw q (laws.delete_failed (c ∷ cs) objects w)))
    ]
  ]

  transacted-Outcome :
      (body : Db → Result Error (Bytes × Db))
      → ((key : Bytes) (db' : Db) → body db ≡ ok (key, db') → Deletes id db db' × IsKeyOf id db key)
      → Outcome store id db objects (finish store env (transact env body db) objects)
  transacted-Outcome body does = elim (transact_outcome env body db) [
    | inl (key, db', a, r) ↦ let (d, at) = does key db' a in rw r (finish-Outcome db' key d at)
    | inr (e, r) ↦ rw r (unfold finish in refused e refl refl refl)
  ]

module _ (store : Store) (laws : StoreLaws store) (env : Env) (id : ShareId) (db : Db)
    (objects : store.State) (h : IsConsistent db) where
  -- From a consistent database, a deletion by an owner ends in one of three ways: every row of
  -- the Share and the object of its File are gone; the rows are gone and the object, unchanged,
  -- is named in a CleanupError; or it is an error with nothing changed.
  pub delete-Outcome :
      (candidate : Bytes)
      → Outcome store id.value db objects (delete store env id candidate db objects)
  unfolding delete
  delete-Outcome candidate =
      transacted-Outcome store laws env id.value db objects
        (delete_body env id.value candidate (server_now env))
        λ key db' a. (
          delete_body-Deletes env id.value candidate (server_now env) db db' key a,
          delete_body-IsKeyOf env id.value candidate (server_now env) db db' key (h id.value) a,
        )

  -- From a consistent database, a deletion by the admin ends in one of three ways: every row of
  -- the Share and the object of its File are gone; the rows are gone and the object, unchanged,
  -- is named in a CleanupError; or it is an error with nothing changed.
  pub admin_delete-Outcome :
      Outcome store id.value db objects (admin_delete store env id db objects)
  unfolding admin_delete
  admin_delete-Outcome =
      transacted-Outcome store laws env id.value db objects (admin_delete_body env id.value)
        λ key db' a. (
          admin_delete_body-Deletes env id.value db db' key a,
          admin_delete_body-IsKeyOf env id.value db db' key (h id.value) a,
        )
