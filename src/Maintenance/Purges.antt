-- ===== src/Maintenance/Purges.antt =====
-- What a purge does to the tables.
use u_paste.Prelude.{
  ℕ, ◌≡◌, ◌⊎◌, refl, inl, inr, true, false, some, arith, Option-cases, Bool-cases, Bytes,
  bytes_eq_iff,
}
use u_paste.Database.{Db, ShareRow, FileRow}
use u_paste.Database.Tables.{find, is_present, find-erase}
use u_paste.Database.Statements.{delete_share}
use u_paste.Share.Consistent.{IsConsistent}
use u_paste.Share.Consistent.Deletes.{delete_share-Deletes, Deletes-IsConsistent}
use u_paste.Maintenance.{is_due, purge_row}

-- The rows of the Shares that are not due stay, and no File row is new.
pub record Purged (now : ℕ) (db db' : Db) : Type 0 where
  pub live :
      (id : Bytes) (row : ShareRow)
      → find id db.shares ≡ some row
      → is_due now row ≡ false
      → (find id db'.shares ≡ some row)
        × (find id db'.texts ≡ find id db.texts)
        × (find id db'.encrypted_texts ≡ find id db.encrypted_texts)
        × (find id db'.files ≡ find id db.files)
  pub files : (id : Bytes) (f : FileRow) → find id db'.files ≡ some f → find id db.files ≡ some f
  pub consistent : IsConsistent db → IsConsistent db'

pub Purged-refl : (now : ℕ) (db : Db) → Purged now db db
Purged-refl now db = record {
  live = λ id row h n. (h, refl, refl, refl);
  files = λ id f h. h;
  consistent = λ h. h;
}

pub Purged-trans : (now : ℕ) (a b c : Db) → Purged now a b → Purged now b c → Purged now a c
Purged-trans now a b c p q = record {
  live = λ id row h n. ground (arith, p.live id row h n, q.live id row, n);
  files = λ id f h. p.files id f (q.files id f h);
  consistent = λ h. q.consistent (p.consistent h);
}

-- A row that is due goes with its payload; otherwise nothing is affected.
pub purge_row_cases :
    (now : ℕ) (id : Bytes) (db : Db)
    → (purge_row now id db ≡ (db, 0))
      ⊎ ((row : ShareRow) × (find id db.shares ≡ some row)
          × (is_due now row ≡ true)
          × (purge_row now id db ≡ delete_share id db)
          × ((delete_share id db).1 ≡ 1))
unfolding purge_row delete_share is_present
purge_row_cases now id db = elim (Option-cases (find id db.shares)) [
  | inl q ↦ inl (ground (arith, q))
  | inr (row, q) ↦ elim (Bool-cases (is_due now row)) [
    | inr d ↦ inl (ground (arith, q, d))
    | inl d ↦ inr (row, q, d, ground (arith, q, d), ground (arith, q))
  ]
]

delete_share-Purged :
    (now : ℕ) (id : Bytes) (db : Db) (row : ShareRow)
    → find id db.shares ≡ some row
    → is_due now row ≡ true
    → Purged now db (delete_share id db).0
delete_share-Purged now id db row q d = record {
  live = λ j other h n.
      unfold delete_share is_present in
      ground (
        arith,
        q,
        d,
        h,
        n,
        bytes_eq_iff id j,
        find-erase id j db.shares,
        find-erase id j db.texts,
        find-erase id j db.encrypted_texts,
        find-erase id j db.files,
      );
  files = λ j f h. unfold delete_share is_present in ground (arith, q, h, find-erase id j db.files);
  consistent =
      λ h. Deletes-IsConsistent id db (delete_share id db).0 h (delete_share-Deletes id db row q);
}

pub purge_row-Purged : (now : ℕ) (id : Bytes) (db : Db) → Purged now db (purge_row now id db).0
purge_row-Purged now id db = elim (purge_row_cases now id db) [
  | inl e ↦ rw e (Purged-refl now db)
  | inr (row, q, d, e, one) ↦ rw e (delete_share-Purged now id db row q d)
]
