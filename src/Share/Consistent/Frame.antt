-- ===== src/Share/Consistent/Frame.antt =====
-- Every statement writes at one id: the rows of the other Shares stay, and so the tables are
-- consistent again once they fit at that id.
use u_paste.Prelude.{
  ℕ, ◌≡◌, refl, ◌∙◌, true, false, Option, some, arith, Bytes, bytes_eq, bytes_eq_iff, inl, inr,
  Bool-cases,
}
use u_paste.Database.{Db, ShareRow, TextRow, EncryptedRow, FileRow}
use u_paste.Database.Tables.{find, find-erase, find-modify}
use u_paste.Database.Statements.{
  insert_share, insert_text, insert_encrypted, insert_file, update_text, update_encrypted,
  update_share, delete_share,
}
use u_paste.Share.Consistent.{fits, fits_at, IsConsistent}

-- The rows at one id are the same in two databases.
pub record SameAt (j : Bytes) (db db' : Db) : Type 0 where
  pub shares : find j db'.shares ≡ find j db.shares
  pub texts : find j db'.texts ≡ find j db.texts
  pub encrypted_texts : find j db'.encrypted_texts ≡ find j db.encrypted_texts
  pub files : find j db'.files ≡ find j db.files

pub SameAt-refl : (j : Bytes) (db : Db) → SameAt j db db
SameAt-refl j db = record { shares = refl; texts = refl; encrypted_texts = refl; files = refl }

pub SameAt-trans : {j : Bytes} {a b c : Db} → SameAt j a b → SameAt j b c → SameAt j a c
SameAt-trans p q = record {
  shares = q.shares ∙ p.shares;
  texts = q.texts ∙ p.texts;
  encrypted_texts = q.encrypted_texts ∙ p.encrypted_texts;
  files = q.files ∙ p.files;
}

-- The rows at one id decide whether the tables fit there.
pub fits_at_of_rows :
    (db : Db) (id : Bytes) {s : Option ShareRow} {t : Option TextRow} {e : Option EncryptedRow}
    {f : Option FileRow}
    → find id db.shares ≡ s
    → find id db.texts ≡ t
    → find id db.encrypted_texts ≡ e
    → find id db.files ≡ f
    → fits id s t e f ≡ true
    → fits_at db id ≡ true
fits_at_of_rows db id a b c d h = rw (a, b, c, d) h

-- Everything but `id` is as before.
abbrev pub Frame : Bytes → Db → Db → Type 0
Frame id db db' = (j : Bytes) → bytes_eq id j ≡ false → SameAt j db db'

pub Frame-refl : (id : Bytes) (db : Db) → Frame id db db
Frame-refl id db j h = SameAt-refl j db

pub Frame-trans : (id : Bytes) (a b c : Db) → Frame id a b → Frame id b c → Frame id a c
Frame-trans id a b c p q j h = SameAt-trans (p j h) (q j h)

pub IsConsistent-of_Frame :
    {db db' : Db} (id : Bytes)
    → IsConsistent db
    → Frame id db db'
    → fits_at db' id ≡ true
    → IsConsistent db'
IsConsistent-of_Frame {db' = db'} id h frame here j = elim (Bool-cases (bytes_eq id j)) [
  | inl e ↦ let same : id ≡ j = (bytes_eq_iff id j).0 e in rw (← same) here
  | inr e ↦
      let r = frame j e in fits_at_of_rows db' j r.shares r.texts r.encrypted_texts r.files (h j)
]

module _ (id : Bytes) where
  pub insert_share-Frame :
      (row : ShareRow) (db db' : Db) → insert_share id row db ≡ some db' → Frame id db db'
  unfolding insert_share find
  insert_share-Frame row db db' h j e = ground arith

  pub insert_text-Frame :
      (row : TextRow) (db db' : Db) → insert_text id row db ≡ some db' → Frame id db db'
  unfolding insert_text find
  insert_text-Frame row db db' h j e = ground arith

  pub insert_encrypted-Frame :
      (row : EncryptedRow) (db db' : Db) → insert_encrypted id row db ≡ some db' → Frame id db db'
  unfolding insert_encrypted find
  insert_encrypted-Frame row db db' h j e = ground arith

  pub insert_file-Frame :
      (row : FileRow) (db db' : Db) → insert_file id row db ≡ some db' → Frame id db db'
  unfolding insert_file find
  insert_file-Frame row db db' h j e = ground arith

  pub update_text-Frame :
      (row : TextRow) (db db' : Db) (n : ℕ)
      → update_text id row db ≡ some (db', n)
      → Frame id db db'
  unfolding update_text
  update_text-Frame row db db' n h j e = ground (arith, find-modify id j (λ _. row) db.texts)

  pub update_encrypted-Frame :
      (row : EncryptedRow) (db db' : Db) (n : ℕ)
      → update_encrypted id row db ≡ some (db', n)
      → Frame id db db'
  unfolding update_encrypted
  update_encrypted-Frame row db db' n h j e =
      ground (arith, find-modify id j (λ _. row) db.encrypted_texts)

  pub update_share-Frame :
      (set : ShareRow → ShareRow) (db : Db) → Frame id db (update_share id set db).0
  unfolding update_share
  update_share-Frame set db j e = ground (arith, find-modify id j set db.shares)

  pub delete_share-Frame : (db : Db) → Frame id db (delete_share id db).0
  unfolding delete_share
  delete_share-Frame db j e = ground (
    arith,
    find-erase id j db.shares,
    find-erase id j db.texts,
    find-erase id j db.encrypted_texts,
    find-erase id j db.files,
  )
