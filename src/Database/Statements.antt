-- ===== src/Database/Statements.antt =====
-- The SQL statements that write, as functions on the tables.
use u_paste.Prelude.{ℕ, ◌&&◌, not, Option, none, some, ◌∷◌, if◌then◌else◌, Bytes}
use u_paste.Database.Tables.{find, erase, modify, is_present}
use u_paste.Domain.{kind_string, privacy_string, text, file, standard, encrypted}
use u_paste.Database.{
  Db, ShareRow, TextRow, EncryptedRow, FileRow, share_checks, text_checks, encrypted_checks,
  file_checks, accepts, uses_key,
}

-- INSERT INTO shares
unfoldable pub insert_share : Bytes → ShareRow → Db → Option Db
insert_share id row db =
    if not (is_present id db.shares) && share_checks id row
    then some (record db { shares = (id, row) ∷ db.shares })
    else none

-- INSERT INTO standard_text_payloads
unfoldable pub insert_text : Bytes → TextRow → Db → Option Db
insert_text id row db =
    if accepts (kind_string text) (privacy_string standard) (find id db.shares)
      && (not (is_present id db.texts) && text_checks row)
    then some (record db { texts = (id, row) ∷ db.texts })
    else none

-- INSERT INTO encrypted_text_payloads
unfoldable pub insert_encrypted : Bytes → EncryptedRow → Db → Option Db
insert_encrypted id row db =
    if accepts (kind_string text) (privacy_string encrypted) (find id db.shares)
      && (not (is_present id db.encrypted_texts) && encrypted_checks row)
    then some (record db { encrypted_texts = (id, row) ∷ db.encrypted_texts })
    else none

-- INSERT INTO file_payloads
unfoldable pub insert_file : Bytes → FileRow → Db → Option Db
insert_file id row db =
    if accepts (kind_string file) (privacy_string standard) (find id db.shares)
      && (not (is_present id db.files)
          && (not (uses_key row.storage_key db.files) && file_checks row))
    then some (record db { files = (id, row) ∷ db.files })
    else none

-- UPDATE standard_text_payloads SET format, content WHERE share_id: the rows affected beside it.
unfoldable pub update_text : Bytes → TextRow → Db → Option (Db × ℕ)
update_text id row db =
    if is_present id db.texts
    then (if text_checks row
        then some (record db { texts = modify id (λ _. row) db.texts }, 1)
        else none)
    else some (db, 0)

-- UPDATE encrypted_text_payloads SET protocol, nonce, ciphertext WHERE share_id
unfoldable pub update_encrypted : Bytes → EncryptedRow → Db → Option (Db × ℕ)
update_encrypted id row db =
    if is_present id db.encrypted_texts
    then (if encrypted_checks row
        then some (record db { encrypted_texts = modify id (λ _. row) db.encrypted_texts }, 1)
        else none)
    else some (db, 0)

-- UPDATE shares SET updated_at [, expires_at] WHERE id
unfoldable pub update_share : Bytes → (ShareRow → ShareRow) → Db → Db × ℕ
update_share id set db =
    if is_present id db.shares then (record db { shares = modify id set db.shares }, 1) else (db, 0)

-- DELETE FROM shares WHERE id; the payload rows go with it (ON DELETE CASCADE).
unfoldable pub delete_share : Bytes → Db → Db × ℕ
delete_share id db =
    if is_present id db.shares
    then (
      record {
        shares = erase id db.shares;
        texts = erase id db.texts;
        encrypted_texts = erase id db.encrypted_texts;
        files = erase id db.files;
      },
      1,
    )
    else (db, 0)
