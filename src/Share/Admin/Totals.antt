-- ===== src/Share/Admin/Totals.antt =====
-- The totals of the summary, and the listing of consistent tables.
use u_paste.Prelude.{
  ◌+◌, ◌≡◌, refl, inl, inr, Bool, true, not, Option, none, some, [], ◌∷◌, Bytes, arith, length,
  is_ok, Bool-cases, Option-cases, Result-cases, ◌≢◌,
}
use u_paste.Domain.{PayloadKind, PrivacyMode, text, file, standard, encrypted}
use u_paste.Database.{Db, ShareRow, TextRow, EncryptedRow, FileRow}
use u_paste.Database.Tables.{Table, find}
use u_paste.Share.{Env}
use u_paste.Share.Consistent.{IsConsistent, Fit, row_fits-Fit, fits, payload_fits}
use u_paste.Share.Admin.{
  is_over, count_rows, admin_summary, scan_admin_list_item, payload_bytes_of, file_columns,
}

split_count :
    (test : ShareRow → Bool) (shares : Table ShareRow)
    → count_rows (λ row. not (test row)) shares + count_rows test shares ≡ length shares
unfolding count_rows
split_count test [] = refl
split_count test ((id, row) ∷ shares) = elim (Bool-cases (test row)) [
  | inl q ↦ ground (arith, q, split_count test shares)
  | inr q ↦ ground (arith, q, split_count test shares)
]

-- The active and the expired Shares of the summary are together all the Shares.
pub admin_summary-length :
    (env : Env) (db : Db)
    → (admin_summary env db).active + (admin_summary env db).expired ≡ length db.shares
unfolding admin_summary
admin_summary-length env db = split_count (is_over _) db.shares

columns-is_ok :
    (k : PayloadKind) (p : PrivacyMode) (t : Option TextRow) (e : Option EncryptedRow)
    (f : Option FileRow)
    → payload_fits k p t e f ≡ true
    → (payload_bytes_of k p t e f ≢ none) × (is_ok (file_columns k p f) ≡ true)
unfolding payload_fits payload_bytes_of file_columns
columns-is_ok text standard t e f h = ground (arith, h)
columns-is_ok text encrypted t e f h = ground (arith, h)
columns-is_ok file standard t e f h = ground (arith, h)
columns-is_ok file encrypted t e f h = ground (arith, h)

scan-is_ok :
    (id : Bytes) (row : ShareRow) (t : Option TextRow) (e : Option EncryptedRow)
    (f : Option FileRow)
    → Fit id row t e f
    → is_ok (scan_admin_list_item id row t e f) ≡ true
unfolding scan_admin_list_item
scan-is_ok id row t e f fit =
    let (size, columns) = columns-is_ok fit.kind fit.privacy t e f fit.payload in
    elim (Option-cases (payload_bytes_of fit.kind fit.privacy t e f)) [
      | inl none_left ↦ absurd (size none_left)
      | inr (n, q) ↦ elim (Result-cases (file_columns fit.kind fit.privacy f)) [
        | inl (c, r) ↦ ground (arith, q, r, fit.kind_parses, fit.privacy_parses, fit.id_parses)
        | inr (x, r) ↦ absurd (ground (arith, r, columns))
      ]
    ]

-- In a consistent database the scan of a Share's row for the listing does not fail.
pub scan_admin_list_item-is_ok :
    (db : Db) (id : Bytes) (row : ShareRow)
    → IsConsistent db
    → find id db.shares ≡ some row
    → is_ok (
        scan_admin_list_item id row
          (find id db.texts)
          (find id db.encrypted_texts)
          (find id db.files))
      ≡ true
unfolding fits
scan_admin_list_item-is_ok db id row h e =
    scan-is_ok id row (find id db.texts) (find id db.encrypted_texts) (find id db.files) (
      row_fits-Fit id row (find id db.texts) (find id db.encrypted_texts) (find id db.files)
        (ground (arith, e, h id)))
