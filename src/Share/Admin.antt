-- ===== src/Share/Admin.antt =====
-- AdminSummary, AdminGet and the rows of AdminList, in internal/share/admin.go.
pub mod Totals
use u_paste.Prelude.{
  ℕ, zero, suc, ◌+◌, Bool, true, false, not, Option, none, some, List, [], ◌∷◌, ◌==◌, leb, ltb,
  if◌then◌else◌, Bytes, bytes_eq, codes, Result, ok, err, ◌>>=◌, ◌>>◌, require, or_fail, length,
}
use u_paste.Domain.{
  PayloadKind, PrivacyMode, text, file, standard, encrypted, kind_string, privacy_string,
  parse_payload_kind, parse_privacy_mode,
}
use u_paste.Capability.{ShareId, parse_share_id}
use u_paste.Database.{Db, ShareRow, TextRow, EncryptedRow, FileRow}
use u_paste.Database.Tables.{Table, find}
use u_paste.Share.{Env, Error, Share, corrupt, payload_mismatch, server_now, to_millis, from_millis}
use u_paste.Share.Load.{load_active, expiration_time, parse_or_corrupt, parse_id}

pub record AdminSummary : Type 0 where
  pub active : ℕ
  pub expired : ℕ
  pub texts : ℕ
  pub files : ℕ
  pub encrypted_shares : ℕ
  pub file_bytes : ℕ

-- The CASE of the query: expires_at IS NOT NULL AND expires_at <= now.
unfoldable pub is_over : ℕ → ShareRow → Bool
is_over now row = elim row.expires_at [ none ↦ false | some e ↦ leb e now ]

abbrev bit : Bool → ℕ
bit true = 1
bit false = 0

-- COALESCE(SUM(CASE WHEN … THEN 1 ELSE 0 END), 0)
unfoldable pub count_rows : (ShareRow → Bool) → Table ShareRow → ℕ
count_rows test [] = 0
count_rows test ((id, row) ∷ shares) = bit (test row) + count_rows test shares

unfoldable pub sum_sizes : Table FileRow → ℕ
sum_sizes [] = 0
sum_sizes ((id, row) ∷ files) = row.size_bytes + sum_sizes files

unfoldable pub admin_summary : Env → Db → AdminSummary
unfolding server_now is_over count_rows sum_sizes kind_string privacy_string bytes_eq
admin_summary env db =
    let now = to_millis (server_now env) in
    record {
      active = count_rows (λ row. not (is_over now row)) db.shares;
      expired = count_rows (is_over now) db.shares;
      texts = count_rows (λ row. bytes_eq row.payload_kind (kind_string text)) db.shares;
      files = count_rows (λ row. bytes_eq row.payload_kind (kind_string file)) db.shares;
      encrypted_shares =
          count_rows (λ row. bytes_eq row.privacy_mode (privacy_string encrypted)) db.shares;
      file_bytes = sum_sizes db.files;
    }

-- AdminGet reads at the zero time, before which nothing expires.
unfoldable pub admin_get : Env → Db → ShareId → Result Error Share
unfolding load_active
admin_get env db id = load_active env db id.value 0

pub record AdminListItem : Type 0 where
  pub id : ShareId
  pub payload_kind : PayloadKind
  pub privacy_mode : PrivacyMode
  pub created_at : ℕ
  pub updated_at : ℕ
  pub expires_at : Option ℕ
  pub payload_bytes : ℕ
  pub filename : Bytes
  pub media_type : Bytes

abbrev text_bytes : Option TextRow → Option ℕ
text_bytes none = none
text_bytes (some t) = some (length t.content)

abbrev encrypted_bytes : Option EncryptedRow → Option ℕ
encrypted_bytes none = none
encrypted_bytes (some e) = some (length e.ciphertext)

abbrev file_bytes_of : Option FileRow → Option ℕ
file_bytes_of none = none
file_bytes_of (some f) = some f.size_bytes

-- The CASE of adminListQuery.
unfoldable pub payload_bytes_of :
    PayloadKind → PrivacyMode → Option TextRow → Option EncryptedRow → Option FileRow → Option ℕ
payload_bytes_of text standard t e f = text_bytes t
payload_bytes_of text encrypted t e f = encrypted_bytes e
payload_bytes_of file _ t e f = file_bytes_of f

-- The `switch` of scanAdminListItem: the file's name and media type, if the kind has them.
unfoldable pub file_columns :
    PayloadKind → PrivacyMode → Option FileRow → Result Error (Bytes × Bytes)
file_columns text _ none = ok ([], [])
file_columns text _ (some f) = err payload_mismatch
file_columns file standard (some f) = ok (f.original_filename, f.detected_media_type)
file_columns file _ _ = err payload_mismatch

-- A row of the listing, joined to its payload. The columns' sizes are lengths, which the tables keep
-- from being negative.
unfoldable pub scan_admin_list_item :
    Bytes
    → ShareRow
    → Option TextRow
    → Option EncryptedRow
    → Option FileRow
    → Result Error AdminListItem
unfolding payload_bytes_of file_columns
scan_admin_list_item id row t e f = do
  share_id ← parse_id id
  kind ← parse_or_corrupt (parse_payload_kind row.payload_kind)
  privacy ← parse_or_corrupt (parse_privacy_mode row.privacy_mode)
  size ← or_fail (payload_bytes_of kind privacy t e f) payload_mismatch
  columns ← file_columns kind privacy f
  ok (record {
    id = share_id;
    payload_kind = kind;
    privacy_mode = privacy;
    created_at = from_millis row.created_at;
    updated_at = from_millis row.updated_at;
    expires_at = expiration_time row.expires_at;
    payload_bytes = size;
    filename = columns.0;
    media_type = columns.1;
  })
