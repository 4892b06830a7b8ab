-- ===== src/Share/Load.antt =====
-- loadAuthorization and loadActive of internal/share/service.go: a row and its payload rows, read
-- back from the tables. The columns of a joined row are all NOT NULL, so they are valid together.
use u_paste.Prelude.{
  ℕ, Option, none, some, ◌==◌, Bytes, length, Result, ok, err, ◌>>=◌, ◌>>◌, require, refuse,
  or_fail,
}
use u_paste.Domain.{
  PayloadKind, PrivacyMode, text, file, standard, encrypted, parse_payload_kind, parse_privacy_mode,
  parse_text_format, format_string, is_expired,
}
use u_paste.Capability.{ShareId, parse_share_id}
use u_paste.Database.{Db, TextRow, EncryptedRow, FileRow}
use u_paste.Database.Tables.{find}
use u_paste.Share.{
  Share, Text, EncryptedText, File, Env, Error, select_authorization, select_share, not_found,
  expired, payload_mismatch, corrupt, database, from_millis, validate_encrypted_text,
}

-- What the server loads before it trusts an owner.
pub record Authorization : Type 0 where
  pub kind : PayloadKind
  pub privacy : PrivacyMode
  pub verifier : Bytes
  pub created_at : ℕ

abbrev pub expiration_time : Option ℕ → Option ℕ
expiration_time none = none
expiration_time (some m) = some (from_millis m)

abbrev pub parse_or_corrupt {ℓ} : {A : Type ℓ} → Option A → Result Error A
parse_or_corrupt o = or_fail o corrupt

unfoldable pub load_authorization : Env → Db → Bytes → ℕ → Result Error Authorization
load_authorization env db id now = do
  require (env.runs select_authorization) database
  row ← or_fail (find id db.shares) not_found
  kind ← parse_or_corrupt (parse_payload_kind row.payload_kind)
  privacy ← parse_or_corrupt (parse_privacy_mode row.privacy_mode)
  require (length row.owner_token_verifier == 32) corrupt
  refuse (is_expired (expiration_time row.expires_at) now) expired
  ok (record {
    kind = kind;
    privacy = privacy;
    verifier = row.owner_token_verifier;
    created_at = from_millis row.created_at;
  })

pub record Payload : Type 0 where
  pub text : Option Text
  pub encrypted_text : Option EncryptedText
  pub file : Option File

-- The `switch` of loadActive: exactly the payload row that the classification asks for.
unfoldable pub load_payload :
    PayloadKind
    → PrivacyMode
    → Option TextRow
    → Option EncryptedRow
    → Option FileRow
    → Result Error Payload
load_payload text standard (some t) none none = do
  format ← parse_or_corrupt (parse_text_format t.format)
  ok (record {
    text = some (record { format = format_string format; content = t.content });
    encrypted_text = none;
    file = none;
  })
load_payload text encrypted none (some e) none = do
  let value : EncryptedText = record {
    protocol = e.protocol;
    nonce = e.nonce;
    ciphertext = e.ciphertext;
  }
  validate_encrypted_text value
  ok (record { text = none; encrypted_text = some value; file = none })
load_payload file standard none none (some f) = do
  require (length f.content_sha256 == 32) payload_mismatch
  ok (record {
    text = none;
    encrypted_text = none;
    file = some (record {
      storage_key = f.storage_key;
      filename = f.original_filename;
      size = f.size_bytes;
      media_type = f.detected_media_type;
      sha256 = f.content_sha256;
    });
  })
load_payload _ _ _ _ _ = err payload_mismatch

abbrev pub parse_id : Bytes → Result Error ShareId
parse_id value = elim (parse_share_id value) [ ok id ↦ ok id | err _ ↦ err corrupt ]

unfoldable pub load_active : Env → Db → Bytes → ℕ → Result Error Share
load_active env db id now = do
  require (env.runs select_share) database
  row ← or_fail (find id db.shares) not_found
  refuse (is_expired (expiration_time row.expires_at) now) expired
  share_id ← parse_id id
  kind ← parse_or_corrupt (parse_payload_kind row.payload_kind)
  privacy ← parse_or_corrupt (parse_privacy_mode row.privacy_mode)
  payload ←
      load_payload kind privacy (find id db.texts) (find id db.encrypted_texts) (find id db.files)
  ok (record {
    id = share_id;
    payload_kind = kind;
    privacy_mode = privacy;
    text = payload.text;
    encrypted_text = payload.encrypted_text;
    file = payload.file;
    created_at = from_millis row.created_at;
    updated_at = from_millis row.updated_at;
    expires_at = expiration_time row.expires_at;
  })
