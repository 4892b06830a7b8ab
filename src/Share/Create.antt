-- ===== src/Share/Create.antt =====
-- Create and CreateEncrypted of internal/share/service.go, with `create`, `insert` and
-- `insertMetadata` below them, and Get.
use u_paste.Prelude.{ℕ, Option, none, some, Bytes, Result, ok, err, ◌>>=◌}
use u_paste.Domain.{PrivacyMode, text, standard, encrypted, kind_string, privacy_string}
use u_paste.Capability.{
  ShareId, OwnerToken, Error as CapabilityError, generate_share_id, generate_owner_token, verifier,
}
use u_paste.Database.{Db, ShareRow, TextRow, EncryptedRow}
use u_paste.Database.Statements.{insert_share, insert_text, insert_encrypted}
use u_paste.Share.{
  Share, Text, EncryptedText, CreateInput, EncryptedCreateInput, Env, Error, insert_metadata,
  insert_payload, payload_mismatch, no_randomness, to_millis, server_now, validate_text,
  validate_encrypted_text, normalize_expiration,
}
use u_paste.Share.Load.{load_active}
use u_paste.Share.Transactions.{execute, transact}

abbrev pub nullable_millis : Option ℕ → Option ℕ
nullable_millis none = none
nullable_millis (some t) = some (to_millis t)

abbrev pub text_row : Text → TextRow
text_row t = record { format = t.format; content = t.content }

abbrev pub encrypted_row : EncryptedText → EncryptedRow
encrypted_row e = record { protocol = e.protocol; nonce = e.nonce; ciphertext = e.ciphertext }

-- The row that `insertMetadata` writes.
unfoldable pub metadata_row : Share → Bytes → ShareRow
unfolding kind_string privacy_string
metadata_row value owner_verifier = record {
  payload_kind = kind_string value.payload_kind;
  privacy_mode = privacy_string value.privacy_mode;
  owner_token_verifier = owner_verifier;
  created_at = to_millis value.created_at;
  updated_at = to_millis value.updated_at;
  expires_at = nullable_millis value.expires_at;
}

unfoldable pub insert_metadata_row : Env → Share → Bytes → Db → Result Error Db
unfolding execute metadata_row insert_share
insert_metadata_row env value owner_verifier db =
    execute env insert_metadata (insert_share value.id.value (metadata_row value owner_verifier) db)

unfoldable pub insert_payload_row :
    Env → Bytes → PrivacyMode → Option Text → Option EncryptedText → Db → Result Error Db
unfolding execute insert_text insert_encrypted
insert_payload_row env id standard (some t) none db =
    execute env insert_payload (insert_text id (text_row t) db)
insert_payload_row env id encrypted none (some e) db =
    execute env insert_payload (insert_encrypted id (encrypted_row e) db)
insert_payload_row env id _ _ _ db = err payload_mismatch

unfoldable pub insert_body : Env → Share → Bytes → Db → Result Error (Unit {0} × Db)
unfolding insert_metadata_row insert_payload_row
insert_body env value owner_verifier db = do
  with_share ← insert_metadata_row env value owner_verifier db
  with_payload ←
      insert_payload_row env value.id.value value.privacy_mode value.text value.encrypted_text
        with_share
  ok (tt, with_payload)

unfoldable pub insert : Env → Share → Bytes → Db → Result Error (Unit {0}) × Db
unfolding insert_body transact
insert env value owner_verifier db = transact env (insert_body env value owner_verifier) db

abbrev pub or_no_randomness {ℓ} : {A : Type ℓ} → Result CapabilityError A → Result Error A
or_no_randomness (ok a) = ok a
or_no_randomness (err e) = err no_randomness

-- The Share and the token that `create` makes, before anything is written.
unfoldable pub draft :
    Env
    → PrivacyMode
    → Option Text
    → Option EncryptedText
    → Option ℕ
    → Result Error (Share × OwnerToken)
unfolding server_now normalize_expiration generate_share_id generate_owner_token
draft env privacy plain_text encrypted_text expiration = do
  let now = server_now env
  expires_at ← normalize_expiration env.retention_policy expiration now
  id ← or_no_randomness (generate_share_id env.random_id)
  token ← or_no_randomness (generate_owner_token env.random_token)
  ok (
    record {
      id = id;
      payload_kind = text;
      privacy_mode = privacy;
      text = plain_text;
      encrypted_text = encrypted_text;
      file = none;
      created_at = now;
      updated_at = now;
      expires_at = expires_at;
    },
    token,
  )

-- What `create` returns, given what `insert` did.
abbrev pub with_result {ℓ κ} :
    {A : Type ℓ} {B : Type κ} → B → Result Error A × Db → Result Error B × Db
with_result b r = (elim r.0 [ ok _ ↦ ok b | err e ↦ err e ], r.1)

unfoldable pub create_text :
    Env
    → PrivacyMode
    → Option Text
    → Option EncryptedText
    → Option ℕ
    → Db
    → Result Error (Share × OwnerToken) × Db
unfolding draft insert verifier
create_text env privacy plain_text encrypted_text expiration db =
    elim (draft env privacy plain_text encrypted_text expiration) [
      | err e ↦ (err e, db)
      | ok (share, token) ↦
          with_result (share, token) (insert env share (verifier env.sha256 token) db)
    ]

unfoldable pub create : Env → CreateInput → Db → Result Error (Share × OwnerToken) × Db
unfolding create_text validate_text
create env input db = elim (validate_text input.text) [
  | err e ↦ (err e, db)
  | ok _ ↦ create_text env standard (some input.text) none input.expires_at db
]

unfoldable pub create_encrypted :
    Env → EncryptedCreateInput → Db → Result Error (Share × OwnerToken) × Db
unfolding create_text validate_encrypted_text
create_encrypted env input db = elim (validate_encrypted_text input.encrypted_text) [
  | err e ↦ (err e, db)
  | ok _ ↦ create_text env encrypted none (some input.encrypted_text) input.expires_at db
]

unfoldable pub get : Env → Db → ShareId → Result Error Share
unfolding load_active server_now
get env db id = load_active env db id.value (server_now env)
