-- ===== src/Share/Owner.antt =====
-- AuthorizeOwner and Update of internal/share/service.go: what the holder of an owner
-- token may do.
pub mod Patched
use u_paste.Prelude.{
  ℕ, Bool, true, false, Option, none, some, ◌&&◌, not, Bytes, Result, ok, err, ◌>>=◌, ◌>>◌, require,
  if◌then◌else◌,
}
use u_paste.Domain.{PayloadKind, PrivacyMode, text, file, standard, encrypted}
use u_paste.Capability.{ShareId, verify_owner_token}
use u_paste.Database.{Db, ShareRow}
use u_paste.Database.Statements.{update_text, update_encrypted, update_share}
use u_paste.Share.{
  Share, Text, EncryptedText, Patch, Env, Error, update_payload, update_metadata, unauthorized,
  empty_patch, payload_mismatch, to_millis, server_now, validate_text, validate_encrypted_text,
  validate_updated_expiration,
}
use u_paste.Share.Load.{Authorization, load_authorization, load_active}
use u_paste.Share.Create.{nullable_millis, text_row, encrypted_row}
use u_paste.Share.Transactions.{execute, require_one_row, transact}

-- loadAuthorization and VerifyOwnerToken, which every owner operation starts with.
unfoldable pub authorize : Env → Db → Bytes → Bytes → ℕ → Result Error Authorization
authorize env db id candidate now = do
  found ← load_authorization env db id now
  require (verify_owner_token env.sha256 candidate found.verifier) unauthorized
  ok found

unfoldable pub authorize_owner :
    Env → Db → ShareId → Bytes → Result Error (PayloadKind × PrivacyMode)
unfolding authorize server_now
authorize_owner env db id candidate = do
  found ← authorize env db id.value candidate (server_now env)
  ok (found.kind, found.privacy)

unfoldable pub update_standard_text : Env → Bytes → Option Text → Db → Result Error Db
unfolding validate_text update_text execute require_one_row
update_standard_text env id none db = ok db
update_standard_text env id (some t) db = do
  validate_text t
  result ← execute env update_payload (update_text id (text_row t) db)
  require_one_row result

unfoldable pub update_encrypted_text : Env → Bytes → Option EncryptedText → Db → Result Error Db
unfolding validate_encrypted_text update_encrypted execute require_one_row
update_encrypted_text env id none db = ok db
update_encrypted_text env id (some e) db = do
  validate_encrypted_text e
  result ← execute env update_payload (update_encrypted id (encrypted_row e) db)
  require_one_row result

-- The `switch` of Update: a payload of the wrong sort is refused before anything is written.
unfoldable pub update_payload_row :
    Env
    → Bytes
    → PayloadKind
    → PrivacyMode
    → Option Text
    → Option EncryptedText
    → Db
    → Result Error Db
unfolding update_standard_text update_encrypted_text
update_payload_row env id file _ none none db = ok db
update_payload_row env id file _ _ _ db = err payload_mismatch
update_payload_row env id text standard t none db = update_standard_text env id t db
update_payload_row env id text standard _ (some _) db = err payload_mismatch
update_payload_row env id text encrypted none e db = update_encrypted_text env id e db
update_payload_row env id text encrypted (some _) _ db = err payload_mismatch

-- The columns that an update of the metadata sets.
unfoldable pub set_times : Patch → Option ℕ → ℕ → ShareRow → ShareRow
set_times patch expires_at now row =
    if patch.expiration_set
    then record row { updated_at = to_millis now; expires_at = nullable_millis expires_at }
    else record row { updated_at = to_millis now }

-- The new expiration, if the patch sets one.
unfoldable pub new_expiration : Env → Patch → ℕ → ℕ → Result Error (Option ℕ)
unfolding validate_updated_expiration
new_expiration env patch created_at now =
    if patch.expiration_set
    then validate_updated_expiration env.retention_policy patch.expires_at created_at now
    else ok none

unfoldable pub update_metadata_row : Env → Bytes → Patch → ℕ → ℕ → Db → Result Error Db
unfolding new_expiration update_share execute require_one_row set_times
update_metadata_row env id patch created_at now db = do
  expires_at ← new_expiration env patch created_at now
  result ← execute env update_metadata (some (update_share id (set_times patch expires_at now) db))
  require_one_row result

unfoldable pub update_body : Env → Bytes → Bytes → Patch → ℕ → Db → Result Error (Share × Db)
unfolding authorize update_payload_row update_metadata_row load_active
update_body env id candidate patch now db = do
  found ← authorize env db id candidate now
  with_payload ←
      update_payload_row env id found.kind found.privacy patch.text patch.encrypted_text db
  with_metadata ← update_metadata_row env id patch found.created_at now with_payload
  updated ← load_active env with_metadata id now
  ok (updated, with_metadata)

abbrev pub is_some : {A : Type 0} → Option A → Bool
is_some none = false
is_some (some _) = true

unfoldable pub is_empty_patch : Patch → Bool
is_empty_patch patch =
    not (is_some patch.text) && (not (is_some patch.encrypted_text) && not patch.expiration_set)

unfoldable pub update : Env → ShareId → Bytes → Patch → Db → Result Error Share × Db
unfolding update_body transact server_now is_empty_patch
update env id candidate patch db =
    if is_empty_patch patch
    then (err empty_patch, db)
    else transact env (update_body env id.value candidate patch (server_now env)) db
