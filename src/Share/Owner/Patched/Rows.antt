-- ===== src/Share/Owner/Patched/Rows.antt =====
-- The rows of a Share after the statements of Update.
use u_paste.Prelude.{
  ℕ, ◌≡◌, refl, Option, none, some, true, arith, Bytes, bytes_eq_refl, ok, inl, inr, Option-cases,
  Bool-cases, bind-eq-ok, if◌then◌else◌,
}
use u_paste.Domain.{PayloadKind, PrivacyMode, text, file, standard, encrypted}
use u_paste.Database.{Db, ShareRow}
use u_paste.Database.Tables.{find, is_present, find-modify}
use u_paste.Database.Statements.{update_text, update_encrypted, update_share}
use u_paste.Share.{
  Env, Text, EncryptedText, Patch, truncate, update_payload, update_metadata, validate_text,
  validate_encrypted_text, validate_updated_expiration,
}
use u_paste.Share.Load.{expiration_time}
use u_paste.Share.Spells.{text_of, encrypted_text_of}
use u_paste.Share.Transactions.{execute_one_row-eq-ok, execute_total_row-eq-ok}
use u_paste.Share.Create.{text_row, encrypted_row}
use u_paste.Share.CreateGet.{truncated, expiration_time-nullable_millis}
use u_paste.Share.Owner.{
  update_payload_row, update_standard_text, update_encrypted_text, update_metadata_row, set_times,
  new_expiration,
}

abbrev pub or_old {ℓ} : {A : Type ℓ} → Option A → Option A → Option A
or_old none old = old
or_old (some new) old = some new

-- The rows at the id after the update of the payload.
pub record PayloadPatched (id : Bytes) (t : Option Text) (e : Option EncryptedText) (db db' : Db)
    : Type 0 where
  pub shares : db'.shares ≡ db.shares
  pub texts : text_of (find id db'.texts) ≡ or_old t (text_of (find id db.texts))
  pub encrypted_texts :
      encrypted_text_of (find id db'.encrypted_texts)
      ≡ or_old e (encrypted_text_of (find id db.encrypted_texts))
  pub files : find id db'.files ≡ find id db.files

pub PayloadPatched-refl : (id : Bytes) (db db' : Db) → db ≡ db' → PayloadPatched id none none db db'
PayloadPatched-refl id db db' e =
    rw (← e) (record { shares = refl; texts = refl; encrypted_texts = refl; files = refl })

pub update_standard_text-PayloadPatched :
    (env : Env) (id : Bytes) (t : Option Text) (db db' : Db)
    → update_standard_text env id t db ≡ ok db'
    → PayloadPatched id t none db db'
unfolding update_standard_text update_text is_present
update_standard_text-PayloadPatched env id none db db' r =
    PayloadPatched-refl id db db' (ground (arith, r))
update_standard_text-PayloadPatched env id (some t) db db' r =
    let (u, _, r1) = bind-eq-ok (validate_text t) _ r in
    let wrote = execute_one_row-eq-ok env update_payload (update_text id (text_row t) db) db' r1 in
    let m = find-modify id id (λ _. text_row t) db.texts in
    record {
      shares = ground (arith, wrote);
      texts = ground (arith, wrote, m, bytes_eq_refl id);
      encrypted_texts = ground (arith, wrote);
      files = ground (arith, wrote);
    }

pub update_encrypted_text-PayloadPatched :
    (env : Env) (id : Bytes) (e : Option EncryptedText) (db db' : Db)
    → update_encrypted_text env id e db ≡ ok db'
    → PayloadPatched id none e db db'
unfolding update_encrypted_text update_encrypted is_present
update_encrypted_text-PayloadPatched env id none db db' r =
    PayloadPatched-refl id db db' (ground (arith, r))
update_encrypted_text-PayloadPatched env id (some e) db db' r =
    let (u, _, r1) = bind-eq-ok (validate_encrypted_text e) _ r in
    let wrote =
      execute_one_row-eq-ok env update_payload (update_encrypted id (encrypted_row e) db) db' r1 in
    let m = find-modify id id (λ _. encrypted_row e) db.encrypted_texts in
    record {
      shares = ground (arith, wrote);
      texts = ground (arith, wrote);
      encrypted_texts = ground (arith, wrote, m, bytes_eq_refl id);
      files = ground (arith, wrote);
    }

pub update_payload_row-PayloadPatched :
    (env : Env) (id : Bytes) (k : PayloadKind) (p : PrivacyMode) (t : Option Text)
    (e : Option EncryptedText) (db db' : Db)
    → update_payload_row env id k p t e db ≡ ok db'
    → PayloadPatched id t e db db'
unfolding update_payload_row
update_payload_row-PayloadPatched env id file p none none db db' r =
    PayloadPatched-refl id db db' (ground (arith, r))
update_payload_row-PayloadPatched env id text standard t none db db' r =
    update_standard_text-PayloadPatched env id t db db' r
update_payload_row-PayloadPatched env id text encrypted none e db db' r =
    update_encrypted_text-PayloadPatched env id e db db' r
update_payload_row-PayloadPatched env id _ _ _ _ db db' r = cc

-- The row of the Share after the update of the metadata.
pub record MetadataPatched (env : Env) (id : Bytes) (patch : Patch) (created_at now : ℕ)
    (row : ShareRow) (db db' : Db) : Type 0 where
  pub expires : Option ℕ
  pub granted : new_expiration env patch created_at now ≡ ok expires
  pub row_eq : find id db'.shares ≡ some (set_times patch expires now row)
  pub texts : db'.texts ≡ db.texts
  pub encrypted_texts : db'.encrypted_texts ≡ db.encrypted_texts
  pub files : db'.files ≡ db.files

pub update_metadata_row-MetadataPatched :
    (env : Env) (id : Bytes) (patch : Patch) (created_at now : ℕ) (row : ShareRow) (db db' : Db)
    → find id db.shares ≡ some row
    → update_metadata_row env id patch created_at now db ≡ ok db'
    → MetadataPatched env id patch created_at now row db db'
unfolding update_metadata_row update_share is_present
update_metadata_row-MetadataPatched env id patch created_at now row db db' there r =
    let (x, a, r1) = bind-eq-ok (new_expiration env patch created_at now) _ r in
    let s =
      execute_total_row-eq-ok env update_metadata (update_share id (set_times patch x now) db) db'
        r1 in
    let m = find-modify id id (set_times patch x now) db.shares in
    record {
      expires = x;
      granted = a;
      row_eq = ground (arith, s, m, there, bytes_eq_refl id);
      texts = ground (arith, s, there);
      encrypted_texts = ground (arith, s, there);
      files = ground (arith, s, there);
    }

-- An expiration that an update accepts is the patch's, cut to milliseconds.
pub granted-truncated :
    (env : Env) (patch : Patch) (created_at now : ℕ) (x : Option ℕ)
    → new_expiration env patch created_at now ≡ ok x
    → patch.expiration_set ≡ true
    → truncated x ≡ truncated patch.expires_at
unfolding new_expiration validate_updated_expiration truncate
granted-truncated env patch created_at now x g s = elim (Option-cases patch.expires_at) [
  | inl none_given ↦ ground (arith, g, s, none_given)
  | inr (t, given) ↦ ground (arith, g, s, given)
]

pub set_times-expires :
    (env : Env) (patch : Patch) (created_at now : ℕ) (row : ShareRow) (x : Option ℕ)
    → new_expiration env patch created_at now ≡ ok x
    → expiration_time (set_times patch x now row).expires_at ≡ (
        if patch.expiration_set then truncated patch.expires_at else expiration_time row.expires_at)
unfolding set_times
set_times-expires env patch created_at now row x g = elim (Bool-cases patch.expiration_set) [
  | inr s ↦ ground (arith, s)
  | inl s ↦ ground (
    arith,
    s,
    expiration_time-nullable_millis x,
    granted-truncated env patch created_at now x g s,
  )
]
