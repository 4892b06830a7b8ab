-- ===== src/Share/Owner/Patched.antt =====
-- What Update returns and what is read after it: the Share with the patch applied.
pub mod Rows
use u_paste.Prelude.{
  ℕ, ◌≡◌, ◌∙◌, ap, refl, sym, Option, none, some, true, arith, Bytes, bytes_eq_refl, ok, err, inl,
  inr, Result-cases, Option-cases, Bool-cases, bind-eq-ok, if◌then◌else◌,
}
use u_paste.Domain.{PayloadKind, PrivacyMode, text, file, standard, encrypted, is_expired}
use u_paste.Capability.{ShareId}
use u_paste.Database.{Db, ShareRow}
use u_paste.Database.Tables.{find, is_present, find-modify}
use u_paste.Database.Statements.{update_text, update_encrypted, update_share}
use u_paste.Share.{
  Env, Share, Text, EncryptedText, Patch, from_millis, truncate, server_now, select_share, expired,
  update_payload, update_metadata, validate_text, validate_encrypted_text,
  validate_updated_expiration,
}
use u_paste.Capability.{parse_share_id}
use u_paste.Domain.{parse_payload_kind, parse_privacy_mode}
use u_paste.Share.Load.{load_payload, load_active, expiration_time}
use u_paste.Share.Spells.{Spells, text_of, encrypted_text_of, load_active-Spells}
use u_paste.Share.Transactions.{transact_outcome, execute_one_row-eq-ok, execute_total_row-eq-ok}
use u_paste.Share.Create.{text_row, encrypted_row, get}
use u_paste.Share.CreateGet.{
  truncated, expiration_time-nullable_millis, kind_string-injective, privacy_string-injective,
}
use u_paste.Share.Owner.{
  authorize, update, update_body, update_payload_row, update_standard_text, update_encrypted_text,
  update_metadata_row, set_times, new_expiration, is_empty_patch,
}
use u_paste.Database.Tables.{Table}
use u_paste.Share.Authorized.{authorize-Authorized}
use u_paste.Share.Retention.{from_millis-truncate}
use u_paste.Share.Owner.Patched.Rows.{
  or_old, PayloadPatched, PayloadPatched-refl, update_standard_text-PayloadPatched,
  update_encrypted_text-PayloadPatched, update_payload_row-PayloadPatched, MetadataPatched,
  update_metadata_row-MetadataPatched, granted-truncated, set_times-expires,
}

-- The Share that the patch asks for.
abbrev pub patched : Share → Patch → ℕ → Share
patched old patch now = record old {
  text = or_old patch.text old.text;
  encrypted_text = or_old patch.encrypted_text old.encrypted_text;
  updated_at = now;
  expires_at = if patch.expiration_set then truncated patch.expires_at else old.expires_at;
}

-- Two Shares that spell the rows before and after the update.
Spells-patched :
    (env : Env) (id : Bytes) (patch : Patch) (created_at clock : ℕ) (row : ShareRow)
    (db db1 db2 : Db) (old share : Share)
    → PayloadPatched id patch.text patch.encrypted_text db db1
    → (m : MetadataPatched env id patch created_at (truncate clock) row db1 db2)
    → Spells id row (find id db.texts) (find id db.encrypted_texts) (find id db.files) old
    → Spells id
        (set_times patch m.expires (truncate clock) row)
        (find id db2.texts)
        (find id db2.encrypted_texts)
        (find id db2.files)
        share
    → share ≡ patched old patch (truncate clock)
Spells-patched env id patch created_at clock row db db1 db2 old share p m before after =
    let same_row : ((set_times patch m.expires (truncate clock) row).payload_kind
          ≡ row.payload_kind)
        × ((set_times patch m.expires (truncate clock) row).privacy_mode ≡ row.privacy_mode)
        × ((set_times patch m.expires (truncate clock) row).created_at ≡ row.created_at)
        × (from_millis (set_times patch m.expires (truncate clock) row).updated_at
            ≡ truncate clock) =
      unfold set_times in ground (arith, from_millis-truncate clock) in
    let (kind, privacy, created, updated) = same_row in
    ground (
      arith,
      before.id_eq,
      after.id_eq,
      kind_string-injective share.payload_kind old.payload_kind
          (after.kind_eq ∙ kind ∙ sym before.kind_eq),
      privacy_string-injective share.privacy_mode old.privacy_mode
          (after.privacy_eq ∙ privacy ∙ sym before.privacy_eq),
      before.text_eq,
      after.text_eq,
      p.texts,
      m.texts,
      before.encrypted_eq,
      after.encrypted_eq,
      p.encrypted_texts,
      m.encrypted_texts,
      before.file_eq,
      after.file_eq,
      p.files,
      m.files,
      before.created_eq,
      after.created_eq,
      created,
      after.updated_eq,
      updated,
      before.expires_eq,
      after.expires_eq,
      set_times-expires env patch created_at (truncate clock) row m.expires m.granted,
    )

update_body-patched :
    (env : Env) (id candidate : Bytes) (patch : Patch) (clock : ℕ) (db db' : Db) (old share : Share)
    → load_active env db id (truncate clock) ≡ ok old
    → update_body env id candidate patch (truncate clock) db ≡ ok (share, db')
    → (share ≡ patched old patch (truncate clock))
      × (load_active env db' id (truncate clock) ≡ ok share)
unfolding update_body
update_body-patched env id candidate patch clock db db' old share reads r =
    let now = truncate clock in
    let (found, z, r1) = bind-eq-ok (authorize env db id candidate now) _ r in
    let (db1, a, r2) =
      bind-eq-ok
        (update_payload_row env id found.kind found.privacy patch.text patch.encrypted_text db) _
        r1 in
    let (db2, b, r3) =
      bind-eq-ok (update_metadata_row env id patch found.created_at now db1) _ r2 in
    let (updated, c, r4) = bind-eq-ok (load_active env db2 id now) _ r3 in
    let same : db2 ≡ db' = ground (arith, r4) in
    let same_share : updated ≡ share = ground (arith, r4) in
    let auth = authorize-Authorized env db id candidate now found z in
    let p =
      update_payload_row-PayloadPatched env id found.kind found.privacy patch.text
        patch.encrypted_text db db1 a in
    let there : find id db1.shares ≡ some auth.row =
      ap (λ (t : Table ShareRow). find id t) p.shares ∙ auth.present in
    let m =
      update_metadata_row-MetadataPatched env id patch found.created_at now auth.row db1 db2 there
        b in
    (
      sym same_share
          ∙ Spells-patched env id patch found.created_at clock auth.row db db1 db2 old updated p m
              (load_active-Spells env db id now auth.row old auth.present reads)
              (load_active-Spells env db2 id now (set_times patch m.expires now auth.row) updated
                m.row_eq c),
      ap (λ z. load_active env z id now) (sym same) ∙ c ∙ ap ok same_share,
    )

-- What a read finds depends on the clock only through the expiration.
load_later :
    (env later : Env) (db : Db) (id : Bytes) (now now' : ℕ) (share : Share)
    → load_active env db id now ≡ ok share
    → later.runs select_share ≡ true
    → load_active later db id now'
      ≡ (if is_expired share.expires_at now' then err expired else ok share)
unfolding load_active
load_later env later db id now now' share h runs = elim (Option-cases (find id db.shares)) [
  | inl q ↦ absurd (ground (arith, q, h))
  | inr (row, q) ↦ elim (Result-cases (parse_share_id id)) [
    | inr (z, a) ↦ absurd (ground (arith, q, a, h))
    | inl (s, a) ↦ elim (Option-cases (parse_payload_kind row.payload_kind)) [
      | inl b ↦ absurd (ground (arith, q, a, b, h))
      | inr (k, b) ↦ elim (Option-cases (parse_privacy_mode row.privacy_mode)) [
        | inl c ↦ absurd (ground (arith, q, a, b, c, h))
        | inr (p, c) ↦
            elim (Result-cases (
              load_payload k p (find id db.texts) (find id db.encrypted_texts)
                (find id db.files))) [
                  | inr (z, d) ↦ absurd (ground (arith, q, a, b, c, d, h))
                  | inl (payload, d) ↦ ground (arith, q, a, b, c, d, h, runs)
                ]
      ]
    ]
  ]
]

-- If Get answered a Share and Update then returned, the Share that it returned is that one with
-- the patch applied and updated now, and a later Get whose query runs answers with it until it
-- expires, and that it expired from then on.
pub update-get :
    (env later : Env) (id : ShareId) (candidate : Bytes) (patch : Patch) (db db' : Db)
    (old share : Share)
    → get env db id ≡ ok old
    → update env id candidate patch db ≡ (ok share, db')
    → later.runs select_share ≡ true
    → (share ≡ patched old patch (server_now env))
      × (get later db' id
          ≡ (if is_expired share.expires_at (server_now later) then err expired else ok share))
unfolding update get server_now
update-get env later id candidate patch db db' old share reads r runs =
    elim (Bool-cases (is_empty_patch patch)) [
      | inl e ↦ absurd (ground (arith, e, r))
      | inr e ↦
          elim (transact_outcome env (update_body env id.value candidate patch (server_now env))
            db) [
              | inr (c, q) ↦ absurd (ground (arith, e, q, r))
              | inl (made, after, b, q) ↦
                  let same : made ≡ share = ground (arith, e, q, r) in
                  let same_db : after ≡ db' = ground (arith, e, q, r) in
                  let (patched_eq, loads) =
                    update_body-patched env id.value candidate patch env.clock db db' old share
                      reads
                      (b ∙ ap ok (ap (λ z. (z, after)) same ∙ ap (λ z. (share, z)) same_db)) in
                  (
                    patched_eq,
                    load_later env later db' id.value (server_now env) (server_now later) share
                        loads runs,
                  )
            ]
    ]
