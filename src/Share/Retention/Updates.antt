-- ===== src/Share/Retention/Updates.antt =====
-- An update cannot carry a Share past the public limit, counted from its creation.
use u_paste.Prelude.{
  ℕ, ◌≡◌, true, Option, none, some, arith, Bytes, ok, inl, inr, Bool-cases, bind-eq-ok, bytes_eq,
  bytes_eq_iff,
}
use u_paste.Capability.{ShareId}
use u_paste.Domain.{PayloadKind, PrivacyMode, text, file, standard, encrypted}
use u_paste.Database.{Db, ShareRow}
use u_paste.Database.Tables.{find, find-modify}
use u_paste.Database.Statements.{update_share, update_text, update_encrypted}
use u_paste.Share.{
  Env, Share, Text, EncryptedText, Patch, server_now, from_millis, update_metadata, update_payload,
  validate_text, validate_encrypted_text, validate_updated_expiration,
}
use u_paste.Share.Create.{text_row, encrypted_row}
use u_paste.Share.Owner.{
  authorize, set_times, new_expiration, update_metadata_row, update_payload_row,
  update_standard_text, update_encrypted_text, update_body, update, is_empty_patch,
}
use u_paste.Share.Load.{load_active}
use u_paste.Share.Transactions.{execute_one_row-eq-ok, execute_total_row-eq-ok, transact_keeps}
use u_paste.Share.Authorized.{authorize-Authorized}
use u_paste.Share.Retention.{validate_public_bounds}
use u_paste.Share.Retention.Stored.{is_retained, AreRetained}

update_standard_text-shares :
    (env : Env) (id : Bytes) (t : Option Text) (db db' : Db)
    → update_standard_text env id t db ≡ ok db'
    → db'.shares ≡ db.shares
unfolding update_standard_text update_text
update_standard_text-shares env id none db db' r = ground arith
update_standard_text-shares env id (some t) db db' r =
    let (u, _, r1) = bind-eq-ok (validate_text t) _ r in
    ground (arith, execute_one_row-eq-ok env update_payload (update_text id (text_row t) db) db' r1)

update_encrypted_text-shares :
    (env : Env) (id : Bytes) (e : Option EncryptedText) (db db' : Db)
    → update_encrypted_text env id e db ≡ ok db'
    → db'.shares ≡ db.shares
unfolding update_encrypted_text update_encrypted
update_encrypted_text-shares env id none db db' r = ground arith
update_encrypted_text-shares env id (some e) db db' r =
    let (u, _, r1) = bind-eq-ok (validate_encrypted_text e) _ r in
    ground (
      arith,
      execute_one_row-eq-ok env update_payload (update_encrypted id (encrypted_row e) db) db' r1,
    )

pub update_payload_row-shares :
    (env : Env) (id : Bytes) (k : PayloadKind) (p : PrivacyMode) (t : Option Text)
    (e : Option EncryptedText) (db db' : Db)
    → update_payload_row env id k p t e db ≡ ok db'
    → db'.shares ≡ db.shares
unfolding update_payload_row
update_payload_row-shares env id file p none none db db' r = ground arith
update_payload_row-shares env id text standard t none db db' r =
    update_standard_text-shares env id t db db' r
update_payload_row-shares env id text encrypted none e db db' r =
    update_encrypted_text-shares env id e db db' r
update_payload_row-shares env id _ _ _ _ db db' r = cc

module _ (env : Env) (is_public : env.retention_policy.public ≡ true) (patch : Patch)
    (now : ℕ) where
  abbrev max : ℕ
  max = env.retention_policy.max_ttl

  set_times-is_retained :
      (row : ShareRow) (created_at : ℕ) (x : Option ℕ)
      → created_at ≡ from_millis row.created_at
      → new_expiration env patch created_at now ≡ ok x
      → is_retained max row ≡ true
      → is_retained max (set_times patch x now row) ≡ true
  unfolding is_retained set_times new_expiration
  set_times-is_retained row created_at x c r h = elim (Bool-cases patch.expiration_set) [
    | inr s ↦ ground (arith, s)
    | inl s ↦
        let v : validate_updated_expiration env.retention_policy patch.expires_at created_at now
            ≡ ok x =
          ground (arith, s, r) in
        let (e, q, lo, hi) =
          validate_public_bounds env.retention_policy patch.expires_at created_at now x is_public
            v in
        ground (arith, s, q, c, hi)
  ]

  update_metadata_row-AreRetained :
      (id : Bytes) (row : ShareRow) (created_at : ℕ) (db db' : Db)
      → find id db.shares ≡ some row
      → created_at ≡ from_millis row.created_at
      → update_metadata_row env id patch created_at now db ≡ ok db'
      → AreRetained max db
      → AreRetained max db'
  unfolding update_metadata_row
  update_metadata_row-AreRetained id row created_at db db' e c r h j other q =
      let (x, a, r1) = bind-eq-ok (new_expiration env patch created_at now) _ r in
      let s =
        execute_total_row-eq-ok env update_metadata (update_share id (set_times patch x now) db) db'
          r1 in
      let m = find-modify id j (set_times patch x now) db.shares in
      elim (Bool-cases (bytes_eq id j)) [
        | inr differ ↦ h j other (unfold update_share in ground (arith, differ, q, s, m))
        | inl same ↦
            let here : id ≡ j = (bytes_eq_iff id j).0 same in
            let before : find j db.shares ≡ some row = rw here at e in
            let t : set_times patch x now row ≡ other =
              unfold update_share in ground (arith, same, q, s, m, before) in
            rw (← t) (set_times-is_retained row created_at x c a (h j row before))
      ]

update_body-AreRetained :
    (env : Env) (id candidate : Bytes) (patch : Patch) (now : ℕ) (db db' : Db) (share : Share)
    → env.retention_policy.public ≡ true
    → AreRetained env.retention_policy.max_ttl db
    → update_body env id candidate patch now db ≡ ok (share, db')
    → AreRetained env.retention_policy.max_ttl db'
unfolding update_body
update_body-AreRetained env id candidate patch now db db' share p h r =
    let (found, o, r1) = bind-eq-ok (authorize env db id candidate now) _ r in
    let (db1, a, r2) =
      bind-eq-ok
        (update_payload_row env id found.kind found.privacy patch.text patch.encrypted_text db) _
        r1 in
    let (db2, b, r3) =
      bind-eq-ok (update_metadata_row env id patch found.created_at now db1) _ r2 in
    let (updated, c, r4) = bind-eq-ok (load_active env db2 id now) _ r3 in
    let w = authorize-Authorized env db id candidate now found o in
    let s =
      update_payload_row-shares env id found.kind found.privacy patch.text patch.encrypted_text db
        db1 a in
    let same : db2 ≡ db' = ground (arith, r4) in
    rw same at (
      update_metadata_row-AreRetained env p patch now id w.row found.created_at db1 db2
        (rw s w.present) w.created b (λ j row q. h j row (rw (← s) q)))

-- In public mode, if every stored Share has an expiration within the maximum after its creation,
-- so it is after Update, returned or failed.
pub update-AreRetained :
    (env : Env) (id : ShareId) (candidate : Bytes) (patch : Patch) (db : Db)
    → env.retention_policy.public ≡ true
    → AreRetained env.retention_policy.max_ttl db
    → AreRetained env.retention_policy.max_ttl (update env id candidate patch db).1
unfolding update
update-AreRetained env id candidate patch db p h = elim (Bool-cases (is_empty_patch patch)) [
  | inl e ↦ rw (e, update) h
  | inr e ↦
      rw (e, update)
        (transact_keeps (AreRetained env.retention_policy.max_ttl) env
          (update_body env id.value candidate patch (server_now env)) db h
          λ share db' r.
            update_body-AreRetained env id.value candidate patch (server_now env) db db' share p h
              r)
]
