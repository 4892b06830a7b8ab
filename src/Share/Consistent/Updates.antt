-- ===== src/Share/Consistent/Updates.antt =====
-- An update by an owner keeps the tables consistent.
use u_paste.Prelude.{
  ℕ, ◌≡◌, true, Option, none, some, arith, Bytes, bytes_eq_refl, ok, inl, inr, Bool-cases,
  bind-eq-ok,
}
use u_paste.Capability.{ShareId}
use u_paste.Domain.{PayloadKind, PrivacyMode, text, file, standard, encrypted}
use u_paste.Database.{Db, TextRow, EncryptedRow}
use u_paste.Database.Statements.{update_text, update_encrypted, update_share}
use u_paste.Database.Tables.{is_present, find-modify}
use u_paste.Share.{
  Env, Text, EncryptedText, Patch, Share, server_now, update_metadata, validate_text,
  validate_encrypted_text,
}
use u_paste.Share.Owner.{
  authorize, update_standard_text, update_encrypted_text, update_payload_row, update_metadata_row,
  update_body, update, set_times, is_empty_patch, new_expiration,
}
use u_paste.Share.Create.{text_row, encrypted_row}
use u_paste.Share.Load.{load_active}
use u_paste.Share.Transactions.{execute_one_row-eq-ok, execute_total_row-eq-ok, transact_keeps}
use u_paste.Share.Consistent.{fits, row_fits, payload_fits, fits_at, IsConsistent}
use u_paste.Share.Consistent.Frame.{
  Frame, Frame-refl, Frame-trans, IsConsistent-of_Frame, update_text-Frame, update_encrypted-Frame,
  update_share-Frame,
}

-- The tables fit at `id`, and nothing else has changed.
record Keeps (id : Bytes) (db db' : Db) : Type 0 where
  here : fits_at db' id ≡ true
  frame : Frame id db db'

update_text-Keeps :
    (id : Bytes) (row : TextRow) (db db' : Db) (n : ℕ)
    → fits_at db id ≡ true
    → update_text id row db ≡ some (db', n)
    → Keeps id db db'
update_text-Keeps id row db db' n h u = record {
  here =
      unfold update_text fits row_fits payload_fits is_present in
      ground (arith, bytes_eq_refl id, find-modify id id (λ _. row) db.texts);
  frame = update_text-Frame id row db db' n u;
}

update_encrypted-Keeps :
    (id : Bytes) (row : EncryptedRow) (db db' : Db) (n : ℕ)
    → fits_at db id ≡ true
    → update_encrypted id row db ≡ some (db', n)
    → Keeps id db db'
update_encrypted-Keeps id row db db' n h u = record {
  here =
      unfold update_encrypted fits row_fits payload_fits is_present in
      ground (arith, bytes_eq_refl id, find-modify id id (λ _. row) db.encrypted_texts);
  frame = update_encrypted-Frame id row db db' n u;
}

update_times-Keeps :
    (id : Bytes) (patch : Patch) (expires_at : Option ℕ) (now : ℕ) (db : Db)
    → fits_at db id ≡ true
    → Keeps id db (update_share id (set_times patch expires_at now) db).0
update_times-Keeps id patch expires_at now db h = record {
  here =
      unfold update_share fits row_fits is_present set_times in
      ground
        (arith, bytes_eq_refl id, find-modify id id (set_times patch expires_at now) db.shares);
  frame = update_share-Frame id (set_times patch expires_at now) db;
}

Keeps-refl : (id : Bytes) (db : Db) → fits_at db id ≡ true → Keeps id db db
Keeps-refl id db h = record { here = h; frame = Frame-refl id db }

module _ (env : Env) (id : Bytes) (db db' : Db) (h : fits_at db id ≡ true) where
  update_standard_text-Keeps :
      (t : Option Text) → update_standard_text env id t db ≡ ok db' → Keeps id db db'
  unfolding update_standard_text
  update_standard_text-Keeps none r =
      let same : db ≡ db' = ground arith in rw (← same) (Keeps-refl id db h)
  update_standard_text-Keeps (some t) r =
      let (u, _, r1) = bind-eq-ok (validate_text t) _ r in
      update_text-Keeps id (text_row t) db db' 1 h (execute_one_row-eq-ok env _ _ db' r1)

  update_encrypted_text-Keeps :
      (e : Option EncryptedText) → update_encrypted_text env id e db ≡ ok db' → Keeps id db db'
  unfolding update_encrypted_text
  update_encrypted_text-Keeps none r =
      let same : db ≡ db' = ground arith in rw (← same) (Keeps-refl id db h)
  update_encrypted_text-Keeps (some e) r =
      let (u, _, r1) = bind-eq-ok (validate_encrypted_text e) _ r in
      update_encrypted-Keeps id (encrypted_row e) db db' 1 h (execute_one_row-eq-ok env _ _ db' r1)

  update_payload_row-Keeps :
      (k : PayloadKind) (p : PrivacyMode) (t : Option Text) (e : Option EncryptedText)
      → update_payload_row env id k p t e db ≡ ok db'
      → Keeps id db db'
  unfolding update_payload_row
  update_payload_row-Keeps file p none none r =
      let same : db ≡ db' = ground arith in rw (← same) (Keeps-refl id db h)
  update_payload_row-Keeps text standard t none r = update_standard_text-Keeps t r
  update_payload_row-Keeps text encrypted none e r = update_encrypted_text-Keeps e r
  update_payload_row-Keeps _ _ _ _ r = cc

  update_metadata_row-Keeps :
      (patch : Patch) (created_at now : ℕ)
      → update_metadata_row env id patch created_at now db ≡ ok db'
      → Keeps id db db'
  unfolding update_metadata_row
  update_metadata_row-Keeps patch created_at now r =
      let (expires_at, _, r1) = bind-eq-ok (new_expiration env patch created_at now) _ r in
      let e =
        execute_total_row-eq-ok env update_metadata
          (update_share id (set_times patch expires_at now) db) db' r1 in
      rw e at (update_times-Keeps id patch expires_at now db h)

update_body-Keeps :
    (env : Env) (id candidate : Bytes) (patch : Patch) (now : ℕ) (db db' : Db) (share : Share)
    → fits_at db id ≡ true
    → update_body env id candidate patch now db ≡ ok (share, db')
    → Keeps id db db'
unfolding update_body
update_body-Keeps env id candidate patch now db db' share h r =
    let (found, _, r1) = bind-eq-ok (authorize env db id candidate now) _ r in
    let (db1, a, r2) =
      bind-eq-ok
        (update_payload_row env id found.kind found.privacy patch.text patch.encrypted_text db) _
        r1 in
    let (db2, b, r3) =
      bind-eq-ok (update_metadata_row env id patch found.created_at now db1) _ r2 in
    let (updated, c, r4) = bind-eq-ok (load_active env db2 id now) _ r3 in
    let k1 =
      update_payload_row-Keeps env id db db1 h found.kind found.privacy patch.text
        patch.encrypted_text a in
    let k2 = update_metadata_row-Keeps env id db1 db2 k1.here patch found.created_at now b in
    let same : db2 ≡ db' = ground (arith, r4) in
    rw (← same) (record { here = k2.here; frame = Frame-trans id db db1 db2 k1.frame k2.frame })

-- Update, returned or failed, keeps the database consistent.
pub update-IsConsistent :
    (env : Env) (id : ShareId) (candidate : Bytes) (patch : Patch) (db : Db)
    → IsConsistent db
    → IsConsistent (update env id candidate patch db).1
unfolding update
update-IsConsistent env id candidate patch db h = elim (Bool-cases (is_empty_patch patch)) [
  | inl e ↦ rw (e, update) h
  | inr e ↦
      rw (e, update)
        (transact_keeps IsConsistent env (update_body env id.value candidate patch (server_now env))
          db h
          λ share db' r.
            let k =
              update_body-Keeps env id.value candidate patch (server_now env) db db' share
                (h id.value) r in
            IsConsistent-of_Frame id.value h k.frame k.here)
]
