-- ===== src/Share/Consistent/Creates.antt =====
-- Creating a text Share keeps the tables consistent.
use u_paste.Prelude.{
  ℕ, ◌≡◌, true, Option, none, some, arith, Bytes, bytes_eq_refl, bytes_eq_iff, length, ok, inl, inr,
  Result-cases, bind-eq-ok, All, IsByte,
}
use u_paste.Domain.{PrivacyMode, text, standard, encrypted, kind_string, privacy_string}
use u_paste.Domain.Laws.{kind_string-parses, privacy_string-parses}
use u_paste.Capability.{ShareId, OwnerToken, generate_share_id, share_id_bytes, verifier}
use u_paste.Capability.Canonical.{generate_share_id-parses}
use u_paste.Database.{
  Db, ShareRow, TextRow, EncryptedRow, text_checks, encrypted_checks, accepts, share_checks,
}
use u_paste.Database.Statements.{insert_share, insert_text, insert_encrypted}
use u_paste.Database.Tables.{find, is_present}
use u_paste.Share.{
  Share, Text, EncryptedText, Env, CreateInput, EncryptedCreateInput, validate_text,
  validate_encrypted_text,
}
use u_paste.Share.Create.{
  metadata_row, insert_metadata_row, insert_payload_row, insert, insert_body, create_text, create,
  create_encrypted, draft,
}
use u_paste.Share.Transactions.{execute-eq-ok, transact_keeps}
use u_paste.Share.Consistent.Frame.{
  IsConsistent-of_Frame, Frame-trans, insert_share-Frame, insert_text-Frame, insert_encrypted-Frame,
  fits_at_of_rows,
}
use u_paste.Share.Consistent.{fits, row_fits, payload_fits, is_share_id, fits_at, IsConsistent}

-- With no Share under an id, a consistent table has no payload under it.
pub absent_payloads :
    (db : Db) (id : Bytes)
    → fits_at db id ≡ true
    → find id db.shares ≡ none
    → (find id db.texts ≡ none) × (find id db.encrypted_texts ≡ none) × (find id db.files ≡ none)
unfolding fits
absent_payloads db id h e = ground arith

text_row_fits :
    (id : Bytes) (row : ShareRow) (t : TextRow)
    → is_share_id id ≡ true
    → share_checks id row ≡ true
    → accepts (kind_string text) (privacy_string standard) (some row) ≡ true
    → text_checks t ≡ true
    → fits id (some row) (some t) none none ≡ true
unfolding fits row_fits payload_fits accepts
text_row_fits id row t v c a p =
    unfold share_checks in
    ground (
      arith,
      kind_string-parses text,
      privacy_string-parses standard,
      bytes_eq_iff row.payload_kind (kind_string text),
      bytes_eq_iff row.privacy_mode (privacy_string standard),
    )

encrypted_row_fits :
    (id : Bytes) (row : ShareRow) (t : EncryptedRow)
    → is_share_id id ≡ true
    → share_checks id row ≡ true
    → accepts (kind_string text) (privacy_string encrypted) (some row) ≡ true
    → encrypted_checks t ≡ true
    → fits id (some row) none (some t) none ≡ true
unfolding fits row_fits payload_fits accepts
encrypted_row_fits id row t v c a p =
    unfold share_checks in
    ground (
      arith,
      kind_string-parses text,
      privacy_string-parses encrypted,
      bytes_eq_iff row.payload_kind (kind_string text),
      bytes_eq_iff row.privacy_mode (privacy_string encrypted),
    )

module _ (db db' db'' : Db) (id : Bytes) (row : ShareRow) (v : is_share_id id ≡ true)
    (h : IsConsistent db) (a : insert_share id row db ≡ some db') where
  insert_text-IsConsistent : (t : TextRow) → insert_text id t db' ≡ some db'' → IsConsistent db''
  unfolding insert_share insert_text find is_present
  insert_text-IsConsistent t b =
      IsConsistent-of_Frame id h
        (Frame-trans id db db' db'' (insert_share-Frame id row db db' a)
          (insert_text-Frame id t db' db'' b))
        (fits_at_of_rows db'' id {s = some row} {t = some t} {e = none} {f = none}
          (ground (arith, bytes_eq_refl id, a, b)) (ground (arith, bytes_eq_refl id, a, b))
          (ground (arith, bytes_eq_refl id, a, b, absent_payloads db id (h id)))
          (ground (arith, bytes_eq_refl id, a, b, absent_payloads db id (h id)))
          (text_row_fits id row t v (ground (arith, a)) (ground (arith, a, b, bytes_eq_refl id))
            (ground (arith, a, b))))

  insert_encrypted-IsConsistent :
      (t : EncryptedRow) → insert_encrypted id t db' ≡ some db'' → IsConsistent db''
  unfolding insert_share insert_encrypted find is_present
  insert_encrypted-IsConsistent t b =
      IsConsistent-of_Frame id h
        (Frame-trans id db db' db'' (insert_share-Frame id row db db' a)
          (insert_encrypted-Frame id t db' db'' b))
        (fits_at_of_rows db'' id {s = some row} {t = none} {e = some t} {f = none}
          (ground (arith, bytes_eq_refl id, a, b))
          (ground (arith, bytes_eq_refl id, a, b, absent_payloads db id (h id)))
          (ground (arith, bytes_eq_refl id, a, b))
          (ground (arith, bytes_eq_refl id, a, b, absent_payloads db id (h id)))
          (encrypted_row_fits id row t v (ground (arith, a))
            (ground (arith, a, b, bytes_eq_refl id)) (ground (arith, a, b))))

insert_payload_row-IsConsistent :
    (env : Env) (db db' db'' : Db) (id : Bytes) (row : ShareRow) (p : PrivacyMode) (t : Option Text)
    (e : Option EncryptedText)
    → is_share_id id ≡ true
    → IsConsistent db
    → insert_share id row db ≡ some db'
    → insert_payload_row env id p t e db' ≡ ok db''
    → IsConsistent db''
unfolding insert_payload_row
insert_payload_row-IsConsistent env db db' db'' id row standard (some t) none v h a b =
    insert_text-IsConsistent db db' db'' id row v h a _ (execute-eq-ok env _ _ db'' b)
insert_payload_row-IsConsistent env db db' db'' id row encrypted none (some e) v h a b =
    insert_encrypted-IsConsistent db db' db'' id row v h a _ (execute-eq-ok env _ _ db'' b)
insert_payload_row-IsConsistent env db db' db'' id row _ _ _ v h a b = cc

module _ (env : Env) (value : Share) (owner_verifier : Bytes)
    (v : is_share_id value.id.value ≡ true) where
  insert_body-IsConsistent :
      (db db'' : Db)
      → IsConsistent db
      → insert_body env value owner_verifier db ≡ ok (tt, db'')
      → IsConsistent db''
  unfolding insert_body
  insert_body-IsConsistent db db'' h r =
      let (db', a, r') = bind-eq-ok (insert_metadata_row env value owner_verifier db) _ r in
      let (db3, b, r'') =
        bind-eq-ok
          (insert_payload_row env value.id.value value.privacy_mode value.text value.encrypted_text
            db')
          _ r' in
      insert_payload_row-IsConsistent env db db' db'' value.id.value
        (metadata_row value owner_verifier) value.privacy_mode value.text value.encrypted_text v h
        (unfold insert_metadata_row in execute-eq-ok env _ _ db' a) (ground (arith, b, r''))

  insert-IsConsistent :
      (db : Db) → IsConsistent db → IsConsistent (insert env value owner_verifier db).1
  unfolding insert
  insert-IsConsistent db h =
      transact_keeps IsConsistent env (insert_body env value owner_verifier) db h
        λ _ db'' r. insert_body-IsConsistent db db'' h r

-- The random bytes are bytes, as many as were asked for.
abbrev pub IsRandom : ℕ → Option Bytes → Type 0
IsRandom n none = Unit
IsRandom n (some raw) = All IsByte raw × (length raw ≡ n)

pub generated-is_share_id :
    (random : Option Bytes) (id : ShareId)
    → IsRandom share_id_bytes random
    → generate_share_id random ≡ ok id
    → is_share_id id.value ≡ true
generated-is_share_id none id r e = unfold generate_share_id in ground (arith, e)
generated-is_share_id (some raw) id r e =
    let (id', g, p) = generate_share_id-parses raw r.0 r.1 in
    unfold is_share_id in ground (arith, e, g, p)

module _ (env : Env) (random : IsRandom share_id_bytes env.random_id) where
  draft-is_share_id :
      (p : PrivacyMode) (t : Option Text) (e : Option EncryptedText) (x : Option ℕ) (share : Share)
      (token : OwnerToken)
      → draft env p t e x ≡ ok (share, token)
      → is_share_id share.id.value ≡ true
  draft-is_share_id p t e x share token h =
      generated-is_share_id env.random_id share.id random (unfold draft in ground (arith, h))

  create_text-IsConsistent :
      (p : PrivacyMode) (t : Option Text) (e : Option EncryptedText) (x : Option ℕ) (db : Db)
      → IsConsistent db
      → IsConsistent (create_text env p t e x db).1
  unfolding create_text
  create_text-IsConsistent p t e x db h = elim (Result-cases (draft env p t e x)) [
    | inr (c, r) ↦ rw (r, create_text) h
    | inl ((share, token), r) ↦
        rw (r, create_text)
          (insert-IsConsistent env share (verifier env.sha256 token)
            (draft-is_share_id p t e x share token r) db h)
  ]

  -- Create, returned or failed, keeps the database consistent, if rand gives sixteen bytes for
  -- the Share ID or fails.
  pub create-IsConsistent :
      (input : CreateInput) (db : Db) → IsConsistent db → IsConsistent (create env input db).1
  unfolding create
  create-IsConsistent input db h = elim (Result-cases (validate_text input.text)) [
    | inr (c, r) ↦ rw (r, create) h
    | inl (u, r) ↦ rw (r, create) (create_text-IsConsistent _ _ _ _ db h)
  ]

  -- CreateEncrypted, returned or failed, keeps the database consistent, if rand gives sixteen
  -- bytes for the Share ID or fails.
  pub create_encrypted-IsConsistent :
      (input : EncryptedCreateInput) (db : Db)
      → IsConsistent db
      → IsConsistent (create_encrypted env input db).1
  unfolding create_encrypted
  create_encrypted-IsConsistent input db h =
      elim (Result-cases (validate_encrypted_text input.encrypted_text)) [
        | inr (c, r) ↦ rw (r, create_encrypted) h
        | inl (u, r) ↦ rw (r, create_encrypted) (create_text-IsConsistent _ _ _ _ db h)
      ]
