-- ===== src/Share/Consistent.antt =====
-- The invariant of the tables: every Share has a valid id and classification and exactly the
-- payload row that its classification asks for, and no payload row stands without its Share.
pub mod Frame
pub mod Creates
pub mod Files
pub mod Updates
pub mod Deletes
use u_paste.Prelude.{
  ℕ, ◌≡◌, refl, Bool, true, false, ◌&&◌, Option, none, some, List, [], ◌∷◌, arith, ◌==◌,
  if◌then◌else◌, Bytes, bytes_eq, bytes_eq_iff, length, Result, ok, err, inl, inr, ◌⊎◌, Bool-cases,
  Option-cases, Result-cases, is_ok, ok_of_is_ok,
}
use u_paste.Domain.{
  PayloadKind, PrivacyMode, text, file, standard, encrypted, kind_string, privacy_string,
  format_string, parse_payload_kind, parse_privacy_mode, parse_text_format, is_expired,
}
use u_paste.Capability.{ShareId, parse_share_id}
use u_paste.Database.{
  Db, ShareRow, TextRow, EncryptedRow, FileRow, text_checks, encrypted_checks, file_checks, empty,
  between,
}
use u_paste.Database.Tables.{find}
use u_paste.Share.{Share, Env, Error, select_share, not_found, expired, validate_encrypted_text}
use u_paste.Share.Spells.{Spells, load_active-Spells}
use u_paste.Share.Load.{load_active, load_payload, Payload, expiration_time}

-- The payload rows that a classification asks for, with their CHECKs.
unfoldable pub payload_fits :
    PayloadKind → PrivacyMode → Option TextRow → Option EncryptedRow → Option FileRow → Bool
payload_fits text standard (some t) none none = text_checks t
payload_fits text encrypted none (some e) none = encrypted_checks e
payload_fits file standard none none (some f) = file_checks f
payload_fits _ _ _ _ _ = false

unfoldable pub is_share_id : Bytes → Bool
is_share_id id = elim (parse_share_id id) [ ok _ ↦ true | err _ ↦ false ]

-- A row of `shares`, apart from its payload.
unfoldable pub row_fits :
    Bytes → ShareRow → Option TextRow → Option EncryptedRow → Option FileRow → Bool
row_fits id row t e f = elim (parse_payload_kind row.payload_kind) [
  | none ↦ false
  | some kind ↦ elim (parse_privacy_mode row.privacy_mode) [
    | none ↦ false
    | some privacy ↦
        is_share_id id
        && ((length row.owner_token_verifier == 32) && payload_fits kind privacy t e f)
  ]
]

unfoldable pub fits :
    Bytes → Option ShareRow → Option TextRow → Option EncryptedRow → Option FileRow → Bool
unfolding row_fits
fits id (some row) t e f = row_fits id row t e f
fits id none none none none = true
fits id none _ _ _ = false

abbrev pub fits_at : Db → Bytes → Bool
fits_at db id =
    fits id (find id db.shares) (find id db.texts) (find id db.encrypted_texts) (find id db.files)

abbrev pub IsConsistent : Db → Type 0
IsConsistent db = (id : Bytes) → fits_at db id ≡ true

pub IsConsistent-empty : IsConsistent empty
unfolding fits find
IsConsistent-empty id = refl

load_payload-fits :
    (k : PayloadKind) (p : PrivacyMode) (t : Option TextRow) (e : Option EncryptedRow)
    (f : Option FileRow)
    → payload_fits k p t e f ≡ true
    → is_ok (load_payload k p t e f) ≡ true
unfolding payload_fits load_payload
load_payload-fits text standard (some t) none none h =
    unfold text_checks parse_text_format in ground arith
load_payload-fits text encrypted none (some e) none h =
    unfold encrypted_checks validate_encrypted_text in ground arith
load_payload-fits file standard none none (some f) h = unfold file_checks in ground arith
load_payload-fits _ _ _ _ _ h = cc

-- What a row that fits says of its columns.
pub record Fit (id : Bytes) (row : ShareRow) (t : Option TextRow) (e : Option EncryptedRow)
    (f : Option FileRow) : Type 0 where
  pub kind : PayloadKind
  pub privacy : PrivacyMode
  pub share_id : ShareId
  pub kind_parses : parse_payload_kind row.payload_kind ≡ some kind
  pub privacy_parses : parse_privacy_mode row.privacy_mode ≡ some privacy
  pub id_parses : parse_share_id id ≡ ok share_id
  pub verifier_length : length row.owner_token_verifier ≡ 32
  pub payload : payload_fits kind privacy t e f ≡ true

pub row_fits-Fit :
    (id : Bytes) (row : ShareRow) (t : Option TextRow) (e : Option EncryptedRow)
    (f : Option FileRow)
    → row_fits id row t e f ≡ true
    → Fit id row t e f
unfolding row_fits is_share_id
row_fits-Fit id row t e f h = elim (Option-cases (parse_payload_kind row.payload_kind)) [
  | inl a ↦ ground (arith, a, h)
  | inr (k, a) ↦ elim (Option-cases (parse_privacy_mode row.privacy_mode)) [
    | inl b ↦ ground (arith, a, b, h)
    | inr (p, b) ↦ elim (Result-cases (parse_share_id id)) [
      | inl (s, c) ↦ record {
        kind = k;
        privacy = p;
        share_id = s;
        kind_parses = a;
        privacy_parses = b;
        id_parses = c;
        verifier_length = ground (arith, a, b, c, h);
        payload = ground (arith, a, b, c, h);
      }
      | inr (x, c) ↦ ground (arith, a, b, c, h)
    ]
  ]
]

module _ (env : Env) (db : Db) (id : Bytes) (now : ℕ) where
  -- What a read of a consistent table may return.
  pub data Loads (r : Result Error Share) : Type 0 where
    absent : find id db.shares ≡ none → r ≡ err not_found → Loads r
    over :
        (row : ShareRow)
        → find id db.shares ≡ some row
        → is_expired (expiration_time row.expires_at) now ≡ true
        → r ≡ err expired
        → Loads r
    live :
        (row : ShareRow) (share : Share)
        → find id db.shares ≡ some row
        → is_expired (expiration_time row.expires_at) now ≡ false
        → r ≡ ok share
        → Spells id row (find id db.texts) (find id db.encrypted_texts) (find id db.files) share
        → Loads r

  load_active-is_ok :
      (row : ShareRow)
      → Fit id row (find id db.texts) (find id db.encrypted_texts) (find id db.files)
      → env.runs select_share ≡ true
      → find id db.shares ≡ some row
      → is_expired (expiration_time row.expires_at) now ≡ false
      → is_ok (load_active env db id now) ≡ true
  unfolding load_active
  load_active-is_ok row h r e x = ground (
    arith,
    load_payload-fits h.kind h.privacy (find id db.texts) (find id db.encrypted_texts)
        (find id db.files),
  )

  -- In a consistent database, a read whose query runs answers that there is no Share under the
  -- id, that it expired, or, if its row is live, the Share that its rows spell: no stored value
  -- is reported as corrupt or mismatched.
  pub load_active_cases :
      IsConsistent db → env.runs select_share ≡ true → Loads (load_active env db id now)
  unfolding fits
  load_active_cases h r = elim (Option-cases (find id db.shares)) [
    | inl e ↦ absent e (unfold load_active in ground (arith, e))
    | inr (row, e) ↦ elim (Bool-cases (is_expired (expiration_time row.expires_at) now)) [
      | inl x ↦ over row e x (unfold load_active in ground (arith, e, x))
      | inr x ↦
          let fit =
            row_fits-Fit id row (find id db.texts) (find id db.encrypted_texts) (find id db.files)
              (ground (arith, e, h id)) in
          let (share, l) = ok_of_is_ok _ (load_active-is_ok row fit r e x) in
          live row share e x l (load_active-Spells env db id now row share e l)
    ]
  ]
