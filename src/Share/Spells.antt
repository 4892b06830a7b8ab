-- ===== src/Share/Spells.antt =====
-- What a Share that loadActive returns says of the stored rows.
use u_paste.Prelude.{
  ℕ, ◌≡◌, Option, none, some, arith, Bytes, ok, inl, inr, Result-cases, Option-cases,
}
use u_paste.Domain.{
  PayloadKind, PrivacyMode, text, file, standard, encrypted, kind_string, privacy_string,
  parse_payload_kind, parse_privacy_mode, parse_text_format,
}
use u_paste.Domain.Laws.{parsers_exact}
use u_paste.Capability.{parse_share_id}
use u_paste.Capability.Canonical.{parse_share_id_iff}
use u_paste.Database.{Db, ShareRow, TextRow, EncryptedRow, FileRow}
use u_paste.Database.Tables.{find}
use u_paste.Share.{Env, Share, Text, EncryptedText, File, from_millis}
use u_paste.Share.Load.{load_active, load_payload, Payload, expiration_time}

abbrev pub text_of : Option TextRow → Option Text
text_of none = none
text_of (some t) = some (record { format = t.format; content = t.content })

abbrev pub encrypted_text_of : Option EncryptedRow → Option EncryptedText
encrypted_text_of none = none
encrypted_text_of (some e) =
    some (record { protocol = e.protocol; nonce = e.nonce; ciphertext = e.ciphertext })

abbrev pub file_of_row : Option FileRow → Option File
file_of_row none = none
file_of_row (some f) = some (record {
  storage_key = f.storage_key;
  filename = f.original_filename;
  size = f.size_bytes;
  media_type = f.detected_media_type;
  sha256 = f.content_sha256;
})

-- Every part of the Share is what a column holds.
pub record Spells (id : Bytes) (row : ShareRow) (t : Option TextRow) (e : Option EncryptedRow)
    (f : Option FileRow) (share : Share) : Type 0 where
  pub id_eq : share.id.value ≡ id
  pub kind_eq : kind_string share.payload_kind ≡ row.payload_kind
  pub privacy_eq : privacy_string share.privacy_mode ≡ row.privacy_mode
  pub text_eq : share.text ≡ text_of t
  pub encrypted_eq : share.encrypted_text ≡ encrypted_text_of e
  pub file_eq : share.file ≡ file_of_row f
  pub created_eq : share.created_at ≡ from_millis row.created_at
  pub updated_eq : share.updated_at ≡ from_millis row.updated_at
  pub expires_eq : share.expires_at ≡ expiration_time row.expires_at

load_payload-ok :
    (k : PayloadKind) (p : PrivacyMode) (t : Option TextRow) (e : Option EncryptedRow)
    (f : Option FileRow) (payload : Payload)
    → load_payload k p t e f ≡ ok payload
    → (payload.text ≡ text_of t)
      × (payload.encrypted_text ≡ encrypted_text_of e)
      × (payload.file ≡ file_of_row f)
unfolding load_payload
load_payload-ok text standard (some t) none none payload h =
    elim (Option-cases (parse_text_format t.format)) [
      | inl q ↦ absurd (ground (arith, q, h))
      | inr (format, q) ↦
          let same = ((parsers_exact t.format).2 format).0 q in ground (arith, q, h, same)
    ]
load_payload-ok text encrypted none (some e) none payload h = ground (arith, h)
load_payload-ok file standard none none (some f) payload h = ground (arith, h)
load_payload-ok _ _ _ _ _ payload h = cc

pub load_active-Spells :
    (env : Env) (db : Db) (id : Bytes) (now : ℕ) (row : ShareRow) (share : Share)
    → find id db.shares ≡ some row
    → load_active env db id now ≡ ok share
    → Spells id row (find id db.texts) (find id db.encrypted_texts) (find id db.files) share
unfolding load_active
load_active-Spells env db id now row share r h = elim (Result-cases (parse_share_id id)) [
  | inr (x, a) ↦ absurd (ground (arith, r, a, h))
  | inl (s, a) ↦ elim (Option-cases (parse_payload_kind row.payload_kind)) [
    | inl b ↦ absurd (ground (arith, r, a, b, h))
    | inr (k, b) ↦ elim (Option-cases (parse_privacy_mode row.privacy_mode)) [
      | inl c ↦ absurd (ground (arith, r, a, b, c, h))
      | inr (p, c) ↦
          elim (Result-cases
            (load_payload k p (find id db.texts) (find id db.encrypted_texts) (find id db.files))) [
              | inr (x, d) ↦ absurd (ground (arith, r, a, b, c, d, h))
              | inl (payload, d) ↦
                  let (t', e', f') =
                    load_payload-ok k p (find id db.texts) (find id db.encrypted_texts)
                      (find id db.files) payload d in
                  let kind = ((parsers_exact row.payload_kind).0 k).0 b in
                  let privacy = ((parsers_exact row.privacy_mode).1 p).0 c in
                  let same = ((parse_share_id_iff id s).0 a).1 in
                  record {
                    id_eq = ground (arith, r, a, b, c, d, h, same);
                    kind_eq = ground (arith, r, a, b, c, d, h, kind);
                    privacy_eq = ground (arith, r, a, b, c, d, h, privacy);
                    text_eq = ground (arith, r, a, b, c, d, h, t');
                    encrypted_eq = ground (arith, r, a, b, c, d, h, e');
                    file_eq = ground (arith, r, a, b, c, d, h, f');
                    created_eq = ground (arith, r, a, b, c, d, h);
                    updated_eq = ground (arith, r, a, b, c, d, h);
                    expires_eq = ground (arith, r, a, b, c, d, h);
                  }
            ]
    ]
  ]
]
