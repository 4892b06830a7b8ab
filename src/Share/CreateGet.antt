-- ===== src/Share/CreateGet.antt =====
-- What is stored after a Share was created.
pub mod Answers
use u_paste.Prelude.{
  ℕ, ◌≡◌, ◌∙◌, ap, refl, sym, Option, none, some, true, false, Bool, not, ◌&&◌, arith, Bytes,
  bytes_eq, bytes_eq_iff, bytes_eq_refl, ok, err, inl, inr, Result-cases, Option-cases, Bool-cases,
  bind-eq-ok, Result, if◌then◌else◌,
}
use u_paste.Domain.{
  PayloadKind, PrivacyMode, text, file, standard, encrypted, is_expired, kind_string,
  privacy_string, parse_payload_kind, parse_privacy_mode,
}
use u_paste.Domain.Laws.{kind_string-parses, privacy_string-parses}
use u_paste.Capability.{OwnerToken, verifier, share_id_bytes}
use u_paste.Database.{Db, ShareRow}
use u_paste.Database.Tables.{find, is_present}
use u_paste.Database.Statements.{insert_share, insert_text, insert_encrypted}
use u_paste.Share.{
  Env, Error, Share, Text, EncryptedText, CreateInput, EncryptedCreateInput, from_millis, to_millis,
  truncate, server_now, select_share, not_found, expired, insert_payload,
}
use u_paste.Share.Load.{load_active, expiration_time}
use u_paste.Share.Spells.{Spells, text_of, encrypted_text_of, file_of_row}
use u_paste.Share.Transactions.{transact, transact_outcome, execute-eq-ok}
use u_paste.Share.Create.{
  create, create_encrypted, create_text, draft, insert, insert_body, insert_payload_row,
  metadata_row, text_row, encrypted_row, get, nullable_millis,
}
use u_paste.Share.Drafts.{Drafted, draft-Drafted, Inserted, insert_body-Inserted}
use u_paste.Share.Consistent.{IsConsistent, Loads, absent, over, live, load_active_cases}
use u_paste.Share.Consistent.Creates.{
  IsRandom, absent_payloads, create-IsConsistent, create_encrypted-IsConsistent,
}
use u_paste.Share.Retention.{from_millis-truncate}

-- The columns hold whole milliseconds.
abbrev pub truncated : Option ℕ → Option ℕ
truncated none = none
truncated (some t) = some (truncate t)

-- The Share as the columns hold it.
abbrev pub as_stored : Share → Share
as_stored share = record share { expires_at = truncated share.expires_at }

-- The rows that a created Share has left.
pub record Rows (share : Share) (v : Bytes) (db' : Db) : Type 0 where
  pub row : find share.id.value db'.shares ≡ some (metadata_row share v)
  pub texts : text_of (find share.id.value db'.texts) ≡ share.text
  pub encrypted_texts :
      encrypted_text_of (find share.id.value db'.encrypted_texts) ≡ share.encrypted_text
  pub no_file : find share.id.value db'.files ≡ none

payload-Rows :
    (env : Env) (id : Bytes) (row : ShareRow) (p : PrivacyMode) (t : Option Text)
    (e : Option EncryptedText) (db between db' : Db)
    → IsConsistent db
    → insert_share id row db ≡ some between
    → insert_payload_row env id p t e between ≡ ok db'
    → (find id db'.shares ≡ some row)
      × (text_of (find id db'.texts) ≡ t)
      × (encrypted_text_of (find id db'.encrypted_texts) ≡ e)
      × (find id db'.files ≡ none)
unfolding insert_payload_row insert_share insert_text insert_encrypted find is_present
payload-Rows env id row standard (some t) none db between db' h a b = ground (
  arith,
  bytes_eq_refl id,
  absent_payloads db id (h id),
  a,
  execute-eq-ok env insert_payload (insert_text id (text_row t) between) db' b,
)
payload-Rows env id row encrypted none (some e) db between db' h a b = ground (
  arith,
  bytes_eq_refl id,
  absent_payloads db id (h id),
  a,
  execute-eq-ok env insert_payload (insert_encrypted id (encrypted_row e) between) db' b,
)
payload-Rows env id row _ _ _ db between db' h a b = cc

insert_body-Rows :
    (env : Env) (share : Share) (v : Bytes) (db db' : Db)
    → IsConsistent db
    → insert_body env share v db ≡ ok (tt, db')
    → Rows share v db'
insert_body-Rows env share v db db' h r =
    let made = insert_body-Inserted env share v db db' r in
    let (shares, texts, encrypted_texts, files) =
      payload-Rows env share.id.value (metadata_row share v) share.privacy_mode share.text
        share.encrypted_text db made.with_share db' h made.share_inserted made.payload_inserted in
    record { row = shares; texts = texts; encrypted_texts = encrypted_texts; no_file = files }

pub create_text-Rows :
    (env : Env) (p : PrivacyMode) (t : Option Text) (e : Option EncryptedText) (x : Option ℕ)
    (db db' : Db) (share : Share) (token : OwnerToken)
    → IsConsistent db
    → create_text env p t e x db ≡ (ok (share, token), db')
    → Rows share (verifier env.sha256 token) db' × Drafted env p t e x share token
unfolding create_text insert
create_text-Rows env p t e x db db' share token h made = elim (Result-cases (draft env p t e x)) [
  | inr (c, d) ↦ absurd (ground (arith, d, made))
  | inl ((share', token'), d) ↦
      let v = verifier env.sha256 token' in
      elim (transact_outcome env (insert_body env share' v) db) [
        | inr (c, r) ↦ absurd (ground (arith, d, r, made))
        | inl (_, after, b, r) ↦
            let same : share' ≡ share = ground (arith, d, r, made) in
            let same_token : token' ≡ token = ground (arith, d, r, made) in
            let same_db : after ≡ db' = ground (arith, d, r, made) in
            rw (← same, ← same_token, ← same_db)
              (
                insert_body-Rows env share' v db after h b,
                draft-Drafted env p t e x share' token' d,
              )
      ]
]

from_millis-to_millis : (t : ℕ) → from_millis (to_millis t) ≡ truncate t
unfolding truncate
from_millis-to_millis t = omega arith

pub expiration_time-nullable_millis :
    (x : Option ℕ) → expiration_time (nullable_millis x) ≡ truncated x
expiration_time-nullable_millis none = refl
expiration_time-nullable_millis (some t) = ap some (from_millis-to_millis t)

pub kind_string-injective : (j k : PayloadKind) → kind_string j ≡ kind_string k → j ≡ k
kind_string-injective j k h =
    ground (arith, kind_string-parses j, ap parse_payload_kind h, kind_string-parses k)

pub privacy_string-injective : (p q : PrivacyMode) → privacy_string p ≡ privacy_string q → p ≡ q
privacy_string-injective p q h =
    ground (arith, privacy_string-parses p, ap parse_privacy_mode h, privacy_string-parses q)

-- A Share that spells the rows of a created one is the created one, as stored.
pub Rows-Spells :
    (share found : Share) (v : Bytes) (db' : Db) (now : ℕ)
    → Rows share v db'
    → share.created_at ≡ truncate now
    → share.updated_at ≡ truncate now
    → share.file ≡ none
    → Spells share.id.value
        (metadata_row share v)
        (find share.id.value db'.texts)
        (find share.id.value db'.encrypted_texts)
        (find share.id.value db'.files)
        found
    → found ≡ as_stored share
unfolding metadata_row
Rows-Spells share found v db' now rows created updated no_file spells = ground (
  arith,
  spells.id_eq,
  kind_string-injective found.payload_kind share.payload_kind spells.kind_eq,
  privacy_string-injective found.privacy_mode share.privacy_mode spells.privacy_eq,
  spells.text_eq,
  rows.texts,
  spells.encrypted_eq,
  rows.encrypted_texts,
  spells.file_eq,
  rows.no_file,
  no_file,
  spells.created_eq,
  spells.updated_eq,
  created,
  updated,
  from_millis-truncate now,
  spells.expires_eq,
  expiration_time-nullable_millis share.expires_at,
)
