-- ===== src/Share/CreateGet/Answers.antt =====
-- Get and AuthorizeOwner after Create and CreateEncrypted.
use u_paste.Prelude.{
  ℕ, ◌≡◌, ◌∙◌, ap, refl, Option, none, some, true, arith, Bytes, bytes_eq_refl, ok, err, Result,
  if◌then◌else◌,
}
use u_paste.Domain.{
  PayloadKind, PrivacyMode, text, standard, encrypted, is_expired, parse_payload_kind,
  parse_privacy_mode,
}
use u_paste.Domain.Laws.{kind_string-parses, privacy_string-parses}
use u_paste.Capability.{OwnerToken, verifier, share_id_bytes}
use u_paste.Database.{Db, ShareRow}
use u_paste.Share.{
  Env, Error, Share, Text, EncryptedText, CreateInput, EncryptedCreateInput, from_millis, to_millis,
  truncate, server_now, select_share, not_found, expired, insert_payload,
}
use u_paste.Share.Load.{expiration_time}
use u_paste.Share.Create.{create, create_encrypted, create_text, metadata_row, get}
use u_paste.Share.Drafts.{Drafted}
use u_paste.Share.Consistent.{IsConsistent, absent, over, live, load_active_cases}
use u_paste.Share.Consistent.Creates.{IsRandom, create-IsConsistent, create_encrypted-IsConsistent}
use u_paste.Capability.{OwnerToken, generate_owner_token, owner_token_bytes, verify_owner_token}
use u_paste.Base64.{encode}
use u_paste.Prelude.{◌++◌}
use u_paste.Capability.{owner_token_prefix}
use u_paste.Capability.Canonical.{parse_owner_token_iff}
use u_paste.Share.{select_authorization, unauthorized}
use u_paste.Share.Owner.{authorize_owner}
use u_paste.Share.Authorized
use u_paste.Share.Authorized.{Authorized, Answer, authorize-Answer, stranger, owner}
use u_paste.Share.CreateGet.{
  truncated, as_stored, Rows, create_text-Rows, expiration_time-nullable_millis, Rows-Spells,
}

-- What a read answers after the rows were left: the Share as stored until it expires.
Rows-load :
    (env later : Env) (p : PrivacyMode) (t : Option Text) (e : Option EncryptedText) (x : Option ℕ)
    (share : Share) (token : OwnerToken) (v : Bytes) (db' : Db)
    → Rows share v db'
    → Drafted env p t e x share token
    → IsConsistent db'
    → later.runs select_share ≡ true
    → get later db' share.id ≡ (
        if is_expired (truncated share.expires_at) (server_now later)
        then err expired
        else ok (as_stored share))
unfolding get metadata_row server_now
Rows-load env later p t e x share token v db' rows drafted h runs =
    elim (load_active_cases later db' share.id.value (server_now later) h runs) [
      | absent none_there r ↦ absurd (ground (arith, none_there, rows.row))
      | over row there over_now r ↦
          let same : row ≡ metadata_row share v = ground (arith, there, rows.row) in
          let exp =
            ap (λ (z : ShareRow). expiration_time z.expires_at) same
            ∙ expiration_time-nullable_millis share.expires_at in
          rw (rw exp at over_now) r
      | live row found there live_now r spells ↦
          let same : row ≡ metadata_row share v = ground (arith, there, rows.row) in
          let exp =
            ap (λ (z : ShareRow). expiration_time z.expires_at) same
            ∙ expiration_time-nullable_millis share.expires_at in
          let stored =
            Rows-Spells share found v db' env.clock rows drafted.fresh.created drafted.fresh.updated
              drafted.no_file (rw same at spells) in
          rw (rw exp at live_now) (r ∙ ap ok stored)
    ]

-- What `get` answers once the Share was created: the Share as stored, until it expires.
abbrev pub answer_at : Share → ℕ → Result Error Share
answer_at share now =
    if is_expired (truncated share.expires_at) now then err expired else ok (as_stored share)

-- What AuthorizeOwner answers to the owner of a text.
abbrev pub grant_at : Share → PrivacyMode → ℕ → Result Error (PayloadKind × PrivacyMode)
grant_at share p now =
    if is_expired (truncated share.expires_at) now then err expired else ok (text, p)

generated-verifies :
    (sha256 : Bytes → Bytes) (random : Option Bytes) (token : OwnerToken)
    → IsRandom owner_token_bytes random
    → generate_owner_token random ≡ ok token
    → verify_owner_token sha256 token.value (verifier sha256 token) ≡ true
unfolding generate_owner_token verify_owner_token verifier
generated-verifies sha256 none token r e = ground (arith, e)
generated-verifies sha256 (some raw) token r e =
    let value : token.value ≡ owner_token_prefix ++ encode raw = ground (arith, e) in
    let parses =
      (parse_owner_token_iff token.value token).1
        (encode raw, value, record { raw = raw; bytes = r.0; size = r.1; spells = refl }, refl) in
    ground (arith, parses, bytes_eq_refl (sha256 token.value))

-- The owner's token authorizes until the Share expires.
Rows-authorize :
    (env later : Env) (p : PrivacyMode) (t : Option Text) (e : Option EncryptedText) (x : Option ℕ)
    (share : Share) (token : OwnerToken) (db' : Db)
    → Rows share (verifier env.sha256 token) db'
    → Drafted env p t e x share token
    → IsRandom owner_token_bytes env.random_token
    → IsConsistent db'
    → later.sha256 ≡ env.sha256
    → later.runs select_authorization ≡ true
    → authorize_owner later db' share.id token.value ≡ grant_at share p (server_now later)
unfolding authorize_owner metadata_row
Rows-authorize env later p t e x share token db' rows drafted random h sha runs =
    elim (authorize-Answer later db' share.id.value token.value (server_now later) h runs) [
      | u_paste.Share.Authorized.absent none_there r ↦ absurd (ground (arith, none_there, rows.row))
      | u_paste.Share.Authorized.over row there over_now r ↦
          let same : row ≡ metadata_row share v = ground (arith, there, rows.row) in
          let exp =
            ap (λ (z : ShareRow). expiration_time z.expires_at) same
            ∙ expiration_time-nullable_millis share.expires_at in
          rw (rw exp at over_now) (ground (arith, r))
      | stranger row there live_now refused r ↦
          let same : row ≡ metadata_row share v = ground (arith, there, rows.row) in
          let opens =
            generated-verifies env.sha256 env.random_token token random
              drafted.fresh.token_generated in
          let shut = rw (same, sha) at refused in absurd (ground (arith, shut, opens))
      | owner found a r ↦
          let same : a.row ≡ metadata_row share v = ground (arith, a.present, rows.row) in
          let kind =
            ap (λ (z : ShareRow). parse_payload_kind z.payload_kind) same
            ∙ kind_string-parses share.payload_kind in
          let privacy =
            ap (λ (z : ShareRow). parse_privacy_mode z.privacy_mode) same
            ∙ privacy_string-parses share.privacy_mode in
          let exp =
            ap (λ (z : ShareRow). expiration_time z.expires_at) same
            ∙ expiration_time-nullable_millis share.expires_at in
          rw (rw exp at a.live)
            (ground (arith, r, a.kind, a.privacy, kind, privacy, drafted.kind, drafted.privacy))
    ]
  where
    v : Bytes
    v = verifier env.sha256 token

-- From a consistent database, when rand gave sixteen and thirty-two bytes and Create has returned
-- a Share and a token: a later Get whose query runs answers with that Share, its expiration cut
-- to milliseconds, until it expires; its text is the input; and AuthorizeOwner, with the same
-- hash and a running query, accepts the token until then.
pub create-get :
    (env later : Env) (input : CreateInput) (db db' : Db) (share : Share) (token : OwnerToken)
    → IsRandom share_id_bytes env.random_id
    → IsRandom owner_token_bytes env.random_token
    → IsConsistent db
    → create env input db ≡ (ok (share, token), db')
    → later.sha256 ≡ env.sha256
    → later.runs select_share ≡ true
    → later.runs select_authorization ≡ true
    → (get later db' share.id ≡ answer_at share (server_now later))
      × (share.text ≡ some input.text)
      × (authorize_owner later db' share.id token.value
          ≡ grant_at share standard (server_now later))
unfolding create
create-get env later input db db' share token random_id random_token h made sha reads authorizes =
    let made' : create_text env standard (some input.text) none input.expires_at db
        ≡ (ok (share, token), db') =
      ground (arith, made) in
    let (rows, drafted) =
      create_text-Rows env standard (some input.text) none input.expires_at db db' share token h
        made' in
    let kept =
      rw (ap (λ (z : Result Error (Share × OwnerToken) × Db). z.1) made) at
        (create-IsConsistent env random_id input db h) in
    (
      Rows-load env later standard (some input.text) none input.expires_at share token
          (verifier env.sha256 token) db' rows drafted kept reads,
      drafted.content,
      Rows-authorize env later standard (some input.text) none input.expires_at share token db' rows
          drafted random_token kept sha authorizes,
    )

-- From a consistent database, when rand gave sixteen and thirty-two bytes and CreateEncrypted has
-- returned a Share and a token: a later Get whose query runs answers with that Share, its
-- expiration cut to milliseconds, until it expires; its encrypted text is the input; and
-- AuthorizeOwner, with the same hash and a running query, accepts the token until then.
pub create_encrypted-get :
    (env later : Env) (input : EncryptedCreateInput) (db db' : Db) (share : Share)
    (token : OwnerToken)
    → IsRandom share_id_bytes env.random_id
    → IsRandom owner_token_bytes env.random_token
    → IsConsistent db
    → create_encrypted env input db ≡ (ok (share, token), db')
    → later.sha256 ≡ env.sha256
    → later.runs select_share ≡ true
    → later.runs select_authorization ≡ true
    → (get later db' share.id ≡ answer_at share (server_now later))
      × (share.encrypted_text ≡ some input.encrypted_text)
      × (authorize_owner later db' share.id token.value
          ≡ grant_at share encrypted (server_now later))
unfolding create_encrypted
create_encrypted-get env later input db db' share token random_id random_token h made sha reads
      authorizes =
    let made' : create_text env encrypted none (some input.encrypted_text) input.expires_at db
        ≡ (ok (share, token), db') =
      ground (arith, made) in
    let (rows, drafted) =
      create_text-Rows env encrypted none (some input.encrypted_text) input.expires_at db db' share
        token h made' in
    let kept =
      rw (ap (λ (z : Result Error (Share × OwnerToken) × Db). z.1) made) at
        (create_encrypted-IsConsistent env random_id input db h) in
    (
      Rows-load env later encrypted none (some input.encrypted_text) input.expires_at share token
          (verifier env.sha256 token) db' rows drafted kept reads,
      drafted.encrypted_content,
      Rows-authorize env later encrypted none (some input.encrypted_text) input.expires_at share
          token db' rows drafted random_token kept sha authorizes,
    )
