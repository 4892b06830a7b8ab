-- ===== src/Share/Drafts.antt =====
-- What the Share that `create` and CreateFile draft looks like, and what their insertion leaves.
use u_paste.Prelude.{
  ℕ, ◌≡◌, Option, none, some, arith, Bytes, ok, inl, inr, Result-cases, bind-eq-ok,
}
use u_paste.Capability.{OwnerToken, generate_share_id, generate_owner_token}
use u_paste.Domain.{PrivacyMode, text, standard, encrypted}
use u_paste.Database.{Db}
use u_paste.Database.Statements.{insert_share, insert_text, insert_encrypted}
use u_paste.Share.{
  Env, Share, Text, EncryptedText, File, server_now, normalize_expiration, insert_metadata,
  insert_payload,
}
use u_paste.Share.Create.{
  draft, metadata_row, insert_metadata_row, insert_payload_row, insert_body, text_row,
  encrypted_row,
}
use u_paste.Share.Files.{file_draft}
use u_paste.Share.Transactions.{execute-eq-ok}

-- A Share made now, with the expiration that the policy grants.
pub record Fresh (env : Env) (expiration : Option ℕ) (share : Share) (token : OwnerToken)
    : Type 0 where
  pub created : share.created_at ≡ server_now env
  pub updated : share.updated_at ≡ server_now env
  pub expires :
      normalize_expiration env.retention_policy expiration (server_now env) ≡ ok share.expires_at
  pub id_generated : generate_share_id env.random_id ≡ ok share.id
  pub token_generated : generate_owner_token env.random_token ≡ ok token

pub record Drafted (env : Env) (p : PrivacyMode) (t : Option Text) (e : Option EncryptedText)
    (expiration : Option ℕ) (share : Share) (token : OwnerToken) : Type 0 where
  pub fresh : Fresh env expiration share token
  pub kind : share.payload_kind ≡ text
  pub privacy : share.privacy_mode ≡ p
  pub content : share.text ≡ t
  pub encrypted_content : share.encrypted_text ≡ e
  pub no_file : share.file ≡ none

pub draft-Drafted :
    (env : Env) (p : PrivacyMode) (t : Option Text) (e : Option EncryptedText) (x : Option ℕ)
    (share : Share) (token : OwnerToken)
    → draft env p t e x ≡ ok (share, token)
    → Drafted env p t e x share token
unfolding draft
draft-Drafted env p t e x share token h =
    elim (Result-cases (normalize_expiration env.retention_policy x (server_now env))) [
      | inr (c, r) ↦ ground (arith, r, h)
      | inl (y, r) ↦ elim (Result-cases (generate_share_id env.random_id)) [
        | inr (c, a) ↦ ground (arith, r, a, h)
        | inl (id, a) ↦ elim (Result-cases (generate_owner_token env.random_token)) [
          | inr (c, b) ↦ ground (arith, r, a, b, h)
          | inl (token', b) ↦ record {
            fresh = record {
              created = ground (arith, r, a, b, h);
              updated = ground (arith, r, a, b, h);
              expires = ground (arith, r, a, b, h);
              id_generated = ground (arith, r, a, b, h);
              token_generated = ground (arith, r, a, b, h);
            };
            kind = ground (arith, r, a, b, h);
            privacy = ground (arith, r, a, b, h);
            content = ground (arith, r, a, b, h);
            encrypted_content = ground (arith, r, a, b, h);
            no_file = ground (arith, r, a, b, h);
          }
        ]
      ]
    ]

pub file_draft-Fresh :
    (env : Env) (value : File) (x : Option ℕ) (share : Share) (token : OwnerToken)
    → file_draft env value x ≡ ok (share, token)
    → Fresh env x share token
unfolding file_draft
file_draft-Fresh env value x share token h =
    elim (Result-cases (normalize_expiration env.retention_policy x (server_now env))) [
      | inr (c, r) ↦ ground (arith, r, h)
      | inl (y, r) ↦ elim (Result-cases (generate_share_id env.random_id)) [
        | inr (c, a) ↦ ground (arith, r, a, h)
        | inl (id, a) ↦ elim (Result-cases (generate_owner_token env.random_token)) [
          | inr (c, b) ↦ ground (arith, r, a, b, h)
          | inl (token', b) ↦ record {
            created = ground (arith, r, a, b, h);
            updated = ground (arith, r, a, b, h);
            expires = ground (arith, r, a, b, h);
            id_generated = ground (arith, r, a, b, h);
            token_generated = ground (arith, r, a, b, h);
          }
        ]
      ]
    ]

-- The statements of a text insertion that returned.
pub record Inserted (env : Env) (share : Share) (v : Bytes) (db db'' : Db) : Type 0 where
  pub with_share : Db
  pub share_inserted : insert_share share.id.value (metadata_row share v) db ≡ some with_share
  pub payload_inserted :
      insert_payload_row env share.id.value share.privacy_mode share.text share.encrypted_text
        with_share
      ≡ ok db''

pub insert_body-Inserted :
    (env : Env) (share : Share) (v : Bytes) (db db'' : Db)
    → insert_body env share v db ≡ ok (tt, db'')
    → Inserted env share v db db''
unfolding insert_body
insert_body-Inserted env share v db db'' r =
    let (db', a, r') = bind-eq-ok (insert_metadata_row env share v db) _ r in
    let (db3, b, r'') =
      bind-eq-ok
        (insert_payload_row env share.id.value share.privacy_mode share.text share.encrypted_text
          db')
        _ r' in
    let same : db3 ≡ db'' = ground (arith, r'') in
    record {
      with_share = db';
      share_inserted =
          unfold insert_metadata_row in
          execute-eq-ok env insert_metadata (insert_share share.id.value (metadata_row share v) db)
            db' a;
      payload_inserted = rw same at b;
    }

-- The payload goes to tables of its own.
pub payload_inserted-shares :
    (env : Env) (id : Bytes) (p : PrivacyMode) (t : Option Text) (e : Option EncryptedText)
    (db db' : Db)
    → insert_payload_row env id p t e db ≡ ok db'
    → db'.shares ≡ db.shares
unfolding insert_payload_row insert_text insert_encrypted
payload_inserted-shares env id standard (some t) none db db' h =
    ground (arith, execute-eq-ok env insert_payload (insert_text id (text_row t) db) db' h)
payload_inserted-shares env id encrypted none (some e) db db' h =
    ground
      (arith, execute-eq-ok env insert_payload (insert_encrypted id (encrypted_row e) db) db' h)
payload_inserted-shares env id _ _ _ db db' h = cc
