-- ===== src/Share/Retention/Stored.antt =====
-- No stored Share outlives the public limit.
use u_paste.Prelude.{
  ℕ, ◌+◌, ◌≡◌, ◌∙◌, Bool, true, false, Option, none, some, arith, Bytes, leb, inl, inr,
  Result-cases, Bool-cases, bytes_eq, ◌∷◌,
}
use u_paste.Capability.{OwnerToken, verifier}
use u_paste.Domain.{PrivacyMode}
use u_paste.Database.{Db, ShareRow}
use u_paste.Database.Tables.{find}
use u_paste.Database.Statements.{insert_share}
use u_paste.Share.{
  Env, Share, Text, EncryptedText, server_now, from_millis, CreateInput, EncryptedCreateInput,
  validate_text, validate_encrypted_text,
}
use u_paste.Share.Create.{
  metadata_row, insert_body, insert, draft, create_text, create, create_encrypted,
}
use u_paste.Share.Transactions.{transact_keeps}
use u_paste.Share.Drafts.{Fresh, draft-Drafted, insert_body-Inserted, payload_inserted-shares}
use u_paste.Share.Retention.{IsPublicPolicy, normalize_public_bounds, from_millis-truncate}

-- The row has a date, at most `max` after its creation.
unfoldable pub is_retained : ℕ → ShareRow → Bool
is_retained max row = elim row.expires_at [
  | none ↦ false
  | some e ↦ leb (from_millis e) (from_millis row.created_at + max)
]

abbrev pub AreRetained : ℕ → Db → Type 0
AreRetained max db =
    (id : Bytes) (row : ShareRow) → find id db.shares ≡ some row → is_retained max row ≡ true

-- The row of a fresh Share obeys the limit.
Fresh-is_retained :
    (env : Env) (x : Option ℕ) (share : Share) (token : OwnerToken) (v : Bytes)
    → IsPublicPolicy env.retention_policy
    → Fresh env x share token
    → is_retained env.retention_policy.max_ttl (metadata_row share v) ≡ true
unfolding is_retained metadata_row server_now
Fresh-is_retained env x share token v p f =
    let (e, s, lo, hi) =
      normalize_public_bounds env.retention_policy x (server_now env) share.expires_at p
        f.expires in
    ground (arith, s, hi, f.created, from_millis-truncate env.clock)

-- One new row, and the rest as before.
new_row-AreRetained :
    (max : ℕ) (id : Bytes) (row : ShareRow) (db db' : Db)
    → db'.shares ≡ (id, row) ∷ db.shares
    → is_retained max row ≡ true
    → AreRetained max db
    → AreRetained max db'
new_row-AreRetained max id row db db' e r h j other q = elim (Bool-cases (bytes_eq id j)) [
  | inl same ↦ let t : row ≡ other = unfold find in ground (arith, e, same, q) in rw (← t) r
  | inr differ ↦ h j other (unfold find in ground (arith, e, differ, q))
]

insert_share-shares :
    (id : Bytes) (row : ShareRow) (db db' : Db)
    → insert_share id row db ≡ some db'
    → db'.shares ≡ (id, row) ∷ db.shares
unfolding insert_share
insert_share-shares id row db db' h = ground arith

module _ (env : Env) (p : IsPublicPolicy env.retention_policy) where
  abbrev max : ℕ
  max = env.retention_policy.max_ttl

  insert-AreRetained :
      (x : Option ℕ) (share : Share) (token : OwnerToken) (v : Bytes) (db : Db)
      → Fresh env x share token
      → AreRetained max db
      → AreRetained max (insert env share v db).1
  unfolding insert
  insert-AreRetained x share token v db f h =
      transact_keeps (AreRetained max) env (insert_body env share v) db h λ _ db' r.
        let w = insert_body-Inserted env share v db db' r in
        new_row-AreRetained max share.id.value (metadata_row share v) db db'
          (payload_inserted-shares env share.id.value share.privacy_mode share.text
              share.encrypted_text w.with_share db' w.payload_inserted
            ∙ insert_share-shares share.id.value (metadata_row share v) db w.with_share
                w.share_inserted)
          (Fresh-is_retained env x share token v p f) h

  create_text-AreRetained :
      (mode : PrivacyMode) (t : Option Text) (e : Option EncryptedText) (x : Option ℕ) (db : Db)
      → AreRetained max db
      → AreRetained max (create_text env mode t e x db).1
  unfolding create_text
  create_text-AreRetained mode t e x db h = elim (Result-cases (draft env mode t e x)) [
    | inr (c, r) ↦ rw (r, create_text) h
    | inl ((share, token), r) ↦
        rw (r, create_text)
          (insert-AreRetained x share token (verifier env.sha256 token) db
            (draft-Drafted env mode t e x share token r).fresh h)
  ]

  -- Under a public policy, if every stored Share has an expiration within the policy's maximum
  -- after its creation, so it is after Create, returned or failed.
  pub create-AreRetained :
      (input : CreateInput) (db : Db) → AreRetained max db → AreRetained max (create env input db).1
  unfolding create
  create-AreRetained input db h = elim (Result-cases (validate_text input.text)) [
    | inr (c, r) ↦ rw (r, create) h
    | inl (u, r) ↦ rw (r, create) (create_text-AreRetained _ _ _ _ db h)
  ]

  -- Under a public policy, if every stored Share has an expiration within the policy's maximum
  -- after its creation, so it is after CreateEncrypted, returned or failed.
  pub create_encrypted-AreRetained :
      (input : EncryptedCreateInput) (db : Db)
      → AreRetained max db
      → AreRetained max (create_encrypted env input db).1
  unfolding create_encrypted
  create_encrypted-AreRetained input db h =
      elim (Result-cases (validate_encrypted_text input.encrypted_text)) [
        | inr (c, r) ↦ rw (r, create_encrypted) h
        | inl (u, r) ↦ rw (r, create_encrypted) (create_text-AreRetained _ _ _ _ db h)
      ]
