-- ===== src/Share/Authorized.antt =====
-- What an owner operation has established once `authorize` returned.
use u_paste.Prelude.{
  ℕ, ◌≡◌, true, false, none, some, arith, Bytes, Result, ok, err, inl, inr, Bool-cases,
  Option-cases,
}
use u_paste.Capability.{verify_owner_token}
use u_paste.Domain.{parse_payload_kind, parse_privacy_mode, is_expired}
use u_paste.Database.{Db, ShareRow}
use u_paste.Database.Tables.{find}
use u_paste.Share.{Env, Error, unauthorized, from_millis, select_authorization, not_found, expired}
use u_paste.Share.Load.{Authorization, load_authorization, expiration_time}
use u_paste.Share.Owner.{authorize}
use u_paste.Share.Consistent.{fits, IsConsistent, row_fits-Fit}

-- The Share is there and not expired, and the candidate opens its verifier.
pub record Authorized (env : Env) (db : Db) (id candidate : Bytes) (now : ℕ) (found : Authorization)
    : Type 0 where
  pub row : ShareRow
  pub present : find id db.shares ≡ some row
  pub kind : parse_payload_kind row.payload_kind ≡ some found.kind
  pub privacy : parse_privacy_mode row.privacy_mode ≡ some found.privacy
  pub created : found.created_at ≡ from_millis row.created_at
  pub live : is_expired (expiration_time row.expires_at) now ≡ false
  pub opens : verify_owner_token env.sha256 candidate row.owner_token_verifier ≡ true

pub authorize-Authorized :
    (env : Env) (db : Db) (id candidate : Bytes) (now : ℕ) (found : Authorization)
    → authorize env db id candidate now ≡ ok found
    → Authorized env db id candidate now found
unfolding authorize load_authorization
authorize-Authorized env db id candidate now found h = elim (Option-cases (find id db.shares)) [
  | inl e ↦ ground (arith, e, h)
  | inr (row, e) ↦ elim (Option-cases (parse_payload_kind row.payload_kind)) [
    | inl a ↦ ground (arith, e, a, h)
    | inr (k, a) ↦ elim (Option-cases (parse_privacy_mode row.privacy_mode)) [
      | inl b ↦ ground (arith, e, a, b, h)
      | inr (p, b) ↦ record {
        row = row;
        present = e;
        kind = ground (arith, e, a, b, h);
        privacy = ground (arith, e, a, b, h);
        created = ground (arith, e, a, b, h);
        live = ground (arith, e, a, b, h);
        opens = ground (arith, e, a, b, h);
      }
    ]
  ]
]

-- Which answer a candidate gets on a Share of consistent tables: 404, 410, 401 or access, in this
-- order.
pub data Answer (env : Env) (db : Db) (id candidate : Bytes) (now : ℕ)
    (r : Result Error Authorization) : Type 0 where
  absent : find id db.shares ≡ none → r ≡ err not_found → Answer env db id candidate now r
  over :
      (row : ShareRow)
      → find id db.shares ≡ some row
      → is_expired (expiration_time row.expires_at) now ≡ true
      → r ≡ err expired
      → Answer env db id candidate now r
  stranger :
      (row : ShareRow)
      → find id db.shares ≡ some row
      → is_expired (expiration_time row.expires_at) now ≡ false
      → verify_owner_token env.sha256 candidate row.owner_token_verifier ≡ false
      → r ≡ err unauthorized
      → Answer env db id candidate now r
  owner :
      (found : Authorization)
      → Authorized env db id candidate now found
      → r ≡ ok found
      → Answer env db id candidate now r

-- In a consistent database, an authorization whose query runs answers by the row: not found,
-- expired, unauthorized for a candidate that does not open the verifier, or, for one that does,
-- the kind, privacy and date of the live row.
pub authorize-Answer :
    (env : Env) (db : Db) (id candidate : Bytes) (now : ℕ)
    → IsConsistent db
    → env.runs select_authorization ≡ true
    → Answer env db id candidate now (authorize env db id candidate now)
unfolding fits
authorize-Answer env db id candidate now h r = elim (Option-cases (find id db.shares)) [
  | inl e ↦ absent e (unfold authorize load_authorization in ground (arith, e))
  | inr (row, e) ↦
      let fit =
        row_fits-Fit id row (find id db.texts) (find id db.encrypted_texts) (find id db.files)
          (ground (arith, e, h id)) in
      elim (Bool-cases (is_expired (expiration_time row.expires_at) now)) [
        | inl x ↦ over row e x (
            unfold authorize load_authorization in
            ground (arith, e, x, fit.kind_parses, fit.privacy_parses, fit.verifier_length))
        | inr x ↦
            elim (Bool-cases (verify_owner_token env.sha256 candidate row.owner_token_verifier)) [
              | inr v ↦ stranger row e x v (
                  unfold authorize load_authorization in
                  ground (arith, e, x, v, fit.kind_parses, fit.privacy_parses, fit.verifier_length))
              | inl v ↦
                  let found : Authorization = record {
                    kind = fit.kind;
                    privacy = fit.privacy;
                    verifier = row.owner_token_verifier;
                    created_at = from_millis row.created_at;
                  } in
                  let q : authorize env db id candidate now ≡ ok found =
                    unfold authorize load_authorization in
                    ground
                      (arith, e, x, v, fit.kind_parses, fit.privacy_parses, fit.verifier_length) in
                  owner found (authorize-Authorized env db id candidate now found q) q
            ]
      ]
]
