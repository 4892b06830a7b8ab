-- ===== src/Http/Shares/CreateRead.antt =====
-- A Share that createJSON has answered, read again at its Location.
use u_paste.Prelude.{◌≡◌, ◌≤◌, refl, ap, inl, inr, true, arith, Result-cases, ok, ◌>>=◌}
use u_paste.Domain.{PrivacyMode, standard, encrypted}
use u_paste.Capability.{OwnerToken, share_id_bytes, owner_token_bytes}
use u_paste.Database.{Db}
use u_paste.Share
use u_paste.Share.{cleanup, Share, Env, Error, server_now, select_share, select_authorization}
use u_paste.Share.Owner.{authorize_owner}
use u_paste.Share.Consistent.{IsConsistent}
use u_paste.Share.Consistent.Creates.{IsRandom}
use u_paste.Share.CreateGet.Answers.{answer_at, grant_at, create-get, create_encrypted-get}
use u_paste.Http.{Response, service_error}
use u_paste.Http.Requests.{Request, Server}
use u_paste.Http.Bodies.{decode_json, unmarshal_create}
use u_paste.Http.Shares.{
  NewShare, plain_share, encrypted_share, call_create, check_create, created_response, answer_share,
  create_json, read,
}
use u_paste.Http.Shares.Refusals.{create_checks-Refuses}

-- What a later request finds of a Share that was answered.
pub record Readable (server : Server) (later : Env) (db : Db) (response : Response) : Type 0 where
  pub made : Share
  pub token : OwnerToken
  pub privacy : PrivacyMode
  pub answered : response ≡ created_response server made token
  pub readable :
      read server later made.id db ≡ answer_share server (answer_at made (server_now later))
  pub owned :
      authorize_owner later db made.id token.value ≡ grant_at made privacy (server_now later)

service_error-status : (e : Error) → 400 ≤ (service_error e).status
unfolding service_error
service_error-status u_paste.Share.not_found = omega arith
service_error-status u_paste.Share.expired = omega arith
service_error-status u_paste.Share.unauthorized = omega arith
service_error-status u_paste.Share.expiration = omega arith
service_error-status u_paste.Share.empty_patch = omega arith
service_error-status u_paste.Share.retention = omega arith
service_error-status u_paste.Share.invalid_text = omega arith
service_error-status u_paste.Share.invalid_encrypted_text = omega arith
service_error-status u_paste.Share.payload_mismatch = omega arith
service_error-status u_paste.Share.invalid_format = omega arith
service_error-status u_paste.Share.corrupt = omega arith
service_error-status u_paste.Share.database = omega arith
service_error-status u_paste.Share.no_randomness = omega arith
service_error-status u_paste.Share.storage_unavailable = omega arith
service_error-status u_paste.Share.storage = omega arith
service_error-status (cleanup key) = omega arith

module _ (server : Server) (env later : Env) (random_id : IsRandom share_id_bytes env.random_id)
    (random_token : IsRandom owner_token_bytes env.random_token) (sha : later.sha256 ≡ env.sha256)
    (reads : later.runs select_share ≡ true)
    (authorizes : later.runs select_authorization ≡ true) where
  call_create-Readable :
      (input : NewShare) (db db' : Db) (share : Share) (token : OwnerToken)
      → IsConsistent db
      → call_create env input db ≡ (ok (share, token), db')
      → Readable server later db' (created_response server share token)
  unfolding call_create read
  call_create-Readable (plain_share input) db db' share token h made =
      let (g, _, a) =
        create-get env later input db db' share token random_id random_token h made sha reads
          authorizes in
      record {
        made = share;
        token = token;
        privacy = standard;
        answered = refl;
        readable = ap (answer_share server) g;
        owned = a;
      }
  call_create-Readable (encrypted_share input) db db' share token h made =
      let (g, _, a) =
        create_encrypted-get env later input db db' share token random_id random_token h made sha
          reads authorizes in
      record {
        made = share;
        token = token;
        privacy = encrypted;
        answered = refl;
        readable = ap (answer_share server) g;
        owned = a;
      }

  -- From a consistent database, with rand giving sixteen and thirty-two bytes: if createJSON
  -- answers 201, its response is that of some Share and token, and then, with the same hash and
  -- running queries, a later read of that Share answers with it, its expiration cut to
  -- milliseconds, or that it expired, and the token authorizes until it expires.
  pub create_json-read :
      (r : Request) (db db' : Db) (response : Response)
      → IsConsistent db
      → create_json server env r db ≡ (response, db')
      → response.status ≡ 201
      → Readable server later db' response
  unfolding create_json
  create_json-read r db db' response h made status =
      elim (Result-cases (decode_json (unmarshal_create server) r >>= check_create)) [
        | inr (refused, q) ↦
            absurd (
              let l = create_checks-Refuses server r refused q in
              ground (arith, q, made, status, l))
        | inl (input, q) ↦ elim (Result-cases (call_create env input db).0) [
          | inr (e, c) ↦ absurd (ground (arith, q, c, made, status, service_error-status e))
          | inl ((share, token), c) ↦
              let same : created_response server share token ≡ response =
                ground (arith, q, c, made) in
              rw (← same)
                (call_create-Readable input db db' share token h (ground (arith, q, c, made)))
        ]
      ]
