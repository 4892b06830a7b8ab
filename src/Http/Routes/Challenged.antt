-- ===== src/Http/Routes/Challenged.antt =====
-- No Share is created before its challenge is verified.
use u_paste.Prelude.{
  ◌≡◌, ◌⊎◌, refl, inl, inr, some, List, [], ◌∷◌, arith, Bool-cases, Result-cases, Bytes, Result, ok,
  err,
}
use u_paste.Abuse
use u_paste.Share.{Env}
use u_paste.Http.{Method, post, Response}
use u_paste.Http.Texts.{fields}
use u_paste.Http.Requests.{Request, ChallengeError, Server}
use u_paste.Http.Headers.{
  is_blank, challenge_remote_ip, challenge_answer, check_challenge, require_challenge,
}
use u_paste.Http.Routes.{World, allowed, create_share, collection}
use u_paste.Http.Routes.Cases.{is_get, is_post, is_patch, is_delete, is_other, Method-cases}

-- The verifier accepted the one challenge of the request, for the address of its client.
pub record Verified (server : Server) (verify : Bytes → Bytes → Result ChallengeError (Unit {0}))
    (r : Request) : Type 0 where
  pub token : Bytes
  pub sent : r.challenge ≡ token ∷ []
  pub accepted : verify token (challenge_remote_ip server r) ≡ ok tt

module _ (server : Server) (verify : Bytes → Bytes → Result ChallengeError (Unit {0})) (env : Env)
    (r : Request) (enforced : server.options.challenge ≡ some verify) where
  challenge_answer-ok :
      (answer : Result ChallengeError (Unit {0}))
      → challenge_answer server answer ≡ ok tt
      → answer ≡ ok tt
  unfolding challenge_answer
  challenge_answer-ok (ok done) h = refl
  challenge_answer-ok (err u_paste.Http.Requests.invalid) h = absurd (ground (arith, h))
  challenge_answer-ok (err u_paste.Http.Requests.unavailable) h = absurd (ground (arith, h))

  check_challenge-Verified :
      (headers : List Bytes)
      → check_challenge server verify r headers ≡ ok tt
      → (token : Bytes) × (headers ≡ token ∷ [])
        × (verify token (challenge_remote_ip server r) ≡ ok tt)
  unfolding check_challenge
  check_challenge-Verified [] h = absurd (ground (arith, h))
  check_challenge-Verified (value ∷ other ∷ values) h = absurd (ground (arith, h))
  check_challenge-Verified (value ∷ []) h = elim (Bool-cases (is_blank server (fields value))) [
    | inl b ↦ absurd (ground (arith, b, h))
    | inr b ↦ (value, refl, challenge_answer-ok _ (rw (b, check_challenge) at h))
  ]

  -- With a verifier configured, the collection of Shares changes rows or objects only for a request
  -- whose one challenge header the verifier has accepted for the client's address.
  pub collection-Verified :
      (world : World server)
      → (((collection server env r world).1.db ≡ world.db)
          × ((collection server env r world).1.objects ≡ world.objects))
        ⊎ Verified server verify r
  unfolding collection create_share allowed
  collection-Verified world = elim (Method-cases r.method) [
    | is_get q ↦ inl (rw (q, collection) (refl, refl))
    | is_patch q ↦ inl (rw (q, collection) (refl, refl))
    | is_delete q ↦ inl (rw (q, collection) (refl, refl))
    | is_other q ↦ inl (rw (q, collection) (refl, refl))
    | is_post q ↦ elim (Bool-cases (allowed server env u_paste.Abuse.create r world).0) [
      | inr a ↦ inl (rw (q, a, collection) (refl, refl))
      | inl a ↦ elim (Result-cases (require_challenge server r)) [
        | inr (response, e) ↦ inl (rw (q, a, e, collection, create_share) (refl, refl))
        | inl (u, e) ↦
            let (token, sent, accepted) =
              check_challenge-Verified r.challenge (rw (enforced, require_challenge) at e) in
            inr (record { token = token; sent = sent; accepted = accepted })
      ]
    ]
  ]
