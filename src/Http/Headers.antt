-- ===== src/Http/Headers.antt =====
-- The checks of internal/httpapi on the headers of a request: authorization, requireIdentityEncoding,
-- requireJSON, isJSONMediaType and requireChallenge.
pub mod Bearer
use u_paste.Prelude.{
  Bool, true, false, not, Option, none, some, List, [], ◌∷◌, if◌then◌else◌, Bytes, codes, Result,
  ok, err, ◌>>=◌, ◌>>◌, require,
}
use u_paste.Abuse.ClientIp.{Net, client_ip}
use u_paste.Http.{Response, write_error, unauthorized_response, unsupported_media}
use u_paste.Http
use u_paste.Http.Texts.{fields, equal_fold}
use u_paste.Http.Requests.{Request, MediaType, ChallengeError, invalid, unavailable, Server}

unfoldable pub bearer : List Bytes → Result Response Bytes
unfolding equal_fold unauthorized_response
bearer (scheme ∷ token ∷ []) =
    if equal_fold scheme (codes "Bearer") then ok token else err unauthorized_response
bearer [] = err unauthorized_response
bearer (scheme ∷ []) = err unauthorized_response
bearer (scheme ∷ token ∷ more ∷ rest) = err unauthorized_response

-- The candidate of the only Authorization header.
unfoldable pub authorization : List Bytes → Result Response Bytes
unfolding bearer fields unauthorized_response
authorization [] = err unauthorized_response
authorization (value ∷ []) = bearer (fields value)
authorization (value ∷ other ∷ values) = err unauthorized_response

abbrev pub is_identity : List Bytes → Bool
is_identity (word ∷ []) = equal_fold word (codes "identity")
is_identity [] = false
is_identity (word ∷ other ∷ words) = false

-- A trimmed value that is `identity` is its only field.
unfoldable pub require_identity_encoding : List Bytes → Result Response (Unit {0})
unfolding fields equal_fold write_error
require_identity_encoding [] = ok tt
require_identity_encoding (encoding ∷ encodings) =
    let rest = require_identity_encoding encodings in
    if not (is_identity (fields encoding)) then err unsupported_media else rest

module _ (server : Server) where
  -- The media type of the only Content-Type header.
  unfoldable pub media_type : List Bytes → Result Response MediaType
  unfolding write_error
  media_type [] = err unsupported_media
  media_type (value ∷ []) = elim (server.parse_media_type value) [
    | none ↦ err unsupported_media
    | some found ↦ ok found
  ]
  media_type (value ∷ other ∷ values) = err unsupported_media

  unfoldable pub is_json_media_type : Bytes → Bool
  unfolding equal_fold
  is_json_media_type value = elim (server.parse_media_type value) [
    | none ↦ false
    | some found ↦ equal_fold found.name (codes "application/json")
  ]

  unfoldable pub require_json : Request → Result Response (Unit {0})
  unfolding require_identity_encoding media_type equal_fold write_error
  require_json r = do
    require_identity_encoding r.content_encoding
    found ← media_type r.content_type
    require (equal_fold found.name (codes "application/json")) unsupported_media

  unfoldable pub remote_ip : Bytes → Bytes
  remote_ip remote_addr = elim (server.net.host remote_addr) [
    | none ↦ remote_addr
    | some host ↦ host
  ]

  unfoldable pub challenge_remote_ip : Request → Bytes
  unfolding client_ip remote_ip
  challenge_remote_ip r =
      let address = client_ip server.net r.remote_addr r.forwarded_for server.trusted in
      if server.net.is_valid address then server.net.text address else remote_ip r.remote_addr

  -- The answer of the verifier; an error that is not ErrInvalid is taken for an outage.
  unfoldable pub challenge_answer : Result ChallengeError (Unit {0}) → Result Response (Unit {0})
  unfolding write_error
  challenge_answer (ok done) = ok tt
  challenge_answer (err invalid) = err (write_error [] 403 u_paste.Http.challenge_failed)
  challenge_answer (err unavailable) = err (write_error [] 503 u_paste.Http.challenge_unavailable)

  abbrev pub is_blank : List Bytes → Bool
  is_blank [] = true
  is_blank (word ∷ words) = false

  -- A value is blank after TrimSpace if it has no field.
  unfoldable pub check_challenge :
      (Bytes → Bytes → Result ChallengeError (Unit {0}))
      → Request
      → List Bytes
      → Result Response (Unit {0})
  unfolding fields challenge_answer challenge_remote_ip write_error
  check_challenge verify r [] = err (write_error [] 403 u_paste.Http.challenge_required)
  check_challenge verify r (value ∷ []) =
      if is_blank (fields value)
      then err (write_error [] 403 u_paste.Http.challenge_required)
      else challenge_answer (verify value (challenge_remote_ip r))
  check_challenge verify r (value ∷ other ∷ values) =
      err (write_error [] 403 u_paste.Http.challenge_required)

  unfoldable pub require_challenge : Request → Result Response (Unit {0})
  unfolding check_challenge
  require_challenge r = elim server.options.challenge [
    | none ↦ ok tt
    | some verify ↦ check_challenge verify r r.challenge
  ]
