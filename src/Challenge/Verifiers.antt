-- ===== src/Challenge/Verifiers.antt =====
-- The verifiers of internal/challenge: NewVerifier, and Verify of cap.go and turnstile.go. net/http,
-- encoding/json, net/url and strings.EqualFold are a parameter, `Remote`.
use u_paste.Prelude.{
  ℕ, Bool, ◌||◌, Option, List, [], ◌∷◌, ◌++◌, ltb, leb, if◌then◌else◌, Bytes, codes, bytes_eq, take,
  Result, ok, ◌>>=◌, ◌>>◌, require, refuse, or_fail,
}
use u_paste.Http.Requests.{ChallengeError, invalid, unavailable}
use u_paste.Challenge.{
  Provider, cap, turnstile, Config, Url, Error, unsupported_provider, normalize_endpoint, validate,
}

pub record HttpResponse : Type 0 where
  pub status : ℕ
  pub body : Bytes

pub record TurnstileResponse : Type 0 where
  pub success : Bool
  pub hostname : Bytes
  pub action : Bytes

-- `post` sends a body of a content type to a URL; `marshal` is the JSON of the secret and the token,
-- `encode_form` url.Values.Encode.
pub record Remote : Type 0 where
  pub post : Bytes → Bytes → Bytes → Option HttpResponse
  pub marshal : Bytes → Bytes → Option Bytes
  pub encode_form : List (Bytes × Bytes) → Bytes
  pub decode_cap : Bytes → Option Bool
  pub decode_turnstile : Bytes → Option TurnstileResponse
  pub equal_fold : Bytes → Bytes → Bool

abbrev pub max_response_bytes : ℕ
max_response_bytes = 65536

abbrev pub turnstile_siteverify_url : Bytes
turnstile_siteverify_url = codes "https://challenges.cloudflare.com/turnstile/v0/siteverify"

module _ (remote : Remote) where
  -- The body of a 2xx answer, as far as it is read.
  unfoldable pub exchange : Bytes → Bytes → Bytes → Result ChallengeError Bytes
  exchange url content_type body = do
    response ← or_fail (remote.post url content_type body) unavailable
    refuse (ltb response.status 200 || leb 300 response.status) unavailable
    ok (take max_response_bytes response.body)

  unfoldable pub verify_cap : Bytes → Bytes → Bytes → Bytes → Result ChallengeError (Unit {0})
  unfolding exchange
  verify_cap endpoint secret token remote_ip = do
    body ← or_fail (remote.marshal secret token) unavailable
    answer ← exchange (endpoint ++ codes "/siteverify") (codes "application/json") body
    success ← or_fail (remote.decode_cap answer) unavailable
    require success invalid

  abbrev pub form_of : Bytes → Bytes → Bytes → List (Bytes × Bytes)
  form_of secret token remote_ip =
      (codes "secret", secret)
      ∷ (codes "response", token)
      ∷ (if bytes_eq remote_ip [] then [] else (codes "remoteip", remote_ip) ∷ [])

  unfoldable pub verify_turnstile : Bytes → Bytes → Bytes → Bytes → Result ChallengeError (Unit {0})
  unfolding exchange bytes_eq
  verify_turnstile secret hostname token remote_ip = do
    answer ←
        exchange turnstile_siteverify_url (codes "application/x-www-form-urlencoded")
          (remote.encode_form (form_of secret token remote_ip))
    decoded ← or_fail (remote.decode_turnstile answer) unavailable
    require decoded.success invalid
    require (remote.equal_fold decoded.hostname hostname) invalid
    require (bytes_eq decoded.action (codes "create_share")) invalid

  abbrev pub Verifier : Type 0
  Verifier = Bytes → Bytes → Result ChallengeError (Unit {0})

  unfoldable pub verifier_of : (Bytes → Option Url) → Provider → Config → Result Error Verifier
  unfolding normalize_endpoint verify_cap verify_turnstile
  verifier_of parse_url cap config = do
    endpoint ← normalize_endpoint parse_url config.cap_endpoint
    ok (verify_cap endpoint config.cap_secret_key)
  verifier_of parse_url turnstile config =
      ok (verify_turnstile config.turnstile_secret_key config.turnstile_hostname)

  -- NewVerifier; the timeout of the client is left out.
  unfoldable pub new_verifier : (Bytes → Option Url) → Config → Result Error Verifier
  unfolding validate verifier_of
  new_verifier parse_url config = do
    validate parse_url config
    provider ← or_fail config.provider unsupported_provider
    verifier_of parse_url provider config
