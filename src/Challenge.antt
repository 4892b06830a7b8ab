-- ===== src/Challenge.antt =====
-- The configuration of challenges, internal/challenge/challenge.go: Config, ParseProvider, Validate,
-- PublicConfig and normalizeEndpoint. net/url is a parameter: what Parse makes of a string.
pub mod Complete
pub mod Verifiers
use u_paste.Prelude.{
  Bool, false, ◌&&◌, ◌||◌, not, Option, none, some, [], ◌∷◌, ◌++◌, ◌==◌, if◌then◌else◌, Bytes,
  codes, bytes_eq, Result, ok, err, ◌>>=◌, ◌>>◌, require, refuse, or_fail,
}
use u_paste.Abuse.ClientIp.{trim_space}
use u_paste.Http.{ChallengeConfig}
use u_paste.Http.Texts.{to_lower}

pub data Provider : Type 0 where
  cap turnstile : Provider

-- No provider is the empty one.
pub record Config : Type 0 where
  pub provider : Option Provider
  pub cap_endpoint : Bytes
  pub cap_site_key : Bytes
  pub cap_secret_key : Bytes
  pub turnstile_site_key : Bytes
  pub turnstile_secret_key : Bytes
  pub turnstile_hostname : Bytes

-- The fields of a url.URL that are looked at; `has_user` is whether User is not nil.
pub record Url : Type 0 where
  pub scheme : Bytes
  pub host : Bytes
  pub hostname : Bytes
  pub path : Bytes
  pub raw_path : Bytes
  pub raw_query : Bytes
  pub fragment : Bytes
  pub has_user : Bool

pub data Error : Type 0 where
  bad_endpoint missing_field unsupported_provider : Error

unfoldable pub provider_string : Provider → Bytes
provider_string cap = codes "cap"
provider_string turnstile = codes "turnstile"

unfoldable pub parse_provider : Bytes → Result Error Provider
unfolding trim_space to_lower bytes_eq provider_string
parse_provider value =
    let name = to_lower (trim_space value) in
    if bytes_eq name (provider_string cap)
    then ok cap
    else if bytes_eq name (provider_string turnstile)
    then ok turnstile
    else err unsupported_provider

abbrev pub is_bracket : Bytes → Bool
is_bracket [] = false
is_bracket (b ∷ bytes) = b == b'[' || b == b']'

-- strings.Trim(host, "[]")
unfoldable pub trim_brackets_left : Bytes → Bytes
trim_brackets_left [] = []
trim_brackets_left (b ∷ bytes) =
    let rest = trim_brackets_left bytes in if is_bracket (b ∷ []) then rest else b ∷ bytes

unfoldable pub trim_brackets_right : Bytes → Bytes
trim_brackets_right [] = []
trim_brackets_right (b ∷ bytes) = elim (trim_brackets_right bytes) [
  | [] ↦ if is_bracket (b ∷ []) then [] else b ∷ []
  | (c ∷ rest) ↦ b ∷ c ∷ rest
]

unfoldable pub is_loopback_host : Bytes → Bool
unfolding trim_brackets_left trim_brackets_right bytes_eq
is_loopback_host host =
    let name = trim_brackets_right (trim_brackets_left host) in
    bytes_eq name (codes "localhost")
    || bytes_eq name (codes "127.0.0.1")
    || bytes_eq name (codes "::1")

-- A URL is absolute if it has a scheme.
unfoldable pub is_bare_origin : Url → Bool
unfolding bytes_eq
is_bare_origin u =
    not u.has_user
    && bytes_eq u.raw_query []
    && bytes_eq u.fragment []
    && (bytes_eq u.path [] || bytes_eq u.path (codes "/"))
    && bytes_eq u.raw_path []

unfoldable pub is_http : Url → Bool
unfolding bytes_eq
is_http u = bytes_eq u.scheme (codes "http") || bytes_eq u.scheme (codes "https")

abbrev pub origin_of : Url → Bytes
origin_of u = u.scheme ++ codes "://" ++ u.host

module _ (parse_url : Bytes → Option Url) where
  unfoldable pub normalize_endpoint : Bytes → Result Error Bytes
  unfolding trim_space bytes_eq is_http is_bare_origin is_loopback_host
  normalize_endpoint value = do
    parsed ← or_fail (parse_url (trim_space value)) bad_endpoint
    refuse (bytes_eq parsed.scheme [] || bytes_eq parsed.host []) bad_endpoint
    require (is_http parsed) bad_endpoint
    require (is_bare_origin parsed) bad_endpoint
    refuse (bytes_eq parsed.scheme (codes "http") && not (is_loopback_host parsed.hostname))
        bad_endpoint
    ok (origin_of parsed)

  abbrev pub require_field : Bytes → Result Error (Unit {0})
  require_field value = refuse (bytes_eq (trim_space value) []) missing_field

  unfoldable pub validate_provider : Provider → Config → Result Error (Unit {0})
  unfolding normalize_endpoint trim_space bytes_eq
  validate_provider cap config = do
    origin ← normalize_endpoint config.cap_endpoint
    require_field config.cap_site_key
    require_field config.cap_secret_key
  validate_provider turnstile config = do
    require_field config.turnstile_site_key
    require_field config.turnstile_secret_key
    require_field config.turnstile_hostname

  unfoldable pub validate : Config → Result Error (Unit {0})
  unfolding validate_provider
  validate config = elim config.provider [
    | none ↦ err unsupported_provider
    | some provider ↦ validate_provider provider config
  ]

-- PublicConfig; the secret keys are not among its fields.
unfoldable pub public_config : Config → ChallengeConfig
unfolding provider_string
public_config config = elim config.provider [
  | none ↦ record { provider = []; site_key = []; endpoint = []; hostname = [] }
  | some cap ↦ record {
    provider = provider_string cap;
    site_key = config.cap_site_key;
    endpoint = config.cap_endpoint;
    hostname = [];
  }
  | some turnstile ↦ record {
    provider = provider_string turnstile;
    site_key = config.turnstile_site_key;
    endpoint = [];
    hostname = config.turnstile_hostname;
  }
]
