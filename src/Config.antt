-- ===== src/Config.antt =====
-- The configuration of the server, internal/config/config.go. The packages flag, net, net/netip,
-- net/url, path/filepath, strconv and time are a parameter, `Platform`. A duration is a number of
-- nanoseconds, where one that is not positive is 0; the environment answers a variable or not.
pub mod Addresses
pub mod Parse
pub mod Valid
use u_paste.Prelude.{
  ℕ, ◌*◌, Bool, true, false, ◌&&◌, ◌||◌, not, Option, none, some, List, [], ◌∷◌, ltb, leb,
  if◌then◌else◌, Bytes, codes, bytes_eq, Result, ok, err, ◌>>=◌, ◌>>◌, require, refuse, or_fail,
}
use u_paste.Abuse.ClientIp.{trim_space, split}
use u_paste.Admin.Tokens.{parse_token}
use u_paste.Challenge.{Provider, Url, is_http, is_bare_origin, origin_of, parse_provider, validate}
use u_paste.Challenge
use u_paste.Http.Texts.{to_lower}

pub data Mode : Type 0 where
  private public : Mode

-- The values of the five flags.
pub record Flags : Type 0 where
  pub addr : Bytes
  pub file_addr : Bytes
  pub file_origin : Bytes
  pub trusted_proxy_cidrs : Bytes
  pub data_dir : Bytes

-- `parse_flags` answers the values, from their defaults, and the arguments left over;
-- `parse_prefix` is ParsePrefix and Masked; `absolute` is Abs of Clean.
pub record Platform : Type 1 where
  pub Prefix : Type 0
  pub parse_flags : Flags → List Bytes → Option (Flags × List Bytes)
  pub parse_duration : Bytes → Option ℕ
  pub parse_bool : Bytes → Option Bool
  pub split_host_port : Bytes → Option (Bytes × Bytes)
  pub atoi : Bytes → Option ℕ
  pub parse_prefix : Bytes → Option Prefix
  pub parse_url : Bytes → Option Url
  pub absolute : Bytes → Option Bytes
  pub sha256 : Bytes → Bytes

pub data Error : Type 0 where
  bad_flags bad_mode bad_duration bad_ttl bad_timeout bad_challenge : Error
  challenge_in_private no_challenge bad_admin_token no_admin_token bad_cookie insecure_cookie :
      Error
  bad_address same_address bad_origin bad_cidrs bad_data_dir : Error

abbrev pub Lookup : Type 0
Lookup = Bytes → Option Bytes

abbrev pub env_or_default : Lookup → Bytes → Bytes → Bytes
env_or_default lookup name fallback = elim (lookup name) [ none ↦ fallback | some value ↦ value ]

abbrev is_empty : Bytes → Bool
is_empty value = bytes_eq value []

abbrev pub is_public : Mode → Bool
is_public public = true
is_public private = false

unfoldable pub parse_mode : Bytes → Result Error Mode
unfolding bytes_eq
parse_mode value =
    if bytes_eq value (codes "private")
    then ok private
    else if bytes_eq value (codes "public")
    then ok public
    else err bad_mode

unfoldable pub parse_challenge : Lookup → Result Error u_paste.Challenge.Config
unfolding trim_space parse_provider bytes_eq
parse_challenge lookup =
    let value = trim_space (env_or_default lookup (codes "UPASTE_CHALLENGE_PROVIDER") []) in
    let variable = λ (name : Bytes). trim_space (env_or_default lookup name []) in
    if is_empty value
    then ok (record {
      provider = none;
      cap_endpoint = [];
      cap_site_key = [];
      cap_secret_key = [];
      turnstile_site_key = [];
      turnstile_secret_key = [];
      turnstile_hostname = [];
    })
    else elim (parse_provider value) [
      | err _ ↦ err bad_challenge
      | ok provider ↦ ok (record {
        provider = some provider;
        cap_endpoint = variable (codes "UPASTE_CAP_ENDPOINT");
        cap_site_key = variable (codes "UPASTE_CAP_SITE_KEY");
        cap_secret_key = variable (codes "UPASTE_CAP_SECRET_KEY");
        turnstile_site_key = variable (codes "UPASTE_TURNSTILE_SITE_KEY");
        turnstile_secret_key = variable (codes "UPASTE_TURNSTILE_SECRET_KEY");
        turnstile_hostname = variable (codes "UPASTE_TURNSTILE_HOSTNAME");
      })
    ]

module _ (platform : Platform) where
  pub record Config : Type 0 where
    pub mode : Mode
    pub addr : Bytes
    pub file_addr : Bytes
    pub file_origin : Bytes
    pub trusted_proxies : List platform.Prefix
    pub data_dir : Bytes
    pub public_default_ttl : ℕ
    pub public_max_ttl : ℕ
    pub challenge : u_paste.Challenge.Config
    pub challenge_timeout : ℕ
    pub admin_verifier : Option Bytes
    pub admin_cookie_secure : Bool

  -- The values that the flags have by default.
  unfoldable pub flag_defaults : Lookup → Flags
  flag_defaults lookup = record {
    addr = env_or_default lookup (codes "UPASTE_ADDR") (codes "127.0.0.1:8080");
    file_addr = env_or_default lookup (codes "UPASTE_FILE_ADDR") (codes "127.0.0.1:8081");
    file_origin =
        env_or_default lookup (codes "UPASTE_FILE_ORIGIN") (codes "http://127.0.0.1:8081");
    trusted_proxy_cidrs = env_or_default lookup (codes "UPASTE_TRUSTED_PROXY_CIDRS") [];
    data_dir = env_or_default lookup (codes "UPASTE_DATA_DIR") (codes "./data");
  }

  unfoldable pub read_flags : List Bytes → Lookup → Result Error Flags
  unfolding flag_defaults
  read_flags args lookup = elim (platform.parse_flags (flag_defaults lookup) args) [
    | none ↦ err bad_flags
    | some (flags, []) ↦ ok flags
    | some (flags, (arg ∷ rest)) ↦ err bad_flags
  ]

  unfoldable pub env_duration : Lookup → Bytes → ℕ → Result Error ℕ
  unfolding trim_space bytes_eq
  env_duration lookup name fallback = elim (lookup name) [
    | none ↦ ok fallback
    | some value ↦
        if is_empty (trim_space value)
        then ok fallback
        else or_fail (platform.parse_duration (trim_space value)) bad_duration
  ]

  unfoldable pub validate_address : Bytes → Result Error (Unit {0})
  unfolding bytes_eq
  validate_address value = do
    parts ← or_fail (platform.split_host_port value) bad_address
    refuse (is_empty parts.0) bad_address
    port ← or_fail (platform.atoi parts.1) bad_address
    refuse (ltb port 1 || ltb 65535 port) bad_address

  unfoldable pub normalize_origin : Bytes → Result Error Bytes
  unfolding trim_space bytes_eq is_http is_bare_origin
  normalize_origin value = do
    parsed ← or_fail (platform.parse_url (trim_space value)) bad_origin
    refuse (is_empty parsed.scheme || not (is_http parsed) || is_empty parsed.host) bad_origin
    require (is_bare_origin parsed) bad_origin
    ok (origin_of parsed)

  unfoldable pub parse_prefixes : List Bytes → Result Error (List platform.Prefix)
  unfolding trim_space
  parse_prefixes [] = ok []
  parse_prefixes (part ∷ parts) = do
    prefix ← or_fail (platform.parse_prefix (trim_space part)) bad_cidrs
    prefixes ← parse_prefixes parts
    ok (prefix ∷ prefixes)

  unfoldable pub parse_cidrs : Bytes → Result Error (List platform.Prefix)
  unfolding trim_space bytes_eq split parse_prefixes
  parse_cidrs value = if is_empty (trim_space value) then ok [] else parse_prefixes (split value)

  -- The mode and the provider must agree, and a provider be configured completely.
  unfoldable pub check_challenge :
      Mode → u_paste.Challenge.Config → Option Provider → Result Error (Unit {0})
  unfolding validate
  check_challenge private config none = ok tt
  check_challenge public config none = err no_challenge
  check_challenge private config (some provider) = err challenge_in_private
  check_challenge public config (some provider) = elim (validate platform.parse_url config) [
    | ok done ↦ ok tt
    | err _ ↦ err bad_challenge
  ]

  -- The verifier of the admin token, if there is one.
  unfoldable pub read_admin_token : Lookup → Result Error (Option Bytes)
  unfolding trim_space bytes_eq parse_token
  read_admin_token lookup =
      let value = trim_space (env_or_default lookup (codes "UPASTE_ADMIN_TOKEN") []) in
      if is_empty value then ok none else elim (parse_token value) [
        | err _ ↦ err bad_admin_token
        | ok token ↦ ok (some (platform.sha256 token.value))
      ]

  abbrev pub require_admin : Mode → Option Bytes → Result Error (Unit {0})
  require_admin public none = err no_admin_token
  require_admin private none = ok tt
  require_admin mode (some found) = ok tt

  unfoldable pub set_cookie_secure : Mode → Bytes → Result Error Bool
  unfolding trim_space
  set_cookie_secure mode value = do
    parsed ← or_fail (platform.parse_bool (trim_space value)) bad_cookie
    refuse (is_public mode && not parsed) insecure_cookie
    ok parsed

  -- UPASTE_ADMIN_COOKIE_SECURE; if it is not set, public mode wants it.
  unfoldable pub read_cookie_secure : Mode → Lookup → Result Error Bool
  unfolding trim_space bytes_eq set_cookie_secure
  read_cookie_secure mode lookup = elim (lookup (codes "UPASTE_ADMIN_COOKIE_SECURE")) [
    | none ↦ ok (is_public mode)
    | some value ↦
        if is_empty (trim_space value) then ok (is_public mode) else set_cookie_secure mode value
  ]
