-- ===== src/Config/Parse.antt =====
-- Parse of internal/config/config.go: its checks in their order.
use u_paste.Prelude.{
  ℕ, ◌*◌, Bool, ◌||◌, Option, List, [], ltb, Bytes, codes, bytes_eq, Result, ok, ◌>>=◌, ◌>>◌,
  refuse, or_fail,
}
use u_paste.Abuse.ClientIp.{trim_space}
use u_paste.Http.Texts.{to_lower}
use u_paste.Challenge
use u_paste.Config.{
  Mode, Flags, Platform, Error, bad_ttl, bad_timeout, same_address, bad_data_dir, Lookup,
  env_or_default, parse_mode, parse_challenge, Config, read_flags, env_duration, validate_address,
  normalize_origin, parse_cidrs, check_challenge, read_admin_token, require_admin,
  read_cookie_secure,
}

abbrev pub hour : ℕ
hour = 3600000000000

-- What the mode decides.
pub record Policy : Type 0 where
  pub mode : Mode
  pub public_default_ttl : ℕ
  pub public_max_ttl : ℕ
  pub challenge : u_paste.Challenge.Config
  pub challenge_timeout : ℕ
  pub admin_verifier : Option Bytes
  pub admin_cookie_secure : Bool

-- Where the server listens and stores.
pub record Places (platform : Platform) : Type 0 where
  pub addr : Bytes
  pub file_addr : Bytes
  pub file_origin : Bytes
  pub trusted_proxies : List platform.Prefix
  pub data_dir : Bytes

module _ (platform : Platform) where
  -- From the mode to the cookie.
  unfoldable pub read_policy : Lookup → Result Error Policy
  unfolding trim_space to_lower parse_mode env_duration parse_challenge check_challenge
      read_admin_token read_cookie_secure
  read_policy lookup = do
    mode ← parse_mode (
        to_lower
          (trim_space (env_or_default lookup (codes "UPASTE_DEPLOYMENT_MODE") (codes "private"))))
    default_ttl ← env_duration platform lookup (codes "UPASTE_PUBLIC_DEFAULT_TTL") (24 * hour)
    max_ttl ← env_duration platform lookup (codes "UPASTE_PUBLIC_MAX_TTL") (168 * hour)
    refuse (ltb default_ttl 1 || (ltb max_ttl 1 || ltb max_ttl default_ttl)) bad_ttl
    timeout ← env_duration platform lookup (codes "UPASTE_CHALLENGE_TIMEOUT") 10000000000
    refuse (ltb timeout 1) bad_timeout
    challenge ← parse_challenge lookup
    check_challenge platform mode challenge challenge.provider
    admin_verifier ← read_admin_token platform lookup
    require_admin platform mode admin_verifier
    cookie_secure ← read_cookie_secure platform mode lookup
    ok (record {
      mode = mode;
      public_default_ttl = default_ttl;
      public_max_ttl = max_ttl;
      challenge = challenge;
      challenge_timeout = timeout;
      admin_verifier = admin_verifier;
      admin_cookie_secure = cookie_secure;
    })

  -- From the addresses to the data directory.
  unfoldable pub read_places : Flags → Result Error (Places platform)
  unfolding trim_space bytes_eq validate_address normalize_origin parse_cidrs
  read_places flags = do
    let addr = trim_space flags.addr
    let file_addr = trim_space flags.file_addr
    validate_address platform addr
    validate_address platform file_addr
    refuse (bytes_eq addr file_addr) same_address
    file_origin ← normalize_origin platform flags.file_origin
    trusted_proxies ← parse_cidrs platform flags.trusted_proxy_cidrs
    refuse (bytes_eq (trim_space flags.data_dir) []) bad_data_dir
    data_dir ← or_fail (platform.absolute (trim_space flags.data_dir)) bad_data_dir
    ok (record {
      addr = addr;
      file_addr = file_addr;
      file_origin = file_origin;
      trusted_proxies = trusted_proxies;
      data_dir = data_dir;
    })

  unfoldable pub parse : List Bytes → Lookup → Result Error (Config platform)
  unfolding read_flags read_policy read_places
  parse args lookup = do
    flags ← read_flags platform args lookup
    policy ← read_policy lookup
    places ← read_places flags
    ok (record {
      mode = policy.mode;
      addr = places.addr;
      file_addr = places.file_addr;
      file_origin = places.file_origin;
      trusted_proxies = places.trusted_proxies;
      data_dir = places.data_dir;
      public_default_ttl = policy.public_default_ttl;
      public_max_ttl = policy.public_max_ttl;
      challenge = policy.challenge;
      challenge_timeout = policy.challenge_timeout;
      admin_verifier = policy.admin_verifier;
      admin_cookie_secure = policy.admin_cookie_secure;
    })
