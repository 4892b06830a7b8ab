-- ===== src/Examples/Configs.antt =====
-- A public configuration.
use u_paste.Prelude.{
  ◌≡◌, ◌≢◌, ◌≤◌, refl, true, false, none, some, [], ◌++◌, Bytes, codes, bytes_eq, if◌then◌else◌, ok,
}
use u_paste.Base64.{encode, decode, sextet_char}
use u_paste.Admin.Tokens.{token_prefix}
use u_paste.Challenge.{turnstile}
use u_paste.Config.{Platform, public, Lookup, Config}
use u_paste.Config.Addresses.{Listens}
use u_paste.Config.Parse.{parse}
use u_paste.Config.Valid.{Fits, parse-Fits}
use u_paste.Examples.{digest, raw_token}

abbrev platform : Platform
platform = record {
  Prefix = Bytes;
  parse_flags = λ flags args. some (flags, args);
  parse_duration = λ text. none;
  parse_bool = λ text. some true;
  split_host_port = λ text. some (text, text);
  atoi = λ text. some 8080;
  parse_prefix = λ text. some text;
  parse_url = λ text. some (record {
    scheme = codes "http";
    host = codes "localhost";
    hostname = codes "localhost";
    path = [];
    raw_path = [];
    raw_query = [];
    fragment = [];
    has_user = false;
  });
  absolute = λ path. some path;
  sha256 = digest;
}

abbrev lookup : Lookup
lookup name =
    if bytes_eq name (codes "UPASTE_DEPLOYMENT_MODE")
    then some (codes "public")
    else if bytes_eq name (codes "UPASTE_CHALLENGE_PROVIDER")
    then some (codes "turnstile")
    else if bytes_eq name (codes "UPASTE_TURNSTILE_SITE_KEY")
    then some (codes "site")
    else if bytes_eq name (codes "UPASTE_TURNSTILE_SECRET_KEY")
    then some (codes "secret")
    else if bytes_eq name (codes "UPASTE_TURNSTILE_HOSTNAME")
    then some (codes "paste.test")
    else if bytes_eq name (codes "UPASTE_ADMIN_TOKEN")
    then some (token_prefix ++ encode raw_token)
    else none

abbrev config : Config platform
config = record {
  mode = public;
  addr = codes "127.0.0.1:8080";
  file_addr = codes "127.0.0.1:8081";
  file_origin = codes "http://localhost";
  trusted_proxies = [];
  data_dir = codes "./data";
  public_default_ttl = 86400000000000;
  public_max_ttl = 604800000000000;
  challenge = record {
    provider = some turnstile;
    cap_endpoint = [];
    cap_site_key = [];
    cap_secret_key = [];
    turnstile_site_key = codes "site";
    turnstile_secret_key = codes "secret";
    turnstile_hostname = codes "paste.test";
  };
  challenge_timeout = 10000000000;
  admin_verifier = some (digest (token_prefix ++ encode raw_token));
  admin_cookie_secure = true;
}

parsed : parse platform [] lookup ≡ ok config
unfolding parse encode sextet_char decode
parsed = refl

parse-Fits_example :
    Fits platform public config.challenge config.admin_verifier true
    × (1 ≤ 86400000000000)
    × (86400000000000 ≤ 604800000000000)
    × (1 ≤ 10000000000)
    × (config.addr ≢ config.file_addr)
    × Listens platform config.addr
    × Listens platform config.file_addr
parse-Fits_example = parse-Fits platform [] lookup config parsed
