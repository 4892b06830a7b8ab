-- ===== src/Challenge/Complete.antt =====
-- The configurations of a challenge that internal/config/config.go takes for complete.
use u_paste.Prelude.{
  ◌≡◌, ◌≢◌, ◌⊎◌, inl, inr, true, false, ◌&&◌, ◌||◌, not, Option, some, [], arith, Option-cases,
  Bytes, codes, bytes_eq, bytes_eq_iff, ok, require, refuse, bind-eq-ok,
}
use u_paste.Abuse.ClientIp.{trim_space}
use u_paste.Challenge.{
  cap, turnstile, Config, Url, bad_endpoint, is_loopback_host, is_bare_origin, is_http,
  normalize_endpoint, require_field, validate_provider, validate,
}

-- An origin: a scheme and a host, and nothing behind them but at most a slash. Without TLS only this
-- host is reached.
pub record Origin (url : Url) : Type 0 where
  scheme :
      (url.scheme ≡ codes "https")
      ⊎ ((url.scheme ≡ codes "http") × (is_loopback_host url.hostname ≡ true))
  host : url.host ≢ []
  user : url.has_user ≡ false
  query : url.raw_query ≡ []
  fragment : url.fragment ≡ []
  raw_path : url.raw_path ≡ []
  path : (url.path ≡ []) ⊎ (url.path ≡ codes "/")

module _ (parse_url : Bytes → Option Url) where
  -- What each provider needs.
  pub data Complete (config : Config) : Type 0 where
    complete_cap :
        config.provider ≡ some cap
        → (url : Url) → parse_url (trim_space config.cap_endpoint) ≡ some url
        → Origin url
        → trim_space config.cap_site_key ≢ []
        → trim_space config.cap_secret_key ≢ []
        → Complete config
    complete_turnstile :
        config.provider ≡ some turnstile
        → trim_space config.turnstile_site_key ≢ []
        → trim_space config.turnstile_secret_key ≢ []
        → trim_space config.turnstile_hostname ≢ []
        → Complete config

  field-present : (value : Bytes) → require_field parse_url value ≡ ok tt → trim_space value ≢ []
  field-present value h e = absurd (ground (arith, h, (bytes_eq_iff (trim_space value) []).1 e))

  bare-Origin :
      (url : Url)
      → (bytes_eq url.scheme [] || bytes_eq url.host []) ≡ false
      → is_http url ≡ true
      → is_bare_origin url ≡ true
      → (bytes_eq url.scheme (codes "http") && not (is_loopback_host url.hostname)) ≡ false
      → Origin url
  unfolding is_http is_bare_origin
  bare-Origin url a b c d = record {
    scheme = ground (
      arith,
      b,
      d,
      bytes_eq_iff url.scheme (codes "https"),
      bytes_eq_iff url.scheme (codes "http"),
    );
    host = λ e. absurd (ground (arith, a, (bytes_eq_iff url.host []).1 e));
    user = ground (arith, c);
    query = (bytes_eq_iff url.raw_query []).0 (ground (arith, c));
    raw_path = (bytes_eq_iff url.raw_path []).0 (ground (arith, c));
    fragment = (bytes_eq_iff url.fragment []).0 (ground (arith, c));
    path = ground (arith, c, bytes_eq_iff url.path [], bytes_eq_iff url.path (codes "/"));
  }

  endpoint-Origin :
      (value : Bytes) {origin : Bytes}
      → normalize_endpoint parse_url value ≡ ok origin
      → (url : Url) × (parse_url (trim_space value) ≡ some url) × Origin url
  unfolding normalize_endpoint
  endpoint-Origin value h = elim (Option-cases (parse_url (trim_space value))) [
    | inl n ↦ absurd (ground (arith, n, h))
    | inr (url, n) ↦
        let (_, a, r1) =
          bind-eq-ok (refuse (bytes_eq url.scheme [] || bytes_eq url.host []) bad_endpoint) _
            (rw n at h) in
        let (_, b, r2) = bind-eq-ok (require (is_http url) bad_endpoint) _ r1 in
        let (_, c, r3) = bind-eq-ok (require (is_bare_origin url) bad_endpoint) _ r2 in
        let (_, d, r4) =
          bind-eq-ok
            (refuse (bytes_eq url.scheme (codes "http") && not (is_loopback_host url.hostname))
              bad_endpoint)
            _ r3 in
        (
          url,
          n,
          bare-Origin url (ground (arith, a)) (ground (arith, b)) (ground (arith, c))
              (ground (arith, d)),
        )
  ]

  -- Validate accepts only configurations that are complete.
  pub validate-Complete : (config : Config) → validate parse_url config ≡ ok tt → Complete config
  unfolding validate validate_provider
  validate-Complete config h = elim (Option-cases config.provider) [
    | inl n ↦ absurd (ground (arith, n, h))
    | inr (cap, n) ↦
        let (origin, a, r1) =
          bind-eq-ok (normalize_endpoint parse_url config.cap_endpoint) _ (rw n at h) in
        let (_, b, c) = bind-eq-ok (require_field parse_url config.cap_site_key) _ r1 in
        let (url, p, o) = endpoint-Origin config.cap_endpoint a in
        complete_cap n url p o (field-present config.cap_site_key b)
          (field-present config.cap_secret_key c)
    | inr (turnstile, n) ↦
        let (_, a, r1) =
          bind-eq-ok (require_field parse_url config.turnstile_site_key) _ (rw n at h) in
        let (_, b, c) = bind-eq-ok (require_field parse_url config.turnstile_secret_key) _ r1 in
        complete_turnstile n (field-present config.turnstile_site_key a)
          (field-present config.turnstile_secret_key b) (field-present config.turnstile_hostname c)
  ]
