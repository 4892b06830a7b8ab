-- ===== src/Config/Valid.antt =====
-- What Parse accepts.
use u_paste.Prelude.{
  ◌≡◌, ◌≢◌, ◌≤◌, refl, inl, inr, Bool, true, ◌||◌, Option, none, some, List, [], arith, ltb,
  Bool-cases, Option-cases, Result-cases, Bytes, codes, bytes_eq, bytes_eq_iff, ok, refuse, or_fail,
  bind-eq-ok,
}
use u_paste.Abuse.ClientIp.{trim_space}
use u_paste.Http.Texts.{to_lower}
use u_paste.Challenge
use u_paste.Challenge.{validate}
use u_paste.Challenge.Complete.{Complete, validate-Complete}
use u_paste.Config
use u_paste.Config.{
  Mode, private, public, Platform, Error, bad_ttl, bad_timeout, same_address, bad_data_dir,
  parse_cidrs, Lookup, env_or_default, parse_mode, parse_challenge, Config, read_flags,
  env_duration, validate_address, normalize_origin, check_challenge, read_admin_token,
  require_admin, set_cookie_secure, read_cookie_secure, is_public,
}
use u_paste.Config.Addresses.{Listens, address-Listens}
use u_paste.Config.Parse.{Policy, Places, read_policy, read_places, parse}

module _ (platform : Platform) where
  -- What a deployment in a mode needs: in public mode a challenge that is configured completely, an
  -- admin and secure cookies; in private mode no challenge.
  pub data Fits (mode : Mode) (challenge : u_paste.Challenge.Config) (admin : Option Bytes)
      (secure : Bool) : Type 0 where
    fits_private : mode ≡ private → challenge.provider ≡ none → Fits mode challenge admin secure
    fits_public :
        mode ≡ public
        → Complete platform.parse_url challenge
        → (admin_verifier : Bytes) → admin ≡ some admin_verifier
        → secure ≡ true
        → Fits mode challenge admin secure

  read_cookie_secure_public :
      (lookup : Lookup) (secure : Bool)
      → read_cookie_secure platform public lookup ≡ ok secure
      → secure ≡ true
  unfolding read_cookie_secure set_cookie_secure
  read_cookie_secure_public lookup secure h =
      elim (Option-cases (lookup (codes "UPASTE_ADMIN_COOKIE_SECURE"))) [
        | inl n ↦ ground (arith, n, h)
        | inr (value, n) ↦ elim (Bool-cases (bytes_eq (trim_space value) [])) [
          | inl b ↦ ground (arith, n, b, h)
          | inr b ↦ elim (Option-cases (platform.parse_bool (trim_space value))) [
            | inl q ↦ absurd (ground (arith, n, b, q, h))
            | inr (parsed, q) ↦ ground (arith, n, b, q, h)
          ]
        ]
      ]

  policy-Fits :
      (lookup : Lookup) (mode : Mode) (challenge : u_paste.Challenge.Config) (admin : Option Bytes)
      (secure : Bool)
      → check_challenge platform mode challenge challenge.provider ≡ ok tt
      → require_admin platform mode admin ≡ ok tt
      → read_cookie_secure platform mode lookup ≡ ok secure
      → Fits mode challenge admin secure
  unfolding check_challenge
  policy-Fits lookup private challenge admin secure c a s = elim (Option-cases challenge.provider) [
    | inl n ↦ fits_private refl n
    | inr (provider, n) ↦ absurd (ground (arith, n, c))
  ]
  policy-Fits lookup public challenge none secure c a s = absurd (ground (arith, a))
  policy-Fits lookup public challenge (some token) secure c a s =
      elim (Option-cases challenge.provider) [
        | inl n ↦ absurd (ground (arith, n, c))
        | inr (provider, n) ↦ elim (Result-cases (validate platform.parse_url challenge)) [
          | inr (e, v) ↦ absurd (ground (arith, n, v, c))
          | inl (u, v) ↦
              fits_public refl (validate-Complete platform.parse_url challenge v) token refl
                (read_cookie_secure_public lookup secure s)
        ]
      ]

  record Sound (policy : Policy) : Type 0 where
    fits : Fits policy.mode policy.challenge policy.admin_verifier policy.admin_cookie_secure
    ttl : (1 ≤ policy.public_default_ttl) × (policy.public_default_ttl ≤ policy.public_max_ttl)
    timeout : 1 ≤ policy.challenge_timeout

  read_policy-Sound :
      (lookup : Lookup) (policy : Policy) → read_policy platform lookup ≡ ok policy → Sound policy
  unfolding read_policy
  read_policy-Sound lookup policy h =
      let (mode, m, r1) =
        bind-eq-ok
          (parse_mode (
            to_lower (
              trim_space
                (env_or_default lookup (codes "UPASTE_DEPLOYMENT_MODE") (codes "private")))))
          _ h in
      let (default_ttl, d, r2) =
        bind-eq-ok (env_duration platform lookup (codes "UPASTE_PUBLIC_DEFAULT_TTL") 86400000000000)
          _ r1 in
      let (max_ttl, x, r3) =
        bind-eq-ok (env_duration platform lookup (codes "UPASTE_PUBLIC_MAX_TTL") 604800000000000) _
          r2 in
      let (_, ttl, r4) =
        bind-eq-ok
          (refuse (ltb default_ttl 1 || (ltb max_ttl 1 || ltb max_ttl default_ttl)) bad_ttl) _ r3 in
      let (timeout, t, r5) =
        bind-eq-ok (env_duration platform lookup (codes "UPASTE_CHALLENGE_TIMEOUT") 10000000000) _
          r4 in
      let (_, positive, r6) = bind-eq-ok (refuse (ltb timeout 1) bad_timeout) _ r5 in
      let (challenge, c, r7) = bind-eq-ok (parse_challenge lookup) _ r6 in
      let (_, agrees, r8) =
        bind-eq-ok (check_challenge platform mode challenge challenge.provider) _ r7 in
      let (admin, a, r9) = bind-eq-ok (read_admin_token platform lookup) _ r8 in
      let (_, required, r10) = bind-eq-ok (require_admin platform mode admin) _ r9 in
      let (secure, s, r11) = bind-eq-ok (read_cookie_secure platform mode lookup) _ r10 in
      let made : record {
        mode = mode;
        public_default_ttl = default_ttl;
        public_max_ttl = max_ttl;
        challenge = challenge;
        challenge_timeout = timeout;
        admin_verifier = admin;
        admin_cookie_secure = secure;
      }
          ≡ policy =
        ground (arith, r11) in
      rw (← made) (record {
        fits = policy-Fits lookup mode challenge admin secure agrees required s;
        ttl = ground (arith, ttl);
        timeout = ground (arith, positive);
      })

  distinct_of_refuse : (a b : Bytes) → refuse (bytes_eq a b) same_address ≡ ok tt → a ≢ b
  distinct_of_refuse a b h e = absurd (ground (arith, h, (bytes_eq_iff a b).1 e))

  read_places-distinct :
      (flags : u_paste.Config.Flags) (places : Places platform)
      → read_places platform flags ≡ ok places
      → (places.addr ≢ places.file_addr)
        × Listens platform places.addr
        × Listens platform places.file_addr
  unfolding read_places
  read_places-distinct flags places h =
      let addr = trim_space flags.addr in
      let file_addr = trim_space flags.file_addr in
      let (_, a, r1) = bind-eq-ok (validate_address platform addr) _ h in
      let (_, f, r2) = bind-eq-ok (validate_address platform file_addr) _ r1 in
      let (_, d, r3) = bind-eq-ok (refuse (bytes_eq addr file_addr) same_address) _ r2 in
      let (origin, o, r4) = bind-eq-ok (normalize_origin platform flags.file_origin) _ r3 in
      let (proxies, c, r5) = bind-eq-ok (parse_cidrs platform flags.trusted_proxy_cidrs) _ r4 in
      let (_, e, r6) =
        bind-eq-ok (refuse (bytes_eq (trim_space flags.data_dir) []) bad_data_dir) _ r5 in
      let (dir, m, r7) =
        bind-eq-ok (or_fail (platform.absolute (trim_space flags.data_dir)) bad_data_dir) _ r6 in
      let made : record {
        addr = addr;
        file_addr = file_addr;
        file_origin = origin;
        trusted_proxies = proxies;
        data_dir = dir;
      }
          ≡ places =
        ground (arith, r7) in
      rw (← made) (
        distinct_of_refuse addr file_addr d,
        address-Listens platform addr a,
        address-Listens platform file_addr f,
      )

  -- If Parse returns a configuration, it is as its mode needs: in public mode a challenge whose
  -- provider has its keys (for Cap also an endpoint that is a bare https origin, or an http origin
  -- on the loopback host; for Turnstile a hostname), an admin verifier and secure cookies, in
  -- private mode no provider; and in any mode 0 < default TTL ≤ maximal TTL, a positive timeout,
  -- and two different addresses, each with a host and a port from 1 to 65535.
  pub parse-Fits :
      (args : List Bytes) (lookup : Lookup) (config : Config platform)
      → parse platform args lookup ≡ ok config
      → Fits config.mode config.challenge config.admin_verifier config.admin_cookie_secure
        × (1 ≤ config.public_default_ttl)
        × (config.public_default_ttl ≤ config.public_max_ttl)
        × (1 ≤ config.challenge_timeout)
        × (config.addr ≢ config.file_addr)
        × Listens platform config.addr
        × Listens platform config.file_addr
  unfolding parse
  parse-Fits args lookup config h =
      let (flags, f, r1) = bind-eq-ok (read_flags platform args lookup) _ h in
      let (policy, p, r2) = bind-eq-ok (read_policy platform lookup) _ r1 in
      let (places, q, r3) = bind-eq-ok (read_places platform flags) _ r2 in
      let sound = read_policy-Sound lookup policy p in
      let (distinct, first, second) = read_places-distinct flags places q in
      let made : record {
        mode = policy.mode;
        addr = places.addr;
        file_addr = places.file_addr;
        file_origin = places.file_origin;
        trusted_proxies = places.trusted_proxies;
        data_dir = places.data_dir;
        public_default_ttl = policy.public_default_ttl;
        public_max_ttl = policy.public_max_ttl;
        challenge = policy.challenge;
        challenge_timeout = policy.challenge_timeout;
        admin_verifier = policy.admin_verifier;
        admin_cookie_secure = policy.admin_cookie_secure;
      }
          ≡ config =
        ground (arith, r3) in
      rw (← made) (sound.fits, sound.ttl.0, sound.ttl.1, sound.timeout, distinct, first, second)
