-- ===== src/Admin.antt =====
-- The single admin's sessions: internal/admin/manager.go. The Manager's
-- maps are tables; SHA-256, the rate limiters and the random bytes are parameters. Times are
-- nanoseconds since the zero time.
pub mod Sessions
pub mod Authority
pub mod Tokens
use u_paste.Prelude.{
  ℕ, zero, suc, ◌+◌, ◌-◌, ◌*◌, ◌/◌, Bool, true, false, ◌&&◌, ◌||◌, not, Option, none, some, List,
  [], ◌∷◌, ◌++◌, ◌==◌, ltb, leb, if◌then◌else◌, Bytes, codes, bytes_eq, length, take, drop, Result,
  ok, err, ◌>>=◌, ◌>>◌, require, refuse, or_fail,
}
use u_paste.Base64.{encode, decode}
use u_paste.Database.Tables.{Table, find, modify, erase}
use u_paste.Abuse.{Rate}
use u_paste.Admin.Tokens.{verify_token, random_base64_url}

abbrev pub default_session_ttl : ℕ
default_session_ttl = 8 * 3600000000000

abbrev pub max_sessions : ℕ
max_sessions = 64

abbrev pub login_interval : ℕ
login_interval = 12 * 1000000000

abbrev pub login_burst : ℕ
login_burst = 5

abbrev pub login_idle_ttl : ℕ
login_idle_ttl = 10 * 60000000000

abbrev pub max_login_ips : ℕ
max_login_ips = 4096

pub data Error : Type 0 where
  unauthorized rate_limited no_random : Error

-- `sessionRecord` and `Session`
pub record Session : Type 0 where
  pub csrf : Bytes
  pub expires_at : ℕ

-- `now.Before(expiresAt)`
unfoldable pub unexpired : ℕ → Table Session → Table Session
unexpired now [] = []
unexpired now ((key, session) ∷ sessions) =
    let rest = unexpired now sessions in
    if ltb now session.expires_at then (key, session) ∷ rest else rest

module _ (rate : Rate) where
  pub record LoginEntry : Type 0 where
    pub limiter : rate.Limiter
    pub last : ℕ

  pub record Manager : Type 0 where
    pub expected : Bytes
    pub session_ttl : ℕ
    pub sessions : Table Session
    pub login_limits : Table LoginEntry
    pub last_sweep : ℕ

  unfoldable pub new_manager : Bytes → ℕ → Manager
  new_manager expected session_ttl = record {
    expected = expected;
    session_ttl = if leb session_ttl 0 then default_session_ttl else session_ttl;
    sessions = [];
    login_limits = [];
    last_sweep = 0;
  }

  abbrev pub with_sessions : Manager → Table Session → Manager
  with_sessions m sessions = record {
    expected = m.expected;
    session_ttl = m.session_ttl;
    sessions = sessions;
    login_limits = m.login_limits;
    last_sweep = m.last_sweep;
  }

  abbrev pub with_limits : Manager → Table LoginEntry → ℕ → Manager
  with_limits m login_limits last_sweep = record {
    expected = m.expected;
    session_ttl = m.session_ttl;
    sessions = m.sessions;
    login_limits = login_limits;
    last_sweep = last_sweep;
  }

  unfoldable pub sweep_locked : ℕ → Manager → Manager
  unfolding unexpired
  sweep_locked now m = with_sessions m (unexpired now m.sessions)

  unfoldable pub recent : ℕ → Table LoginEntry → Table LoginEntry
  recent now [] = []
  recent now ((key, entry) ∷ entries) =
      let rest = recent now entries in
      if leb login_idle_ttl (now - entry.last) then rest else (key, entry) ∷ rest

  unfoldable pub sweep_limits : ℕ → Manager → Manager
  unfolding recent
  sweep_limits now m =
      if leb login_idle_ttl (now - m.last_sweep)
      then with_limits m (recent now m.login_limits) now
      else m

  -- `entry.last = now` and AllowN, for an entry that the map holds.
  unfoldable pub ask_entry : Bytes → ℕ → LoginEntry → Manager → Bool × Manager
  unfolding modify
  ask_entry client_ip now entry m =
      let (allowed, limiter) = rate.allow_n entry.limiter now in
      (
        allowed,
        with_limits m
            (modify client_ip (λ e. record { limiter = limiter; last = now }) m.login_limits)
            m.last_sweep,
      )

  abbrev pub new_entry : ℕ → LoginEntry
  new_entry now = record { limiter = rate.new_limiter login_interval login_burst; last = now }

  unfoldable pub allow_entry : Bytes → ℕ → Manager → Bool × Manager
  unfolding find ask_entry
  allow_entry client_ip now m = elim (find client_ip m.login_limits) [
    | some entry ↦ ask_entry client_ip now entry m
    | none ↦
        if leb max_login_ips (length m.login_limits)
        then (false, m)
        else ask_entry client_ip now (new_entry now)
            (with_limits m ((client_ip, new_entry now) ∷ m.login_limits) m.last_sweep)
  ]

  unfoldable pub allow_login : Bytes → ℕ → Manager → Bool × Manager
  unfolding sweep_limits allow_entry
  allow_login client_ip now m = allow_entry client_ip now (sweep_limits now m)

  -- ActiveSessions
  unfoldable pub active_sessions : ℕ → Manager → ℕ × Manager
  unfolding sweep_locked
  active_sessions now m = (length (sweep_locked now m).sessions, sweep_locked now m)

  module _ (sha256 : Bytes → Bytes) where
    abbrev store_session : ℕ → Bytes → Bytes → Manager → Result Error (Bytes × Bytes) × Manager
    store_session now raw csrf m =
        if leb max_sessions (length m.sessions) then (err rate_limited, m) else (
          ok (raw, csrf),
          with_sessions m (
              (sha256 raw, record { csrf = csrf; expires_at = now + m.session_ttl })
              ∷ erase (sha256 raw) m.sessions),
        )

    -- Login once the rate limit allows it; `random` and `random'` are the two reads of rand.
    unfoldable pub open_session :
        Bytes → ℕ → Option Bytes → Option Bytes → Manager → Result Error (Bytes × Bytes) × Manager
    unfolding verify_token sweep_locked erase random_base64_url
    open_session candidate now random random' m =
        if not (verify_token sha256 candidate m.expected)
        then (err unauthorized, m)
        else elim (random_base64_url random) [
          | err _ ↦ (err no_random, m)
          | ok raw ↦ elim (random_base64_url random') [
            | err _ ↦ (err no_random, m)
            | ok csrf ↦ store_session now raw csrf (sweep_locked now m)
          ]
        ]

    unfoldable pub login :
        Bytes
        → Bytes
        → ℕ
        → Option Bytes
        → Option Bytes
        → Manager
        → Result Error (Bytes × Bytes) × Manager
    unfolding allow_login open_session
    login candidate client_ip now random random' m =
        let (allowed, m') = allow_login client_ip now m in
        if allowed then open_session candidate now random random' m' else (err rate_limited, m')

    -- `!now.Before(record.expiresAt)` deletes the record.
    unfoldable pub lookup : Bytes → ℕ → Manager → Option Session × Manager
    unfolding sweep_locked find erase
    lookup raw now m =
        let m' = sweep_locked now m in
        elim (find (sha256 raw) m'.sessions) [
          | none ↦ (none, m')
          | some session ↦
              if not (ltb now session.expires_at)
              then (none, with_sessions m' (erase (sha256 raw) m'.sessions))
              else (some session, m')
        ]

    unfoldable pub csrf_matches : Bytes → Bytes → ℕ → Manager → Bool × Manager
    unfolding sweep_locked find bytes_eq
    csrf_matches raw csrf now m =
        let m' = sweep_locked now m in
        elim (find (sha256 raw) m'.sessions) [
          | none ↦ (false, m')
          | some session ↦
              if not (ltb now session.expires_at)
              then (false, m')
              else if not (length csrf == length session.csrf)
              then (false, m')
              else (bytes_eq csrf session.csrf, m')
        ]

    unfoldable pub logout : Bytes → Manager → Manager
    unfolding erase
    logout raw m = with_sessions m (erase (sha256 raw) m.sessions)
