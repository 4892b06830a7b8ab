-- ===== src/Admin/Sessions.antt =====
-- Which sessions exist, for how long, and who may open one.
use u_paste.Prelude.{
  ℕ, ◌≤◌, ◌≡◌, refl, inl, inr, Option, none, [], ◌∷◌, arith, Option-cases, Result-cases, Bytes,
  length,
}
use u_paste.Database.Tables.{Table, find, modify, erase}
use u_paste.Abuse.{Rate}
use u_paste.Admin.Tokens.{random_base64_url}
use u_paste.Admin.{
  active_sessions, Session, LoginEntry, Manager, new_manager, max_sessions, max_login_ips,
  unexpired, sweep_locked, recent, sweep_limits, ask_entry, allow_entry, allow_login, open_session,
  login, lookup, csrf_matches, logout, with_limits, new_entry,
}

pub length-unexpired : (now : ℕ) (t : Table Session) → length (unexpired now t) ≤ length t
unfolding unexpired
length-unexpired now [] = ground arith
length-unexpired now ((k, v) ∷ t) = ground (arith, length-unexpired now t)

pub find-unexpired :
    (now : ℕ) (k : Bytes) (t : Table Session) → find k t ≡ none → find k (unexpired now t) ≡ none
unfolding unexpired find
find-unexpired now k [] h = ground arith
find-unexpired now k ((j, v) ∷ t) h = ground (arith, find-unexpired now k t)

length-erase {ℓ} : {V : Type ℓ} (k : Bytes) (t : Table V) → length (erase k t) ≤ length t
unfolding erase
length-erase k [] = ground arith
length-erase k ((j, v) ∷ t) = ground (arith, length-erase k t)

length-modify {ℓ} :
    {V : Type ℓ} (k : Bytes) (f : V → V) (t : Table V) → length (modify k f t) ≡ length t
unfolding modify
length-modify k f [] = refl
length-modify k f ((j, v) ∷ t) = ground (arith, length-modify k f t)

module _ (rate : Rate) where
  abbrev pub Bounded : Manager rate → Type 0
  Bounded m = (length m.sessions ≤ max_sessions) × (length m.login_limits ≤ max_login_ips)

  length-recent : (now : ℕ) (t : Table (LoginEntry rate)) → length (recent rate now t) ≤ length t
  unfolding recent
  length-recent now [] = ground arith
  length-recent now ((k, v) ∷ t) = ground (arith, length-recent now t)

  sweep_limits-Bounded :
      (now : ℕ) (m : Manager rate) → Bounded m → Bounded (sweep_limits rate now m)
  unfolding sweep_limits
  sweep_limits-Bounded now m h = ground (arith, h, length-recent now m.login_limits)

  ask_entry_lem :
      (ip : Bytes) (now : ℕ) (entry : LoginEntry rate) (m : Manager rate)
      → (length (ask_entry rate ip now entry m).1.login_limits ≡ length m.login_limits)
        × ((ask_entry rate ip now entry m).1.sessions ≡ m.sessions)
        × ((ask_entry rate ip now entry m).1.expected ≡ m.expected)
        × ((ask_entry rate ip now entry m).1.session_ttl ≡ m.session_ttl)
  unfolding ask_entry
  ask_entry_lem ip now entry m = ground (
    arith,
    length-modify ip
        (λ (e : LoginEntry rate). record {
          limiter = (rate.allow_n entry.limiter now).1;
          last = now;
        })
        m.login_limits,
  )

  -- allowLogin keeps the sessions and the configuration.
  abbrev Same : Manager rate → Manager rate → Type 0
  Same m m' =
      (m'.sessions ≡ m.sessions) × (m'.expected ≡ m.expected) × (m'.session_ttl ≡ m.session_ttl)

  allow_entry_lem :
      (ip : Bytes) (now : ℕ) (m : Manager rate)
      → Bounded m
      → Bounded (allow_entry rate ip now m).1 × Same m (allow_entry rate ip now m).1
  unfolding allow_entry
  allow_entry_lem ip now m h = elim (Option-cases (find ip m.login_limits)) [
    | inr (entry, q) ↦ ground (arith, q, h, ask_entry_lem ip now entry m)
    | inl q ↦ ground (
      arith,
      q,
      h,
      ask_entry_lem ip now (new_entry rate now)
          (with_limits rate m ((ip, new_entry rate now) ∷ m.login_limits) m.last_sweep),
    )
  ]

  module _ (sha256 : Bytes → Bytes) where
    -- Login after the rate limit: either the sessions grow by one, or they stay.
    open_session-Bounded :
        (candidate : Bytes) (now : ℕ) (random random' : Option Bytes) (m : Manager rate)
        → Bounded m
        → Bounded (open_session rate sha256 candidate now random random' m).1
    unfolding open_session sweep_locked
    open_session-Bounded candidate now random random' m h =
        elim (Result-cases (random_base64_url random)) [
          | inr (e, q) ↦ ground (arith, q, h)
          | inl (raw, q) ↦ elim (Result-cases (random_base64_url random')) [
            | inr (e, r) ↦ ground (arith, q, r, h)
            | inl (csrf, r) ↦ ground (
              arith,
              q,
              r,
              h,
              length-unexpired now m.sessions,
              length-erase (sha256 raw) (unexpired now m.sessions),
            )
          ]
        ]

    -- The managers that the operations lead to, from NewManager on.
    pub data Reachable : Manager rate → Type 0 where
      start :
          (expected : Bytes) (session_ttl : ℕ) → Reachable (new_manager rate expected session_ttl)
      login_step :
          {m : Manager rate} (candidate ip : Bytes) (now : ℕ) (random random' : Option Bytes)
          → Reachable m
          → Reachable (login rate sha256 candidate ip now random random' m).1
      lookup_step :
          {m : Manager rate} (raw : Bytes) (now : ℕ)
          → Reachable m
          → Reachable (lookup rate sha256 raw now m).1
      csrf_step :
          {m : Manager rate} (raw csrf : Bytes) (now : ℕ)
          → Reachable m
          → Reachable (csrf_matches rate sha256 raw csrf now m).1
      count_step :
          {m : Manager rate} (now : ℕ) → Reachable m → Reachable (active_sessions rate now m).1
      logout_step :
          {m : Manager rate} (raw : Bytes) → Reachable m → Reachable (logout rate sha256 raw m)

    login-Bounded :
        (candidate ip : Bytes) (now : ℕ) (random random' : Option Bytes) (m : Manager rate)
        → Bounded m
        → Bounded (login rate sha256 candidate ip now random random' m).1
    unfolding login allow_login
    login-Bounded candidate ip now random random' m h =
        let allowed =
          allow_entry_lem ip now (sweep_limits rate now m) (sweep_limits-Bounded now m h) in
        ground (
          arith,
          allowed,
          open_session-Bounded candidate now random random' (allow_login rate ip now m).1 allowed.0,
        )

    lookup-Bounded :
        (raw : Bytes) (now : ℕ) (m : Manager rate)
        → Bounded m
        → Bounded (lookup rate sha256 raw now m).1
    unfolding lookup sweep_locked
    lookup-Bounded raw now m h =
        elim (Option-cases (find (sha256 raw) (unexpired now m.sessions))) [
          | inl q ↦ ground (arith, q, h, length-unexpired now m.sessions)
          | inr (session, q) ↦ ground (
            arith,
            q,
            h,
            length-unexpired now m.sessions,
            length-erase (sha256 raw) (unexpired now m.sessions),
          )
        ]

    csrf_matches-Bounded :
        (raw csrf : Bytes) (now : ℕ) (m : Manager rate)
        → Bounded m
        → Bounded (csrf_matches rate sha256 raw csrf now m).1
    unfolding csrf_matches sweep_locked
    csrf_matches-Bounded raw csrf now m h =
        elim (Option-cases (find (sha256 raw) (unexpired now m.sessions))) [
          | inl q ↦ ground (arith, q, h, length-unexpired now m.sessions)
          | inr (session, q) ↦ ground (arith, q, h, length-unexpired now m.sessions)
        ]

    -- After any sequence of Login, Lookup, CSRFMatches, ActiveSessions and Logout, a Manager
    -- holds at most 64 sessions and 4096 login entries.
    pub Reachable-Bounded : {m : Manager rate} → Reachable m → Bounded m
    unfolding new_manager logout active_sessions sweep_locked
    Reachable-Bounded (start expected session_ttl) = ground arith
    Reachable-Bounded (login_step {m = m} candidate ip now random random' r) =
        login-Bounded candidate ip now random random' m (Reachable-Bounded r)
    Reachable-Bounded (lookup_step {m = m} raw now r) =
        lookup-Bounded raw now m (Reachable-Bounded r)
    Reachable-Bounded (csrf_step {m = m} raw csrf now r) =
        csrf_matches-Bounded raw csrf now m (Reachable-Bounded r)
    Reachable-Bounded (logout_step {m = m} raw r) =
        ground (arith, Reachable-Bounded r, length-erase (sha256 raw) m.sessions)
    Reachable-Bounded (count_step {m = m} now r) =
        ground (arith, Reachable-Bounded r, length-unexpired now m.sessions)
