-- ===== src/Admin/Authority.antt =====
-- Who may open a session, and for how long it authenticates.
use u_paste.Prelude.{
  ℕ, ◌+◌, ◌≡◌, inl, inr, true, false, Option, none, some, ◌∷◌, arith, ltb, if◌then◌else◌,
  Option-cases, Result-cases, ok, Bytes, bytes_eq, bytes_eq_iff,
}
use u_paste.Database.Tables.{find, erase, find-erase}
use u_paste.Abuse.{Rate}
use u_paste.Admin.Tokens.{verify_token, random_base64_url}
use u_paste.Admin.{
  Manager, unexpired, sweep_locked, sweep_limits, ask_entry, allow_entry, allow_login, open_session,
  login, lookup, csrf_matches, logout,
}
use u_paste.Admin.Sessions.{find-unexpired}

module _ (rate : Rate) where
  Same : Manager rate → Manager rate → Type 0
  Same m m' =
      (m'.sessions ≡ m.sessions) × (m'.expected ≡ m.expected) × (m'.session_ttl ≡ m.session_ttl)

  allow_login_lem : (ip : Bytes) (now : ℕ) (m : Manager rate) → Same m (allow_login rate ip now m).1
  unfolding allow_login allow_entry sweep_limits ask_entry Same
  allow_login_lem ip now m = elim (Option-cases (find ip (sweep_limits rate now m).login_limits)) [
    | inr (entry, q) ↦ ground (arith, q)
    | inl q ↦ ground (arith, q)
  ]

  module _ (sha256 : Bytes → Bytes) where
    open_session-ok :
        (candidate : Bytes) (now : ℕ) (random random' : Option Bytes) (m m' : Manager rate)
        (raw csrf : Bytes)
        → open_session rate sha256 candidate now random random' m ≡ (ok (raw, csrf), m')
        → (verify_token sha256 candidate m.expected ≡ true)
          × (m'.sessions
              ≡ (sha256 raw, record { csrf = csrf; expires_at = now + m.session_ttl })
                ∷ erase (sha256 raw) (unexpired now m.sessions))
    unfolding open_session sweep_locked
    open_session-ok candidate now random random' m m' raw csrf h =
        elim (Result-cases (random_base64_url random)) [
          | inr (e, q) ↦ absurd (ground (arith, q, h))
          | inl (raw', q) ↦ elim (Result-cases (random_base64_url random')) [
            | inr (e, r) ↦ absurd (ground (arith, q, r, h))
            | inl (csrf', r) ↦ ground (arith, q, r, h)
          ]
        ]

    -- A login that succeeds was given a token of the configured verifier.
    login-ok :
        (candidate ip : Bytes) (now : ℕ) (random random' : Option Bytes) (m m' : Manager rate)
        (raw csrf : Bytes)
        → login rate sha256 candidate ip now random random' m ≡ (ok (raw, csrf), m')
        → (verify_token sha256 candidate m.expected ≡ true)
          × (m'.sessions
              ≡ (sha256 raw, record { csrf = csrf; expires_at = now + m.session_ttl })
                ∷ erase (sha256 raw) (unexpired now m.sessions))
    unfolding login Same
    login-ok candidate ip now random random' m m' raw csrf h =
        let same = allow_login_lem ip now m in
        ground (
          arith,
          h,
          same,
          open_session-ok candidate now random random' (allow_login rate ip now m).1 m' raw csrf,
        )

    -- A login that succeeds was given a candidate that verifies, and its cookie is then found,
    -- with its CSRF token, exactly until the session's lifetime is over; until then exactly that
    -- CSRF token matches.
    pub login-lookup :
        (candidate ip : Bytes) (now later : ℕ) (random random' : Option Bytes) (m m' : Manager rate)
        (raw csrf given : Bytes)
        → login rate sha256 candidate ip now random random' m ≡ (ok (raw, csrf), m')
        → (verify_token sha256 candidate m.expected ≡ true)
          × ((lookup rate sha256 raw later m').0 ≡ (
              if ltb later (now + m.session_ttl)
              then some (record { csrf = csrf; expires_at = now + m.session_ttl })
              else none))
          × ((csrf_matches rate sha256 raw given later m').0
              ≡ (if ltb later (now + m.session_ttl) then bytes_eq given csrf else false))
    unfolding lookup csrf_matches sweep_locked unexpired find
    login-lookup candidate ip now later random random' m m' raw csrf given h =
        let (token, kept) = login-ok candidate ip now random random' m m' raw csrf h in
        let t = unexpired now m.sessions in
        let gone = find-unexpired later (sha256 raw) (erase (sha256 raw) t) (
          ground (
            arith,
            find-erase (sha256 raw) (sha256 raw) t,
            bytes_eq_iff (sha256 raw) (sha256 raw),
          )) in
        (
          token,
          rw (kept) (ground (arith, gone, bytes_eq_iff (sha256 raw) (sha256 raw))),
          rw (kept) (
              ground
                (arith, gone, bytes_eq_iff (sha256 raw) (sha256 raw), bytes_eq_iff given csrf)),
        )

    -- After Logout the cookie finds no session at any time, and no CSRF token matches it.
    pub logout-lookup :
        (raw csrf : Bytes) (later : ℕ) (m : Manager rate)
        → ((lookup rate sha256 raw later (logout rate sha256 raw m)).0 ≡ none)
          × ((csrf_matches rate sha256 raw csrf later (logout rate sha256 raw m)).0 ≡ false)
    unfolding lookup csrf_matches logout sweep_locked
    logout-lookup raw csrf later m =
        let gone = find-unexpired later (sha256 raw) (erase (sha256 raw) m.sessions) (
          ground (
            arith,
            find-erase (sha256 raw) (sha256 raw) m.sessions,
            bytes_eq_iff (sha256 raw) (sha256 raw),
          )) in
        (ground (arith, gone), ground (arith, gone))
