-- ===== src/Capability/Verify.antt =====
-- What VerifyOwnerToken accepts.
use u_paste.Prelude.{
  ◌≡◌, ◌↔◌, refl, ap, ◌∙◌, sym, true, some, ◌++◌, arith, Bytes, All, IsByte, bytes_eq_iff, length,
  ok, inl, inr, Result-cases,
}
use u_paste.Base64.{encode}
use u_paste.Capability.{
  OwnerToken, parse_owner_token, generate_owner_token, owner_token_bytes, owner_token_prefix,
  verifier, verify_owner_token,
}
use u_paste.Capability.Canonical.{parse_owner_token_iff}

module _ (sha256 : Bytes → Bytes) where
  -- A candidate passes exactly if it parses to a token whose digest is the expected one.
  pub verify_owner_token_iff :
      (candidate expected : Bytes)
      → (verify_owner_token sha256 candidate expected ≡ true) ↔ (
          (token : OwnerToken) × (parse_owner_token candidate ≡ ok token)
          × (sha256 token.value ≡ expected))
  unfolding verify_owner_token
  verify_owner_token_iff candidate expected = (
    λ h. elim (Result-cases (parse_owner_token candidate)) [
      | inl (t, e) ↦ (t, e, ground (arith, e, h, bytes_eq_iff (sha256 t.value) expected))
      | inr (x, e) ↦ ground (arith, e, h)
    ],
    λ (t, e, d). ground (arith, e, d, bytes_eq_iff (sha256 t.value) expected),
  )

  opens :
      (candidate expected raw : Bytes)
      → All IsByte raw
      → length raw ≡ owner_token_bytes
      → candidate ≡ owner_token_prefix ++ encode raw
      → sha256 candidate ≡ expected
      → verify_owner_token sha256 candidate expected ≡ true
  opens candidate expected raw b l e d = (verify_owner_token_iff candidate expected).1 (
    record { value = candidate },
    (parse_owner_token_iff candidate (record { value = candidate })).1
        (encode raw, e, record { raw = raw; bytes = b; size = l; spells = refl }, refl),
    d,
  )

  -- For a token generated from 32 bytes: its own string opens its verifier, and a candidate opens
  -- it exactly if the candidate is the prefix followed by the encoding of some 32 bytes and has the
  -- digest of the token's string.
  pub verify_owner_token-generate_owner_token :
      (raw candidate : Bytes) (token : OwnerToken)
      → All IsByte raw
      → length raw ≡ owner_token_bytes
      → generate_owner_token (some raw) ≡ ok token
      → (verify_owner_token sha256 token.value (verifier sha256 token) ≡ true)
        × ((verify_owner_token sha256 candidate (verifier sha256 token) ≡ true) ↔ (
            (other : Bytes) × All IsByte other
            × (length other ≡ owner_token_bytes)
            × (candidate ≡ owner_token_prefix ++ encode other)
            × (sha256 candidate ≡ sha256 token.value)))
  unfolding verifier generate_owner_token
  verify_owner_token-generate_owner_token raw candidate token b l g =
      let fresh : token.value ≡ owner_token_prefix ++ encode raw = ground (arith, g) in
      (
        opens token.value (sha256 token.value) raw b l fresh refl,
        (
          λ h.
              let (t, p, d) = (verify_owner_token_iff candidate (sha256 token.value)).0 h in
              let (rest, e, c, k) = (parse_owner_token_iff candidate t).0 p in
              (
                c.raw,
                c.bytes,
                c.size,
                e ∙ ap (λ (x : Bytes). owner_token_prefix ++ x) (sym c.spells),
                ap sha256 (sym k) ∙ d,
              ),
          λ (other, w, n, e, d). opens candidate (sha256 token.value) other w n e d,
        ),
      )
