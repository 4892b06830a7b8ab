-- ===== src/Examples/Capabilities.antt =====
-- Share IDs, owner tokens and stored strings.
use u_paste.Prelude.{◌≡◌, ◌↔◌, refl, true, Bytes, All, IsByte, length, ok, arith, ◌++◌}
use u_paste.Base64.{encode}
use u_paste.Capability.{
  owner_token_bytes, owner_token_prefix, parse_owner_token, generate_owner_token, verifier,
  verify_owner_token,
}
use u_paste.Capability.Canonical.{Encodes, parse_owner_token_iff}
use u_paste.Capability.Verify.{verify_owner_token-generate_owner_token}
use u_paste.Examples.{raw_token, owner_token, digest}

parse_owner_token_iff_example :
    (parse_owner_token owner_token ≡ ok (record { value = owner_token })) ↔ (
      (rest : Bytes) × (owner_token ≡ owner_token_prefix ++ rest)
      × Encodes owner_token_bytes rest
      × (owner_token ≡ owner_token))
parse_owner_token_iff_example = parse_owner_token_iff owner_token (record { value = owner_token })

verify_owner_token-generate_owner_token_example :
    (verify_owner_token digest owner_token (verifier digest (record { value = owner_token }))
      ≡ true)
    × ((verify_owner_token digest owner_token (verifier digest (record { value = owner_token }))
          ≡ true)
        ↔ ((other : Bytes) × All IsByte other
            × (length other ≡ owner_token_bytes)
            × (owner_token ≡ owner_token_prefix ++ encode other)
            × (digest owner_token ≡ digest owner_token)))
verify_owner_token-generate_owner_token_example =
    verify_owner_token-generate_owner_token digest raw_token owner_token
      (record { value = owner_token }) (ground arith) refl (unfold generate_owner_token in refl)
