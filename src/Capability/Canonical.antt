-- ===== src/Capability/Canonical.antt =====
-- The strings that are accepted as capabilities are exactly those that are generated.
use u_paste.Prelude.{
  ◌∙◌, ℕ, ◌≡◌, refl, sym, true, some, [], ◌∷◌, ◌++◌, arith, Bytes, All, IsByte, bytes_eq,
  bytes_eq_iff, bytes_eq_refl, length, take, drop, ok, ◌↔◌, Option-cases, Result-cases, ap, zero,
  suc, inl, inr,
}
use u_paste.Base64.{encode, decode}
use u_paste.Base64.RoundTrip.{decode-encode, length-encode, decode-IsByte}
use u_paste.Capability.{
  owner_token_bytes, owner_random_length, ShareId, OwnerToken, validate_base64_url, parse_share_id,
  generate_share_id, share_id_bytes, share_id_length, parse_owner_token, owner_token_prefix,
}

-- `value` encodes `n` bytes.
pub record Encodes (n : ℕ) (value : Bytes) : Type 0 where
  pub raw : Bytes
  pub bytes : All IsByte raw
  pub size : length raw ≡ n
  pub spells : encode raw ≡ value

validate-encode :
    (raw : Bytes) (m n : ℕ)
    → All IsByte raw
    → length raw ≡ n
    → length (encode raw) ≡ m
    → validate_base64_url (encode raw) m n ≡ ok tt
unfolding validate_base64_url
validate-encode raw m n b e l = ground (arith, decode-encode raw b, bytes_eq_refl (encode raw))

validate-Encodes :
    (value : Bytes) (m n : ℕ) → validate_base64_url value m n ≡ ok tt → Encodes n value
unfolding validate_base64_url
validate-Encodes value m n h = elim (Option-cases (decode value)) [
  | inl e ↦ ground (arith)
  | inr (raw, e) ↦ record {
    raw = raw;
    bytes = decode-IsByte value raw e;
    size = ground (arith);
    spells = ground (arith, bytes_eq_iff (encode raw) value);
  }
]

-- A string parses to a Share ID exactly if it is the encoding of 16 bytes, and the ID is the
-- string.
pub parse_share_id_iff :
    (value : Bytes) (id : ShareId)
    → (parse_share_id value ≡ ok id) ↔ (Encodes share_id_bytes value × (id.value ≡ value))
unfolding parse_share_id
parse_share_id_iff value id = (
  λ h. elim (Result-cases (validate_base64_url value share_id_length share_id_bytes)) [
    | inl (u, e) ↦ (validate-Encodes value _ _ e, ground (arith, e, h))
    | inr (x, e) ↦ ground arith
  ],
  λ e. ground (
    arith,
    e.0.spells,
    validate-encode e.0.raw share_id_length share_id_bytes e.0.bytes e.0.size,
    length-encode e.0.raw,
    e.0.size,
  ),
)

-- From sixteen bytes of rand a Share ID is generated, and its string parses to it.
pub generate_share_id-parses :
    (raw : Bytes)
    → All IsByte raw
    → length raw ≡ share_id_bytes
    → (id : ShareId) × (generate_share_id (some raw) ≡ ok id) × (parse_share_id id.value ≡ ok id)
unfolding generate_share_id
generate_share_id-parses raw b l = (
  record { value = encode raw },
  refl,
  (parse_share_id_iff (encode raw) _).1
      (record { raw = raw; bytes = b; size = l; spells = refl }, refl),
)

take-drop : (n : ℕ) (xs : Bytes) → take n xs ++ drop n xs ≡ xs
take-drop zero xs = refl
take-drop (suc n) [] = refl
take-drop (suc n) (x ∷ xs) = ap (◌∷◌ x) (take-drop n xs)

module _ (rest : Bytes) (e : Encodes owner_token_bytes rest) where
  prefix-parses :
      parse_owner_token (owner_token_prefix ++ rest)
      ≡ ok (record { value = owner_token_prefix ++ rest })
  unfolding parse_owner_token
  prefix-parses = ground (
    arith,
    e.spells,
    validate-encode e.raw owner_random_length owner_token_bytes e.bytes e.size,
    length-encode e.raw,
    e.size,
  )

shape-of_parse :
    (value : Bytes) (token : OwnerToken)
    → parse_owner_token value ≡ ok token
    → (bytes_eq (take 6 value) owner_token_prefix ≡ true)
      × (token.value ≡ value)
      × (validate_base64_url (drop 6 value) owner_random_length owner_token_bytes ≡ ok tt)
unfolding parse_owner_token
shape-of_parse value token h =
    elim (Result-cases (validate_base64_url (drop 6 value) owner_random_length owner_token_bytes)) [
      | inl (u, e) ↦ (ground (arith, e, h), ground (arith, e, h), e)
      | inr (x, e) ↦ ground arith
    ]

-- A string parses to an owner token exactly if it is the prefix and the encoding of 32 bytes, and
-- the token is the string.
pub parse_owner_token_iff :
    (value : Bytes) (token : OwnerToken)
    → (parse_owner_token value ≡ ok token) ↔ (
        (rest : Bytes) × (value ≡ owner_token_prefix ++ rest)
        × Encodes owner_token_bytes rest
        × (token.value ≡ value))
parse_owner_token_iff value token = (
  λ h.
      let (p, t, v) = shape-of_parse value token h in
      (
        drop 6 value,
        sym (take-drop 6 value) ∙ ap (λ (q : Bytes). q ++ drop 6 value) ((bytes_eq_iff _ _).0 p),
        validate-Encodes _ _ _ v,
        t,
      ),
  λ (rest, e, c, t). rw e (prefix-parses rest c ∙ ap ok (λ i. record { value = sym (t ∙ e) i })),
)
