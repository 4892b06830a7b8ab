-- ===== src/Http/Payloads/Base64Url.antt =====
-- What decodeBase64URL accepts.
use u_paste.Prelude.{
  ℕ, ◌≡◌, ◌<◌, ◌≤◌, ◌↔◌, refl, ap, inl, inr, true, [], ◌∷◌, arith, Option-cases, Bytes,
  bytes_eq_iff, All, IsByte, length, ok,
}
use u_paste.Base64.{sextet_char, encode, decode}
use u_paste.Base64.RoundTrip.{decode-encode, length-encode, decode-IsByte}
use u_paste.Http.Payloads.{are_base64_url_chars, encoded_len, decode_base64_url}

sextet_char-lem :
    (n : ℕ) (cs : Bytes)
    → n < 64
    → are_base64_url_chars cs ≡ true
    → are_base64_url_chars (sextet_char n ∷ cs) ≡ true
unfolding sextet_char are_base64_url_chars
sextet_char-lem n cs l h = ground (arith, l, h)

pub are_base64_url_chars-encode :
    (bs : Bytes) → All IsByte bs → are_base64_url_chars (encode bs) ≡ true
unfolding encode
are_base64_url_chars-encode [] h = unfold are_base64_url_chars in refl
are_base64_url_chars-encode (a ∷ []) h =
    sextet_char-lem _ _ (omega arith)
      (sextet_char-lem _ _ (omega arith) (unfold are_base64_url_chars in refl))
are_base64_url_chars-encode (a ∷ b ∷ []) h = sextet_char-lem _ _ (omega arith) (
    sextet_char-lem _ _ (omega arith)
      (sextet_char-lem _ _ (omega arith) (unfold are_base64_url_chars in refl)))
are_base64_url_chars-encode (a ∷ b ∷ c ∷ rest) h = sextet_char-lem _ _ (omega arith) (
    sextet_char-lem _ _ (omega arith) (
      sextet_char-lem _ _ (omega arith)
        (sextet_char-lem _ _ (omega arith) (are_base64_url_chars-encode rest h.1.1.1))))

length-decoded :
    (raw : Bytes) (maximum : ℕ) → length raw ≤ maximum → length (encode raw) ≤ encoded_len maximum
length-decoded raw maximum u = ground (arith, length-encode raw, u)

-- decodeBase64URL answers a list of bytes exactly if their encoding is the string and their
-- number is within the bounds.
pub decode_base64_url_iff :
    (value raw : Bytes) (minimum maximum : ℕ)
    → (decode_base64_url value minimum maximum ≡ ok raw)
      ↔ (All IsByte raw × (minimum ≤ length raw) × (length raw ≤ maximum) × (encode raw ≡ value))
unfolding decode_base64_url
decode_base64_url_iff value raw minimum maximum = (
  λ h. elim (Option-cases (decode value)) [
    | inl d ↦ absurd (ground (arith, d, h))
    | inr (raw', d) ↦
        ground (arith, d, h, decode-IsByte value raw' d, bytes_eq_iff (encode raw') value)
  ],
  λ (b, l, u, e). ground (
    arith,
    l,
    u,
    e,
    ap are_base64_url_chars e,
    are_base64_url_chars-encode raw b,
    length-decoded raw maximum u,
    ap length e,
    ap decode e,
    decode-encode raw b,
    bytes_eq_iff (encode raw) value,
  ),
)
