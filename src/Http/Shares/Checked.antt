-- ===== src/Http/Shares/Checked.antt =====
-- What createJSON passes to the Share service.
use u_paste.Prelude.{
  ◌≡◌, refl, inl, inr, true, not, arith, Result-cases, Bytes, bytes_eq, length, ok, bind-eq-ok,
  or_fail, refuse, ◌≤◌,
}
use u_paste.Database.{protocol_v1}
use u_paste.Domain.{PrivacyMode, standard, encrypted, parse_text_format, format_string}
use u_paste.Domain.Laws.{parsers_exact}
use u_paste.Share
use u_paste.Share.{Text, EncryptedText, min_encrypted_cipher_bytes, max_encrypted_cipher_bytes}
use u_paste.Http.{bad_request}
use u_paste.Http.Bodies.{TextRequest, EncryptedTextRequest, CreateRequest}
use u_paste.Http.Payloads.{
  validate_text, validate_encrypted_text, decode_base64_url, nonce_or_response,
  ciphertext_or_response, not_canonical, ciphertext_too_large,
}
use u_paste.Http.Payloads.Base64Url.{decode_base64_url_iff}
use u_paste.Http.Shares.{NewShare, plain_share, encrypted_share, only_member, new_share}

validate_text_lem :
    (request : TextRequest) (t : Text)
    → validate_text request ≡ ok t
    → u_paste.Share.validate_text t ≡ ok tt
unfolding validate_text u_paste.Share.validate_text
validate_text_lem request t h =
    let (format, a, r1) = bind-eq-ok (or_fail request.format bad_request) _ h in
    let (content, b, r2) = bind-eq-ok (or_fail request.content bad_request) _ r1 in
    let (parsed, c, r3) = bind-eq-ok (or_fail (parse_text_format format) bad_request) _ r2 in
    let parses = ((parsers_exact (format_string parsed)).2 parsed).1 refl in
    let spelt : record { format = format_string parsed; content = content } ≡ t =
      ground (arith, r3) in
    rw (← spelt, parses, u_paste.Share.validate_text) (ground (arith, r3))

nonce_length :
    (value nonce : Bytes)
    → nonce_or_response (decode_base64_url value 12 12) ≡ ok nonce
    → length nonce ≡ 12
nonce_length value nonce h = elim (Result-cases (decode_base64_url value 12 12)) [
  | inr (e, q) ↦ absurd (ground (arith, q, h))
  | inl (raw, q) ↦
      let (_, l, u, _) = (decode_base64_url_iff value raw 12 12).0 q in ground (arith, q, h, l, u)
]

ciphertext_length :
    (value ciphertext : Bytes)
    → ciphertext_or_response
        (decode_base64_url value min_encrypted_cipher_bytes max_encrypted_cipher_bytes)
      ≡ ok ciphertext
    → (min_encrypted_cipher_bytes ≤ length ciphertext)
      × (length ciphertext ≤ max_encrypted_cipher_bytes)
ciphertext_length value ciphertext h =
    elim (Result-cases
      (decode_base64_url value min_encrypted_cipher_bytes max_encrypted_cipher_bytes)) [
        | inr (not_canonical, q) ↦ absurd (ground (arith, q, h))
        | inr (ciphertext_too_large, q) ↦ absurd (ground (arith, q, h))
        | inl (raw, q) ↦
            let (_, l, u, _) =
              (decode_base64_url_iff value raw min_encrypted_cipher_bytes
                  max_encrypted_cipher_bytes).0
                q in
            ground (arith, q, h, l, u)
      ]

accepts :
    (protocol nonce ciphertext : Bytes)
    → bytes_eq protocol protocol_v1 ≡ true
    → length nonce ≡ 12
    → min_encrypted_cipher_bytes ≤ length ciphertext
    → length ciphertext ≤ max_encrypted_cipher_bytes
    → u_paste.Share.validate_encrypted_text
        (record { protocol = protocol; nonce = nonce; ciphertext = ciphertext })
      ≡ ok tt
unfolding u_paste.Share.validate_encrypted_text
accepts protocol nonce ciphertext p n l u = ground (arith, p, n, l, u)

validate_encrypted_text_lem :
    (request : EncryptedTextRequest) (t : EncryptedText)
    → validate_encrypted_text request ≡ ok t
    → u_paste.Share.validate_encrypted_text t ≡ ok tt
unfolding validate_encrypted_text
validate_encrypted_text_lem request t h =
    let (protocol, a, r1) = bind-eq-ok (or_fail request.protocol bad_request) _ h in
    let (nonce, b, r2) = bind-eq-ok (or_fail request.nonce bad_request) _ r1 in
    let (ciphertext, c, r3) = bind-eq-ok (or_fail request.ciphertext bad_request) _ r2 in
    let (_, d, r4) = bind-eq-ok (refuse (not (bytes_eq protocol protocol_v1)) bad_request) _ r3 in
    let (nonce', e, r5) = bind-eq-ok (nonce_or_response (decode_base64_url nonce 12 12)) _ r4 in
    let (ciphertext', f, r6) =
      bind-eq-ok
        (ciphertext_or_response
          (decode_base64_url ciphertext min_encrypted_cipher_bytes max_encrypted_cipher_bytes))
        _ r5 in
    let spelt : record { protocol = protocol; nonce = nonce'; ciphertext = ciphertext' } ≡ t =
      ground (arith, r6) in
    let (l, u) = ciphertext_length ciphertext ciphertext' f in
    rw (← spelt)
      (accepts protocol nonce' ciphertext' (ground (arith, d)) (nonce_length nonce nonce' e) l u)

-- The input that a call of the Share service takes passes the checks of the service.
pub Accepted : NewShare → Type 0
Accepted (plain_share input) = u_paste.Share.validate_text input.text ≡ ok tt
Accepted (encrypted_share input) =
    u_paste.Share.validate_encrypted_text input.encrypted_text ≡ ok tt

-- What createJSON lets through is a text of a format that the service accepts, of 1 to 1048576
-- bytes, or an encrypted text of the right protocol and lengths: the service does not refuse it.
pub new_share-Accepted :
    (request : CreateRequest) (p : PrivacyMode) (input : NewShare)
    → new_share request p ≡ ok input
    → Accepted input
unfolding new_share Accepted
new_share-Accepted request standard input h =
    let (payload, a, r1) = bind-eq-ok (only_member request.text request.encrypted_text) _ h in
    let (value, b, r2) = bind-eq-ok (validate_text payload) _ r1 in
    let made : plain_share (record { text = value; expires_at = request.expires_at.value })
        ≡ input =
      ground (arith, r2) in
    rw (← made) (validate_text_lem payload value b)
new_share-Accepted request encrypted input h =
    let (payload, a, r1) = bind-eq-ok (only_member request.encrypted_text request.text) _ h in
    let (value, b, r2) = bind-eq-ok (validate_encrypted_text payload) _ r1 in
    let made : encrypted_share
          (record { encrypted_text = value; expires_at = request.expires_at.value })
        ≡ input =
      ground (arith, r2) in
    rw (← made) (validate_encrypted_text_lem payload value b)
