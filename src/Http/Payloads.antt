-- ===== src/Http/Payloads.antt =====
-- The payloads of a request to internal/httpapi: validateText, validateEncryptedText and
-- decodeBase64URL.
pub mod Base64Url
use u_paste.Prelude.{
  ℕ, ◌+◌, ◌*◌, ◌/◌, ◌%◌, Bool, true, false, ◌&&◌, ◌||◌, not, Option, none, some, List, [], ◌∷◌, ltb,
  leb, ◌==◌, if◌then◌else◌, Bytes, codes, bytes_eq, length, Result, ok, err, ◌>>=◌, ◌>>◌, require,
  refuse, or_fail,
}
use u_paste.Base64.{encode, decode}
use u_paste.Database.{protocol_v1}
use u_paste.Domain.{parse_text_format, format_string}
use u_paste.Share.{
  Text, EncryptedText, max_text_bytes, encrypted_nonce_bytes, min_encrypted_cipher_bytes,
  max_encrypted_cipher_bytes,
}
use u_paste.Http.{Response, write_error, bad_request, too_large}
use u_paste.Http.Bodies.{TextRequest, EncryptedTextRequest}

unfoldable pub validate_text : TextRequest → Result Response Text
unfolding parse_text_format format_string write_error
validate_text request = do
  format ← or_fail request.format bad_request
  content ← or_fail request.content bad_request
  parsed ← or_fail (parse_text_format format) bad_request
  refuse (length content == 0) bad_request
  refuse (ltb max_text_bytes (length content)) too_large
  ok (record { format = format_string parsed; content = content })

-- Why a string is refused: errCiphertextTooLarge, or another error.
pub data DecodeError : Type 0 where
  not_canonical ciphertext_too_large : DecodeError

abbrev pub is_base64_url_char : ℕ → Bool
is_base64_url_char c =
    (leb 65 c && leb c 90)
    || (leb 97 c && leb c 122)
    || (leb 48 c && leb c 57)
    || c == 45
    || c == 95

unfoldable pub are_base64_url_chars : Bytes → Bool
are_base64_url_chars [] = true
are_base64_url_chars (c ∷ cs) = is_base64_url_char c && are_base64_url_chars cs

-- base64.RawURLEncoding.EncodedLen
abbrev pub encoded_len : ℕ → ℕ
encoded_len n = n / 3 * 4 + (n % 3 * 8 + 5) / 6

unfoldable pub decode_base64_url : Bytes → ℕ → ℕ → Result DecodeError Bytes
unfolding are_base64_url_chars decode encode bytes_eq
decode_base64_url value minimum maximum = do
  require (are_base64_url_chars value) not_canonical
  refuse (ltb (encoded_len maximum) (length value)) ciphertext_too_large
  decoded ← or_fail (decode value) not_canonical
  refuse
      (ltb (length decoded) minimum
        || (ltb maximum (length decoded) || not (bytes_eq (encode decoded) value)))
      not_canonical
  ok decoded

abbrev pub nonce_or_response : Result DecodeError Bytes → Result Response Bytes
nonce_or_response (ok bytes) = ok bytes
nonce_or_response (err e) = err bad_request

abbrev pub ciphertext_or_response : Result DecodeError Bytes → Result Response Bytes
ciphertext_or_response (ok bytes) = ok bytes
ciphertext_or_response (err ciphertext_too_large) = err too_large
ciphertext_or_response (err not_canonical) = err bad_request

unfoldable pub validate_encrypted_text : EncryptedTextRequest → Result Response EncryptedText
unfolding bytes_eq decode_base64_url write_error
validate_encrypted_text request = do
  protocol ← or_fail request.protocol bad_request
  nonce_text ← or_fail request.nonce bad_request
  ciphertext_text ← or_fail request.ciphertext bad_request
  refuse (not (bytes_eq protocol protocol_v1)) bad_request
  nonce ←
      nonce_or_response (decode_base64_url nonce_text encrypted_nonce_bytes encrypted_nonce_bytes)
  ciphertext ←
      ciphertext_or_response
        (decode_base64_url ciphertext_text min_encrypted_cipher_bytes max_encrypted_cipher_bytes)
  ok (record { protocol = protocol; nonce = nonce; ciphertext = ciphertext })
