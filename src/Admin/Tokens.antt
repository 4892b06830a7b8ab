-- ===== src/Admin/Tokens.antt =====
-- The admin's token: internal/admin/token.go. The random bytes are an argument, and SHA-256 is a
-- function on byte strings.
use u_paste.Prelude.{
  ℕ, ◌+◌, Bool, false, ◌||◌, not, Option, ◌++◌, ◌==◌, ltb, Bytes, codes, bytes_eq, length, take,
  drop, Result, ok, err, ◌>>=◌, ◌>>◌, refuse, or_fail,
}
use u_paste.Base64.{encode, decode}

abbrev pub token_prefix : Bytes
token_prefix = codes "up_a1_"

abbrev pub token_random_size : ℕ
token_random_size = 32

abbrev pub token_length : ℕ
token_length = length token_prefix + 43

pub data TokenError : Type 0 where
  no_randomness invalid_shape not_base64url not_canonical : TokenError

pub record Token : Type 0 where
  pub value : Bytes

unfoldable pub random_base64_url : Option Bytes → Result TokenError Bytes
random_base64_url random = do value ← or_fail random no_randomness; ok (encode value)

unfoldable pub generate_token : Option Bytes → Result TokenError Token
unfolding random_base64_url
generate_token random = do
  value ← random_base64_url random
  ok (record { value = token_prefix ++ value })

unfoldable pub validate_canonical : Bytes → ℕ → Result TokenError (Unit {0})
unfolding bytes_eq
validate_canonical value decoded_size = do
  decoded ← or_fail (decode value) not_base64url
  refuse (not (length decoded == decoded_size) || not (bytes_eq (encode decoded) value))
      not_canonical

unfoldable pub parse_token : Bytes → Result TokenError Token
unfolding bytes_eq validate_canonical
parse_token value = do
  refuse
      (not (length value == token_length)
        || ltb (length value) (length token_prefix)
        || not (bytes_eq (take (length token_prefix) value) token_prefix))
      invalid_shape
  validate_canonical (drop (length token_prefix) value) token_random_size
  ok (record { value = value })

unfoldable pub verify_token : (Bytes → Bytes) → Bytes → Bytes → Bool
unfolding parse_token bytes_eq
verify_token sha256 candidate expected = elim (parse_token candidate) [
  | err _ ↦ false
  | ok token ↦ bytes_eq (sha256 token.value) expected
]
