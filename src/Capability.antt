-- ===== src/Capability.antt =====
-- internal/capability/capability.go: Share IDs and owner capabilities. The random bytes that
-- `randomBase64URL` reads are an argument, and SHA-256 is a parameter: a function on byte strings.
pub mod Canonical
pub mod Verify
use u_paste.Prelude.{
  ℕ, ◌+◌, ◌≡◌, refl, Bool, true, false, ◌&&◌, ◌||◌, not, Option, none, some, List, [], ◌∷◌, ◌++◌,
  ltb, ◌==◌, if◌then◌else◌, Bytes, codes, bytes_eq, length, take, drop, Result, ok, err, ◌>>=◌,
  ◌>>◌, require, refuse, or_fail,
}
use u_paste.Base64.{encode, decode}

abbrev pub share_id_bytes : ℕ
share_id_bytes = 16

abbrev pub share_id_length : ℕ
share_id_length = 22

abbrev pub owner_token_bytes : ℕ
owner_token_bytes = 32

abbrev pub owner_token_prefix : Bytes
owner_token_prefix = codes "up_o1_"

abbrev pub owner_random_length : ℕ
owner_random_length = 43

abbrev pub owner_token_length : ℕ
owner_token_length = length owner_token_prefix + owner_random_length

pub data Error : Type 0 where
  wrong_length not_base64url noncanonical invalid_shape no_randomness : Error

-- `rand.Read` into a buffer of `size` bytes: the bytes, or a failure.
unfoldable pub random_base64_url : Option Bytes → Result Error Bytes
random_base64_url random = do value ← or_fail random no_randomness; ok (encode value)

unfoldable pub validate_base64_url : Bytes → ℕ → ℕ → Result Error (Unit {0})
unfolding bytes_eq
validate_base64_url value encoded_length decoded_length = do
  require (length value == encoded_length) wrong_length
  decoded ← or_fail (decode value) not_base64url
  refuse (not (length decoded == decoded_length) || not (bytes_eq (encode decoded) value))
      noncanonical

-- A ShareID holds the string that it was parsed from or generated as.
pub record ShareId : Type 0 where
  pub value : Bytes

unfoldable pub generate_share_id : Option Bytes → Result Error ShareId
unfolding random_base64_url
generate_share_id random = do value ← random_base64_url random; ok (record { value = value })

unfoldable pub parse_share_id : Bytes → Result Error ShareId
parse_share_id value = do
  validate_base64_url value share_id_length share_id_bytes
  ok (record { value = value })

pub record OwnerToken : Type 0 where
  pub value : Bytes

unfoldable pub generate_owner_token : Option Bytes → Result Error OwnerToken
unfolding random_base64_url
generate_owner_token random = do
  value ← random_base64_url random
  ok (record { value = owner_token_prefix ++ value })

unfoldable pub parse_owner_token : Bytes → Result Error OwnerToken
unfolding bytes_eq
parse_owner_token value = do
  refuse
      (not (length value == owner_token_length)
        || ltb (length value) (length owner_token_prefix)
        || not (bytes_eq (take (length owner_token_prefix) value) owner_token_prefix))
      invalid_shape
  validate_base64_url (drop (length owner_token_prefix) value) owner_random_length owner_token_bytes
  ok (record { value = value })

-- What String, GoString and LogValue print of a token, whatever it is.
abbrev pub redacted_owner_token : Bytes
redacted_owner_token = codes "[REDACTED owner capability]"

unfoldable pub reveal : OwnerToken → Bytes
reveal token = token.value

module _ (sha256 : Bytes → Bytes) where
  unfoldable pub verifier : OwnerToken → Bytes
  verifier token = sha256 token.value

  -- `subtle.ConstantTimeCompare` answers 1 exactly on equal contents.
  unfoldable pub verify_owner_token : Bytes → Bytes → Bool
  unfolding verifier parse_owner_token bytes_eq
  verify_owner_token candidate expected = elim (parse_owner_token candidate) [
    | ok token ↦ bytes_eq (verifier token) expected
    | err _ ↦ false
  ]
