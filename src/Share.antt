-- ===== src/Share.antt =====
-- internal/share/service.go: the types, the limits and the retention rules of the Share service.
-- An instant is a number of nanoseconds from the zero `time.Time`, a duration a number of them; a
-- database column holds milliseconds. What the drivers and the operating system decide during one
-- call (which statement fails, what is read at random, what the clock says), SHA-256 and
-- http.DetectContentType are an `Env`.
pub mod Load
pub mod Spells
pub mod CreateGet
pub mod Transactions
pub mod Create
pub mod Owner
pub mod Delete
pub mod Files
pub mod Consistent
pub mod Drafts
pub mod Retention
pub mod Authorized
pub mod Objects
pub mod Admin
use u_paste.Prelude.{
  ℕ, ◌+◌, ◌-◌, ◌*◌, ◌/◌, ◌%◌, Bool, true, false, ◌&&◌, ◌||◌, not, Option, none, some, ltb, leb,
  ◌==◌, if◌then◌else◌, Bytes, bytes_eq, length, Result, ok, err, ◌>>=◌, ◌>>◌, require, refuse,
  or_fail,
}
use u_paste.Domain.{PayloadKind, PrivacyMode, parse_text_format}
use u_paste.Capability.{ShareId}
use u_paste.Database.{protocol_v1}

abbrev pub max_text_bytes : ℕ
max_text_bytes = 1048576

abbrev pub encrypted_nonce_bytes : ℕ
encrypted_nonce_bytes = 12

abbrev pub min_encrypted_cipher_bytes : ℕ
min_encrypted_cipher_bytes = 19

abbrev pub max_encrypted_cipher_bytes : ℕ
max_encrypted_cipher_bytes = max_text_bytes + 2 + 16

abbrev pub max_file_bytes : ℕ
max_file_bytes = 67108864

-- `corrupt` is a stored value that does not parse, `database` a failed call of the driver,
-- `cleanup` a CleanupError with its storage key.
pub data Error : Type 0 where
  not_found expired unauthorized invalid_text invalid_encrypted_text payload_mismatch : Error
  expiration retention empty_patch invalid_format corrupt database no_randomness : Error
  storage_unavailable storage : Error
  cleanup : Bytes → Error

pub record RetentionPolicy : Type 0 where
  pub public : Bool
  pub default_ttl : ℕ
  pub max_ttl : ℕ

pub record Text : Type 0 where
  pub format : Bytes
  pub content : Bytes

pub record EncryptedText : Type 0 where
  pub protocol : Bytes
  pub nonce : Bytes
  pub ciphertext : Bytes

pub record File : Type 0 where
  pub storage_key : Bytes
  pub filename : Bytes
  pub size : ℕ
  pub media_type : Bytes
  pub sha256 : Bytes

pub record Share : Type 0 where
  pub id : ShareId
  pub payload_kind : PayloadKind
  pub privacy_mode : PrivacyMode
  pub text : Option Text
  pub encrypted_text : Option EncryptedText
  pub file : Option File
  pub created_at : ℕ
  pub updated_at : ℕ
  pub expires_at : Option ℕ

pub record CreateInput : Type 0 where
  pub text : Text
  pub expires_at : Option ℕ

pub record EncryptedCreateInput : Type 0 where
  pub encrypted_text : EncryptedText
  pub expires_at : Option ℕ

pub record Patch : Type 0 where
  pub text : Option Text
  pub encrypted_text : Option EncryptedText
  pub expiration_set : Bool
  pub expires_at : Option ℕ

-- The statements that a call runs on the driver, each at most once.
pub data Statement : Type 0 where
  select_authorization select_share insert_metadata insert_payload update_payload : Statement
  update_metadata select_storage_key select_target delete_row : Statement

pub record Env : Type 0 where
  pub sha256 : Bytes → Bytes
  pub retention_policy : RetentionPolicy
  pub clock : ℕ
  pub detect_content_type : Bytes → Bytes
  pub random_id : Option Bytes
  pub random_token : Option Bytes
  pub has_store : Bool
  pub begins : Bool
  pub commits : Bool
  pub runs : Statement → Bool

abbrev pub millisecond : ℕ
millisecond = 1000000

-- Truncate(time.Millisecond)
unfoldable pub truncate : ℕ → ℕ
truncate t = t - t % millisecond

abbrev pub to_millis : ℕ → ℕ
to_millis t = t / millisecond

abbrev pub from_millis : ℕ → ℕ
from_millis m = m * millisecond

unfoldable pub server_now : Env → ℕ
unfolding truncate
server_now env = truncate env.clock

unfoldable pub validate_text : Text → Result Error (Unit {0})
validate_text t = do
  _ ← or_fail (parse_text_format t.format) invalid_format
  refuse (ltb (length t.content) 1 || ltb max_text_bytes (length t.content)) invalid_text

unfoldable pub validate_encrypted_text : EncryptedText → Result Error (Unit {0})
validate_encrypted_text value =
    refuse
      (not (bytes_eq value.protocol protocol_v1)
        || (not (length value.nonce == encrypted_nonce_bytes)
            || (ltb (length value.ciphertext) min_encrypted_cipher_bytes
                || ltb max_encrypted_cipher_bytes (length value.ciphertext))))
      invalid_encrypted_text

unfoldable pub validate_updated_expiration :
    RetentionPolicy → Option ℕ → ℕ → ℕ → Result Error (Option ℕ)
unfolding truncate
validate_updated_expiration policy none created_at now =
    if policy.public then err retention else ok none
validate_updated_expiration policy (some value) created_at now = do
  let normalized = truncate value
  require (ltb now normalized) expiration
  refuse (policy.public && ltb (created_at + policy.max_ttl) normalized) retention
  ok (some normalized)

unfoldable pub normalize_private : Option ℕ → ℕ → Result Error (Option ℕ)
unfolding truncate
normalize_private none now = ok none
normalize_private (some value) now = do
  let normalized = truncate value
  require (ltb now normalized) expiration
  ok (some normalized)

unfoldable pub normalize_public : RetentionPolicy → Option ℕ → ℕ → Result Error (Option ℕ)
unfolding validate_updated_expiration
normalize_public policy none now = ok (some (now + policy.default_ttl))
normalize_public policy (some value) now = validate_updated_expiration policy (some value) now now

unfoldable pub normalize_expiration : RetentionPolicy → Option ℕ → ℕ → Result Error (Option ℕ)
unfolding normalize_private normalize_public
normalize_expiration policy value now =
    if policy.public then normalize_public policy value now else normalize_private value now
