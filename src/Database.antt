-- ===== src/Database.antt =====
-- The schema of internal/database/migrations and the SQL statements of internal/share, as functions
-- on tables. A statement that a CHECK, a key, a foreign key or a trigger refuses gives `none`.
-- Times are milliseconds from the zero `time.Time`: the source's Unix milliseconds, shifted by a
-- constant. `length` of a TEXT column is taken over bytes: ids, keys and media types are ASCII.
pub mod Tables
pub mod Statements
use u_paste.Prelude.{
  ℕ, ◌+◌, ◌*◌, ◌^◌, ◌≡◌, Bool, true, false, ◌&&◌, ◌||◌, not, Option, none, some, List, [], ◌∷◌, ltb,
  leb, ◌==◌, if◌then◌else◌, Bytes, codes, bytes_eq, length,
}
use u_paste.Database.Tables.{Table, find, erase, modify, is_present}
use u_paste.Domain.{
  kind_string, privacy_string, format_string, text, file, standard, encrypted, plain, source,
  markdown,
}

pub record ShareRow : Type 0 where
  pub payload_kind : Bytes
  pub privacy_mode : Bytes
  pub owner_token_verifier : Bytes
  pub created_at : ℕ
  pub updated_at : ℕ
  pub expires_at : Option ℕ

pub record TextRow : Type 0 where
  pub format : Bytes
  pub content : Bytes

pub record EncryptedRow : Type 0 where
  pub protocol : Bytes
  pub nonce : Bytes
  pub ciphertext : Bytes

pub record FileRow : Type 0 where
  pub storage_key : Bytes
  pub original_filename : Bytes
  pub size_bytes : ℕ
  pub detected_media_type : Bytes
  pub content_sha256 : Bytes

pub record Db : Type 0 where
  pub shares : Table ShareRow
  pub texts : Table TextRow
  pub encrypted_texts : Table EncryptedRow
  pub files : Table FileRow

abbrev pub empty : Db
empty = record { shares = []; texts = []; encrypted_texts = []; files = [] }

abbrev pub protocol_v1 : Bytes
protocol_v1 = codes "UPASTE_AES_GCM_V1"

unfoldable pub between : ℕ → ℕ → ℕ → Bool
between lo hi n = leb lo n && leb n hi

-- The CHECKs of `shares`.
unfoldable pub share_checks : Bytes → ShareRow → Bool
unfolding kind_string privacy_string bytes_eq
share_checks id row =
    (length id == 22)
    && ((bytes_eq row.payload_kind (kind_string text)
          || bytes_eq row.payload_kind (kind_string file))
        && ((bytes_eq row.privacy_mode (privacy_string standard)
              || bytes_eq row.privacy_mode (privacy_string encrypted))
            && ((length row.owner_token_verifier == 32)
                && (not (bytes_eq row.payload_kind (kind_string file))
                    || bytes_eq row.privacy_mode (privacy_string standard)))))

unfoldable pub text_checks : TextRow → Bool
unfolding format_string bytes_eq between
text_checks row =
    (bytes_eq row.format (format_string plain)
      || (bytes_eq row.format (format_string source)
          || bytes_eq row.format (format_string markdown)))
    && between 1 1048576 (length row.content)

unfoldable pub encrypted_checks : EncryptedRow → Bool
unfolding bytes_eq between
encrypted_checks row =
    bytes_eq row.protocol protocol_v1
    && ((length row.nonce == 12) && between 19 1048594 (length row.ciphertext))

unfoldable pub is_hex : ℕ → Bool
unfolding between
is_hex c = between 48 57 c || between 97 102 c

unfoldable pub all_hex : Bytes → Bool
unfolding is_hex
all_hex [] = true
all_hex (c ∷ cs) = is_hex c && all_hex cs

unfoldable pub file_checks : FileRow → Bool
unfolding all_hex between
file_checks row =
    (length row.storage_key == 32)
    && (all_hex row.storage_key
        && (between 1 255 (length row.original_filename)
            && (between 1 67108864 row.size_bytes
                && (between 1 255 (length row.detected_media_type)
                    && (length row.content_sha256 == 32)))))

-- The triggers on the payload tables: the Share is there and has this kind and mode.
unfoldable pub accepts : Bytes → Bytes → Option ShareRow → Bool
unfolding bytes_eq
accepts kind mode none = false
accepts kind mode (some row) = bytes_eq row.payload_kind kind && bytes_eq row.privacy_mode mode

-- UNIQUE on `storage_key`.
unfoldable pub uses_key : Bytes → Table FileRow → Bool
unfolding bytes_eq
uses_key key [] = false
uses_key key ((_, row) ∷ t) = bytes_eq row.storage_key key || uses_key key t
