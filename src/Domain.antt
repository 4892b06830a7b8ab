-- ===== src/Domain.antt =====
-- internal/domain/domain.go: the closed classifications of a Share, which the source keeps as
-- strings with named constants, and expiration. A value of such a string type that is not one of
-- its constants never passes its parser; the data types below hold the constants.
pub mod Laws
use u_paste.Prelude.{
  ℕ, Bool, true, false, ◌&&◌, not, Option, none, some, ltb, if◌then◌else◌, Bytes, codes, bytes_eq,
  Result, ◌>>=◌, refuse, or_fail,
}

pub data PayloadKind : Type 0 where
  text file : PayloadKind

pub data PrivacyMode : Type 0 where
  standard encrypted : PrivacyMode

pub data TextFormat : Type 0 where
  plain source markdown : TextFormat

-- The string that a constant stands for.
unfoldable pub kind_string : PayloadKind → Bytes
kind_string text = codes "TEXT"
kind_string file = codes "FILE"

unfoldable pub privacy_string : PrivacyMode → Bytes
privacy_string standard = codes "STANDARD"
privacy_string encrypted = codes "ENCRYPTED"

unfoldable pub format_string : TextFormat → Bytes
format_string plain = codes "PLAIN"
format_string source = codes "SOURCE"
format_string markdown = codes "MARKDOWN"

unfoldable pub parse_payload_kind : Bytes → Option PayloadKind
unfolding kind_string bytes_eq
parse_payload_kind value =
    if bytes_eq value (kind_string text)
    then some text
    else if bytes_eq value (kind_string file)
    then some file
    else none

unfoldable pub parse_privacy_mode : Bytes → Option PrivacyMode
unfolding privacy_string bytes_eq
parse_privacy_mode value =
    if bytes_eq value (privacy_string standard)
    then some standard
    else if bytes_eq value (privacy_string encrypted)
    then some encrypted
    else none

unfoldable pub parse_text_format : Bytes → Option TextFormat
unfolding format_string bytes_eq
parse_text_format value =
    if bytes_eq value (format_string plain)
    then some plain
    else if bytes_eq value (format_string source)
    then some source
    else if bytes_eq value (format_string markdown)
    then some markdown
    else none

abbrev is_file : PayloadKind → Bool
is_file file = true
is_file text = false

abbrev is_encrypted : PrivacyMode → Bool
is_encrypted encrypted = true
is_encrypted standard = false

-- Why a pair is refused.
pub data Invalid : Type 0 where
  invalid_kind invalid_privacy unsupported : Invalid

unfoldable pub validate_payload_privacy : Bytes → Bytes → Result Invalid (Unit {0})
unfolding parse_payload_kind parse_privacy_mode
validate_payload_privacy kind mode = do
  k ← or_fail (parse_payload_kind kind) invalid_kind
  m ← or_fail (parse_privacy_mode mode) invalid_privacy
  refuse (is_file k && is_encrypted m) unsupported

-- Instants are numbers; an absent expiration never comes.
unfoldable pub is_expired : Option ℕ → ℕ → Bool
is_expired none now = false
is_expired (some expires_at) now = not (ltb now expires_at)
