-- ===== src/Domain/Laws.antt =====
-- The parsers accept exactly the strings of the constants.
use u_paste.Prelude.{◌≡◌, ◌↔◌, refl, some, Bytes, bytes_eq_iff, arith}
use u_paste.Domain.{
  PayloadKind, PrivacyMode, TextFormat, text, file, standard, encrypted, plain, source, markdown,
  kind_string, privacy_string, format_string, parse_payload_kind, parse_privacy_mode,
  parse_text_format,
}

pub kind_string-parses : (k : PayloadKind) → parse_payload_kind (kind_string k) ≡ some k
unfolding parse_payload_kind
kind_string-parses text = refl
kind_string-parses file = refl

pub privacy_string-parses : (p : PrivacyMode) → parse_privacy_mode (privacy_string p) ≡ some p
unfolding parse_privacy_mode
privacy_string-parses standard = refl
privacy_string-parses encrypted = refl

pub format_string-parses : (f : TextFormat) → parse_text_format (format_string f) ≡ some f
unfolding parse_text_format
format_string-parses plain = refl
format_string-parses source = refl
format_string-parses markdown = refl

kind-of_parse : (v : Bytes) (k : PayloadKind) → parse_payload_kind v ≡ some k → v ≡ kind_string k
unfolding parse_payload_kind
kind-of_parse v text h = ground (arith, bytes_eq_iff v (kind_string text))
kind-of_parse v file h = ground (arith, bytes_eq_iff v (kind_string file))

privacy-of_parse :
    (v : Bytes) (p : PrivacyMode) → parse_privacy_mode v ≡ some p → v ≡ privacy_string p
unfolding parse_privacy_mode
privacy-of_parse v standard h = ground (arith, bytes_eq_iff v (privacy_string standard))
privacy-of_parse v encrypted h = ground (arith, bytes_eq_iff v (privacy_string encrypted))

pub format-of_parse :
    (v : Bytes) (f : TextFormat) → parse_text_format v ≡ some f → v ≡ format_string f
unfolding parse_text_format
format-of_parse v plain h = ground (arith, bytes_eq_iff v (format_string plain))
format-of_parse v source h = ground (arith, bytes_eq_iff v (format_string source))
format-of_parse v markdown h = ground (arith, bytes_eq_iff v (format_string markdown))

-- A string parses to a kind, a privacy mode or a text format exactly if it is the string of that
-- constant.
pub parsers_exact :
    (v : Bytes)
    → ((k : PayloadKind) → (parse_payload_kind v ≡ some k) ↔ (v ≡ kind_string k))
      × ((p : PrivacyMode) → (parse_privacy_mode v ≡ some p) ↔ (v ≡ privacy_string p))
      × ((f : TextFormat) → (parse_text_format v ≡ some f) ↔ (v ≡ format_string f))
parsers_exact v = (
  λ k. (kind-of_parse v k, λ e. rw e (kind_string-parses k)),
  λ p. (privacy-of_parse v p, λ e. rw e (privacy_string-parses p)),
  λ f. (format-of_parse v f, λ e. rw e (format_string-parses f)),
)
