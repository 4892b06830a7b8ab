-- ===== src/Http/Filenames.antt =====
-- sanitizeFilename of internal/httpapi, with path.Base and utf8.ValidString of Go.
pub mod Safety
use u_paste.Prelude.{
  ℕ, zero, suc, Bool, true, false, ◌&&◌, ◌||◌, not, Option, none, some, List, [], ◌∷◌, ◌==◌, leb,
  ltb, if◌then◌else◌, Bytes, bytes_eq, length,
}
use u_paste.Http.Texts.{contains_byte, replace_byte}

unfoldable pub strip_slashes : Bytes → Bytes
strip_slashes [] = []
strip_slashes (c ∷ cs) = elim (strip_slashes cs) [
  | [] ↦ if c == b'/' then [] else c ∷ []
  | (d ∷ ds) ↦ c ∷ d ∷ ds
]

-- What follows the last slash.
unfoldable pub last_element : Bytes → Bytes
unfolding contains_byte
last_element [] = []
last_element (c ∷ cs) =
    let rest = last_element cs in
    if contains_byte cs b'/' then rest else if c == b'/' then cs else c ∷ cs

-- path.Base
unfoldable pub base : Bytes → Bytes
unfolding strip_slashes last_element
base [] = b'.' ∷ []
base (c ∷ cs) = elim (last_element (strip_slashes (c ∷ cs))) [ [] ↦ b'/' ∷ [] | (d ∷ ds) ↦ d ∷ ds ]

-- The continuation bytes that a rune still needs, and the range of the next of them.
pub record Utf8State : Type 0 where
  pub needed : ℕ
  pub low : ℕ
  pub high : ℕ

abbrev pub between_runes : Utf8State
between_runes = record { needed = 0; low = 128; high = 191 }

abbrev after_lead : ℕ → ℕ → ℕ → Option Utf8State
after_lead needed low high = some (record { needed = needed; low = low; high = high })

unfoldable pub utf8_lead : ℕ → Option Utf8State
utf8_lead c =
    if ltb c 128
    then after_lead 0 128 191
    else if leb 194 c && leb c 223
    then after_lead 1 128 191
    else if c == 224
    then after_lead 2 160 191
    else if c == 237
    then after_lead 2 128 159
    else if leb 225 c && leb c 239
    then after_lead 2 128 191
    else if c == 240
    then after_lead 3 144 191
    else if leb 241 c && leb c 243
    then after_lead 3 128 191
    else if c == 244
    then after_lead 3 128 143
    else none

unfoldable pub utf8_step : ℕ → ℕ → ℕ → ℕ → Option Utf8State
unfolding utf8_lead
utf8_step zero low high c = utf8_lead c
utf8_step (suc needed) low high c =
    if leb low c && leb c high then after_lead needed 128 191 else none

unfoldable pub utf8_from : Utf8State → Bytes → Bool
unfolding utf8_step
utf8_from state [] = state.needed == 0
utf8_from state (c ∷ cs) = elim (utf8_step state.needed state.low state.high c) [
  | none ↦ false
  | some next ↦ utf8_from next cs
]

-- utf8.ValidString
unfoldable pub valid_utf8 : Bytes → Bool
unfolding utf8_from
valid_utf8 value = utf8_from between_runes value

-- unicode.IsControl of one of the runes of a valid string: U+0000 to U+001F and U+007F to U+009F.
unfoldable pub has_control : Bytes → Bool
has_control [] = false
has_control (a ∷ []) = ltb a 32 || a == 127
has_control (a ∷ b ∷ rest) =
    ltb a 32 || a == 127 || (a == 194 && ltb b 160) || has_control (b ∷ rest)

-- The checks after path.Base.
unfoldable pub is_filename : Bytes → Bool
unfolding bytes_eq contains_byte valid_utf8 has_control
is_filename value =
    not (bytes_eq value [])
    && not (bytes_eq value (b'.' ∷ []))
    && not (bytes_eq value (b'.' ∷ b'.' ∷ []))
    && not (contains_byte value b'\\' || contains_byte value b'/')
    && leb (length value) 255
    && valid_utf8 value
    && not (has_control value)

unfoldable pub sanitize_filename : Bytes → Option Bytes
unfolding base replace_byte is_filename
sanitize_filename value =
    let name = base (replace_byte value b'\\' b'/') in if is_filename name then some name else none
