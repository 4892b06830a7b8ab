-- ===== src/Http/Texts.antt =====
-- The functions of Go's package strings that internal/httpapi calls. EqualFold is only called with
-- ASCII names that hold no letter with a fold outside of ASCII, or on names that mime has checked.
use u_paste.Prelude.{
  ℕ, zero, suc, ◌+◌, Bool, false, Option, none, some, ◌&&◌, ◌||◌, List, [], ◌∷◌, ◌++◌, ◌==◌, leb,
  if◌then◌else◌, Bytes, bytes_eq, take, drop, length,
}

abbrev is_ascii_space : ℕ → Bool
is_ascii_space b = b == 32 || b == 9 || b == 10 || b == 11 || b == 12 || b == 13

-- U+0085 and U+00A0
abbrev is_space_2 : ℕ → ℕ → Bool
is_space_2 a b = a == 194 && (b == 133 || b == 160)

-- U+1680, U+2000 to U+200A, U+2028, U+2029, U+202F, U+205F and U+3000
abbrev is_space_3 : ℕ → ℕ → ℕ → Bool
is_space_3 a b c =
    (a == 225 && b == 154 && c == 128)
    || (a == 226 && b == 128 && (leb 128 c && leb c 138 || c == 168 || c == 169 || c == 175))
    || (a == 226 && b == 129 && c == 159)
    || (a == 227 && b == 128 && c == 128)

-- The bytes of the white space character that a string starts with, 0 if there is none:
-- unicode.IsSpace of its first rune.
unfoldable pub space_width : Bytes → ℕ
space_width [] = 0
space_width (a ∷ []) = if is_ascii_space a then 1 else 0
space_width (a ∷ b ∷ []) = if is_ascii_space a then 1 else if is_space_2 a b then 2 else 0
space_width (a ∷ b ∷ c ∷ rest) =
    if is_ascii_space a then 1 else if is_space_2 a b then 2 else if is_space_3 a b c then 3 else 0

abbrev pub with_word : Bytes → List Bytes → List Bytes
with_word [] words = words
with_word (c ∷ cs) words = (c ∷ cs) ∷ words

-- The words of what is left, `skip` bytes of white space and a word begun before it.
unfoldable pub fields_from : ℕ → Bytes → Bytes → List Bytes
unfolding space_width
fields_from skip word [] = with_word word []
fields_from (suc skip) word (c ∷ cs) = fields_from skip word cs
fields_from zero word (c ∷ cs) = elim (space_width (c ∷ cs)) [
  | zero ↦ fields_from zero (word ++ (c ∷ [])) cs
  | (suc skip) ↦ with_word word (fields_from skip [] cs)
]

-- strings.Fields
unfoldable pub fields : Bytes → List Bytes
unfolding fields_from
fields value = fields_from 0 [] value

abbrev pub lower : ℕ → ℕ
lower c = if leb 65 c && leb c 90 then c + 32 else c

unfoldable pub fold_ascii : Bytes → Bytes
fold_ascii [] = []
fold_ascii (c ∷ cs) = lower c ∷ fold_ascii cs

unfoldable pub equal_fold : Bytes → Bytes → Bool
unfolding fold_ascii bytes_eq
equal_fold a b = bytes_eq (fold_ascii a) (fold_ascii b)

-- The two runes outside of ASCII whose lower case is ASCII, U+0130 and U+212A: the letter, and the
-- bytes that follow the first.
unfoldable pub special_lower : Bytes → Option (ℕ × ℕ)
special_lower [] = none
special_lower (a ∷ []) = none
special_lower (a ∷ b ∷ []) = if a == 196 && b == 176 then some (105, 1) else none
special_lower (a ∷ b ∷ c ∷ rest) =
    if a == 196 && b == 176
    then some (105, 1)
    else if a == 226 && b == 132 && c == 170
    then some (107, 2)
    else none

unfoldable pub lower_from : ℕ → Bytes → Bytes
unfolding special_lower
lower_from skip [] = []
lower_from (suc skip) (c ∷ cs) = lower_from skip cs
lower_from zero (c ∷ cs) = elim (special_lower (c ∷ cs)) [
  | none ↦ lower c ∷ lower_from zero cs
  | some (letter, skip) ↦ letter ∷ lower_from skip cs
]

-- strings.ToLower, for a comparison with ASCII words: other runes stay as they are.
unfoldable pub to_lower : Bytes → Bytes
unfolding lower_from
to_lower value = lower_from 0 value

unfoldable pub has_prefix : Bytes → Bytes → Bool
unfolding bytes_eq
has_prefix value prefix = bytes_eq (take (length prefix) value) prefix

unfoldable pub trim_prefix : Bytes → Bytes → Bytes
unfolding has_prefix
trim_prefix value prefix = if has_prefix value prefix then drop (length prefix) value else value

unfoldable pub contains_byte : Bytes → ℕ → Bool
contains_byte [] b = false
contains_byte (c ∷ cs) b = c == b || contains_byte cs b

-- strings.ReplaceAll of one byte by another
unfoldable pub replace_byte : Bytes → ℕ → ℕ → Bytes
replace_byte [] old new = []
replace_byte (c ∷ cs) old new = (if c == old then new else c) ∷ replace_byte cs old new
