-- ===== src/Base64.antt =====
-- base64.RawURLEncoding of Go's standard library, as internal/capability, internal/admin,
-- internal/share and internal/httpapi call it: EncodeToString, and DecodeString, which skips
-- carriage returns and line feeds and ignores the unused low bits of the last character.
pub mod RoundTrip
use u_paste.Prelude.{
  ℕ, suc, ◌+◌, ◌-◌, ◌*◌, ◌/◌, ◌%◌, ◌<◌, ◌≡◌, refl, Bool, ◌||◌, ◌&&◌, Option, none, some, List, [],
  ◌∷◌, arith, ltb, leb, ◌==◌, if◌then◌else◌, Bytes, All, IsByte, length,
}

-- The alphabet.
unfoldable pub sextet_char : ℕ → ℕ
sextet_char n =
    if ltb n 26
    then 65 + n
    else if ltb n 52
    then 71 + n
    else if ltb n 62
    then n - 4
    else if n == 62
    then 45
    else 95

unfoldable pub char_sextet : ℕ → Option ℕ
char_sextet c =
    if leb 65 c && leb c 90
    then some (c - 65)
    else if leb 97 c && leb c 122
    then some (c - 71)
    else if leb 48 c && leb c 57
    then some (c + 4)
    else if c == 45
    then some 62
    else if c == 95
    then some 63
    else none

unfoldable pub encode : Bytes → Bytes
encode [] = []
encode (a ∷ []) = sextet_char (a / 4) ∷ sextet_char (a % 4 * 16) ∷ []
encode (a ∷ b ∷ []) =
    sextet_char (a / 4) ∷ sextet_char (a % 4 * 16 + b / 16) ∷ sextet_char (b % 16 * 4) ∷ []
encode (a ∷ b ∷ c ∷ rest) =
    sextet_char (a / 4)
    ∷ sextet_char (a % 4 * 16 + b / 16)
    ∷ sextet_char (b % 16 * 4 + c / 64)
    ∷ sextet_char (c % 64)
    ∷ encode rest

-- The characters to sextets, line breaks skipped.
unfoldable pub sextets : Bytes → Option (List ℕ)
unfolding char_sextet
sextets [] = some []
sextets (c ∷ cs) =
    let rest = sextets cs in
    if c == 10 || c == 13 then rest else elim (char_sextet c) [
      | none ↦ none
      | some s ↦ elim rest [ none ↦ none | some r ↦ some (s ∷ r) ]
    ]

-- Groups of four sextets to three bytes; one left over is an error.
unfoldable pub assemble : List ℕ → Option Bytes
assemble [] = some []
assemble (p ∷ []) = none
assemble (p ∷ q ∷ []) = some ((p * 4 + q / 16) ∷ [])
assemble (p ∷ q ∷ r ∷ []) = some ((p * 4 + q / 16) ∷ (q % 16 * 16 + r / 4) ∷ [])
assemble (p ∷ q ∷ r ∷ s ∷ rest) = elim (assemble rest) [
  | none ↦ none
  | some bs ↦ some ((p * 4 + q / 16) ∷ (q % 16 * 16 + r / 4) ∷ (r % 4 * 64 + s) ∷ bs)
]

unfoldable pub decode : Bytes → Option Bytes
unfolding sextets assemble
decode cs = elim (sextets cs) [ none ↦ none | some ss ↦ assemble ss ]
