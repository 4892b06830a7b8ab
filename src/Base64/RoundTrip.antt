-- ===== src/Base64/RoundTrip.antt =====
-- `decode` undoes `encode`, and what passes a canonical check is an encoding.
use u_paste.Prelude.{
  ℕ, ◌+◌, ◌*◌, ◌/◌, ◌%◌, ◌<◌, ◌≡◌, refl, Option, none, some, List, [], ◌∷◌, arith, Bytes, All,
  IsByte, length, Option-cases, inl, inr,
}
use u_paste.Base64.{sextet_char, char_sextet, encode, sextets, assemble, decode}

-- The sextets that `encode` spells.
split : Bytes → List ℕ
split [] = []
split (a ∷ []) = a / 4 ∷ (a % 4 * 16) ∷ []
split (a ∷ b ∷ []) = a / 4 ∷ (a % 4 * 16 + b / 16) ∷ (b % 16 * 4) ∷ []
split (a ∷ b ∷ c ∷ rest) =
    a / 4 ∷ (a % 4 * 16 + b / 16) ∷ (b % 16 * 4 + c / 64) ∷ c % 64 ∷ split rest

sextets-sextet_char :
    (n : ℕ) (cs : Bytes) (ss : List ℕ)
    → n < 64
    → sextets cs ≡ some ss
    → sextets (sextet_char n ∷ cs) ≡ some (n ∷ ss)
unfolding sextets char_sextet sextet_char
sextets-sextet_char n cs ss h e = ground arith

sextets-encode : (bs : Bytes) → All IsByte bs → sextets (encode bs) ≡ some (split bs)
unfolding encode split
sextets-encode [] h = unfold sextets in refl
sextets-encode (a ∷ []) h =
    sextets-sextet_char _ _ _ (omega arith)
      (sextets-sextet_char _ _ _ (omega arith) (unfold sextets in refl))
sextets-encode (a ∷ b ∷ []) h = sextets-sextet_char _ _ _ (omega arith) (
    sextets-sextet_char _ _ _ (omega arith)
      (sextets-sextet_char _ _ _ (omega arith) (unfold sextets in refl)))
sextets-encode (a ∷ b ∷ c ∷ rest) h = sextets-sextet_char _ _ _ (omega arith) (
    sextets-sextet_char _ _ _ (omega arith) (
      sextets-sextet_char _ _ _ (omega arith)
        (sextets-sextet_char _ _ _ (omega arith) (sextets-encode rest h.1.1.1))))

assemble-split : (bs : Bytes) → All IsByte bs → assemble (split bs) ≡ some bs
unfolding assemble split
assemble-split [] h = refl
assemble-split (a ∷ []) h = ground arith
assemble-split (a ∷ b ∷ []) h = ground arith
assemble-split (a ∷ b ∷ c ∷ rest) h = ground (arith, assemble-split rest h.1.1.1)

-- Decoding an encoding gives the bytes back.
pub decode-encode : (bs : Bytes) → All IsByte bs → decode (encode bs) ≡ some bs
unfolding decode
decode-encode bs h = rw (sextets-encode bs h, decode) (assemble-split bs h)

-- The length of an encoding: EncodedLen of the encoding without padding.
pub length-encode : (bs : Bytes) → length (encode bs) ≡ (length bs * 8 + 5) / 6
unfolding encode
length-encode [] = refl
length-encode (a ∷ []) = refl
length-encode (a ∷ b ∷ []) = refl
length-encode (a ∷ b ∷ c ∷ rest) = omega (arith, length-encode rest)

char_sextet-lt : (c n : ℕ) → char_sextet c ≡ some n → n < 64
unfolding char_sextet
char_sextet-lt c n h = ground arith

abbrev IsSextet : ℕ → Type 0
IsSextet n = n < 64

sextets-IsSextet : (cs : Bytes) (ss : List ℕ) → sextets cs ≡ some ss → All IsSextet ss
unfolding sextets
sextets-IsSextet [] [] h = tt
sextets-IsSextet [] (s ∷ ss) h = cc
sextets-IsSextet (c ∷ cs) [] h = tt
sextets-IsSextet (c ∷ cs) (s ∷ ss) h =
    ground (arith, sextets-IsSextet cs (s ∷ ss), sextets-IsSextet cs ss, char_sextet-lt c s)

abbrev Decoded : Option Bytes → Type 0
Decoded none = Unit
Decoded (some bs) = All IsByte bs

assemble-IsByte : (ss : List ℕ) → All IsSextet ss → Decoded (assemble ss)
unfolding assemble
assemble-IsByte [] a = tt
assemble-IsByte (p ∷ []) a = tt
assemble-IsByte (p ∷ q ∷ []) a = omega arith
assemble-IsByte (p ∷ q ∷ r ∷ []) a = omega arith
assemble-IsByte (p ∷ q ∷ r ∷ s ∷ rest) a = elim (Option-cases (assemble rest)) [
  | inl e ↦ rw e tt
  | inr (bs, e) ↦
      rw e (omega arith, (omega arith, (omega arith, rw e at (assemble-IsByte rest a.1.1.1.1))))
]

-- What decodes, decodes to bytes.
pub decode-IsByte : (cs bs : Bytes) → decode cs ≡ some bs → All IsByte bs
unfolding decode
decode-IsByte cs bs h = elim (Option-cases (sextets cs)) [
  | inl e ↦ ground (arith)
  | inr (ss, e) ↦
      let d : Decoded (assemble ss) = assemble-IsByte ss (sextets-IsSextet cs ss e) in
      let g : assemble ss ≡ some bs = ground arith in rw g at d
]
