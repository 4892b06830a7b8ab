-- ===== src/Database/Tables.antt =====
-- A table of rows by their primary key, as an association list.
use u_paste.Prelude.{
  ◌≡◌, Bool, true, false, Option, none, some, List, [], ◌∷◌, arith, Bytes, bytes_eq, bytes_eq_iff,
  if◌then◌else◌,
}

abbrev pub Table {ℓ} : Type ℓ → Type ℓ
Table V = List (Bytes × V)

module _ {ℓ} {V : Type ℓ} where
  unfoldable pub find : Bytes → Table V → Option V
  unfolding bytes_eq
  find k [] = none
  find k ((j, v) ∷ t) = if bytes_eq j k then some v else find k t

  -- WHERE key = k: the rows with another key stay.
  unfoldable pub erase : Bytes → Table V → Table V
  unfolding bytes_eq
  erase k [] = []
  erase k ((j, v) ∷ t) = let rest = erase k t in if bytes_eq j k then rest else (j, v) ∷ rest

  -- UPDATE … SET … WHERE key = k
  unfoldable pub modify : Bytes → (V → V) → Table V → Table V
  unfolding bytes_eq
  modify k f [] = []
  modify k f ((j, v) ∷ t) =
      let rest = modify k f t in if bytes_eq j k then (j, f v) ∷ rest else (j, v) ∷ rest

  unfoldable pub is_present : Bytes → Table V → Bool
  unfolding find
  is_present k t = elim (find k t) [ none ↦ false | some _ ↦ true ]

  pub find-erase :
      (k j : Bytes) (t : Table V) → find j (erase k t) ≡ (if bytes_eq k j then none else find j t)
  unfolding find erase
  find-erase k j [] = ground arith
  find-erase k j ((i, v) ∷ t) =
      ground (arith, find-erase k j t, bytes_eq_iff i k, bytes_eq_iff i j, bytes_eq_iff k j)

  abbrev pub apply : (V → V) → Option V → Option V
  apply f none = none
  apply f (some v) = some (f v)

  pub find-modify :
      (k j : Bytes) (f : V → V) (t : Table V)
      → find j (modify k f t) ≡ (if bytes_eq k j then apply f (find j t) else find j t)
  unfolding find modify
  find-modify k j f [] = ground arith
  find-modify k j f ((i, v) ∷ t) =
      ground (arith, find-modify k j f t, bytes_eq_iff i k, bytes_eq_iff i j, bytes_eq_iff k j)
