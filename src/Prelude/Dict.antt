-- ===== src/Prelude/Dict.antt =====
-- A Go map with string keys, as an association list that holds a key at most once.
use cadish.Prelude.{
  ℕ, ◌+◌, ◌≤◌, ◌≡◌, refl, Bool, true, false, List, [], ◌∷◌, Option, none, some, String, str_eq,
  eq_iff, arith, if◌then◌else◌, is_some, length,
}

abbrev pub Dict {ℓ} : Type ℓ → Type ℓ
Dict V = List (String × V)

module _ {ℓ} {V : Type ℓ} where
  unfoldable pub lookup : String → Dict V → Option V
  lookup k [] = none
  lookup k ((j, v) ∷ m) = if str_eq j k then some v else lookup k m

  -- `_, ok := m[k]`
  unfoldable pub has : String → Dict V → Bool
  has k [] = false
  has k ((j, v) ∷ m) = if str_eq j k then true else has k m

  -- `delete(m, k)`
  unfoldable pub erase : String → Dict V → Dict V
  erase k [] = []
  erase k ((j, v) ∷ m) = let rest = erase k m in if str_eq j k then rest else (j, v) ∷ rest

  -- `m[k] = v`
  unfoldable pub insert : String → V → Dict V → Dict V
  insert k v m = (k, v) ∷ erase k m

  -- No key stands twice.
  abbrev pub IsDistinct : Dict V → Type 0
  IsDistinct [] = Unit
  IsDistinct ((k, v) ∷ m) = (has k m ≡ false) × IsDistinct m

module _ {ℓ} {V : Type ℓ} where
  pub lookup-erase :
      (k q : String) (m : Dict V) → lookup q (erase k m) ≡ (if str_eq k q then none else lookup q m)
  unfolding lookup erase
  lookup-erase k q [] = ground arith
  lookup-erase k q ((j, v) ∷ m) =
      ground (arith, eq_iff j k, eq_iff j q, eq_iff k q, lookup-erase k q m)

  pub has-erase :
      (k q : String) (m : Dict V) → has q (erase k m) ≡ (if str_eq k q then false else has q m)
  unfolding has erase
  has-erase k q [] = ground arith
  has-erase k q ((j, v) ∷ m) = ground (arith, eq_iff j k, eq_iff j q, eq_iff k q, has-erase k q m)

  pub lookup-insert :
      (k q : String) (v : V) (m : Dict V)
      → lookup q (insert k v m) ≡ (if str_eq k q then some v else lookup q m)
  unfolding insert lookup
  lookup-insert k q v m = ground (arith, lookup-erase k q m)

  pub has-insert :
      (k q : String) (v : V) (m : Dict V)
      → has q (insert k v m) ≡ (if str_eq k q then true else has q m)
  unfolding insert has
  has-insert k q v m = ground (arith, has-erase k q m)

  pub has-lookup : (k : String) (m : Dict V) → has k m ≡ is_some (lookup k m)
  unfolding lookup has
  has-lookup k [] = refl
  has-lookup k ((j, v) ∷ m) = ground (arith, has-lookup k m)

  pub erase-IsDistinct : (k : String) (m : Dict V) → IsDistinct m → IsDistinct (erase k m)
  unfolding erase
  erase-IsDistinct k [] d = tt
  erase-IsDistinct k ((j, v) ∷ m) (fresh, d) =
      ground (arith, has-erase k j m, erase-IsDistinct k m d)

  pub insert-IsDistinct :
      (k : String) (v : V) (m : Dict V) → IsDistinct m → IsDistinct (insert k v m)
  unfolding insert
  insert-IsDistinct k v m d = ground (arith, has-erase k k m, eq_iff k k, erase-IsDistinct k m d)

  pub erase_absent : (k : String) (m : Dict V) → has k m ≡ false → erase k m ≡ m
  unfolding has erase
  erase_absent k [] h = refl
  erase_absent k ((j, v) ∷ m) h = ground (arith, erase_absent k m)

  pub length-erase-le : (k : String) (m : Dict V) → length (erase k m) ≤ length m
  unfolding erase
  length-erase-le k [] = omega arith
  length-erase-le k ((j, v) ∷ m) = ground (arith, length-erase-le k m)

-- A sum of weights over the values, and what an erased key takes out of it.
module _ {ℓ} {V : Type ℓ} (weight : V → ℕ) where
  unfoldable pub total : Dict V → ℕ
  total [] = 0
  total ((k, v) ∷ m) = weight v + total m

  unfoldable pub weight_at : Option V → ℕ
  weight_at none = 0
  weight_at (some v) = weight v

  pub total-erase :
      (k : String) (m : Dict V)
      → IsDistinct m
      → total (erase k m) + weight_at (lookup k m) ≡ total m
  unfolding total weight_at lookup erase
  total-erase k [] d = omega arith
  total-erase k ((j, v) ∷ m) (fresh, d) =
      ground (arith, eq_iff j k, erase_absent k m, total-erase k m d)

pub total_none {ℓ} :
    {V : Type ℓ} (weight : V → ℕ) (m : Dict V)
    → ((q : String) → has q m ≡ false)
    → total weight m ≡ 0
unfolding total has
total_none weight [] h = refl
total_none weight ((k, v) ∷ m) h = absurd (ground (arith, h k, eq_iff k k))
