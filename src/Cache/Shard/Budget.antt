-- ===== src/Cache/Shard/Budget.antt =====
-- The split of a tier's budget: it is exact, and every shard of it is usable.
use cadish.Cache.Shard.{
  default_shards, min_shard_bytes, shard_count, shard_index, caps_from, shard_caps,
}
use native.Mathlib.Nat.{div-add-mod}
use cadish.Prelude.{
  ℕ, zero, suc, ◌+◌, ◌-◌, ◌*◌, ◌/◌, ◌%◌, ◌≤◌, ◌<◌, ◌≡◌, refl, List, [], ◌∷◌, String, arith, length,
  replicate, length-replicate, ◌⊎◌, inl, inr, Bool-cases, ◌==◌,
}

abbrev pub sum : List ℕ → ℕ
sum [] = 0
sum (x ∷ xs) = x + sum xs

length-caps_from : (left i base rem : ℕ) → length (caps_from left i base rem) ≡ left
unfolding caps_from
length-caps_from zero i base rem = refl
length-caps_from (suc left) i base rem = omega (arith, length-caps_from left (i + 1) base rem)

-- The shards from `i` on hold their share of the quotient, and what is left of the remainder.
sum-caps_from :
    (left i base rem : ℕ)
    → rem ≤ i + left
    → sum (caps_from left i base rem) ≡ left * base + (rem - i)
unfolding caps_from
sum-caps_from zero i base rem h = omega arith
sum-caps_from (suc left) i base rem h =
    ground (arith, sum-caps_from left (i + 1) base rem (omega arith))

sum-replicate_zero : (n : ℕ) → sum (replicate n 0) ≡ 0
sum-replicate_zero zero = refl
sum-replicate_zero (suc n) = omega (arith, sum-replicate_zero n)

-- At least one shard and at most 64, and a budget that is split at all leaves every shard the
-- minimum.
pub shard_count_bounds :
    (max_bytes : ℕ)
    → (1 ≤ shard_count max_bytes)
      × (shard_count max_bytes ≤ default_shards)
      × ((shard_count max_bytes ≡ 1) ⊎ (min_shard_bytes * shard_count max_bytes ≤ max_bytes))
unfolding shard_count
shard_count_bounds max_bytes = grind arith

-- The caps of `n` shards, `n` not 0, are `n` numbers whose sum is the budget of the tier, whatever
-- the budget.
pub shard_caps_exact :
    (max_bytes n : ℕ)
    → 0 < n
    → (length (shard_caps max_bytes n) ≡ n) × (sum (shard_caps max_bytes n) ≡ max_bytes)
unfolding shard_caps
shard_caps_exact max_bytes n h = elim (Bool-cases (max_bytes == 0)) [
  | inl none ↦ ground (arith, length-replicate n max_bytes, sum-replicate_zero n)
  | inr some ↦ ground (
    arith,
    length-caps_from n 0 (max_bytes / n) (max_bytes % n),
    sum-caps_from n 0 (max_bytes / n) (max_bytes % n),
    div-add-mod max_bytes n,
  )
]

-- The index of a key's shard names one of the `n` shards, `n` not 0.
pub shard_index-lt : (key : String) (n : ℕ) → 0 < n → shard_index key n < n
unfolding shard_index
shard_index-lt key n h = omega arith
