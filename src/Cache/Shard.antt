-- ===== src/Cache/Shard.antt =====
-- internal/cache/shard.go: how many shards a tier has, which one owns a key, and how the byte
-- budget is split. Budgets are ℕ (the configuration refuses negative sizes); a budget of 0 stands
-- for the branch `maxBytes <= 0`.
pub mod Budget
use Prim.Native.Nat.{bit_xor}
use cadish.Prelude.Utf8.{bytes}
use cadish.Prelude.{
  ℕ, zero, suc, ◌+◌, ◌*◌, ◌/◌, ◌%◌, ◌^◌, Bool, List, [], ◌∷◌, String, ltb, ◌==◌, if◌then◌else◌,
  replicate,
}

abbrev pub default_shards : ℕ
default_shards = 64

-- 1 << 20
abbrev pub min_shard_bytes : ℕ
min_shard_bytes = 1_048_576

unfoldable pub shard_count : ℕ → ℕ
shard_count max_bytes =
    if max_bytes == 0
    then 1
    else let n = max_bytes / min_shard_bytes in
      let at_least = (if ltb n 1 then 1 else n) in
      if ltb default_shards at_least then default_shards else at_least

-- FNV-1a over 32 bits, from a running hash.
unfoldable pub fnv32_from : ℕ → List ℕ → ℕ
fnv32_from h [] = h
fnv32_from h (b ∷ bs) = fnv32_from ((bit_xor h b * 16777619) % 2 ^ 32) bs

unfoldable pub fnv32 : String → ℕ
unfolding fnv32_from bytes
fnv32 key = fnv32_from 2166136261 (bytes key)

unfoldable pub shard_index : String → ℕ → ℕ
shard_index key n = fnv32 key % n

-- The loop over `caps`, from shard `i`, with `left` shards to go.
unfoldable pub caps_from : ℕ → ℕ → ℕ → ℕ → List ℕ
caps_from zero i base rem = []
caps_from (suc left) i base rem =
    (if ltb i rem then base + 1 else base) ∷ caps_from left (i + 1) base rem

unfoldable pub shard_caps : ℕ → ℕ → List ℕ
unfolding caps_from
shard_caps max_bytes n =
    if max_bytes == 0 then replicate n max_bytes else caps_from n 0 (max_bytes / n) (max_bytes % n)
