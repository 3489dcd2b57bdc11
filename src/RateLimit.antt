-- ===== src/RateLimit.antt =====
-- internal/ratelimit/limiter.go. Instants and durations are ℕ, in nanoseconds of the clock. A float64 is a
-- parameter: its type and the operations that the limiter uses. The seeded hash of the standard library is
-- one too.
pub mod Refill
pub mod Whole
pub mod Runs
pub mod Conformance
pub mod Eviction
use cadish.Prelude.Dict.{Dict, lookup, insert}
use cadish.Prelude.Int.{ℤ, pos, negsuc}
use cadish.Prelude.{
  ℕ, zero, suc, ◌+◌, ◌-◌, ◌*◌, ◌/◌, ◌%◌, Bool, true, false, not, List, [], ◌∷◌, map, Option, none,
  some, String, ltb, leb, ◌==◌, if◌then◌else◌, length, get_elem?,
}

abbrev pub num_shards : ℕ
num_shards = 64

-- 10 * time.Minute
abbrev pub idle_ttl : ℕ
idle_ttl = 600_000_000_000

abbrev pub max_buckets_per_shard : ℕ
max_buckets_per_shard = 4096

-- float64: a conversion from int, the arithmetic and comparisons, `Duration.Seconds()`, and the conversion of
-- seconds to a `time.Duration`.
pub record Floats : Type 1 where
  pub Float : Type 0
  pub of_int : ℕ → Float
  pub add : Float → Float → Float
  pub sub : Float → Float → Float
  pub mul : Float → Float → Float
  pub div : Float → Float → Float
  pub less : Float → Float → Bool
  pub at_most : Float → Float → Bool
  pub seconds : ℕ → Float
  pub to_duration : Float → ℤ

pub record Rule (F : Floats) : Type 0 where
  pub rate_per_sec : F.Float
  pub burst : ℕ

pub record Decision : Type 0 where
  pub ok : Bool
  pub retry_after : ℕ

pub record Bucket (F : Floats) : Type 0 where
  pub tokens : F.Float
  pub last_fill : ℕ
  pub last_seen : ℕ

pub record Limiter (F : Floats) : Type 0 where
  pub shards : ℕ → Dict (Bucket F)

-- `sort.Slice` on the instants.
unfoldable pub insert_sorted : ℕ → List ℕ → List ℕ
insert_sorted t [] = t ∷ []
insert_sorted t (u ∷ l) = if ltb u t then u ∷ insert_sorted t l else t ∷ u ∷ l

unfoldable pub sort : List ℕ → List ℕ
unfolding insert_sorted
sort [] = []
sort (t ∷ l) = insert_sorted t (sort l)

-- 4096 * 7 / 8
abbrev pub low_water : ℕ
low_water = max_buckets_per_shard * 7 / 8

-- A wait of at least a nanosecond.
abbrev pub at_least_one : ℤ → ℕ
at_least_one (pos zero) = 1
at_least_one (pos (suc n)) = suc n
at_least_one (negsuc n) = 1

-- `Sum64() & (numShards - 1)`, of a hash.
abbrev pub shard_of : (String → ℕ) → String → ℕ
shard_of hash key = hash key % num_shards

module _ {F : Floats} where
  -- `capacity`
  unfoldable pub capacity : Rule F → F.Float
  capacity r = let c = F.of_int r.burst in if F.less c (F.of_int 1) then F.of_int 1 else c

  -- The buckets that were not seen before the cutoff: the loops of `evictOldestLocked` and `sweep`.
  unfoldable pub seen_since : ℕ → Dict (Bucket F) → Dict (Bucket F)
  seen_since cutoff [] = []
  seen_since cutoff ((k, b) ∷ m) =
      let rest = seen_since cutoff m in if ltb b.last_seen cutoff then rest else (k, b) ∷ rest

  abbrev pub seen_times : Dict (Bucket F) → List ℕ
  seen_times m = map (λ e. e.1.last_seen) m

  -- `evictOldestLocked`; `none` is the fault of an index out of range.
  unfoldable pub evict_oldest : ℕ → Dict (Bucket F) → Option (Dict (Bucket F))
  unfolding sort seen_since
  evict_oldest target m =
      if leb (length m) target
      then some m
      else elim (get_elem? (sort (seen_times m)) (length m - target)) [
        | none ↦ none
        | some cutoff ↦ some (seen_since cutoff m)
      ]

  -- A bucket at its first request: full.
  abbrev pub full_bucket : Rule F → ℕ → Bucket F
  full_bucket r now = record { tokens = capacity r; last_fill = now; last_seen = now }

  -- The refill of a known bucket.
  unfoldable pub refill : Rule F → ℕ → Bucket F → Bucket F
  unfolding capacity
  refill r now b =
      if ltb b.last_fill now
      then (let filled = F.add b.tokens (F.mul r.rate_per_sec (F.seconds (now - b.last_fill))) in
          record b {
            tokens = if F.less (capacity r) filled then capacity r else filled;
            last_fill = now;
          })
      else b

  -- The time to the next token of a bucket without a whole one.
  unfoldable pub retry_after : Rule F → Bucket F → ℕ
  retry_after r b =
      if F.less (F.of_int 0) r.rate_per_sec
      then at_least_one (F.to_duration (F.div (F.sub (F.of_int 1) b.tokens) r.rate_per_sec))
      else idle_ttl

  -- The end of `Allow`: a token is taken, or the request is throttled.
  unfoldable pub spend : Rule F → ℕ → Bucket F → Bucket F × Decision
  unfolding retry_after
  spend r now b =
      let seen = record b { last_seen = now } in
      if F.at_most (F.of_int 1) b.tokens
      then (
        record seen { tokens = F.sub b.tokens (F.of_int 1) },
        record { ok = true; retry_after = 0 },
      )
      else (seen, record { ok = false; retry_after = retry_after r b })

  abbrev pub with_shard : ℕ → Dict (Bucket F) → Limiter F → Limiter F
  with_shard i m l = record l { shards = λ j. if i == j then m else l.shards j }

  -- The shard with room for a new bucket.
  unfoldable pub make_room : Dict (Bucket F) → Option (Dict (Bucket F))
  unfolding evict_oldest
  make_room m = if leb max_buckets_per_shard (length m) then evict_oldest low_water m else some m

  -- `Allow` on a limiter: the rule, the instant and the key. `none` is a fault.
  unfoldable pub allow :
      (String → ℕ) → Rule F → ℕ → String → Limiter F → Option (Limiter F × Decision)
  unfolding make_room refill spend
  allow hash r now key l =
      let i = shard_of hash key in
      let m = l.shards i in
      elim (lookup key m) [
        | none ↦
            let (b, d) = spend r now (full_bucket r now) in
            elim (make_room m) [
              | none ↦ none
              | some roomy ↦ some (with_shard i (insert key b roomy) l, d)
            ]
        | some old ↦
            let (b, d) = spend r now (refill r now old) in some (with_shard i (insert key b m) l, d)
      ]

  -- `sweep`
  unfoldable pub sweep : ℕ → Limiter F → Limiter F
  unfolding seen_since
  sweep now l = record l { shards = λ i. seen_since (now - idle_ttl) (l.shards i) }

-- `RetryAfterSeconds`: up to whole seconds, at least one.
unfoldable pub retry_after_seconds : ℕ → ℕ
retry_after_seconds d = let s = (d + 999_999_999) / 1_000_000_000 in if ltb s 1 then 1 else s
