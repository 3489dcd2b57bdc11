-- ===== src/Tests/RateLimit.antt =====
-- internal/ratelimit, with whole numbers in the place of floats. Times are in nanoseconds.
use cadish.Prelude.Dict.{Dict, lookup, insert, erase}
use cadish.Prelude.Int.{pos}
use cadish.Prelude.{
  ℕ, zero, suc, ◌+◌, ◌-◌, ◌*◌, ◌/◌, ◌<◌, ◌≡◌, refl, List, [], ◌∷◌, none, some, String, ltb, leb,
  All, length, replicate, arith, inl,
}
use cadish.RateLimit.{
  Floats, Rule, Decision, Bucket, Limiter, max_buckets_per_shard, capacity, shard_of, seen_times,
  make_room, allow, evict_oldest, seen_since, sort, insert_sorted, refill, spend, sweep,
}
use cadish.RateLimit.Conformance.{let_in-burst}
use cadish.RateLimit.Runs.{Event, ask, tick, asked, lesser, bucket, step, let_in, Uncrowded}
use cadish.RateLimit.Eviction.{allow_past_cap}
use cadish.RateLimit.Whole.{IsExact, whole_capacity}

abbrev whole_floats : Floats
whole_floats = record {
  Float = ℕ;
  of_int = λ n. n;
  add = λ a b. a + b;
  sub = λ a b. a - b;
  mul = λ a b. a * b;
  div = λ a b. a / b;
  less = λ a b. ltb a b;
  at_most = λ a b. leb a b;
  seconds = λ d. d / 1_000_000_000;
  to_duration = λ a. pos (a * 1_000_000_000);
}

whole_floats-IsExact : IsExact whole_floats
whole_floats-IsExact = record {
  less_of_int = λ m n a b. refl;
  at_most_of_int = λ m n a b. refl;
  sub_one = λ n a. omega arith;
  mul_zero = λ d. omega arith;
  add_zero = λ n a. omega arith;
}

-- No refill: a key has its burst, and is blocked then.
abbrev blocking : Rule whole_floats
blocking = record { rate_per_sec = 0; burst = 2 }

abbrev same_rule : String → Rule whole_floats
same_rule k = blocking

abbrev one_hash : String → ℕ
one_hash k = 7

abbrev empty_limiter : Limiter whole_floats
empty_limiter = record { shards = λ i. [] }

abbrev some_events : List Event
some_events = ask 0 "a" ∷ ask 5 "b" ∷ tick 7 ∷ ask 9 "a" ∷ ask 11 "a" ∷ []

three_asked : asked "a" some_events ≡ 3
unfolding asked
three_asked = refl

two_let_in : let_in one_hash same_rule "a" some_events empty_limiter ≡ 2
unfolding let_in allow lookup insert erase spend make_room refill sweep capacity
two_let_in = refl

uncrowded : Uncrowded one_hash same_rule some_events empty_limiter
unfolding step allow lookup insert erase spend make_room refill sweep capacity
uncrowded = (omega arith, (omega arith, (omega arith, (omega arith, tt))))

new_key : bucket one_hash same_rule "a" empty_limiter ≡ none
unfolding lookup
new_key = refl

let_in-burst_example :
    let_in one_hash same_rule "a" some_events empty_limiter
    ≡ lesser (whole_capacity blocking) (asked "a" some_events)
let_in-burst_example =
    let_in-burst one_hash same_rule whole_floats-IsExact "a" 0 20 some_events empty_limiter
      (inl refl) (ground arith) (omega arith)
      (omega arith, (omega arith, (omega arith, (omega arith, (omega arith, omega arith)))))
      uncrowded new_key

abbrev seen_at : ℕ → Bucket whole_floats
seen_at t = record { tokens = 0; last_fill = t; last_seen = t }

abbrev three_buckets : Dict (Bucket whole_floats)
three_buckets = ("a", seen_at 3) ∷ ("b", seen_at 1) ∷ ("c", seen_at 2) ∷ []

abbrev two_newest : Dict (Bucket whole_floats)
two_newest = ("a", seen_at 3) ∷ ("c", seen_at 2) ∷ []

evicts_oldest : evict_oldest 2 three_buckets ≡ some two_newest
unfolding evict_oldest sort insert_sorted seen_since
evicts_oldest = refl

-- The index is out of range for a target of 0.
faults : evict_oldest 0 three_buckets ≡ none
unfolding evict_oldest sort insert_sorted seen_since
faults = refl

abbrev tied : ℕ → Dict (Bucket whole_floats)
tied n = replicate n ("a", seen_at 3)

-- A full shard whose buckets were seen at one instant; the lookup of a new key reads them all.
abbrev tied_limiter : ℕ → Limiter whole_floats
tied_limiter n = record { shards = λ i. tied n }

tied_times : (n : ℕ) → All (λ u. u ≡ 3) (seen_times (tied n))
tied_times zero = tt
tied_times (suc n) = (refl, tied_times n)

lookup-tied : (n : ℕ) → lookup "b" (tied n) ≡ none
unfolding lookup
lookup-tied zero = refl
lookup-tied (suc n) = lookup-tied n

length-tied : (n : ℕ) → length (tied n) ≡ n
length-tied zero = refl
length-tied (suc n) = omega (arith, length-tied n)

allow_past_cap_example :
    (after : Limiter whole_floats) × (d : Decision) × (allow one_hash blocking 4 "b"
        (tied_limiter 4096)
      ≡ some (after, d))
    × (length (after.shards (shard_of one_hash "b"))
        ≡ suc (length ((tied_limiter 4096).shards (shard_of one_hash "b"))))
    × (max_buckets_per_shard < length (after.shards (shard_of one_hash "b")))
allow_past_cap_example =
    allow_past_cap one_hash blocking 4 3 "b" (tied_limiter 4096) (lookup-tied 4096)
      (omega (arith, length-tied 4096)) (tied_times 4096)
