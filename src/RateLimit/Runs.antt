-- ===== src/RateLimit/Runs.antt =====
-- Runs of the limiter, request by request and sweep by sweep: internal/ratelimit/limiter.go.
use cadish.Prelude.Dict.{lookup, insert, lookup-insert}
use cadish.Prelude.{
  ℕ, ◌+◌, ◌≤◌, ◌<◌, ◌≡◌, refl, ap, ◌∙◌, false, ◌&&◌, List, [], ◌∷◌, Option, none, some, String,
  str_eq, eq_iff, ltb, if◌then◌else◌, length, arith, inl, inr, Option-cases,
}
use cadish.RateLimit.{
  Floats, Rule, Decision, Bucket, Limiter, max_buckets_per_shard, full_bucket, refill, spend,
  shard_of, with_shard, make_room, allow, sweep,
}

-- A request at an instant, and a sweep.
pub data Event : Type 0 where
  ask : ℕ → String → Event
  tick : ℕ → Event

abbrev pub instant : Event → ℕ
instant (ask t q) = t
instant (tick t) = t

-- The instants do not go back, from `now` on, and end by `end`.
abbrev pub InOrder : ℕ → ℕ → List Event → Type 0
InOrder now end [] = now ≤ end
InOrder now end (e ∷ es) = (now ≤ instant e) × InOrder (instant e) end es

-- The requests of a key.
unfoldable pub asked : String → List Event → ℕ
asked k [] = 0
asked k (ask t q ∷ es) = (if str_eq q k then 1 else 0) + asked k es
asked k (tick t ∷ es) = asked k es

abbrev pub lesser : ℕ → ℕ → ℕ
lesser m n = if ltb n m then n else m

pub InOrder-le : (now end : ℕ) (es : List Event) → InOrder now end es → now ≤ end
InOrder-le now end [] h = h
InOrder-le now end (e ∷ es) (h, hs) = omega (arith, h, InOrder-le (instant e) end es hs)

module _ {F : Floats} (hash : String → ℕ) (rules : String → Rule F) where
  abbrev pub bucket : String → Limiter F → Option (Bucket F)
  bucket k l = lookup k (l.shards (shard_of hash k))

  -- An event, and whether it let a key in. A request that faults ends the run.
  unfoldable pub step : String → Event → Limiter F → Option (Limiter F × ℕ)
  unfolding allow sweep
  step k (ask t q) l = elim (allow hash (rules q) t q l) [
    | none ↦ none
    | some (after, d) ↦ some (after, if str_eq q k && d.ok then 1 else 0)
  ]
  step k (tick t) l = some (sweep t l, 0)

  -- How often `k` is let in along a run.
  unfoldable pub let_in : String → List Event → Limiter F → ℕ
  unfolding step
  let_in k [] l = 0
  let_in k (e ∷ es) l = elim (step k e l) [ none ↦ 0 | some (after, n) ↦ n + let_in k es after ]

  -- The limiter after an event.
  abbrev pub after : Event → Limiter F → Limiter F
  after e l = elim (step "" e l) [ none ↦ l | some r ↦ r.0 ]

  -- No shard is full when a request comes in, so that no bucket is evicted.
  abbrev pub Uncrowded : List Event → Limiter F → Type 0
  Uncrowded [] l = Unit
  Uncrowded (ask t q ∷ es) l =
      (length (l.shards (shard_of hash q)) < max_buckets_per_shard)
      × Uncrowded es (after (ask t q) l)
  Uncrowded (tick t ∷ es) l = Uncrowded es (after (tick t) l)

  pub let_in-cons :
      (k : String) (e : Event) (es : List Event) (l m : Limiter F) (n : ℕ)
      → step k e l ≡ some (m, n)
      → let_in k (e ∷ es) l ≡ n + let_in k es m
  unfolding let_in
  let_in-cons k e es l m n h = ap (λ o. elim o [ none ↦ 0 | some (x, i) ↦ i + let_in k es x ]) h

  -- The bucket of a key holds so many whole tokens, and was filled and seen from `start` on.
  abbrev pub Holds : ℕ → String → ℕ → Limiter F → Type 0
  Holds start k n l =
      (b : Bucket F) × (bucket k l ≡ some b)
      × (b.tokens ≡ F.of_int n)
      × (start ≤ b.last_fill)
      × (start ≤ b.last_seen)

  -- A request of the key itself: what its bucket is after the refill decides.
  pub allow_known :
      (r : Rule F) (t : ℕ) (q : String) (l : Limiter F) (b : Bucket F)
      → bucket q l ≡ some b
      → allow hash r t q l
        ≡ some (
          with_shard
              (shard_of hash q)
              (insert q (spend r t (refill r t b)).0 (l.shards (shard_of hash q)))
              l,
          (spend r t (refill r t b)).1,
        )
  unfolding allow
  allow_known r t q l b e = ground (arith, e)

  pub allow_new :
      (r : Rule F) (t : ℕ) (q : String) (l : Limiter F)
      → bucket q l ≡ none
      → length (l.shards (shard_of hash q)) < max_buckets_per_shard
      → allow hash r t q l
        ≡ some (
          with_shard
              (shard_of hash q)
              (insert q (spend r t (full_bucket r t)).0 (l.shards (shard_of hash q)))
              l,
          (spend r t (full_bucket r t)).1,
        )
  unfolding allow make_room
  allow_new r t q l e room = ground (arith, e, room)

  pub bucket-put :
      (k q : String) (b : Bucket F) (l : Limiter F)
      → bucket k (with_shard (shard_of hash q) (insert q b (l.shards (shard_of hash q))) l)
        ≡ (if str_eq q k then some b else bucket k l)
  bucket-put k q b l = ground (arith, eq_iff q k, lookup-insert q k b (l.shards (shard_of hash q)))

  pub step-asked :
      (k : String) (t : ℕ) (q : String) (l m : Limiter F) (d : Decision)
      → allow hash (rules q) t q l ≡ some (m, d)
      → step k (ask t q) l ≡ some (m, if str_eq q k && d.ok then 1 else 0)
  unfolding step
  step-asked k t q l m d e =
      ap (λ o. elim o [ none ↦ none | some (y, i) ↦ some (y, if str_eq q k && i.ok then 1 else 0) ])
        e

  pub step-after :
      (k : String) (t : ℕ) (q : String) (l m : Limiter F) (d : Decision)
      → allow hash (rules q) t q l ≡ some (m, d)
      → after (ask t q) l ≡ m
  step-after k t q l m d e =
      ap (λ o. elim o [ none ↦ l | some r ↦ r.0 ]) (step-asked "" t q l m d e)

  -- A request of another key.
  pub ask_other :
      (k : String) (t : ℕ) (q : String) (l : Limiter F)
      → length (l.shards (shard_of hash q)) < max_buckets_per_shard
      → str_eq q k ≡ false
      → (m : Limiter F) × (d : Decision) × (allow hash (rules q) t q l ≡ some (m, d))
        × (bucket k m ≡ bucket k l)
  ask_other k t q l room other = elim (Option-cases (bucket q l)) [
    | inl e ↦
        let (b, d) = spend (rules q) t (full_bucket (rules q) t) in
        (
          with_shard (shard_of hash q) (insert q b (l.shards (shard_of hash q))) l,
          d,
          allow_new (rules q) t q l e room,
          bucket-put k q b l ∙ rw other refl,
        )
    | inr (a, e) ↦
        let (b, d) = spend (rules q) t (refill (rules q) t a) in
        (
          with_shard (shard_of hash q) (insert q b (l.shards (shard_of hash q))) l,
          d,
          allow_known (rules q) t q l a e,
          bucket-put k q b l ∙ rw other refl,
        )
  ]
