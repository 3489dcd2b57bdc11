-- ===== src/RateLimit/Conformance.antt =====
-- What the limiter promises to an origin, over a run of requests and sweeps: internal/ratelimit/limiter.go.
use mathlib.Core.Path.{subst}
use cadish.Prelude.Dict.{insert}
use cadish.Prelude.{
  ℕ, ◌+◌, ◌-◌, ◌≤◌, ◌<◌, ◌≡◌, ◌⊎◌, refl, sym, ◌∙◌, Bool, true, false, ◌&&◌, List, [], ◌∷◌, Option,
  none, some, String, str_eq, eq_iff, leb, if◌then◌else◌, length, arith, inl, inr, Bool-cases,
}
use cadish.RateLimit.Whole.{
  exact_bound, IsExact, whole_capacity, lookup-seen_since, seen_since-none, capacity-whole,
  refill_whole, spend_whole,
}
use cadish.RateLimit.Runs.{
  Event, ask, tick, InOrder, InOrder-le, asked, lesser, bucket, step, let_in, after, Uncrowded,
  let_in-cons, allow_known, allow_new, bucket-put, step-asked, step-after, ask_other, Holds,
}
use cadish.RateLimit.{
  Floats, Rule, Decision, Bucket, Limiter, idle_ttl, max_buckets_per_shard, full_bucket, refill,
  spend, shard_of, with_shard, allow, sweep,
}

module _ {F : Floats} (hash : String → ℕ) (rules : String → Rule F) where
  module _ (x : IsExact F) (k : String) (start end : ℕ)
      (still : ((rules k).rate_per_sec ≡ F.of_int 0) ⊎ (end ≤ start))
      (whole : whole_capacity (rules k) ≤ exact_bound) (soon : end ≤ start + idle_ttl) where
    -- The bucket that a request of the key leaves.
    spent_Holds :
        (t n : ℕ) (l : Limiter F) (b : Bucket F)
        → n ≤ exact_bound
        → start ≤ t
        → b.tokens ≡ F.of_int n
        → start ≤ b.last_fill
        → Holds hash rules start k (n - 1) (
            with_shard
              (shard_of hash k)
              (insert k (spend (rules k) t b).0 (l.shards (shard_of hash k)))
              l)
    spent_Holds t n l b few on e from =
        let (_, tokens, filled, seen) = spend_whole x (rules k) t n b few e in
        (
          (spend (rules k) t b).0,
          bucket-put hash rules k k (spend (rules k) t b).0 l ∙ rw ((eq_iff k k).1 refl) refl,
          tokens,
          omega (arith, filled, from),
          omega (arith, seen, on),
        )

    -- What a request of the key does.
    abbrev Pays : ℕ → ℕ → Limiter F → Type 0
    Pays t n l =
        (m : Limiter F) × (d : Decision) × (allow hash (rules k) t k l ≡ some (m, d))
        × (d.ok ≡ leb 1 n)
        × Holds hash rules start k (n - 1) m

    ask_known :
        (t n : ℕ) (l : Limiter F)
        → start ≤ t
        → t ≤ end
        → n ≤ whole_capacity (rules k)
        → Holds hash rules start k n l
        → Pays t n l
    ask_known t n l on by few (b, e, tokens, filled, seen) =
        let quiet : ((rules k).rate_per_sec ≡ F.of_int 0) ⊎ (t ≤ start) = elim still [
          | inl z ↦ inl z
          | inr z ↦ inr (omega (arith, z, by))
        ] in
        let (kept, from) = refill_whole x (rules k) start t n b quiet whole few tokens filled in
        let (ok, _, _, _) =
          spend_whole x (rules k) t n (refill (rules k) t b) (omega (arith, few, whole)) kept in
        (
          with_shard (shard_of hash k)
              (insert k (spend (rules k) t (refill (rules k) t b)).0 (l.shards (shard_of hash k)))
              l,
          (spend (rules k) t (refill (rules k) t b)).1,
          allow_known hash rules (rules k) t k l b e,
          ok,
          spent_Holds t n l (refill (rules k) t b) (omega (arith, few, whole)) on kept from,
        )

    ask_new :
        (t : ℕ) (l : Limiter F)
        → start ≤ t
        → length (l.shards (shard_of hash k)) < max_buckets_per_shard
        → bucket hash rules k l ≡ none
        → Pays t (whole_capacity (rules k)) l
    ask_new t l on room e =
        let b : Bucket F = full_bucket (rules k) t in
        let full = capacity-whole x (rules k) whole in
        let (ok, _, _, _) = spend_whole x (rules k) t (whole_capacity (rules k)) b whole full in
        (
          with_shard (shard_of hash k)
              (insert k (spend (rules k) t b).0 (l.shards (shard_of hash k))) l,
          (spend (rules k) t b).1,
          allow_new hash rules (rules k) t k l e room,
          ok,
          spent_Holds t (whole_capacity (rules k)) l b whole on full on,
        )

    swept_Holds :
        (t n : ℕ) (l : Limiter F)
        → t ≤ end
        → Holds hash rules start k n l
        → Holds hash rules start k n (sweep t l)
    unfolding sweep
    swept_Holds t n l by (b, e, tokens, filled, seen) = (
      b,
      lookup-seen_since (t - idle_ttl) k (l.shards (shard_of hash k)) b e
          (omega (arith, by, soon, seen)),
      tokens,
      filled,
      seen,
    )

    swept_none :
        (t : ℕ) (l : Limiter F)
        → bucket hash rules k l ≡ none
        → bucket hash rules k (sweep t l) ≡ none
    unfolding sweep
    swept_none t l e = seen_since-none (t - idle_ttl) k (l.shards (shard_of hash k)) e

    -- A key with so many whole tokens, or without a bucket, which stands for a full one.
    abbrev Known : Option (Bucket F) → ℕ → Type 0
    Known o n =
        ((b : Bucket F) × (o ≡ some b)
          × (b.tokens ≡ F.of_int n)
          × (start ≤ b.last_fill)
          × (start ≤ b.last_seen))
        ⊎ ((o ≡ none) × (n ≡ whole_capacity (rules k)))

    abbrev Budget : ℕ → Limiter F → Type 0
    Budget n l = Known (bucket hash rules k l) n

    ask_own :
        (t n : ℕ) (l : Limiter F)
        → start ≤ t
        → t ≤ end
        → n ≤ whole_capacity (rules k)
        → length (l.shards (shard_of hash k)) < max_buckets_per_shard
        → Budget n l
        → Pays t n l
    ask_own t n l on by few room (inl h) = ask_known t n l on by few h
    ask_own t n l on by few room (inr (e, full)) =
        subst (λ i. Pays t i l) (sym full) (ask_new t l on room e)

    one_less :
        (n a i : ℕ) (ok : Bool)
        → ok ≡ leb 1 n
        → i ≡ lesser (n - 1) a
        → (if true && ok then 1 else 0) + i ≡ lesser n (1 + a)
    one_less n a i ok e h = ground (arith, e, h)

    none_more : (n a i : ℕ) → i ≡ lesser n a → 0 + i ≡ lesser n (0 + a)
    none_more n a i h = ground (arith, h)

    no_more : (i : ℕ) → 0 + i ≡ i
    no_more i = omega arith

    own_run :
        (t n : ℕ) (es : List Event) (l m : Limiter F) (d : Decision)
        → allow hash (rules k) t k l ≡ some (m, d)
        → d.ok ≡ leb 1 n
        → let_in hash rules k es m ≡ lesser (n - 1) (asked k es)
        → let_in hash rules k (ask t k ∷ es) l ≡ lesser n (asked k (ask t k ∷ es))
    unfolding asked
    own_run t n es l m d e ok rest =
        let same : str_eq k k ≡ true = (eq_iff k k).1 refl in
        let_in-cons hash rules k (ask t k) es l m (if str_eq k k && d.ok then 1 else 0)
          (step-asked hash rules k t k l m d e)
        ∙ rw same (one_less n (asked k es) (let_in hash rules k es m) d.ok ok rest)

    other_run :
        (t n : ℕ) (q : String) (es : List Event) (l m : Limiter F) (d : Decision)
        → str_eq q k ≡ false
        → allow hash (rules q) t q l ≡ some (m, d)
        → let_in hash rules k es m ≡ lesser n (asked k es)
        → let_in hash rules k (ask t q ∷ es) l ≡ lesser n (asked k (ask t q ∷ es))
    unfolding asked
    other_run t n q es l m d other e rest =
        let_in-cons hash rules k (ask t q) es l m (if str_eq q k && d.ok then 1 else 0)
          (step-asked hash rules k t q l m d e)
        ∙ rw other (none_more n (asked k es) (let_in hash rules k es m) rest)

    tick_run :
        (t n : ℕ) (es : List Event) (l : Limiter F)
        → let_in hash rules k es (sweep t l) ≡ lesser n (asked k es)
        → let_in hash rules k (tick t ∷ es) l ≡ lesser n (asked k (tick t ∷ es))
    unfolding asked step
    tick_run t n es l rest =
        let_in-cons hash rules k (tick t) es l (sweep t l) 0 refl
        ∙ no_more (let_in hash rules k es (sweep t l))
        ∙ rest

    swept_Budget : (t n : ℕ) (l : Limiter F) → t ≤ end → Budget n l → Budget n (sweep t l)
    swept_Budget t n l by (inl h) = inl (swept_Holds t n l by h)
    swept_Budget t n l by (inr (e, full)) = inr (swept_none t l e, full)

    tick_after : (t : ℕ) (l : Limiter F) → after hash rules (tick t) l ≡ sweep t l
    unfolding step
    tick_after t l = refl

    run_lem :
        (now n : ℕ) (es : List Event) (l : Limiter F)
        → start ≤ now
        → n ≤ whole_capacity (rules k)
        → InOrder now end es
        → Uncrowded hash rules es l
        → Budget n l
        → let_in hash rules k es l ≡ lesser n (asked k es)
    run_lem now n [] l on few order room h = unfold let_in asked in ground arith
    run_lem now n (tick t ∷ es) l on few (le, order) room h = tick_run t n es l (
        run_lem t n es (sweep t l) (omega (arith, on, le)) few order (rw (tick_after t l) at room)
          (swept_Budget t n l (InOrder-le t end es order) h))
    run_lem now n (ask t q ∷ es) l on few (le, order) (free, room) h =
        elim (Bool-cases (str_eq q k)) [
          | inr other ↦
              let (m, d, e, same) = ask_other hash rules k t q l free other in
              other_run t n q es l m d other e (
                run_lem t n es m (omega (arith, on, le)) few order
                  (rw (step-after hash rules k t q l m d e) at room)
                  (subst (λ o. Known o n) (sym same) h))
          | inl same ↦
              let name = (eq_iff q k).0 same in
              let (m, d, e, ok, held) =
                ask_own t n l (omega (arith, on, le)) (InOrder-le t end es order) few
                  (rw name at free) h in
              rw name (
                own_run t n es l m d e ok (
                  run_lem t (n - 1) es m (omega (arith, on, le)) (omega (arith, few)) order
                    (rw (step-after hash rules k t k l m d e) at (rw name at room)) (inl held)))
        ]

  -- In a run of requests for any keys and of sweeps, in order from `now` to `end`, no longer than the idle time
  -- after which a sweep drops a bucket, and with no shard crowded: a key without a bucket at the start,
  -- whose rule has the rate 0, or any rate in a run at one instant, is let in exactly as often as it asks,
  -- up to its capacity, at most 2^53, and no further. The floats are exact on whole numbers up to 2^53.
  pub let_in-burst :
      IsExact F
      → (k : String) (now end : ℕ) (es : List Event) (l : Limiter F)
      → ((rules k).rate_per_sec ≡ F.of_int 0) ⊎ (end ≤ now)
      → whole_capacity (rules k) ≤ exact_bound
      → end ≤ now + idle_ttl
      → InOrder now end es
      → Uncrowded hash rules es l
      → bucket hash rules k l ≡ none
      → let_in hash rules k es l ≡ lesser (whole_capacity (rules k)) (asked k es)
  let_in-burst x k now end es l still whole soon order room new =
      run_lem x k now end still whole soon now (whole_capacity (rules k)) es l (omega arith)
        (omega arith) order room (inr (new, refl))
