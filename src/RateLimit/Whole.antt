-- ===== src/RateLimit/Whole.antt =====
-- A bucket whose tokens are a whole number: internal/ratelimit/limiter.go.
use cadish.Prelude.Dict.{Dict, lookup}
use cadish.Prelude.{
  ℕ, zero, suc, ◌-◌, ◌≤◌, ◌≡◌, ◌⊎◌, refl, sym, ap, ◌∙◌, true, false, [], ◌∷◌, none, some, String,
  eq_iff, ltb, leb, if◌then◌else◌, arith, inl, inr, Bool-cases,
}
use cadish.RateLimit.{Floats, Rule, Bucket, capacity, seen_since, refill, spend}

-- 2^53: a float64 holds the whole numbers up to it exactly.
abbrev pub exact_bound : ℕ
exact_bound = 9_007_199_254_740_992

-- What the limiter relies on: whole numbers up to 2^53 are compared exactly, one is taken off exactly, and a
-- zero rate adds nothing.
pub record IsExact (F : Floats) : Type 0 where
  pub less_of_int :
      (m n : ℕ) → m ≤ exact_bound → n ≤ exact_bound → F.less (F.of_int m) (F.of_int n) ≡ ltb m n
  pub at_most_of_int :
      (m n : ℕ) → m ≤ exact_bound → n ≤ exact_bound → F.at_most (F.of_int m) (F.of_int n) ≡ leb m n
  pub sub_one : (n : ℕ) → suc n ≤ exact_bound → F.sub (F.of_int (suc n)) (F.of_int 1) ≡ F.of_int n
  pub mul_zero : (d : ℕ) → F.mul (F.of_int 0) (F.seconds d) ≡ F.of_int 0
  pub add_zero : (n : ℕ) → n ≤ exact_bound → F.add (F.of_int n) (F.of_int 0) ≡ F.of_int n

-- `capacity`, as a number.
abbrev pub whole_capacity : {F : Floats} → Rule F → ℕ
whole_capacity r = if ltb r.burst 1 then 1 else r.burst

pub lookup-seen_since :
    {F : Floats} (c : ℕ) (k : String) (m : Dict (Bucket F)) (b : Bucket F)
    → lookup k m ≡ some b
    → c ≤ b.last_seen
    → lookup k (seen_since c m) ≡ some b
unfolding lookup seen_since
lookup-seen_since c k [] b e h = cc
lookup-seen_since c k ((j, a) ∷ m) b e h =
    ground (arith, e, h, eq_iff j k, lookup-seen_since c k m b)

pub seen_since-none :
    {F : Floats} (c : ℕ) (k : String) (m : Dict (Bucket F))
    → lookup k m ≡ none
    → lookup k (seen_since c m) ≡ none
unfolding lookup seen_since
seen_since-none c k [] e = refl
seen_since-none c k ((j, a) ∷ m) e = ground (arith, e, eq_iff j k, seen_since-none c k m)

module _ {F : Floats} (x : IsExact F) where
  pub capacity-whole :
      (r : Rule F) → whole_capacity r ≤ exact_bound → capacity r ≡ F.of_int (whole_capacity r)
  unfolding capacity
  capacity-whole r h =
      let e : F.less (F.of_int r.burst) (F.of_int 1) ≡ ltb r.burst 1 =
        x.less_of_int r.burst 1 (ground arith) (omega arith) in
      elim (Bool-cases (ltb r.burst 1)) [
        | inl low ↦ rw (e, low) refl
        | inr high ↦ rw (e, high) refl
      ]

  -- Nothing comes in when the rate is zero, or no time passes.
  pub refill_whole :
      (r : Rule F) (start t n : ℕ) (b : Bucket F)
      → (r.rate_per_sec ≡ F.of_int 0) ⊎ (t ≤ start)
      → whole_capacity r ≤ exact_bound
      → n ≤ whole_capacity r
      → b.tokens ≡ F.of_int n
      → start ≤ b.last_fill
      → ((refill r t b).tokens ≡ F.of_int n) × (start ≤ (refill r t b).last_fill)
  unfolding refill
  refill_whole r start t n b (inr still) h few e from = ground (arith, still, e, from)
  refill_whole r start t n b (inl still) h few e from =
      let filled : F.add b.tokens (F.mul r.rate_per_sec (F.seconds (t - b.last_fill)))
          ≡ F.of_int n =
        ap (λ y. F.add y (F.mul r.rate_per_sec (F.seconds (t - b.last_fill)))) e
        ∙ ap (λ y. F.add (F.of_int n) (F.mul y (F.seconds (t - b.last_fill)))) still
        ∙ ap (λ y. F.add (F.of_int n) y) (x.mul_zero (t - b.last_fill))
        ∙ x.add_zero n (omega (arith, few, h)) in
      let within : F.less (capacity r) (F.of_int n) ≡ false =
        ap (λ y. F.less y (F.of_int n)) (capacity-whole r h)
        ∙ x.less_of_int (whole_capacity r) n h (omega (arith, few, h))
        ∙ ground (arith, few) in
      elim (Bool-cases (ltb b.last_fill t)) [
        | inl later ↦
            let on : start ≤ t = ground (arith, later, from) in
            rw (later, filled, within) (refl, on)
        | inr early ↦ rw early (e, from)
      ]

  -- A request takes a token when there is one.
  pub spend_whole :
      (r : Rule F) (t n : ℕ) (b : Bucket F)
      → n ≤ exact_bound
      → b.tokens ≡ F.of_int n
      → ((spend r t b).1.ok ≡ leb 1 n)
        × ((spend r t b).0.tokens ≡ F.of_int (n - 1))
        × ((spend r t b).0.last_fill ≡ b.last_fill)
        × ((spend r t b).0.last_seen ≡ t)
  unfolding spend
  spend_whole r t zero b h e =
      let none_left : F.at_most (F.of_int 1) b.tokens ≡ false =
        ap (λ y. F.at_most (F.of_int 1) y) e ∙ x.at_most_of_int 1 0 (omega arith) h in
      rw none_left (refl, e, refl, refl)
  spend_whole r t (suc n) b h e =
      let left : F.at_most (F.of_int 1) b.tokens ≡ true =
        ap (λ y. F.at_most (F.of_int 1) y) e
        ∙ x.at_most_of_int 1 (suc n) (omega arith) h
        ∙ ground arith in
      rw left (
        sym (ground arith),
        ap (λ y. F.sub y (F.of_int 1)) e ∙ x.sub_one n h ∙ ap F.of_int (ground arith),
        refl,
        refl,
      )
