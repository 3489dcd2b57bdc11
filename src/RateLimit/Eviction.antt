-- ===== src/RateLimit/Eviction.antt =====
-- The cap of a shard: what `evictOldestLocked` leaves.
use cadish.Prelude.Dict.{Dict, lookup, insert, erase}
use cadish.Prelude.{
  ℕ, zero, suc, ◌+◌, ◌-◌, ◌≤◌, ◌<◌, ◌≡◌, refl, List, [], ◌∷◌, none, some, String, ◌∙◌, leb,
  get_elem?-lt, ltb, if◌then◌else◌, length, get_elem?, All, arith, ap, inl, inr, Bool-cases,
}
use cadish.RateLimit.{
  Floats, Rule, Decision, Bucket, Limiter, max_buckets_per_shard, low_water, insert_sorted, sort,
  seen_since, seen_times, evict_oldest, full_bucket, spend, shard_of, with_shard, make_room, allow,
}

-- How many instants of a list lie before one.
unfoldable count_before : ℕ → List ℕ → ℕ
count_before t [] = 0
count_before t (u ∷ l) = (if ltb u t then 1 else 0) + count_before t l

unfoldable pub IsSorted : List ℕ → Type 0
IsSorted [] = Unit
IsSorted (t ∷ l) = All (λ u. t ≤ u) l × IsSorted l

length-insert_sorted : (t : ℕ) (l : List ℕ) → length (insert_sorted t l) ≡ suc (length l)
unfolding insert_sorted
length-insert_sorted t [] = refl
length-insert_sorted t (u ∷ l) = ground (arith, length-insert_sorted t l)

length-sort : (l : List ℕ) → length (sort l) ≡ length l
unfolding sort
length-sort [] = refl
length-sort (t ∷ l) = ground (arith, length-insert_sorted t (sort l), length-sort l)

count_before-insert_sorted :
    (c t : ℕ) (l : List ℕ)
    → count_before c (insert_sorted t l) ≡ (if ltb t c then 1 else 0) + count_before c l
unfolding insert_sorted count_before
count_before-insert_sorted c t [] = refl
count_before-insert_sorted c t (u ∷ l) = ground (arith, count_before-insert_sorted c t l)

count_before-sort : (c : ℕ) (l : List ℕ) → count_before c (sort l) ≡ count_before c l
unfolding sort count_before
count_before-sort c [] = refl
count_before-sort c (t ∷ l) =
    ground (arith, count_before-insert_sorted c t (sort l), count_before-sort c l)

All-insert_sorted :
    (P : ℕ → Type 0) (t : ℕ) (l : List ℕ) → P t → All P l → All P (insert_sorted t l)
unfolding insert_sorted
All-insert_sorted P t [] p a = (p, tt)
All-insert_sorted P t (u ∷ l) p (q, a) = elim (Bool-cases (ltb u t)) [
  | inl e ↦ rw e (q, All-insert_sorted P t l p a)
  | inr e ↦ rw e (p, (q, a))
]

All-weaken : (t u : ℕ) (l : List ℕ) → t ≤ u → All (λ v. u ≤ v) l → All (λ v. t ≤ v) l
All-weaken t u [] h a = tt
All-weaken t u (v ∷ l) h (q, a) = (omega arith, All-weaken t u l h a)

insert_sorted-IsSorted : (t : ℕ) (l : List ℕ) → IsSorted l → IsSorted (insert_sorted t l)
unfolding insert_sorted IsSorted
insert_sorted-IsSorted t [] s = (tt, tt)
insert_sorted-IsSorted t (u ∷ l) (a, s) = elim (Bool-cases (ltb u t)) [
  | inl e ↦
      let lt : u ≤ t = ground arith in
      rw e (All-insert_sorted (λ v. u ≤ v) t l lt a, insert_sorted-IsSorted t l s)
  | inr e ↦ let ge : t ≤ u = ground arith in rw e ((ge, All-weaken t u l ge a), (a, s))
]

pub sort-IsSorted : (l : List ℕ) → IsSorted (sort l)
unfolding sort IsSorted
sort-IsSorted [] = tt
sort-IsSorted (t ∷ l) = insert_sorted-IsSorted t (sort l) (sort-IsSorted l)

-- Nothing of a sorted list lies before its bound.
count_before_bound : (c : ℕ) (l : List ℕ) → All (λ u. c ≤ u) l → count_before c l ≡ 0
unfolding count_before
count_before_bound c [] a = refl
count_before_bound c (u ∷ l) (q, a) = ground (arith, count_before_bound c l a)

All-at : (t : ℕ) (l : List ℕ) (i c : ℕ) → All (λ u. u ≡ t) l → get_elem? l i ≡ some c → c ≡ t
All-at t [] i c a h = cc
All-at t (u ∷ l) zero c (q, a) h = cc
All-at t (u ∷ l) (suc i) c (q, a) h = All-at t l i c a h

-- The i-th of a sorted list has at most i before it.
count_before_at :
    (l : List ℕ) (i c : ℕ) → IsSorted l → get_elem? l i ≡ some c → count_before c l ≤ i
unfolding IsSorted count_before
count_before_at [] i c s h = cc
count_before_at (u ∷ l) zero c (a, s) h = ground (arith, count_before_bound u l a)
count_before_at (u ∷ l) (suc i) c (a, s) h = ground (arith, count_before_at l i c s h)

length-seen_since :
    {F : Floats} (c : ℕ) (m : Dict (Bucket F))
    → length (seen_since c m) + count_before c (seen_times m) ≡ length m
unfolding seen_since count_before
length-seen_since c [] = refl
length-seen_since c ((k, b) ∷ m) = ground (arith, length-seen_since c m)

length-seen_times : {F : Floats} (m : Dict (Bucket F)) → length (seen_times m) ≡ length m
length-seen_times [] = refl
length-seen_times (e ∷ m) = ap suc (length-seen_times m)

-- For a target of at least 1, an eviction goes through, and never leaves fewer buckets than the target when
-- that many were there.
pub evict_oldest_keeps :
    {F : Floats} (target : ℕ) (m : Dict (Bucket F))
    → 0 < target
    → target ≤ length m
    → (n : Dict (Bucket F)) × (evict_oldest target m ≡ some n) × (target ≤ length n)
unfolding evict_oldest
evict_oldest_keeps target m above le = elim (Bool-cases (leb (length m) target)) [
  | inl e ↦ (m, rw e refl, le)
  | inr e ↦
      let inside : length m - target < length (sort (seen_times m)) =
        ground (arith, e, length-sort (seen_times m), length-seen_times m) in
      let (c, at) = get_elem?-lt (sort (seen_times m)) (length m - target) inside in
      (
        seen_since c m,
        rw (e, at) refl,
        omega (
          arith,
          length-seen_since c m,
          count_before_at (sort (seen_times m)) (length m - target) c (sort-IsSorted (seen_times m))
              at,
          count_before-sort c (seen_times m),
        ),
      )
]

seen_since-All :
    {F : Floats} (c : ℕ) (m : Dict (Bucket F))
    → All (λ u. u ≡ c) (seen_times m)
    → seen_since c m ≡ m
unfolding seen_since
seen_since-All c [] a = refl
seen_since-All c ((k, b) ∷ m) (q, a) = ground (arith, seen_since-All c m a)

All-sort : (P : ℕ → Type 0) (l : List ℕ) → All P l → All P (sort l)
unfolding sort
All-sort P [] a = tt
All-sort P (t ∷ l) (q, a) = All-insert_sorted P t (sort l) q (All-sort P l a)

-- Buckets that were all seen at one instant are all kept, however many there are.
evict_oldest_ties :
    {F : Floats} (target t : ℕ) (m : Dict (Bucket F))
    → 0 < target
    → All (λ u. u ≡ t) (seen_times m)
    → evict_oldest target m ≡ some m
unfolding evict_oldest
evict_oldest_ties target t m above a = elim (Bool-cases (leb (length m) target)) [
  | inl e ↦ rw e refl
  | inr e ↦
      let inside : length m - target < length (sort (seen_times m)) =
        ground (arith, e, length-sort (seen_times m), length-seen_times m) in
      let (c, at) = get_elem?-lt (sort (seen_times m)) (length m - target) inside in
      let same : c ≡ t =
        All-at t (sort (seen_times m)) (length m - target) c
          (All-sort (λ u. u ≡ t) (seen_times m) a) at in
      rw (e, at) (ap some (ap (λ x. seen_since x m) same ∙ seen_since-All t m a))
]

erase-absent : {F : Floats} (k : String) (m : Dict (Bucket F)) → lookup k m ≡ none → erase k m ≡ m
unfolding lookup erase
erase-absent k [] h = refl
erase-absent k ((j, b) ∷ m) h = ground (arith, h, erase-absent k m)

make_room_ties :
    {F : Floats} (t : ℕ) (m : Dict (Bucket F))
    → All (λ u. u ≡ t) (seen_times m)
    → make_room m ≡ some m
unfolding make_room
make_room_ties t m a = elim (Bool-cases (leb max_buckets_per_shard (length m))) [
  | inl e ↦ rw e (evict_oldest_ties low_water t m (omega arith) a)
  | inr e ↦ rw e refl
]

-- A request of a new key at a shard whose buckets were all last seen at one instant: it does not fault, and the
-- shard has one bucket more afterwards, however many it has. A shard at its cap grows past it.
pub allow_past_cap :
    {F : Floats} (hash : String → ℕ) (r : Rule F) (now t : ℕ) (key : String) (l : Limiter F)
    → lookup key (l.shards (shard_of hash key)) ≡ none
    → max_buckets_per_shard ≤ length (l.shards (shard_of hash key))
    → All (λ u. u ≡ t) (seen_times (l.shards (shard_of hash key)))
    → (after : Limiter F) × (d : Decision) × (allow hash r now key l ≡ some (after, d))
      × (length (after.shards (shard_of hash key)) ≡ suc (length (l.shards (shard_of hash key))))
      × (max_buckets_per_shard < length (after.shards (shard_of hash key)))
unfolding allow insert
allow_past_cap hash r now t key l new full tied =
    let m = l.shards (shard_of hash key) in
    let (b, d) = spend r now (full_bucket r now) in
    let grown : length (insert key b m) ≡ suc (length m) =
      ap (λ n. suc (length n)) (erase-absent key m new) in
    let here : (with_shard (shard_of hash key) (insert key b m) l).shards (shard_of hash key)
        ≡ insert key b m =
      ground arith in
    (
      with_shard (shard_of hash key) (insert key b m) l,
      d,
      ground (arith, new, make_room_ties t m tied),
      ap length here ∙ grown,
      omega (arith, ap length here, grown, full),
    )
