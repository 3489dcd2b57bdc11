-- ===== src/Lb/Ring/Start.antt =====
-- Where a lookup of internal/lb/ring.go begins: the next point clockwise.
use mathlib.Core.Path.{subst}
use cadish.Lb.Ring.Build.Shares.{Increasing}
use cadish.Lb.Ring.Walk.{IsValid, first_eligible, lookup_lem}
use cadish.Lb.Ring.{Ring, owner_of, search, owner_at, start, lookup}
use cadish.Prelude.{
  ℕ, zero, suc, ◌+◌, ◌%◌, ◌≤◌, ◌<◌, ◌≡◌, ◌⊎◌, refl, ap, ◌∙◌, Bool, true, false, List, [], ◌∷◌, none,
  some, String, leb, ◌==◌, length, get_elem?, lt-get_elem?, All, arith, inl, inr, Bool-cases,
}
use native.Mathlib.Nat.{mod-eq_of_lt}

-- A point is the next one from a hash on: the least that is not below it, or the least of all when all are
-- below it.
abbrev pub IsNext : ℕ → List ℕ → ℕ → Type 0
IsNext h ps p =
    ((h ≤ p) × All (λ q. (q < h) ⊎ (p ≤ q)) ps) ⊎ (All (λ q. q < h) ps × All (λ q. p ≤ q) ps)

above_all : (h p : ℕ) (ps : List ℕ) → All (λ q. p < q) ps → All (λ q. (q < h) ⊎ (p ≤ q)) ps
above_all h p [] a = tt
above_all h p (q ∷ ps) (l, a) = (inr (omega (arith, l)), above_all h p ps a)

least_first : (p : ℕ) (ps : List ℕ) → All (λ q. p < q) ps → All (λ q. p ≤ q) ps
least_first p [] a = tt
least_first p (q ∷ ps) (l, a) = (omega (arith, l), least_first p ps a)

search_lem :
    (h : ℕ) (ps : List ℕ)
    → Increasing ps
    → ((p : ℕ) × (get_elem? ps (search h ps) ≡ some p)
        × (search h ps < length ps)
        × (h ≤ p)
        × All (λ q. (q < h) ⊎ (p ≤ q)) ps)
      ⊎ ((search h ps ≡ length ps) × All (λ q. q < h) ps)
unfolding search
search_lem h [] i = inr (refl, tt)
search_lem h (p ∷ ps) (a, i) = elim (Bool-cases (leb h p)) [
  | inl e ↦
      let le : h ≤ p = ground (arith, e) in
      inl (p, rw e refl, rw e (omega arith), le, (inr (omega arith), above_all h p ps a))
  | inr e ↦
      let lt : p < h = ground (arith, e) in
      elim (search_lem h ps i) [
        | inl (q, at, inside, le, least) ↦
            inl (q, rw e at, rw e (omega (arith, inside)), le, (inl lt, least))
        | inr (last, below) ↦ inr (rw e (ap suc last), (lt, below))
      ]
]

some-eq : {p q : ℕ} → some p ≡ some q → p ≡ q
some-eq e = cc

All-at : (P : ℕ → Type 0) (ps : List ℕ) (i : ℕ) {p : ℕ} → All P ps → get_elem? ps i ≡ some p → P p
All-at P [] i a h = cc
All-at P (q ∷ ps) zero (b, a) h = subst P (some-eq h) b
All-at P (q ∷ ps) (suc i) (b, a) h = All-at P ps i a h

-- The first of increasing points is the least.
least-first :
    (ps : List ℕ)
    → 0 < length ps
    → Increasing ps
    → (p : ℕ) × (get_elem? ps 0 ≡ some p) × All (λ q. p ≤ q) ps
least-first [] pos i = absurd (omega arith)
least-first (p ∷ ps) pos (a, i) = (p, refl, (omega arith, least_first p ps a))

start_lem :
    (h : ℕ) (r : Ring)
    → 0 < length r.points
    → Increasing r.points
    → (p : ℕ) × (get_elem? r.points (start h r) ≡ some p)
      × (start h r < length r.points)
      × IsNext h r.points p
unfolding start
start_lem h r pos i = elim (search_lem h r.points i) [
  | inl (p, at, inside, le, least) ↦
      let kept : (search h r.points == length r.points) ≡ false = ground (arith, inside) in
      (p, rw kept at, rw kept inside, inl (le, least))
  | inr (last, below) ↦
      let wraps : (search h r.points == length r.points) ≡ true = ground (arith, last) in
      let (p, at, least) = least-first r.points pos i in
      (p, rw wraps at, rw wraps pos, inr (below, least))
]

-- There is one next point.
IsNext-unique :
    (h : ℕ) (ps : List ℕ) (i j p q : ℕ)
    → get_elem? ps i ≡ some p
    → get_elem? ps j ≡ some q
    → IsNext h ps p
    → IsNext h ps q
    → p ≡ q
IsNext-unique h ps i j p q at_p at_q (inl (le, least)) (inl (le', least')) =
    let a = All-at (λ x. (x < h) ⊎ (p ≤ x)) ps j least at_q in
    let b = All-at (λ x. (x < h) ⊎ (q ≤ x)) ps i least' at_p in ground (arith, a, b, le, le')
IsNext-unique h ps i j p q at_p at_q (inl (le, least)) (inr (below, least')) =
    absurd (omega (arith, le, All-at (λ x. x < h) ps i below at_p))
IsNext-unique h ps i j p q at_p at_q (inr (below, least)) (inl (le, least')) =
    absurd (omega (arith, le, All-at (λ x. x < h) ps j below at_q))
IsNext-unique h ps i j p q at_p at_q (inr (below, least)) (inr (below', least')) =
    omega (arith, All-at (λ x. p ≤ x) ps j least at_q, All-at (λ x. q ≤ x) ps i least' at_p)

owner_at-first :
    (r : Ring) (idx p : ℕ)
    → idx < length r.points
    → get_elem? r.points idx ≡ some p
    → owner_at r idx 0 ≡ owner_of p r.owner
unfolding owner_at
owner_at-first r idx p inside at =
    let e : (idx + 0) % length r.points ≡ idx =
      ap (λ n. n % length r.points) (omega arith) ∙ mod-eq_of_lt inside in
    ap (λ n. elim (get_elem? r.points n) [ none ↦ "" | some x ↦ owner_of x r.owner ]) e ∙ rw at refl

first_eligible-first :
    (eligible : String → Bool) (r : Ring) (idx k : ℕ)
    → 0 < k
    → eligible (owner_at r idx 0) ≡ true
    → first_eligible eligible r idx k 0 ≡ some (owner_at r idx 0)
unfolding first_eligible
first_eligible-first eligible r idx zero pos e = absurd (omega arith)
first_eligible-first eligible r idx (suc k) pos e = ground (arith, e)

-- On a valid ring with increasing points, as `newRing` builds it: a key goes to the owner of the next point
-- from the key's hash on, the least that is not below it, or past the last the least of all, when that
-- backend is eligible.
pub lookup_next :
    (ring_hash : String → ℕ) (key : String) (eligible : String → Bool) (r : Ring) (j p : ℕ)
    → IsValid r
    → Increasing r.points
    → get_elem? r.points j ≡ some p
    → IsNext (ring_hash key) r.points p
    → eligible (owner_of p r.owner) ≡ true
    → lookup ring_hash key eligible r ≡ some (owner_of p r.owner)
lookup_next ring_hash key eligible r j p v inc at next ok =
    let pos : 0 < length r.points = omega (arith, lt-get_elem? r.points j at) in
    let h = ring_hash key in
    let (q, at_q, inside, next_q) = start_lem h r pos inc in
    let here : owner_at r (start h r) 0 ≡ owner_of p r.owner =
      owner_at-first r (start h r) q inside at_q
      ∙ ap (λ x. owner_of x r.owner)
          (IsNext-unique h r.points (start h r) j q p at_q at next_q next) in
    lookup_lem ring_hash key eligible r v
    ∙ first_eligible-first eligible r (start h r) (length r.points) pos (ap eligible here ∙ ok)
    ∙ ap some here
