-- ===== src/Lb/Ring/Build/Nudge.antt =====
-- The search for a free point: newRing of internal/lb/ring.go.
use cadish.Lb.Ring.Build.{words, taken, nudge}
use cadish.Prelude.{
  ℕ, zero, suc, ◌+◌, ◌-◌, ◌%◌, ◌≤◌, ◌<◌, ◌≡◌, refl, ap, ◌∙◌, true, false, List, [], ◌∷◌, none, some,
  String, ltb, leb, ◌==◌, length, if◌then◌else◌, arith, inl, inr, Bool-cases, Option-cases,
}

-- How often a point is the owner's key, and how often it is among the next `f` points from `h` on.
unfoldable keyed : ℕ → List (ℕ × String) → ℕ
keyed h [] = 0
keyed h ((q, id) ∷ m) = (if q == h then 1 else 0) + keyed h m

-- The keys among the next `f` points, with repetitions.
unfoldable hits : ℕ → ℕ → List (ℕ × String) → ℕ
unfolding keyed
hits zero h m = 0
hits (suc f) h m = keyed h m + hits f ((h + 1) % words) m

unfoldable tried : ℕ → ℕ → ℕ → ℕ
tried k zero h = 0
tried k (suc f) h = (if k == h then 1 else 0) + tried k f ((h + 1) % words)

-- How far a point is ahead.
abbrev ahead : ℕ → ℕ → ℕ
ahead k h = if leb h k then k - h else k + words - h

next_point : (h : ℕ) → h < words → (h + 1) % words ≡ (if leb words (h + 1) then 0 else h + 1)
next_point h b = ground arith

next-lt : (h : ℕ) → (h + 1) % words < words
next-lt h = omega arith

ahead_next :
    (k h : ℕ) → k < words → h < words → k == h ≡ false → ahead k ((h + 1) % words) + 1 ≡ ahead k h
ahead_next k h a b e = ground (arith, next_point h b)

ahead_self : (h : ℕ) → h < words → ahead h ((h + 1) % words) + 1 ≡ words
ahead_self h b = ground (arith, next_point h b)

same_point :
    (k f h : ℕ)
    → k ≡ h
    → h < words
    → suc f ≤ words
    → tried k f ((h + 1) % words) ≤ (if ltb (ahead k ((h + 1) % words)) f then 1 else 0)
    → tried k (suc f) h ≤ (if ltb (ahead k h) (suc f) then 1 else 0)
unfolding tried
same_point k f h e a b rest =
    let far : ahead k ((h + 1) % words) + 1 ≡ words =
      ap (λ x. ahead x ((h + 1) % words) + 1) e ∙ ahead_self h a in
    ground (arith, e, rest, far, a, b)

tried_bound :
    (k f h : ℕ)
    → k < words
    → h < words
    → f ≤ words
    → tried k f h ≤ (if ltb (ahead k h) f then 1 else 0)
unfolding tried
tried_bound k zero h c a b = omega arith
tried_bound k (suc f) h c a b =
    let rest : tried k f ((h + 1) % words) ≤ (if ltb (ahead k ((h + 1) % words)) f then 1 else 0) =
      tried_bound k f ((h + 1) % words) c (next-lt h) (omega (arith, b)) in
    elim (Bool-cases (k == h)) [
      | inl e ↦ same_point k f h (ground (arith, e)) a b rest
      | inr e ↦ ground (arith, e, rest, ahead_next k h c a e)
    ]

tried_none : (k f h : ℕ) → words ≤ k → h < words → tried k f h ≡ 0
unfolding tried
tried_none k zero h c a = refl
tried_none k (suc f) h c a = ground (arith, tried_none k f ((h + 1) % words) c (next-lt h))

tried-le : (k f h : ℕ) → h < words → f ≤ words → tried k f h ≤ 1
tried-le k f h a b = elim (Bool-cases (leb words k)) [
  | inl c ↦ ground (arith, tried_none k f h (ground arith) a)
  | inr c ↦ ground (arith, tried_bound k f h (ground arith) a b)
]

hits_none : (f h : ℕ) → hits f h [] ≡ 0
unfolding hits keyed
hits_none zero h = refl
hits_none (suc f) h = ground (arith, hits_none f ((h + 1) % words))

hits-cons :
    (f h q : ℕ) (id : String) (m : List (ℕ × String))
    → hits f h ((q, id) ∷ m) ≡ tried q f h + hits f h m
unfolding hits keyed tried
hits-cons zero h q id m = omega arith
hits-cons (suc f) h q id m = ground (arith, hits-cons f ((h + 1) % words) q id m)

hits-le : (f h : ℕ) (m : List (ℕ × String)) → h < words → f ≤ words → hits f h m ≤ length m
hits-le f h [] a b = omega (arith, hits_none f h)
hits-le f h ((q, id) ∷ m) a b =
    omega (arith, hits-cons f h q id m, tried-le q f h a b, hits-le f h m a b)

taken-keyed : (h : ℕ) (m : List (ℕ × String)) → taken h m ≡ true → 1 ≤ keyed h m
unfolding taken keyed
taken-keyed h [] e = cc
taken-keyed h ((q, id) ∷ m) e = ground (arith, e, taken-keyed h m)

nudge_full : (f h : ℕ) (m : List (ℕ × String)) → nudge f h m ≡ none → f ≤ hits f h m
unfolding nudge hits
nudge_full zero h m e = omega arith
nudge_full (suc f) h m e = elim (Bool-cases (taken h m)) [
  | inl t ↦ ground (arith, e, t, taken-keyed h m t, nudge_full f ((h + 1) % words) m)
  | inr t ↦ absurd (ground (arith, e, t))
]

nudge-free : (f h p : ℕ) (m : List (ℕ × String)) → nudge f h m ≡ some p → taken p m ≡ false
unfolding nudge
nudge-free zero h p m e = cc
nudge-free (suc f) h p m e = elim (Bool-cases (taken h m)) [
  | inl t ↦ nudge-free f ((h + 1) % words) p m (ground (arith, e, t))
  | inr t ↦ ground (arith, e, t)
]

-- With fewer points taken than there are, the search for a free point ends, at a free one.
pub nudge-ends :
    (h : ℕ) (m : List (ℕ × String))
    → h < words
    → length m < words
    → (p : ℕ) × (nudge (suc (length m)) h m ≡ some p) × (taken p m ≡ false)
nudge-ends h m a b = elim (Option-cases (nudge (suc (length m)) h m)) [
  | inl e ↦ absurd (
      omega (
        arith,
        nudge_full (suc (length m)) h m e,
        hits-le (suc (length m)) h m a (omega (arith, b)),
      ))
  | inr (p, e) ↦ (p, e, nudge-free (suc (length m)) h p m e)
]
