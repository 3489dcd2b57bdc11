-- ===== src/Lb/Ring/Walk.antt =====
-- `lookup` against the plain walk over all points.
use cadish.Cache.Ring.{contains, IsRing}
use cadish.Lb.Ring.Pigeonhole.{contains_string_lem, distinct_le, contains-append, append-IsRing}
use mathlib.Core.Path.{subst}
use native.Mathlib.Nat.{mod-lt}
use cadish.Lb.Ring.{Ring, owner_of, owner_at, walk, start, lookup}
use cadish.Prelude.{
  ℕ, zero, suc, ◌+◌, ◌%◌, ◌≤◌, ◌<◌, All, get_elem?, get_elem?-lt, ◌≡◌, inl, inr, refl, sym, ◌∙◌,
  Bool, true, false, List, [], ◌∷◌, ◌++◌, Option, none, some, String, eq_iff, ltb, ◌==◌,
  if◌then◌else◌, length, arith, Bool-cases,
}

-- Every point belongs to a backend of the ring, and the backends are distinct.
pub record IsValid (r : Ring) : Type 0 where
  pub distinct : IsRing r.ids
  pub owned : All (λ p. contains (owner_of p r.owner) r.ids ≡ true) r.points

-- The walk that asks at every point: the owner of the first of k points, from the i-th on, that is eligible.
unfoldable pub first_eligible : (String → Bool) → Ring → ℕ → ℕ → ℕ → Option String
first_eligible eligible r idx zero i = none
first_eligible eligible r idx (suc k) i =
    let rest = first_eligible eligible r idx k (suc i) in
    if eligible (owner_at r idx i) then some (owner_at r idx i) else rest

abbrev IsOwned : Ring → ℕ → Type 0
IsOwned r p = contains (owner_of p r.owner) r.ids ≡ true

IsOwned-at :
    (r : Ring) (l : List ℕ) (i p : ℕ) → All (IsOwned r) l → get_elem? l i ≡ some p → IsOwned r p
IsOwned-at r [] i p a h = cc
IsOwned-at r (q ∷ l) zero p (o, a) h = cc
IsOwned-at r (q ∷ l) (suc i) p (o, a) h = IsOwned-at r l i p a h

owned :
    (r : Ring) (idx i : ℕ)
    → IsValid r
    → 0 < length r.points
    → contains (owner_at r idx i) r.ids ≡ true
unfolding owner_at
owned r idx i v pos =
    let (p, e) = get_elem?-lt r.points ((idx + i) % length r.points) (mod-lt (idx + i) pos) in
    rw (e, owner_at) (IsOwned-at r r.points ((idx + i) % length r.points) p v.owned e)

-- As many distinct backends as the ring has are all of them.
all_seen :
    (r : Ring) (seen : List String) (id : String)
    → IsValid r
    → IsRing seen
    → ((q : String) → contains q seen ≡ true → contains q r.ids ≡ true)
    → contains id r.ids ≡ true
    → contains id seen ≡ false
    → length seen + 1 ≤ length r.ids
unfolding contains
all_seen r seen id v d sub has new =
    let sub' : (q : String) → contains q (id ∷ seen) ≡ true → contains q r.ids ≡ true =
      λ q h. ground (arith, eq_iff id q, sub q) in
    omega (arith, distinct_le (id ∷ seen) r.ids (new, d) v.distinct sub')

-- What the walk has seen: distinct backends of the ring, none of them eligible.
record Seen (e : String → Bool) (r : Ring) (seen : List String) : Type 0 where
  pub distinct : IsRing seen
  pub known : (q : String) → contains q seen ≡ true → contains q r.ids ≡ true
  pub refused : (q : String) → contains q seen ≡ true → e q ≡ false

Seen-more :
    (e : String → Bool) (r : Ring) (seen : List String) (id : String)
    → Seen e r seen
    → contains id r.ids ≡ true
    → contains id seen ≡ false
    → e id ≡ false
    → Seen e r (seen ++ (id ∷ []))
Seen-more e r seen id s has new no_ = record {
  distinct = append-IsRing id seen s.distinct new;
  known = λ q h. ground (arith, eq_iff id q, contains-append q id seen, s.known q);
  refused = λ q h. ground (arith, eq_iff id q, contains-append q id seen, s.refused q);
}

nothing-Seen : (e : String → Bool) (r : Ring) → Seen e r []
unfolding contains
nothing-Seen e r = record { distinct = tt; known = λ q h. cc; refused = λ q h. cc }

-- Everybody has been asked.
exhausted :
    (e : String → Bool) (r : Ring) (seen : List String) (id : String)
    → IsValid r
    → Seen e r seen
    → ltb (length seen) (length r.ids) ≡ false
    → contains id r.ids ≡ true
    → e id ≡ false
exhausted e r seen id v s full has = elim (Bool-cases (contains id seen)) [
  | inl old ↦ s.refused id old
  | inr new ↦ absurd (ground (arith, all_seen r seen id v s.distinct s.known has new))
]

-- Everybody has been asked, and the plain walk finds none.
plain_none :
    (e : String → Bool) (r : Ring) (seen : List String) (idx k i : ℕ)
    → IsValid r
    → 0 < length r.points
    → Seen e r seen
    → ltb (length seen) (length r.ids) ≡ false
    → first_eligible e r idx k i ≡ none
unfolding first_eligible
plain_none e r seen idx zero i v pos s full = refl
plain_none e r seen idx (suc k) i v pos s full =
    rw (exhausted e r seen (owner_at r idx i) v s full (owned r idx i v pos))
      (plain_none e r seen idx k (suc i) v pos s full)

walk_lem :
    (e : String → Bool) (r : Ring) (idx k i : ℕ) (seen : List String)
    → IsValid r
    → 0 < length r.points
    → Seen e r seen
    → walk e r idx k i seen ≡ first_eligible e r idx k i
unfolding walk first_eligible
walk_lem e r idx zero i seen v pos s = refl
walk_lem e r idx (suc k) i seen v pos s =
    let id = owner_at r idx i in
    let has : contains id r.ids ≡ true = owned r idx i v pos in
    elim (Bool-cases (ltb (length seen) (length r.ids))) [
      | inl lt ↦ elim (Bool-cases (contains id seen)) [
        | inl old ↦ ground (
          arith,
          contains_string_lem seen id,
          s.refused id old,
          walk_lem e r idx k (suc i) seen v pos s,
        )
        | inr new ↦ elim (Bool-cases (e id)) [
          | inl yes_ ↦ ground (arith, contains_string_lem seen id)
          | inr no_ ↦ ground (
            arith,
            contains_string_lem seen id,
            walk_lem e r idx k (suc i) (seen ++ (id ∷ [])) v pos
                (Seen-more e r seen id s has new no_),
          )
        ]
      ]
      | inr ge ↦
          ground
            (arith, exhausted e r seen id v s ge has, plain_none e r seen idx k (suc i) v pos s ge)
    ]

-- `lookup` finds the first eligible backend clockwise from the hash of the key, as if it asked at every
-- point: to ask a backend once, and to stop when all have been asked, changes no answer.
pub lookup_lem :
    (ring_hash : String → ℕ) (key : String) (e : String → Bool) (r : Ring)
    → IsValid r
    → lookup ring_hash key e r ≡ first_eligible e r (start (ring_hash key) r) (length r.points) 0
unfolding lookup first_eligible
lookup_lem ring_hash key e r v = elim (Bool-cases (length r.points == 0)) [
  | inl none_ ↦ let empty : length r.points ≡ 0 = ground arith in rw empty refl
  | inr some_ ↦ ground (
    arith,
    walk_lem e r (start (ring_hash key) r) (length r.points) 0 [] v (ground arith)
        (nothing-Seen e r),
  )
]

-- A lookup that fails, or whose backend is eligible and of the ring.
first_eligible_mono :
    (e e' : String → Bool) (r : Ring) (idx k i : ℕ) (id : String)
    → ((q : String) → e' q ≡ true → e q ≡ true)
    → first_eligible e r idx k i ≡ some id
    → e' id ≡ true
    → first_eligible e' r idx k i ≡ some id
unfolding first_eligible
first_eligible_mono e e' r idx zero i id sub h ok = cc
first_eligible_mono e e' r idx (suc k) i id sub h ok =
    let o = owner_at r idx i in
    elim (Bool-cases (e o)) [
      | inl asked ↦
          let same : o ≡ id = ground arith in
          let kept : e' o ≡ true = subst (λ q. e' q ≡ true) (sym same) ok in ground arith
      | inr refused ↦ ground (arith, sub o, first_eligible_mono e e' r idx k (suc i) id sub)
    ]

-- When backends drop out, the keys of the others stay where they are: a backend that is still eligible keeps
-- every key that it owned.
pub lookup_stable :
    (ring_hash : String → ℕ) (key : String) (e e' : String → Bool) (r : Ring) (id : String)
    → IsValid r
    → ((q : String) → e' q ≡ true → e q ≡ true)
    → lookup ring_hash key e r ≡ some id
    → e' id ≡ true
    → lookup ring_hash key e' r ≡ some id
lookup_stable ring_hash key e e' r id v sub h ok =
    lookup_lem ring_hash key e' r v
    ∙ first_eligible_mono e e' r (start (ring_hash key) r) (length r.points) 0 id sub
        (sym (lookup_lem ring_hash key e r v) ∙ h) ok
