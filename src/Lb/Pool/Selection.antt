-- ===== src/Lb/Pool/Selection.antt =====
-- What the policies select.
use cadish.Lb.Pool.{
  Backend, least_conn_from, pick_least_conn, round_robin_from, pick_round_robin, turn, at_turn,
}
use cadish.Time.{half_words}
use native.Mathlib.Nat.{mod-lt, mod-eq_of_lt, mod-add-mod, add-mod_right}
use cadish.Prelude.{
  zero, suc, ◌+◌, ◌-◌, ◌%◌, ◌<◌, sym, ap, ◌∙◌, leb, length, get_elem?, get_elem?-lt, lt-get_elem?,
  ℕ, ◌≤◌, ◌≡◌, ◌⊎◌, inl, inr, refl, Bool, true, false, ◌&&◌, ◌==◌, if◌then◌else◌, List, [], ◌∷◌,
  none, some, ltb, All, arith, Bool-cases,
}

-- No acceptable backend of a list has fewer requests than a number.
abbrev pub IsLeast : (Backend → Bool) → ℕ → List Backend → Type 0
IsLeast ok n bs = All (λ b. (ok b ≡ false) ⊎ (n ≤ b.inflight)) bs

-- What the loop finds beside a best backend so far.
IsLeast-some :
    (ok : Backend → Bool) (c : Backend) (bs : List Backend)
    → ok c ≡ true
    → (b : Backend) × (least_conn_from ok (some c) bs ≡ some b)
      × (ok b ≡ true)
      × (b.inflight ≤ c.inflight)
      × IsLeast ok b.inflight bs
unfolding least_conn_from
IsLeast-some ok c [] h = (c, refl, h, omega arith, tt)
IsLeast-some ok c (a ∷ bs) h = elim (Bool-cases (ok a && ltb a.inflight c.inflight)) [
  | inl better ↦
      let (b, e, k, le, all) = IsLeast-some ok a bs (ground arith) in
      (b, rw better e, k, ground arith, (inr le, all))
  | inr worse ↦
      let (b, e, k, le, all) = IsLeast-some ok c bs h in (b, rw worse e, k, le, (ground arith, all))
]

-- With the least-connections policy: either no backend is acceptable and none is picked, or the picked one is
-- acceptable and no acceptable backend has fewer requests in flight.
pub pick_least_conn_lem :
    (ok : Backend → Bool) (bs : List Backend)
    → ((pick_least_conn ok bs ≡ none) × All (λ b. ok b ≡ false) bs)
      ⊎ ((b : Backend) × (pick_least_conn ok bs ≡ some b)
          × (ok b ≡ true)
          × IsLeast ok b.inflight bs)
unfolding pick_least_conn least_conn_from
pick_least_conn_lem ok [] = inl (refl, tt)
pick_least_conn_lem ok (a ∷ bs) = elim (Bool-cases (ok a)) [
  | inl good ↦
      let (b, e, k, le, all) = IsLeast-some ok a bs good in inr (b, rw good e, k, (inr le, all))
  | inr bad ↦ elim (pick_least_conn_lem ok bs) [
    | inl (e, all) ↦ inl (rw bad e, (bad, all))
    | inr (b, e, k, all) ↦ inr (b, rw bad e, k, (inl bad, all))
  ]
]

-- Every position is some turn after the cursor.
turn_of : (n rr p : ℕ) → p < n → (j : ℕ) × (j < n) × ((rr + j) % n ≡ p)
turn_of n rr p h =
    let m = rr % n in
    let small : m < n = mod-lt rr (omega arith) in
    elim (Bool-cases (leb m p)) [
      | inl le ↦
          let e : m + (p - m) ≡ p = ground arith in
          (p - m, omega arith, sym (mod-add-mod rr n (p - m)) ∙ ap (λ k. k % n) e ∙ mod-eq_of_lt h)
      | inr gt ↦
          let e : m + (p + n - m) ≡ p + n = ground arith in
          (
            p + n - m,
            ground arith,
            sym (mod-add-mod rr n (p + n - m))
                ∙ ap (λ k. k % n) e
                ∙ add-mod_right p n
                ∙ mod-eq_of_lt h,
          )
    ]

-- Turns before the cursor's int is negative.
turn-early : (n v : ℕ) → v < half_words → turn n v ≡ some (v % n)
unfolding turn
turn-early n v h =
    let e : v % (half_words + half_words) ≡ v = omega (arith, h) in
    let early : ltb v half_words ≡ true = ground (arith, h) in
    ap
      (λ bits.
        if ltb bits half_words
        then some (bits % n)
        else if (half_words + half_words - bits) % n == 0
        then some 0
        else none)
      e
    ∙ rw early refl

at_turn-early :
    (bs : List Backend) (i : ℕ) → i < half_words → at_turn bs i ≡ get_elem? bs (i % length bs)
unfolding at_turn
at_turn-early bs i h =
    ap (λ o. elim o [ none ↦ none | some p ↦ get_elem? bs p ]) (turn-early (length bs) i h)

stays :
    (ok : Backend → Bool) (bs : List Backend) (k i : ℕ) (a : Backend)
    → at_turn bs i ≡ some a
    → ok a ≡ true
    → round_robin_from ok bs (suc k) i ≡ some a
unfolding round_robin_from
stays ok bs k i a e h = ground arith

passes :
    (ok : Backend → Bool) (bs : List Backend) (k i : ℕ) (a : Backend)
    → at_turn bs i ≡ some a
    → ok a ≡ false
    → round_robin_from ok bs (suc k) i ≡ round_robin_from ok bs k (suc i)
unfolding round_robin_from
passes ok bs k i a e h = ground arith

-- No backend at the k turns from the i-th on is acceptable.
abbrev pub NoneIn : (Backend → Bool) → List Backend → ℕ → ℕ → Type 0
NoneIn ok bs k i =
    (j : ℕ) (b : Backend) → j < k → get_elem? bs ((i + j) % length bs) ≡ some b → ok b ≡ false

NoneIn-suc :
    (ok : Backend → Bool) (bs : List Backend) (k i : ℕ) (a : Backend)
    → get_elem? bs (i % length bs) ≡ some a
    → ok a ≡ false
    → NoneIn ok bs k (suc i)
    → NoneIn ok bs (suc k) i
NoneIn-suc ok bs k i a e bad rest zero b h at_j =
    let same : i + 0 ≡ i = omega arith in
    let at_i : get_elem? bs (i % length bs) ≡ some b = rw same at at_j in ground arith
NoneIn-suc ok bs k i a e bad rest (suc j) b h at_j =
    let same : i + suc j ≡ suc i + j = omega arith in rest j b (omega arith) (rw same at at_j)

-- The backend at the j-th turn from the i-th on is acceptable, and those at the turns before it are not.
abbrev pub IsFirst : (Backend → Bool) → List Backend → ℕ → ℕ → Backend → ℕ → Type 0
IsFirst ok bs k i b j =
    (j < k) × (get_elem? bs ((i + j) % length bs) ≡ some b) × (ok b ≡ true) × NoneIn ok bs j i

add_zero : (i : ℕ) → i + 0 ≡ i
add_zero i = omega arith

add_suc : (i j : ℕ) → i + suc j ≡ suc i + j
add_suc i j = omega arith

IsFirst-suc :
    (ok : Backend → Bool) (bs : List Backend) (k i : ℕ) (a b : Backend) (j : ℕ)
    → get_elem? bs (i % length bs) ≡ some a
    → ok a ≡ false
    → IsFirst ok bs k (suc i) b j
    → IsFirst ok bs (suc k) i b (suc j)
IsFirst-suc ok bs k i a b j at_i bad (lt, at_j, good, before) =
    (omega (arith, lt), rw (add_suc i j) at_j, good, NoneIn-suc ok bs j i a at_i bad before)

-- What the loop of round-robin finds: the first acceptable backend, or none.
round_robin_from_lem :
    (ok : Backend → Bool) (bs : List Backend) (k i : ℕ)
    → 0 < length bs
    → i + k ≤ half_words
    → ((round_robin_from ok bs k i ≡ none) × NoneIn ok bs k i)
      ⊎ ((b : Backend) × (j : ℕ) × (round_robin_from ok bs k i ≡ some b) × IsFirst ok bs k i b j)
unfolding round_robin_from
round_robin_from_lem ok bs zero i nonempty early = inl (refl, λ j b h e. absurd (omega arith))
round_robin_from_lem ok bs (suc k) i nonempty early =
    let (a, at_i) = get_elem?-lt bs (i % length bs) (mod-lt i nonempty) in
    let turned : at_turn bs i ≡ some a = at_turn-early bs i (omega (arith, early)) ∙ at_i in
    elim (Bool-cases (ok a)) [
      | inl good ↦ inr (
        a,
        0,
        stays ok bs k i a turned good,
        (omega arith, rw (add_zero i) at_i, good, λ j b h e. absurd (omega arith)),
      )
      | inr bad ↦
          let on = passes ok bs k i a turned bad in
          elim (round_robin_from_lem ok bs k (suc i) nonempty (omega (arith, early))) [
            | inr (b, j, e, first) ↦
                inr (b, suc j, on ∙ e, IsFirst-suc ok bs k i a b j at_i bad first)
            | inl (e, rest) ↦ inl (on ∙ e, NoneIn-suc ok bs k i a at_i bad rest)
          ]
    ]

-- A property of all positions is one of all elements.
All-positions :
    (ok : Backend → Bool) (bs : List Backend)
    → ((p : ℕ) (b : Backend) → get_elem? bs p ≡ some b → ok b ≡ false)
    → All (λ b. ok b ≡ false) bs
All-positions ok [] h = tt
All-positions ok (b ∷ bs) h = (h 0 b refl, All-positions ok bs (λ p c e. h (suc p) c e))

-- With the round-robin policy, on a pool that is not empty and with a cursor far enough from 2^63: either no
-- backend is acceptable and none is picked, or the picked one is the first acceptable one in the order of
-- the pool from the cursor's position on, around the end. In both cases the cursor moves by one.
pub pick_round_robin_lem :
    (ok : Backend → Bool) (bs : List Backend) (rr : ℕ)
    → 0 < length bs
    → rr + length bs ≤ half_words
    → ((pick_round_robin ok bs rr ≡ (rr + 1, none)) × All (λ b. ok b ≡ false) bs)
      ⊎ ((b : Backend) × (j : ℕ) × (pick_round_robin ok bs rr ≡ (rr + 1, some b))
          × (j < length bs)
          × (get_elem? bs ((rr + j) % length bs) ≡ some b)
          × (ok b ≡ true)
          × NoneIn ok bs j rr)
unfolding pick_round_robin
pick_round_robin_lem ok bs rr nonempty early =
    let next : (rr + 1) % (half_words + half_words) ≡ rr + 1 = omega (arith, early, nonempty) in
    elim (round_robin_from_lem ok bs (length bs) rr nonempty early) [
      | inr (b, j, e, (lt, at_j, good, before)) ↦
          inr (b, j, rw (next, e) refl, lt, at_j, good, before)
      | inl (e, rest) ↦ inl (
        rw (next, e) refl,
        All-positions ok bs (λ p b at_p.
            let (j, lt, turns) = turn_of (length bs) rr p (lt-get_elem? bs p at_p) in
            rest j b lt (rw turns at_p)),
      )
    ]
