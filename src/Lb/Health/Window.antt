-- ===== src/Lb/Health/Window.antt =====
-- What the ring of outcomes stands for: the last `window` of them, in the order in which they came.
use cadish.Lb.Health.{HealthFsm, at_least_one, new_health_fsm, count, record_probe}
use cadish.Prelude.Int.{ℤ}
use cadish.Lb.Health.Rotation.{
  ring_of, last_n, count-ring_of, length-ring_of, length-take, take_all, take-set, ring_of-set,
  ring_of_wrap, short, drop_all,
}
use native.Mathlib.Nat.{mod-eq_of_lt, mod-lt}
use cadish.Prelude.{
  ℕ, suc, ◌+◌, ◌-◌, ◌%◌, ◌≤◌, ◌<◌, ◌≡◌, ◌⊎◌, inl, inr, refl, sym, ◌∙◌, Bool, true, false, not, List,
  [], ◌∷◌, ◌++◌, ltb, leb, if◌then◌else◌, length, set, take, drop, arith, Bool-cases, length-append,
  length-set, length-replicate,
}

-- The outcomes that a state holds, the oldest first.
unfoldable pub recent : HealthFsm → List Bool
recent f =
    if ltb f.filled f.window
    then take f.filled f.results
    else drop f.idx f.results ++ take f.idx f.results

pub record IsValid (f : HealthFsm) : Type 0 where
  pub wide : 0 < f.window
  pub sized : length f.results ≡ f.window
  pub inside : f.idx < f.window
  pub part : f.filled ≤ f.window
  pub growing : (f.filled ≡ f.window) ⊎ (f.idx ≡ f.filled)

pub new_health_fsm-IsValid : (w t : ℤ) (up : Bool) → IsValid (new_health_fsm w t up)
unfolding new_health_fsm
new_health_fsm-IsValid w t up = record {
  wide = ground arith;
  sized = length-replicate (at_least_one w) false;
  inside = ground arith;
  part = ground arith;
  growing = inr refl;
}

-- A state after a probe.
abbrev pub next : Bool → HealthFsm → HealthFsm
next b f = (record_probe b f).0

pub next_fields :
    (b : Bool) (f : HealthFsm)
    → ((next b f).window ≡ f.window)
      × ((next b f).threshold ≡ f.threshold)
      × ((next b f).results ≡ set f.results f.idx b)
      × ((next b f).idx ≡ (f.idx + 1) % f.window)
      × ((next b f).filled ≡ (if ltb f.filled f.window then suc f.filled else f.filled))
unfolding record_probe
next_fields b f = ground arith

-- Where the position goes, when it does not reach the end.
step_inside : (i n : ℕ) → i + 1 < n → (i + 1) % n ≡ suc i
step_inside i n h = omega (arith, mod-eq_of_lt h)

IsValid-next : (b : Bool) (f : HealthFsm) → IsValid f → IsValid (next b f)
IsValid-next b f v =
    let (w, t, r, i, n) = next_fields b f in
    record {
      wide = rw w v.wide;
      sized = rw (w, r) (length-set f.results f.idx b ∙ v.sized);
      inside = rw (w, i) (mod-lt (f.idx + 1) v.wide);
      part = rw (w, n) (ground arith);
      growing =
          rw (w, n, i)
            (elim v.growing [
              | inl full ↦ inl (ground arith)
              | inr same ↦ elim (Bool-cases (ltb (f.idx + 1) f.window)) [
                | inl lt ↦ inr (ground (arith, step_inside f.idx f.window))
                | inr ge ↦ inl (ground arith)
              ]
            ]);
    }

-- The window of a full ring.
recent_full : (f : HealthFsm) → f.filled ≡ f.window → recent f ≡ ring_of f.idx f.results
unfolding recent
recent_full f h = ground arith

-- The window of a ring with room.
recent_part : (f : HealthFsm) → f.filled < f.window → recent f ≡ take f.filled f.results
unfolding recent
recent_part f h = ground arith

-- A window is no longer than its bound.
pub length-recent-le : (f : HealthFsm) → IsValid f → length (recent f) ≤ f.window
length-recent-le f v = elim (Bool-cases (ltb f.filled f.window)) [
  | inl room ↦
      let lt : f.filled < f.window = ground arith in
      rw (recent_part f lt) (omega (arith, length-take f.filled f.results (omega (arith, v.sized))))
  | inr full ↦
      let is : f.filled ≡ f.window = ground (arith, v.part) in
      rw (recent_full f is) (omega (arith, length-ring_of f.idx f.results, v.sized))
]

-- A ring with room takes the outcome at its end.
recent_room :
    (b : Bool) (f : HealthFsm)
    → IsValid f
    → f.filled < f.window
    → f.idx ≡ f.filled
    → recent (next b f) ≡ take f.idx f.results ++ (b ∷ [])
recent_room b f v room same =
    let (w, t, r, i, n) = next_fields b f in
    let inside : f.idx < length f.results = omega (arith, v.sized) in
    let pushed = take-set f.idx f.results b inside in
    let filled : (next b f).filled ≡ suc f.idx = ground (arith, same) in
    elim (Bool-cases (ltb (f.idx + 1) f.window)) [
      | inl lt ↦
          let part : (next b f).filled < (next b f).window = ground arith in
          rw (recent_part (next b f) part, r, filled, pushed) refl
      | inr ge ↦
          let full : (next b f).filled ≡ (next b f).window = ground arith in
          let long = length-set f.results f.idx b ∙ v.sized in
          let ends : length (set f.results f.idx b) ≡ suc f.idx = ground (arith, long) in
          rw
            (
              recent_full (next b f) full,
              r,
              i,
              ring_of_wrap f.idx f.window (set f.results f.idx b) v.inside long,
              drop_all (suc f.idx) (set f.results f.idx b) ends,
              pushed,
            )
            refl
    ]

-- A probe pushes its outcome into the window, and the oldest falls out of a full one.
recent-next :
    (b : Bool) (f : HealthFsm)
    → IsValid f
    → recent (next b f) ≡ last_n f.window (recent f ++ (b ∷ []))
recent-next b f v =
    let (w, t, r, i, n) = next_fields b f in
    let inside : f.idx < length f.results = omega (arith, v.inside, v.sized) in
    let wrap =
      ring_of_wrap f.idx f.window (set f.results f.idx b) v.inside
        (length-set f.results f.idx b ∙ v.sized) in
    let pushed = ring_of-set f.idx f.results b inside in
    elim (Bool-cases (ltb f.filled f.window)) [
      | inr full ↦
          let was : f.filled ≡ f.window = ground (arith, v.part) in
          let is : (next b f).filled ≡ (next b f).window = ground arith in
          let long : length (ring_of f.idx f.results ++ (b ∷ [])) - f.window ≡ 1 = ground (
            arith,
            v.sized,
            length-append (ring_of f.idx f.results) (b ∷ []),
            length-ring_of f.idx f.results,
          ) in
          rw (recent_full (next b f) is, recent_full f was, r, i, wrap, pushed, long) refl
      | inl room ↦
          let lt : f.filled < f.window = ground arith in
          let same : f.idx ≡ f.filled = ground (arith, v.growing) in
          let fits : length (take f.idx f.results ++ (b ∷ [])) ≤ f.window = ground (
            arith,
            length-take f.idx f.results (omega arith),
            length-append (take f.idx f.results) (b ∷ []),
          ) in
          rw
            (
              recent_room b f v lt same,
              recent_part f lt,
              sym same,
              short f.window (take f.idx f.results ++ (b ∷ [])) fits,
            )
            refl
    ]

-- The verdict of a window.
unfoldable pub judge : ℕ → Bool → List Bool → Bool
judge t up w = if up then not (leb t (count false w)) else leb t (count true w)

-- The counts of `record` are those of the window.
counted :
    (c : Bool) (f : HealthFsm) → IsValid f → count c (take f.filled f.results) ≡ count c (recent f)
counted c f v = elim (Bool-cases (ltb f.filled f.window)) [
  | inl room ↦ let lt : f.filled < f.window = ground arith in rw (recent_part f lt) refl
  | inr full ↦
      let is : f.filled ≡ f.window = ground (arith, v.part) in
      rw
        (
          recent_full f is,
          count-ring_of c f.idx f.results,
          take_all f.filled f.results (v.sized ∙ sym is),
        )
        refl
]

verdict :
    (b : Bool) (f : HealthFsm)
    → ((next b f).up ≡ (
        if f.up
        then not (leb f.threshold (count false (take (next b f).filled (next b f).results)))
        else leb f.threshold (count true (take (next b f).filled (next b f).results))))
      × ((record_probe b f).1 ≡ (if f.up then not (next b f).up else (next b f).up))
unfolding record_probe
verdict b f = ground arith

-- One probe, of a well-formed state: the state stays well-formed, its window takes the outcome and loses
-- its oldest when full, the backend goes down when the window holds `threshold` failures and up when it
-- holds `threshold` successes, and a change is reported just when there is one.
pub record_probe_lem :
    (b : Bool) (f : HealthFsm)
    → IsValid f
    → IsValid (record_probe b f).0
      × (recent (record_probe b f).0 ≡ last_n f.window (recent f ++ (b ∷ [])))
      × ((record_probe b f).0.up ≡ judge f.threshold f.up (recent (record_probe b f).0))
      × ((record_probe b f).1
          ≡ (if f.up then not (record_probe b f).0.up else (record_probe b f).0.up))
unfolding judge
record_probe_lem b f v =
    let v' = IsValid-next b f v in
    let (up, changed) = verdict b f in
    (
      v',
      recent-next b f v,
      up ∙ rw (counted false (next b f) v', counted true (next b f) v') refl,
      changed,
    )
