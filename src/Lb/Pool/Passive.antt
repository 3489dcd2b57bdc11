-- ===== src/Lb/Pool/Passive.antt =====
-- Capacity and passive ejection over a run of fetches.
use cadish.Lb.Pool.{
  Backend, FetchError, at_capacity, status_of, is_server_failure, eligible, passive_success,
  passive_failure, record_outcome, release, fetch_one,
}
use cadish.Prelude.Int.{◌+ℤ◌}
use cadish.Prelude.{
  List, [], ◌∷◌, ℕ, suc, ◌+◌, ◌≤◌, ◌<◌, ◌≡◌, ◌⊎◌, inl, inr, refl, ap, ◌∙◌, Bool, true, false, not,
  Option, none, some, ◌==◌, if◌then◌else◌, arith, Bool-cases,
}
use cadish.Time.{Time, Duration, before}

-- The backend once the caller has closed the body of a response.
unfoldable pub closed : ℕ → Option FetchError → Backend → Backend
unfolding release
closed max none b = release max b
closed max (some e) b = b

record_outcome-counts :
    (threshold : ℕ) (now : Time) (dur : Duration) (o : Option FetchError) (b : Backend)
    → ((record_outcome threshold now dur o b).sem ≡ b.sem)
      × ((record_outcome threshold now dur o b).inflight ≡ b.inflight)
      × ((record_outcome threshold now dur o b).fsm ≡ b.fsm)
unfolding record_outcome passive_success passive_failure
record_outcome-counts threshold now dur none b = (refl, refl, refl)
record_outcome-counts threshold now dur (some e) b =
    elim (Bool-cases (is_server_failure (status_of e))) [
      | inl fails ↦ rw fails (refl, refl, refl)
      | inr answers ↦ rw answers (refl, refl, refl)
    ]

-- One fetch from a backend whose taken slots are within a limit `max` above 0. At the limit it is refused,
-- and the backend is as it was. Below the limit the answer is the origin's, the slots stay within the limit, and
-- once the body of a response is closed (at once for an error) the slots and the count of requests are what
-- they were.
pub fetch_one_balanced :
    (max threshold : ℕ) (now : Time) (dur : Duration) (outcome : Option FetchError) (b : Backend)
    → 0 < max
    → b.sem ≤ max
    → ((b.sem ≡ max) × (fetch_one max threshold now dur outcome b ≡ (b, some at_capacity)))
      ⊎ (((fetch_one max threshold now dur outcome b).1 ≡ outcome)
          × ((fetch_one max threshold now dur outcome b).0.sem ≤ max)
          × ((closed max outcome (fetch_one max threshold now dur outcome b).0).sem ≡ b.sem)
          × ((closed max outcome (fetch_one max threshold now dur outcome b).0).inflight
              ≡ b.inflight))
unfolding fetch_one closed release
fetch_one_balanced max threshold now dur none b above le =
    let held = (record b {
      inflight = b.inflight + 1;
      sem = if max == 0 then b.sem else b.sem + 1;
    }) in
    ground (arith, record_outcome-counts threshold now dur none held)
fetch_one_balanced max threshold now dur (some e) b above le =
    let held = (record b {
      inflight = b.inflight + 1;
      sem = if max == 0 then b.sem else b.sem + 1;
    }) in
    ground (arith, record_outcome-counts threshold now dur (some e) (release max held))

-- A run of outcomes, the oldest first, each with its instant.
unfoldable pub record_all : ℕ → Duration → List (Time × Option FetchError) → Backend → Backend
unfolding record_outcome
record_all threshold dur [] b = b
record_all threshold dur ((now, o) ∷ l) b =
    record_all threshold dur l (record_outcome threshold now dur o b)

abbrev pub fails : Option FetchError → Bool
fails none = false
fails (some e) = is_server_failure (status_of e)

-- The failures at the end of a run, after n before it.
unfoldable pub streak : ℕ → List (Time × Option FetchError) → ℕ
streak n [] = n
streak n ((now, o) ∷ l) = streak (if fails o then suc n else 0) l

outcome-streak :
    (threshold : ℕ) (now : Time) (dur : Duration) (o : Option FetchError) (b : Backend)
    → (record_outcome threshold now dur o b).consec_fail
      ≡ (if fails o then suc b.consec_fail else 0)
unfolding record_outcome passive_success passive_failure
outcome-streak threshold now dur none b = refl
outcome-streak threshold now dur (some e) b = ground arith

streak_lem :
    (threshold : ℕ) (dur : Duration) (l : List (Time × Option FetchError)) (b : Backend)
    → ((record_all threshold dur l b).consec_fail ≡ streak b.consec_fail l)
      × ((record_all threshold dur l b).fsm ≡ b.fsm)
unfolding record_all streak
streak_lem threshold dur [] b = (refl, refl)
streak_lem threshold dur ((now, o) ∷ l) b =
    let c = record_outcome threshold now dur o b in
    let (n, f) = streak_lem threshold dur l c in
    (
      n ∙ ap (λ k. streak k l) (outcome-streak threshold now dur o b),
      f ∙ (record_outcome-counts threshold now dur o b).2,
    )

ejected :
    (threshold : ℕ) (now t : Time) (dur : Duration) (e : FetchError) (c : Backend)
    → is_server_failure (status_of e) ≡ true
    → threshold ≤ suc c.consec_fail
    → eligible t (record_outcome threshold now dur (some e) c)
      ≡ (if c.fsm.up then not (before t (now +ℤ dur)) else false)
unfolding eligible record_outcome passive_failure
ejected threshold now t dur e c bad long = rw bad (ground arith)

-- After any run of outcomes, a connection error or a 5xx that completes a streak of `threshold` ejects the
-- backend: it is eligible again when the ejection has ended, if its health allows.
pub ejects_lem :
    (threshold : ℕ) (now t : Time) (dur : Duration) (l : List (Time × Option FetchError))
    (e : FetchError) (b : Backend)
    → fails (some e) ≡ true
    → threshold ≤ suc (streak b.consec_fail l)
    → eligible t (record_outcome threshold now dur (some e) (record_all threshold dur l b))
      ≡ (if b.fsm.up then not (before t (now +ℤ dur)) else false)
ejects_lem threshold now t dur l e b bad long =
    let (n, f) = streak_lem threshold dur l b in
    ejected threshold now t dur e (record_all threshold dur l b) bad (omega arith)
    ∙ ap (λ h. if h.up then not (before t (now +ℤ dur)) else false) f
