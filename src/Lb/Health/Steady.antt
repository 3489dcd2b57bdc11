-- ===== src/Lb/Health/Steady.antt =====
-- Runs of probes.
use cadish.Lb.Health.Rotation.{last_n, short, append_assoc, append_nil, count-append}
use cadish.Lb.Health.Window.{
  recent, IsValid, length-recent-le, new_health_fsm-IsValid, next, next_fields, judge,
  record_probe_lem,
}
use cadish.Lb.Health.{HealthFsm, at_least_one, new_health_fsm, count, record_probe, probes}
use cadish.Prelude.Int.{ℤ}
use cadish.Prelude.{
  ℕ, zero, suc, ◌+◌, ◌-◌, ◌*◌, ◌≤◌, ◌<◌, ◌≡◌, refl, sym, ap, ◌∙◌, Bool, true, false, not, List, [],
  ◌∷◌, ◌++◌, length, drop, arith, length-append, length-drop,
}

drop-append : (k : ℕ) (xs ys : List Bool) → k ≤ length xs → drop k (xs ++ ys) ≡ drop k xs ++ ys
drop-append zero xs ys h = refl
drop-append (suc k) [] ys h = absurd (omega arith)
drop-append (suc k) (x ∷ xs) ys h = drop-append k xs ys (omega arith)

drop_nil : (k : ℕ) → drop {A = Bool} k [] ≡ []
drop_nil zero = refl
drop_nil (suc k) = refl

drop-drop : (m k j : ℕ) (xs : List Bool) → k + m ≡ j → drop m (drop k xs) ≡ drop j xs
drop-drop m zero j xs e = let f : m ≡ j = omega arith in ap (λ i. drop i xs) f
drop-drop m (suc k) j [] e = drop_nil m ∙ sym (drop_nil j)
drop-drop m (suc k) zero (x ∷ xs) e = absurd (omega arith)
drop-drop m (suc k) (suc j) (x ∷ xs) e = drop-drop m k j xs (omega arith)

-- What has fallen out of a window does not come back.
last_n-append : (n : ℕ) (xs ys : List Bool) → last_n n (last_n n xs ++ ys) ≡ last_n n (xs ++ ys)
last_n-append n xs ys =
    let k = length xs - n in
    let le : k ≤ length xs = omega arith in
    let e : k + (length (drop k (xs ++ ys)) - n) ≡ length (xs ++ ys) - n =
      omega (arith, length-drop k (xs ++ ys), length-append xs ys) in
    rw (sym (drop-append k xs ys le))
      (drop-drop (length (drop k (xs ++ ys)) - n) k (length (xs ++ ys) - n) (xs ++ ys) e)

probes_window :
    (l : List Bool) (f : HealthFsm)
    → IsValid f
    → IsValid (probes l f)
      × ((probes l f).window ≡ f.window)
      × ((probes l f).threshold ≡ f.threshold)
unfolding probes
probes_window [] f v = (v, refl, refl)
probes_window (b ∷ l) f v =
    let (w, t, r, i, n) = next_fields b f in
    let (v', w', t') = probes_window l (next b f) (record_probe_lem b f v).0 in (v', w' ∙ w, t' ∙ t)

recent-probes_from :
    (l : List Bool) (f : HealthFsm)
    → IsValid f
    → recent (probes l f) ≡ last_n f.window (recent f ++ l)
unfolding probes
recent-probes_from [] f v =
    rw (append_nil (recent f)) (sym (short f.window (recent f) (length-recent-le f v)))
recent-probes_from (b ∷ l) f v =
    let (v', pushed, up, changed) = record_probe_lem b f v in
    let (w, t, r, i, n) = next_fields b f in
    recent-probes_from l (next b f) v'
    ∙ rw (w, pushed)
        (last_n-append f.window (recent f ++ (b ∷ [])) l
          ∙ ap (last_n f.window) (append_assoc (recent f) (b ∷ []) l))

recent_new : (w t : ℤ) (up : Bool) → recent (new_health_fsm w t up) ≡ []
unfolding new_health_fsm recent
recent_new w t up = ground arith

-- After any run of probes, the window of a new backend is the last `window` outcomes of the run (all of
-- them when there are fewer).
pub recent-probes :
    (window threshold : ℤ) (up : Bool) (l : List Bool)
    → recent (probes l (new_health_fsm window threshold up)) ≡ last_n (at_least_one window) l
unfolding new_health_fsm
recent-probes window threshold up l =
    recent-probes_from l (new_health_fsm window threshold up)
      (new_health_fsm-IsValid window threshold up)
    ∙ ap (λ r. last_n (at_least_one window) (r ++ l)) (recent_new window threshold up)

count-drop-le : (c : Bool) (k : ℕ) (xs : List Bool) → count c (drop k xs) ≤ count c xs
unfolding count
count-drop-le c zero xs = omega arith
count-drop-le c (suc k) [] = omega arith
count-drop-le true (suc k) (true ∷ xs) = omega (arith, count-drop-le true k xs)
count-drop-le true (suc k) (false ∷ xs) = count-drop-le true k xs
count-drop-le false (suc k) (true ∷ xs) = count-drop-le false k xs
count-drop-le false (suc k) (false ∷ xs) = omega (arith, count-drop-le false k xs)

count_both : (xs : List Bool) → count true xs + count false xs ≡ length xs
unfolding count
count_both [] = omega arith
count_both (true ∷ xs) = omega (arith, count_both xs)
count_both (false ∷ xs) = omega (arith, count_both xs)

-- The outcomes of the other kind stay below the threshold.
abbrev IsSteady : HealthFsm → Type 0
IsSteady f = count (not f.up) (recent f) < f.threshold

IsSteady-next :
    (b : Bool) (f : HealthFsm)
    → IsValid f
    → f.window < f.threshold * 2
    → IsSteady f
    → IsSteady (next b f)
unfolding judge
IsSteady-next b f v wide s =
    let (v', pushed, up, changed) = record_probe_lem b f v in
    let (w, t, r, i, n) = next_fields b f in
    ground (arith, count_both (recent (next b f)), length-recent-le (next b f) v')

IsSteady-probes :
    (l : List Bool) (f : HealthFsm)
    → IsValid f
    → f.window < f.threshold * 2
    → IsSteady f
    → IsSteady (probes l f)
unfolding probes
IsSteady-probes [] f v wide s = s
IsSteady-probes (b ∷ l) f v wide s =
    let (w, t, r, i, n) = next_fields b f in
    IsSteady-probes l (next b f) (record_probe_lem b f v).0 (omega arith)
      (IsSteady-next b f v wide s)

IsSteady-new : (w t : ℤ) (up : Bool) → IsSteady (new_health_fsm w t up)
unfolding new_health_fsm count
IsSteady-new w t up = ground (arith, recent_new w t up)

-- The outcomes of one kind in a window, after a probe of the other kind.
count-next :
    (b : Bool) (f : HealthFsm)
    → IsValid f
    → count (not b) (recent (next b f)) ≤ count (not b) (recent f)
unfolding count
count-next true f v = rw (record_probe_lem true f v).1 (
    omega (
      arith,
      count-drop-le false (length (recent f ++ (true ∷ [])) - f.window) (recent f ++ (true ∷ [])),
      count-append false (recent f) (true ∷ []),
    ))
count-next false f v = rw (record_probe_lem false f v).1 (
    omega (
      arith,
      count-drop-le true (length (recent f ++ (false ∷ [])) - f.window) (recent f ++ (false ∷ [])),
      count-append true (recent f) (false ∷ []),
    ))

-- A change of a steady state goes the way of its probe.
steady_change :
    (b : Bool) (f : HealthFsm)
    → IsValid f
    → IsSteady f
    → (record_probe b f).1 ≡ true
    → (record_probe b f).0.up ≡ b
unfolding judge
steady_change b f v s changed =
    let (v', pushed, up, flag) = record_probe_lem b f v in ground (arith, count-next b f v)

-- With a threshold above half the window, a change of state goes the way of the probe that makes it: no
-- success takes a backend down, and no failure brings one up.
pub changes_with_probe :
    (window threshold : ℤ) (up : Bool) (l : List Bool) (b : Bool)
    → (new_health_fsm window threshold up).window
      < (new_health_fsm window threshold up).threshold * 2
    → (record_probe b (probes l (new_health_fsm window threshold up))).1 ≡ true
    → (record_probe b (probes l (new_health_fsm window threshold up))).0.up ≡ b
changes_with_probe window threshold up l b wide changed =
    let f = new_health_fsm window threshold up in
    let v = new_health_fsm-IsValid window threshold up in
    steady_change b (probes l f) (probes_window l f v).0
      (IsSteady-probes l f v wide (IsSteady-new window threshold up)) changed
