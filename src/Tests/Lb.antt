-- ===== src/Tests/Lb.antt =====
-- internal/lb: a window of three probes with a threshold of two, and a ring of two backends.
use cadish.Cache.Ring.{contains}
use cadish.Lb.Health.{HealthFsm, new_health_fsm, count, record_probe, probes}
use cadish.Lb.Health.Steady.{recent-probes, changes_with_probe}
use cadish.Lb.Health.Rotation.{last_n}
use cadish.Lb.Health.Window.{IsValid, recent, judge, record_probe_lem, new_health_fsm-IsValid}
use cadish.Lb.Ring.{Ring, owner_of, owner_at, search, contains_string, walk, start, lookup}
use cadish.Lb.Ring.Walk
use cadish.Lb.Ring.Walk.{first_eligible, lookup_lem, lookup_stable}
use cadish.Prelude.Int.{pos}
use cadish.Prelude.{
  ℕ, ◌*◌, ◌<◌, ◌≡◌, refl, Bool, true, false, not, [], ◌∷◌, ◌++◌, some, String, str_eq,
  if◌then◌else◌, arith,
}

abbrev two_of_three : HealthFsm
two_of_three = new_health_fsm (pos 3) (pos 2) false

two_successes : (probes (false ∷ true ∷ true ∷ []) two_of_three).up ≡ true
unfolding probes record_probe count new_health_fsm
two_successes = refl

record_probe_lem_example :
    IsValid (record_probe true two_of_three).0
    × (recent (record_probe true two_of_three).0
        ≡ last_n two_of_three.window (recent two_of_three ++ (true ∷ [])))
    × ((record_probe true two_of_three).0.up
        ≡ judge two_of_three.threshold two_of_three.up (recent (record_probe true two_of_three).0))
    × ((record_probe true two_of_three).1 ≡ (
        if two_of_three.up
        then not (record_probe true two_of_three).0.up
        else (record_probe true two_of_three).0.up))
record_probe_lem_example =
    record_probe_lem true two_of_three (new_health_fsm-IsValid (pos 3) (pos 2) false)

recent-probes_example :
    recent (probes (true ∷ false ∷ false ∷ true ∷ []) (new_health_fsm (pos 3) (pos 2) false))
    ≡ false ∷ false ∷ true ∷ []
recent-probes_example = recent-probes (pos 3) (pos 2) false (true ∷ false ∷ false ∷ true ∷ [])

majority : two_of_three.window < two_of_three.threshold * 2
unfolding new_health_fsm
majority = omega arith

comes_up : (record_probe true (probes (true ∷ []) two_of_three)).1 ≡ true
unfolding probes record_probe count new_health_fsm
comes_up = refl

changes_with_probe_example :
    (record_probe true (probes (true ∷ []) (new_health_fsm (pos 3) (pos 2) false))).0.up ≡ true
changes_with_probe_example =
    changes_with_probe (pos 3) (pos 2) false (true ∷ []) true majority comes_up

abbrev two_backends : Ring
two_backends = record {
  points = 10 ∷ 20 ∷ 30 ∷ 40 ∷ [];
  owner = (10, "a") ∷ (30, "a") ∷ (20, "b") ∷ (40, "b") ∷ [];
  ids = "a" ∷ "b" ∷ [];
}

-- The hash of every key.
abbrev at_fifteen : String → ℕ
at_fifteen key = 15

abbrev anyone : String → Bool
anyone id = true

abbrev only_b : String → Bool
only_b id = str_eq id "b"

two_backends-IsValid : Walk.IsValid two_backends
unfolding contains owner_of
two_backends-IsValid = record {
  distinct = (refl, (refl, tt));
  owned = (refl, (refl, (refl, (refl, tt))));
}

goes_to_b : lookup at_fifteen "key" anyone two_backends ≡ some "b"
unfolding lookup start search walk owner_at owner_of contains_string
goes_to_b = refl

lookup_lem_example :
    lookup at_fifteen "key" only_b two_backends
    ≡ first_eligible only_b two_backends (start (at_fifteen "key") two_backends) 4 0
lookup_lem_example = lookup_lem at_fifteen "key" only_b two_backends two_backends-IsValid

lookup_stable_example : lookup at_fifteen "key" only_b two_backends ≡ some "b"
lookup_stable_example =
    lookup_stable at_fifteen "key" anyone only_b two_backends "b" two_backends-IsValid (λ q h. refl)
      goes_to_b refl
