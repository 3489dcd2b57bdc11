-- ===== src/Tests/Ring.antt =====
-- internal/lb/ring.go: two backends, one of them given twice, whose digests all collide.
use cadish.Lb.Ring.Build.{words, rounds_of, new_ring}
use cadish.Cache.Ring.{contains}
use cadish.Lb.Ring.Build.Shares.{Increasing, share_of}
use cadish.Lb.Ring.Build.Valid.{new_ring-IsValid}
use cadish.Lb.Ring.Walk.{IsValid}
use cadish.Lb.Ring
use cadish.Lb.Ring.Start.{lookup_next}
use cadish.Lb.Ring.{Ring, owner_of}
use cadish.Prelude.Int.{pos}
use cadish.Prelude.{
  ℕ, Bool, true, inr, ◌*◌, ◌<◌, ◌≡◌, refl, List, [], ◌∷◌, Option, none, some, String, length,
  if◌then◌else◌, arith,
}

-- 2^32 - 2: the search for a free point goes round the end.
abbrev same_word : String → ℕ → ℕ → ℕ
same_word id i j = 4294967294

same_word-lt : (id : String) (i j : ℕ) → same_word id i j < words
same_word-lt id i j = omega arith

abbrev backends : List String
backends = "a" ∷ "b" ∷ "a" ∷ []

abbrev points_of : Option Ring → List ℕ
points_of none = []
points_of (some r) = r.points

nudged_round :
    points_of (new_ring same_word (pos 4) backends)
    ≡ 0 ∷ 1 ∷ 2 ∷ 3 ∷ 4 ∷ 5 ∷ 4294967294 ∷ 4294967295 ∷ []
unfolding new_ring
nudged_round = refl

new_ring-IsValid_example :
    (r : Ring) × (new_ring same_word (pos 4) backends ≡ some r)
    × IsValid r
    × Increasing r.points
    × ((q : String) → contains q r.ids ≡ contains q backends)
    × ((q : String)
        → share_of q r.points r.owner ≡ (if contains q backends then rounds_of (pos 4) * 4 else 0))
    × (length r.points ≡ length r.ids * (rounds_of (pos 4) * 4))
new_ring-IsValid_example = new_ring-IsValid same_word same_word-lt (pos 4) backends (omega arith)

-- Two points, and a key that hashes past the last of them.
abbrev two_points : Ring
two_points = record {
  points = 10 ∷ 20 ∷ [];
  owner = (20, "b") ∷ (10, "a") ∷ [];
  ids = "a" ∷ "b" ∷ [];
}

two_points-IsValid : IsValid two_points
unfolding owner_of contains
two_points-IsValid = record { distinct = (refl, (refl, tt)); owned = (refl, (refl, tt)) }

abbrev late_hash : String → ℕ
late_hash key = 25

abbrev anyone : String → Bool
anyone id = true

lookup_next_example :
    Ring.lookup late_hash "/index" anyone two_points ≡ some (owner_of 10 two_points.owner)
lookup_next_example =
    lookup_next late_hash "/index" anyone two_points 0 10 two_points-IsValid
      ((omega arith, tt), (tt, tt)) refl
      (inr ((omega arith, (omega arith, tt)), (omega arith, (omega arith, tt)))) refl
