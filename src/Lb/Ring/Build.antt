-- ===== src/Lb/Ring/Build.antt =====
-- Building a ring: newRing of internal/lb/ring.go. The four words of a digest are a parameter.
pub mod Nudge
pub mod Shares
pub mod Valid
use cadish.Lb.Ring.{Ring, contains_string}
use cadish.Prelude.Int.{ℤ, pos, leb_ℤ, pos_part}
use cadish.Prelude.{
  ℕ, zero, suc, ◌+◌, ◌*◌, ◌/◌, ◌%◌, Bool, true, false, List, [], ◌∷◌, ◌++◌, Option, none, some,
  String, leb, ◌==◌, length, if◌then◌else◌,
}

-- 2^32
abbrev pub words : ℕ
words = 4294967296

abbrev pub default_replicas : ℕ
default_replicas = 160

-- `_, taken := r.owner[h]`
unfoldable pub taken : ℕ → List (ℕ × String) → Bool
taken h [] = false
taken h ((q, id) ∷ m) = if q == h then true else taken h m

-- The next free point, `h++` on 32 bits.
unfoldable pub nudge : ℕ → ℕ → List (ℕ × String) → Option ℕ
unfolding taken
nudge zero h owner = none
nudge (suc fuel) h owner = elim (taken h owner) [
  | true ↦ nudge fuel ((h + 1) % words) owner
  | false ↦ some h
]

-- One virtual node. More points than are taken are tried.
unfoldable pub place : String → ℕ → Ring → Option Ring
unfolding nudge
place id h r = elim (nudge (suc (length r.owner)) h r.owner) [
  | none ↦ none
  | some p ↦ some (record r { points = r.points ++ (p ∷ []); owner = (p, id) ∷ r.owner })
]

unfoldable pub place_all : String → List ℕ → Ring → Option Ring
unfolding place
place_all id [] r = some r
place_all id (h ∷ hs) r = elim (place id h r) [ none ↦ none | some s ↦ place_all id hs s ]

unfoldable pub insert_point : ℕ → List ℕ → List ℕ
insert_point p [] = p ∷ []
insert_point p (q ∷ qs) = let rest = insert_point p qs in if leb p q then p ∷ q ∷ qs else q ∷ rest

-- `sort.Slice`
unfoldable pub sort_points : List ℕ → List ℕ
unfolding insert_point
sort_points [] = []
sort_points (p ∷ ps) = insert_point p (sort_points ps)

-- Four points for each digest.
abbrev pub rounds_of : ℤ → ℕ
rounds_of replicas =
    ((if leb_ℤ replicas (pos 0) then default_replicas else pos_part replicas) + 3) / 4

module _ (word : String → ℕ → ℕ → ℕ) where
  -- The hashes of the rounds from `i` on, `n` of them.
  unfoldable pub hashes : String → ℕ → ℕ → List ℕ
  hashes id i zero = []
  hashes id i (suc n) = word id i 0 ∷ word id i 1 ∷ word id i 2 ∷ word id i 3 ∷ hashes id (suc i) n

  -- The ids, each once.
  unfoldable pub add_ids : ℕ → List String → Ring → Option Ring
  unfolding contains_string place_all hashes
  add_ids rounds [] r = some r
  add_ids rounds (id ∷ ids) r = elim (contains_string r.ids id) [
    | true ↦ add_ids rounds ids r
    | false ↦ elim (place_all id (hashes id 0 rounds) (record r { ids = r.ids ++ (id ∷ []) })) [
      | none ↦ none
      | some s ↦ add_ids rounds ids s
    ]
  ]

  unfoldable pub new_ring : ℤ → List String → Option Ring
  unfolding add_ids sort_points
  new_ring replicas ids =
      elim (add_ids (rounds_of replicas) ids (record { points = []; owner = []; ids = [] })) [
        | none ↦ none
        | some r ↦ some (record r { points = sort_points r.points })
      ]
