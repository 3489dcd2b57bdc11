-- ===== src/Lb/Ring.antt =====
-- The consistent-hash ring: internal/lb/ring.go. The hash of a key in the 32-bit space (the low word of
-- an MD5 digest) is a parameter.
pub mod Pigeonhole
pub mod Walk
pub mod Build
pub mod Start
use cadish.Prelude.{
  ℕ, zero, suc, ◌+◌, ◌%◌, Bool, true, false, List, [], ◌∷◌, ◌++◌, Option, none, some, String,
  str_eq, leb, ltb, ◌==◌, if◌then◌else◌, length, get_elem?,
}

-- `points` are the hashes of the virtual nodes, sorted; `owner` names the backend of a point; `ids` are the
-- distinct backends.
pub record Ring : Type 0 where
  pub points : List ℕ
  pub owner : List (ℕ × String)
  pub ids : List String

-- `r.owner[p]`, where a missing point gives the empty string.
unfoldable pub owner_of : ℕ → List (ℕ × String) → String
owner_of p [] = ""
owner_of p ((q, id) ∷ m) = if q == p then id else owner_of p m

-- `sort.Search` on sorted points: the first that is not below the hash.
unfoldable pub search : ℕ → List ℕ → ℕ
search h [] = 0
search h (p ∷ ps) = if leb h p then 0 else suc (search h ps)

unfoldable pub contains_string : List String → String → Bool
contains_string [] s = false
contains_string (x ∷ ss) s = if str_eq x s then true else contains_string ss s

-- The backend at the i-th point from `idx` on, around the end. The position is in range.
unfoldable pub owner_at : Ring → ℕ → ℕ → String
unfolding owner_of
owner_at r idx i = elim (get_elem? r.points ((idx + i) % length r.points)) [
  | none ↦ ""
  | some p ↦ owner_of p r.owner
]

-- The loop of `lookup`: k points are left, i have been passed.
unfoldable pub walk : (String → Bool) → Ring → ℕ → ℕ → ℕ → List String → Option String
unfolding contains_string owner_at
walk eligible r idx zero i seen = none
walk eligible r idx (suc k) i seen =
    let id = owner_at r idx i in
    elim (ltb (length seen) (length r.ids)) [
      | false ↦ none
      | true ↦ elim (contains_string seen id) [
        | true ↦ walk eligible r idx k (suc i) seen
        | false ↦ elim (eligible id) [
          | true ↦ some id
          | false ↦ walk eligible r idx k (suc i) (seen ++ (id ∷ []))
        ]
      ]
    ]

-- The index of the first point of a key, 0 past the last.
unfoldable pub start : ℕ → Ring → ℕ
unfolding search
start h r = let idx = search h r.points in if idx == length r.points then 0 else idx

module _ (ring_hash : String → ℕ) where
  unfoldable pub lookup : String → (String → Bool) → Ring → Option String
  unfolding walk start
  lookup key eligible r =
      if length r.points == 0
      then none
      else walk eligible r (start (ring_hash key) r) (length r.points) 0 []
