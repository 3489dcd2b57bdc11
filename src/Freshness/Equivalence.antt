-- ===== src/Freshness/Equivalence.antt =====
-- `classify` replaces a pair of calls, `hitForMiss` and `lookup`, by one.
use cadish.Freshness.Entries.{entry-forget}
use cadish.Freshness.{Index, FreshState, entry, hit_for_miss, find, classify_prune, classify}
use cadish.Prelude.{◌≡◌, Bool, String, eq_iff, arith, inl, inr, Option-cases}
use cadish.Time.{Time}

-- The pair of calls that the serve path used to make.
abbrev pub old_pair : Time → String → Index → Index × FreshState × Bool
old_pair now key f =
    let (g, bypass) = hit_for_miss now key f in
    let (h, state) = find now key g in (h, state, bypass)

-- At any instant and for every index and key, `classify` leaves the index that the pair of calls
-- leaves, and returns the state and the bypass flag that they return.
pub classify-old_pair :
    (now : Time) (key : String) (f : Index) → classify now key f ≡ old_pair now key f
unfolding classify hit_for_miss find
classify-old_pair now key f = elim (Option-cases (entry key f)) [
  | inl e ↦ ground (arith, e)
  | inr (v, e) ↦ ground (arith, e, entry-forget key key f, eq_iff key key)
]

-- The write path re-evaluates from scratch: on the index that it finds it returns what the pair of
-- calls would return there, whatever the read path saw before.
pub classify_prune-old_pair :
    (now : Time) (key : String) (f : Index) → classify_prune now key f ≡ old_pair now key f
unfolding classify_prune hit_for_miss find
classify_prune-old_pair now key f = elim (Option-cases (entry key f)) [
  | inl e ↦ ground (arith, e)
  | inr (v, e) ↦ ground (arith, e, entry-forget key key f, eq_iff key key)
]
