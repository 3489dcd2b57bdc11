-- ===== src/Freshness/Reclaim.antt =====
-- The background sweep of the index.
use cadish.Freshness.{
  FreshEntry, Index, shard_of, entry, banned, classify, stale_within, entry_reclaimable,
  sweep_entries, sweep,
}
use cadish.Prelude.Dict.{Dict, IsDistinct, lookup, has-lookup}
use cadish.Prelude.Int.{◌≤ℤ◌}
use cadish.Prelude.{
  ℕ, ◌≡◌, refl, false, [], ◌∷◌, Option, none, some, String, eq_iff, if◌then◌else◌, arith, inl, inr,
  Option-cases,
}
use cadish.Time.{Time, before}

-- No shard holds a key twice.
abbrev pub HasDistinct : Index → Type 0
HasDistinct f = (i : ℕ) → IsDistinct (f.shards i)

-- What a sweep leaves of an entry.
abbrev pub kept : Time → Index → String → Option FreshEntry → Option FreshEntry
kept now f q none = none
kept now f q (some e) = if entry_reclaimable q e now f then none else some e

lookup-sweep_entries :
    (now : Time) (f : Index) (q : String) (m : Dict FreshEntry)
    → IsDistinct m
    → lookup q (sweep_entries now f m) ≡ kept now f q (lookup q m)
unfolding sweep_entries lookup
lookup-sweep_entries now f q [] d = refl
lookup-sweep_entries now f q ((k, e) ∷ m) (once, d) =
    ground (arith, eq_iff k q, has-lookup k m, lookup-sweep_entries now f q m d)

pub entry-sweep :
    (now : Time) (q : String) (f : Index)
    → HasDistinct f
    → entry q (sweep now f) ≡ kept now f q (entry q f)
unfolding entry sweep
entry-sweep now q f d = lookup-sweep_entries now f q (f.shards (shard_of q)) (d (shard_of q))

-- What has passed at `now` has passed at any later `t`.
before_mono : (now t x : Time) → now ≤ℤ t → before now x ≡ false → before t x ≡ false
unfolding before
before_mono now t x le h = ground arith

banned-sweep :
    (now : Time) (q : String) (s : Time) (f : Index) → banned q s (sweep now f) ≡ banned q s f
unfolding banned sweep
banned-sweep now q s f = refl

expired :
    (t : Time) (e : FreshEntry)
    → e.expires ≤ℤ e.grace_until
    → before t e.grace_until ≡ false
    → before t e.expires ≡ false
unfolding before
expired t e le h = ground arith

-- On an index without duplicates, an entry whose grace does not end before its TTL: what a sweep at
-- `now` removes could serve nothing any more. At `now` and at any later instant `t`, with no other
-- call between, the key is classified as without the sweep, with the same bypass flag, and is a
-- fallback for an origin failure as without it.
pub sweep_safe :
    (now t : Time) (q : String) (f : Index)
    → HasDistinct f
    → ((e : FreshEntry) → entry q f ≡ some e → e.expires ≤ℤ e.grace_until)
    → now ≤ℤ t
    → ((classify t q (sweep now f)).1 ≡ (classify t q f).1)
      × ((classify t q (sweep now f)).2 ≡ (classify t q f).2)
      × (stale_within t q (sweep now f) ≡ stale_within t q f)
unfolding classify stale_within entry_reclaimable
sweep_safe now t q f d ordered later = elim (Option-cases (entry q f)) [
  | inl e ↦ ground (arith, e, entry-sweep now q f d)
  | inr (v, e) ↦ ground (
    arith,
    e,
    entry-sweep now q f d,
    banned-sweep now q v.stored_at f,
    before_mono now t v.hfm_until later,
    before_mono now t v.grace_until later,
    before_mono now t v.max_stale_until later,
    expired t v (ordered v e),
  )
]
