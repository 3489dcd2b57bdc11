-- ===== src/Freshness.antt =====
-- internal/server/freshness.go: the index of TTL, grace, hit-for-miss and bans beside the cache.
-- A method takes the instant that its `f.now()` reads. A compiled regular expression is the function
-- that says which keys it matches. The array of shards is a function of the shard's number.
pub mod Entries
pub mod Equivalence
pub mod Timeline
pub mod Reclaim
pub mod Bans
use cadish.Cache.Shard.{fnv32}
use cadish.Prelude.Dict.{Dict, lookup, insert, erase}
use cadish.Prelude.Int.{ℤ, pos, negsuc, ◌+ℤ◌, ◌-ℤ◌, leb_ℤ, ltb_ℤ}
use cadish.Prelude.{
  ℕ, zero, suc, ◌+◌, ◌-◌, ◌%◌, Bool, true, false, not, ◌&&◌, ◌||◌, List, [], ◌∷◌, ◌++◌, Option,
  none, some, String, leb, ◌==◌, if◌then◌else◌, length, drop,
}
use cadish.Time.{Time, Duration, zero_time, is_zero, before, int64}

abbrev pub shard_total : ℕ
shard_total = 64

abbrev pub max_bans : ℕ
max_bans = 256

pub record FreshEntry : Type 0 where
  pub stored_at : Time
  pub expires : Time
  pub grace_until : Time
  pub max_stale_until : Time
  pub hfm_until : Time

pub record BanEntry : Type 0 where
  pub re : String → Bool
  pub issued_at : Time

pub record Index : Type 0 where
  pub shards : ℕ → Dict FreshEntry
  pub bans : List BanEntry
  pub ban_count : ℕ
  pub max_grace : Duration

pub data FreshState : Type 0 where
  miss fresh stale : FreshState

-- `newFreshness`
abbrev pub new_index : Index
new_index = record { shards = λ i. []; bans = []; ban_count = 0; max_grace = pos 0 }

-- `shard(key)`
unfoldable pub shard_of : String → ℕ
shard_of key = fnv32 key % shard_total

abbrev pub with_entries : ℕ → Dict FreshEntry → Index → Index
with_entries i m f = record f { shards = λ j. if i == j then m else f.shards j }

-- `sh.entries[key]`, `sh.entries[key] = e` and `delete(sh.entries, key)`
unfoldable pub entry : String → Index → Option FreshEntry
entry key f = lookup key (f.shards (shard_of key))

unfoldable pub put : String → FreshEntry → Index → Index
put key e f = with_entries (shard_of key) (insert key e (f.shards (shard_of key))) f

unfoldable pub forget : String → Index → Index
forget key f = with_entries (shard_of key) (erase key (f.shards (shard_of key))) f

-- `observeWindow`: the compare-and-swap loop leaves the larger of the two.
unfoldable pub observe_window : Duration → Index → Index
observe_window w f = if leb_ℤ w f.max_grace then f else record f { max_grace = w }

unfoldable pub any_ban : String → Time → List BanEntry → Bool
any_ban key stored_at [] = false
any_ban key stored_at (b ∷ l) =
    if before stored_at b.issued_at && b.re key then true else any_ban key stored_at l

unfoldable pub banned : String → Time → Index → Bool
unfolding any_ban
banned key stored_at f = if f.ban_count == 0 then false else any_ban key stored_at f.bans

unfoldable pub prunable : FreshEntry → Time → Bool
prunable e now =
    if not (is_zero e.max_stale_until) then not (before now e.max_stale_until) else true

unfoldable pub store : Time → String → Duration → Duration → Duration → Index → Index
unfolding observe_window put int64
store now key ttl grace max_stale f =
    let window = int64 (ttl +ℤ grace) in
    let retention = int64 (window +ℤ max_stale) in
    let e : FreshEntry = record {
      stored_at = now;
      expires = now +ℤ ttl;
      grace_until = now +ℤ window;
      max_stale_until = if ltb_ℤ (pos 0) max_stale then now +ℤ retention else zero_time;
      hfm_until = zero_time;
    } in
    observe_window retention (put key e f)

unfoldable pub set_hit_for_miss : Time → String → Duration → Index → Index
unfolding observe_window put
set_hit_for_miss now key d f =
    let e : FreshEntry = record {
      stored_at = now;
      expires = zero_time;
      grace_until = zero_time;
      max_stale_until = zero_time;
      hfm_until = now +ℤ d;
    } in
    observe_window d (put key e f)

unfoldable pub hit_for_miss : Time → String → Index → Index × Bool
hit_for_miss now key f = elim (entry key f) [
  | none ↦ (f, false)
  | some e ↦
      if not (is_zero e.hfm_until)
      then (if before now e.hfm_until
          then (if banned key e.stored_at f then (forget key f, false) else (f, true))
          else (forget key f, false))
      else (f, false)
]

-- The `switch` that `lookup` and `classifyPrune` share, for an entry that is no marker.
unfoldable pub settle : Time → String → FreshEntry → Index → Index × FreshState
unfolding prunable
settle now key e f =
    if before now e.expires
    then (f, fresh)
    else if before now e.grace_until
    then (f, stale)
    else if prunable e now
    then (forget key f, miss)
    else (f, miss)

unfoldable pub find : Time → String → Index → Index × FreshState
unfolding settle
find now key f = elim (entry key f) [
  | none ↦ (f, miss)
  | some e ↦
      if not (is_zero e.hfm_until)
      then (f, miss)
      else if banned key e.stored_at f
      then (forget key f, miss)
      else settle now key e f
]

unfoldable pub classify_prune : Time → String → Index → Index × FreshState × Bool
unfolding settle
classify_prune now key f = elim (entry key f) [
  | none ↦ (f, miss, false)
  | some e ↦
      if not (is_zero e.hfm_until)
      then (if before now e.hfm_until
          then (if banned key e.stored_at f then (forget key f, miss, false) else (f, miss, true))
          else (forget key f, miss, false))
      else if banned key e.stored_at f
      then (forget key f, miss, false)
      else (let (g, state) = settle now key e f in (g, state, false))
]

-- The part of `classify` under the shared lock; `none` takes the write path.
unfoldable pub classify_shared : Time → String → Index → Option (FreshState × Bool)
classify_shared now key f = elim (entry key f) [
  | none ↦ some (miss, false)
  | some e ↦
      if not (is_zero e.hfm_until)
      then (if before now e.hfm_until && not (banned key e.stored_at f)
          then some (miss, true)
          else none)
      else if not (banned key e.stored_at f)
      then (if before now e.expires
          then some (fresh, false)
          else if before now e.grace_until
          then some (stale, false)
          else none)
      else none
]

-- `classify`, where no other call comes between its two locks.
unfoldable pub classify : Time → String → Index → Index × FreshState × Bool
unfolding classify_shared classify_prune
classify now key f = elim (classify_shared now key f) [
  | some (state, bypass) ↦ (f, state, bypass)
  | none ↦ classify_prune now key f
]

unfoldable pub stale_within : Time → String → Index → Bool
stale_within now key f = elim (entry key f) [
  | none ↦ false
  | some e ↦
      if is_zero e.max_stale_until
      then false
      else if not (is_zero e.hfm_until)
      then false
      else if banned key e.stored_at f
      then false
      else not (before now e.grace_until) && before now e.max_stale_until
]

unfoldable pub entry_reclaimable : String → FreshEntry → Time → Index → Bool
unfolding prunable
entry_reclaimable key e now f =
    if banned key e.stored_at f
    then true
    else if not (is_zero e.hfm_until)
    then not (before now e.hfm_until)
    else if before now e.grace_until
    then false
    else prunable e now

-- One shard's loop of `sweep`.
unfoldable pub sweep_entries : Time → Index → Dict FreshEntry → Dict FreshEntry
unfolding entry_reclaimable
sweep_entries now f [] = []
sweep_entries now f ((k, e) ∷ m) =
    let rest = sweep_entries now f m in if entry_reclaimable k e now f then rest else (k, e) ∷ rest

unfoldable pub sweep : Time → Index → Index
unfolding sweep_entries
sweep now f = record f { shards = λ i. sweep_entries now f (f.shards i) }

-- The bans that `ban` keeps: those after the cutoff.
unfoldable pub keep_after : Time → List BanEntry → List BanEntry
keep_after cutoff [] = []
keep_after cutoff (b ∷ l) =
    let rest = keep_after cutoff l in if before cutoff b.issued_at then b ∷ rest else rest

unfoldable pub count_matched : Time → (String → Bool) → Dict FreshEntry → ℕ
count_matched now re [] = 0
count_matched now re ((k, e) ∷ m) =
    (if before e.stored_at now && re k then 1 else 0) + count_matched now re m

-- A sum over the shards below `n`.
abbrev pub over_shards : (ℕ → ℕ) → ℕ → ℕ
over_shards g zero = 0
over_shards g (suc n) = g n + over_shards g n

-- The list with the new ban: pruned, capped, and extended.
unfoldable pub bans_with : Time → Duration → BanEntry → List BanEntry → List BanEntry
unfolding keep_after int64
bans_with now max_grace b l =
    let kept = keep_after (now +ℤ int64 (pos 0 -ℤ (max_grace +ℤ max_grace))) l in
    let capped =
      (if leb max_bans (length kept) then drop (length kept - max_bans + 1) kept else kept) in
    capped ++ b ∷ []

unfoldable pub ban : Time → (String → Bool) → Index → Index × ℕ
unfolding bans_with count_matched
ban now re f =
    let l = bans_with now f.max_grace (record { re = re; issued_at = now }) f.bans in
    (
      record f { bans = l; ban_count = length l },
      over_shards (λ i. count_matched now re (f.shards i)) shard_total,
    )

unfoldable pub stored_at : String → Index → Option Time
stored_at key f = elim (entry key f) [
  | none ↦ none
  | some e ↦ if not (is_zero e.hfm_until) then none else some e.stored_at
]

unfoldable pub lifetime : String → Index → Option Duration
lifetime key f = elim (entry key f) [
  | none ↦ none
  | some e ↦
      if not (is_zero e.hfm_until)
      then none
      else let d = e.expires -ℤ e.stored_at in some (if ltb_ℤ d (pos 0) then pos 0 else d)
]

-- `len`
unfoldable pub len : Index → ℕ
len f = over_shards (λ i. length (f.shards i)) shard_total
