-- ===== src/Cache/Ram/Tier.antt =====
-- internal/cache/ram.go: the whole in-memory tier, and its writers. The buffer pools recycle
-- storage only, so buffers are values here: `none` is a nil buffer. A call that would fault (a write
-- into a nil buffer, a tier with no shard) or a loop that does not end is `none`.
use cadish.Cache.Meta.{ObjectMeta}
use cadish.Cache.Ram.{RamShard, new_shard}
use cadish.Cache.Ram
use cadish.Cache.Shard.{shard_count, shard_caps, shard_index}
use cadish.Prelude.Int.{ℤ, pos, ◌+ℤ◌, ◌-ℤ◌, ltb_ℤ}
use cadish.Prelude.{
  ℕ, ◌+◌, ◌-◌, Bool, true, false, ◌&&◌, List, [], ◌∷◌, ◌++◌, map, Option, none, some, String, ltb,
  ◌==◌, if◌then◌else◌, length, get_elem?, set,
}

pub record RamTier : Type 0 where
  pub max_bytes : ℕ
  pub shards : List RamShard
  pub max_object_bytes : ℕ
  pub inflight_bytes : ℤ
  pub inflight_budget : ℕ

-- `NewRAMTier`
unfoldable pub new_tier : ℕ → ℕ → ℕ → RamTier
new_tier max_bytes max_object_bytes inflight_budget = record {
  max_bytes = max_bytes;
  shards = map new_shard (shard_caps max_bytes (shard_count max_bytes));
  max_object_bytes = max_object_bytes;
  inflight_bytes = pos 0;
  inflight_budget = inflight_budget;
}

abbrev pub index_of : String → RamTier → ℕ
index_of key r = shard_index key (length r.shards)

-- `shard(key)`
abbrev pub shard : String → RamTier → Option RamShard
shard key r = get_elem? r.shards (index_of key r)

abbrev pub with_shard : String → RamShard → RamTier → RamTier
with_shard key s r = record r { shards = set r.shards (index_of key r) s }

unfoldable pub get : String → RamTier → RamTier × Option (ObjectMeta × List ℕ)
get key r = elim (shard key r) [
  | none ↦ (r, none)
  | some s ↦ let (s', found) = Ram.get key s in (with_shard key s' r, found)
]

unfoldable pub delete : String → RamTier → RamTier
delete key r = elim (shard key r) [ none ↦ r | some s ↦ with_shard key (Ram.delete key s) r ]

unfoldable pub reset : RamTier → RamTier
reset r = record r { shards = map Ram.reset r.shards }

-- `Bytes`: the sum of the lock-free mirrors.
unfoldable pub bytes : List RamShard → ℕ
bytes [] = 0
bytes (s ∷ l) = s.atomic_bytes + bytes l

-- `Len`
unfoldable pub count_entries : List RamShard → ℕ
count_entries [] = 0
count_entries (s ∷ l) = length s.items + count_entries l

-- `commit`
unfoldable pub commit : ObjectMeta → List ℕ → RamTier → Option (RamTier × Bool)
commit meta body r = elim (shard meta.key r) [
  | none ↦ none
  | some s ↦ elim (Ram.commit meta body s) [
    | none ↦ none
    | some (s', stored) ↦ some (with_shard meta.key s' r, stored)
  ]
]

-- `reserve`: a charge is one successful compare-and-swap, so it is one step.
unfoldable pub reserve : ℕ → RamTier → RamTier × Bool
reserve delta r =
    if r.inflight_budget == 0
    then (r, true)
    else if ltb_ℤ (pos r.inflight_budget) (r.inflight_bytes +ℤ pos delta)
    then (r, false)
    else (record r { inflight_bytes = r.inflight_bytes +ℤ pos delta }, true)

unfoldable pub release : ℕ → RamTier → RamTier
release n r = if ltb 0 n then record r { inflight_bytes = r.inflight_bytes -ℤ pos n } else r

pub record RamWriter : Type 0 where
  pub meta : ObjectMeta
  pub buf : Option (List ℕ)
  pub reserved : ℕ
  pub overflow : Bool
  pub stored : Bool

-- `Writer`
abbrev pub new_writer : ObjectMeta → RamWriter
new_writer meta = record {
  meta = meta;
  buf = some [];
  reserved = 0;
  overflow = false;
  stored = false;
}

unfoldable pub drop_buffer : RamTier → RamWriter → RamTier × RamWriter
unfolding release
drop_buffer r w = (release w.reserved r, record w { overflow = true; buf = none; reserved = 0 })

-- The part of `Write` behind the per-object cap: `need` is the length with the new bytes.
unfoldable pub write_reserved : RamTier → RamWriter → List ℕ → ℕ → RamTier × RamWriter
unfolding reserve drop_buffer
write_reserved r w body need =
    if ltb w.reserved need
    then (let (r', granted) = reserve (need - w.reserved) r in
        if granted
        then (r', record w { reserved = w.reserved + (need - w.reserved); buf = some body })
        else drop_buffer r' w)
    else (r, record w { buf = some body })

-- `Write`. It reports the length of `p` in every case.
unfoldable pub write : RamTier → RamWriter → List ℕ → Option (RamTier × RamWriter)
unfolding write_reserved
write r w p = if w.overflow then some (r, w) else elim w.buf [
  | none ↦ none
  | some b ↦
      let need = length b + length p in
      some (
        if ltb 0 r.max_object_bytes && ltb r.max_object_bytes need
        then drop_buffer r w
        else write_reserved r w (b ++ p) need)
]

-- The end of `Commit` and of `Abort`: the buffer is gone and the reservation returned.
abbrev pub settle : RamTier → RamWriter → RamTier × RamWriter
settle r w = (release w.reserved r, record w { buf = none; reserved = 0 })

-- `Commit`. The small-object path copies the bytes and the large one hands them over: the same value.
unfoldable pub commit_writer : RamTier → RamWriter → Option (RamTier × RamWriter)
commit_writer r w = if w.overflow then some (settle r w) else elim w.buf [
  | none ↦ none
  | some b ↦ elim (commit w.meta b r) [
    | none ↦ none
    | some (r', stored) ↦ some (settle r' (record w { stored = stored }))
  ]
]

-- `Abort`
abbrev pub abort_writer : RamTier → RamWriter → RamTier × RamWriter
abort_writer r w = settle r w
