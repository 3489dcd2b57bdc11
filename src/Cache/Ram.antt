-- ===== src/Cache/Ram.antt =====
-- internal/cache/ram.go: one shard of the in-memory tier. The entry of a key and its ring node are
-- found by the key, for the pointer `el` of an entry is the node that holds its key. A method takes
-- the shard and returns the new one; the shard's lock makes each a step of its own.
pub mod Invariant
pub mod Sweep
pub mod Commit
pub mod Tier
pub mod Budget
pub mod Writers
pub mod Reads
pub mod WholeWrite
pub mod AsTier
pub mod Promise
use cadish.Cache.Meta.{ObjectMeta}
use cadish.Cache.Ring.{remove, back, drop_back}
use cadish.Prelude.Dict.{Dict, lookup, erase, insert}
use cadish.Prelude.Int.{pos}
use cadish.Prelude.{
  ℕ, zero, suc, ◌+◌, ◌-◌, Bool, true, false, List, [], ◌∷◌, Option, none, some, String, ltb, leb,
  if◌then◌else◌, length,
}

pub record RamEntry : Type 0 where
  pub meta : ObjectMeta
  pub body : List ℕ
  pub ref : Bool

pub record RamShard : Type 0 where
  pub max_bytes : ℕ
  pub cur_bytes : ℕ
  pub atomic_bytes : ℕ
  pub items : Dict RamEntry
  pub lru : List String

-- A shard as `NewRAMTier` makes it.
abbrev pub new_shard : ℕ → RamShard
new_shard cap = record { max_bytes = cap; cur_bytes = 0; atomic_bytes = 0; items = []; lru = [] }

-- `Get` on the owning shard: the ring stays, and the entry's reference bit is set.
unfoldable pub get : String → RamShard → RamShard × Option (ObjectMeta × List ℕ)
get key s = elim (lookup key s.items) [
  | none ↦ (s, none)
  | some e ↦
      (record s { items = insert key (record e { ref = true }) s.items }, some (e.meta, e.body))
]

-- The replacement of an old entry of the same key, before `atomicBytes` is stored: the part that
-- `commit` and `Delete` share.
unfoldable pub drop_entry : String → RamShard → RamShard
drop_entry key s = elim (lookup key s.items) [
  | none ↦ s
  | some old ↦ record s {
    cur_bytes = s.cur_bytes - length old.body;
    items = erase key s.items;
    lru = remove key s.lru;
  }
]

-- `Delete` on the owning shard.
unfoldable pub delete : String → RamShard → RamShard
unfolding drop_entry
delete key s = elim (lookup key s.items) [
  | none ↦ s
  | some old ↦ let dropped = drop_entry key s in record dropped { atomic_bytes = dropped.cur_bytes }
]

-- `Reset` on one shard.
unfoldable pub reset : RamShard → RamShard
reset s = record s { cur_bytes = 0; atomic_bytes = 0; items = []; lru = [] }

-- One round of the CLOCK loop, at the key `ek` of the ring's back.
unfoldable pub sweep_back : String → RamShard → RamShard
sweep_back ek s = elim (lookup ek s.items) [
  | none ↦ record s { lru = drop_back s.lru }
  | some ev ↦
      if ev.ref
      then record s {
        items = insert ek (record ev { ref = false }) s.items;
        lru = ek ∷ remove ek s.lru;
      }
      else record s {
        cur_bytes = s.cur_bytes - length ev.body;
        items = erase ek s.items;
        lru = drop_back s.lru;
      }
]

-- The CLOCK loop of `commit`, on fuel; `none` is a loop that has not ended.
unfoldable pub make_room : ℕ → ℕ → RamShard → Option RamShard
unfolding sweep_back
make_room zero size s = none
make_room (suc fuel) size s = elim (leb (s.cur_bytes + size) s.max_bytes) [
  | true ↦ some s
  | false ↦ elim (back s.lru) [ none ↦ some s | some ek ↦ make_room fuel size (sweep_back ek s) ]
]

-- Two rounds for each entry, and one more test.
abbrev pub room_fuel : RamShard → ℕ
room_fuel s = suc (length s.lru + length s.items)

-- `PushFront`, and the new map entry.
unfoldable pub install : ObjectMeta → List ℕ → RamShard → RamShard
install meta body s = record s {
  cur_bytes = s.cur_bytes + length body;
  atomic_bytes = s.cur_bytes + length body;
  items = insert meta.key (record { meta = meta; body = body; ref = false }) s.items;
  lru = meta.key ∷ s.lru;
}

-- `commit` on the owning shard: the flag says whether the object was installed.
unfoldable pub commit : ObjectMeta → List ℕ → RamShard → Option (RamShard × Bool)
unfolding drop_entry make_room install
commit meta body s =
    if ltb s.max_bytes (length body)
    then some (s, false)
    else let cleared = drop_entry meta.key s in
      elim (make_room (room_fuel cleared) (length body) cleared) [
        | none ↦ none
        | some roomy ↦ some (install (record meta { size = pos (length body) }) body roomy, true)
      ]
