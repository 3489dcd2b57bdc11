-- ===== src/Cache/Disk.antt =====
-- internal/cache/disk.go: one shard of the disk tier, with the directory of its blobs.
-- The file system is what the arguments say: the path of a key's blob, whether an open, a rename or an
-- unlink goes through. The atomic mirror of the counter is the counter.
pub mod Agree
pub mod Room
pub mod Commit
pub mod Reads
pub mod AsTier
pub mod Restart
use cadish.Cache.Meta.{ObjectMeta}
use cadish.Cache.Ring.{remove, back}
use cadish.Cache.Tier.{Outcome, stored, discarded, failed, Object}
use cadish.Prelude.Dict.{Dict, lookup, erase, insert}
use cadish.Prelude.Int.{ℤ, pos, pos_part}
use cadish.Prelude.{
  ℕ, zero, suc, ◌+◌, ◌-◌, Bool, true, false, List, [], ◌∷◌, Option, none, some, String, str_eq, not,
  ◌&&◌, ltb, leb, ◌==◌, length, if◌then◌else◌,
}

-- The blobs by their path.
abbrev pub Blobs : Type 0
Blobs = String → Option (List ℕ)

pub record DiskShard : Type 0 where
  pub max_bytes : ℕ
  pub cur_bytes : ℕ
  pub items : Dict ObjectMeta
  pub lru : List String
  pub dirty : Bool
  pub blobs : Blobs
  pub oversize_discards : ℕ
  pub no_tier_discards : ℕ

abbrev pub new_disk : ℕ → Blobs → DiskShard
new_disk cap blobs = record {
  max_bytes = cap;
  cur_bytes = 0;
  items = [];
  lru = [];
  dirty = false;
  blobs = blobs;
  oversize_discards = 0;
  no_tier_discards = 0;
}

-- `meta.Size` of an entry, which is never negative.
abbrev pub size_of : ObjectMeta → ℕ
size_of m = pos_part m.size

abbrev pub write_blob : String → Option (List ℕ) → Blobs → Blobs
write_blob path b blobs q = if str_eq path q then b else blobs q

abbrev pub discard : DiskShard → DiskShard
discard s =
    if s.max_bytes == 0
    then record s { no_tier_discards = suc s.no_tier_discards }
    else record s { oversize_discards = suc s.oversize_discards }

abbrev pub sized : ObjectMeta → List ℕ → ObjectMeta
sized meta body = record meta { size = pos (length body) }

abbrev pub keys_of : Dict ObjectMeta → List String
keys_of [] = []
keys_of ((k, m) ∷ items) = k ∷ keys_of items

-- What the index keeps of an entry: `Tier` is not written to it.
abbrev pub persisted : ObjectMeta → ObjectMeta
persisted m = record m { tier = "" }

-- `snapshotIfDirty`, as it is marshalled: the entries of the shard, front first.
unfoldable pub snapshot_from : List String → Dict ObjectMeta → List ObjectMeta
snapshot_from [] items = []
snapshot_from (k ∷ ks) items =
    let rest = snapshot_from ks items in
    elim (lookup k items) [ none ↦ rest | some m ↦ persisted m ∷ rest ]

unfoldable pub snapshot : DiskShard → List ObjectMeta × DiskShard
unfolding snapshot_from
snapshot s = (snapshot_from s.lru s.items, record s { dirty = false })

-- Of `load`: an entry goes to the front; its blob must have its size.
abbrev pub admit : ObjectMeta → DiskShard → DiskShard
admit m s = record s {
  cur_bytes = s.cur_bytes + size_of m;
  items = insert m.key m s.items;
  lru = m.key ∷ s.lru;
}

abbrev pub same_size : ℤ → List ℕ → Bool
same_size (pos n) b = length b == n
same_size _ b = false

module _ (blob_path : String → String) where
  -- What `os.Open` gives.
  abbrev pub opened : Bool → String → DiskShard → Option (List ℕ)
  opened opens k s = if opens then s.blobs (blob_path k) else none

  -- The renamed blob, its entry and its node.
  unfoldable pub install : ObjectMeta → List ℕ → DiskShard → DiskShard
  install meta body s = record s {
    cur_bytes = s.cur_bytes + length body;
    items = insert meta.key meta s.items;
    lru = meta.key ∷ s.lru;
    dirty = true;
    blobs = write_blob (blob_path meta.key) (some body) s.blobs;
  }

  module _ (unlinks : String → Bool) where
    -- `os.Remove`, its error ignored.
    abbrev pub unlink : String → Blobs → Blobs
    unlink path blobs = if unlinks path then write_blob path none blobs else blobs

    unfoldable pub remove_locked : String → DiskShard → DiskShard
    remove_locked k s = elim (lookup k s.items) [
      | none ↦ s
      | some m ↦ record s {
        cur_bytes = s.cur_bytes - size_of m;
        items = erase k s.items;
        lru = remove k s.lru;
        dirty = true;
        blobs = unlink (blob_path k) s.blobs;
      }
    ]

    abbrev pub read_found :
        Option (List ℕ) → String → ObjectMeta → DiskShard → DiskShard × Option Object
    read_found none k m s = (remove_locked k s, none)
    read_found (some b) k m s = (s, some (m, b))

    -- `Get`; a blob that cannot be opened drops the entry.
    unfoldable pub get : Bool → String → DiskShard → DiskShard × Option Object
    unfolding remove_locked
    get opens k s = elim (lookup k s.items) [
      | none ↦ (s, none)
      | some m ↦ read_found (opened opens k s) k m (record s { lru = k ∷ remove k s.lru })
    ]

    -- The eviction loop, from the least recently used entry on.
    unfoldable pub evict : ℕ → ℕ → DiskShard → Option DiskShard
    unfolding remove_locked
    evict zero n s = none
    evict (suc fuel) n s = elim (leb (s.cur_bytes + n) s.max_bytes) [
      | true ↦ some s
      | false ↦ elim (back s.lru) [ none ↦ some s | some k ↦ evict fuel n (remove_locked k s) ]
    ]

    -- `commit`, when the rename goes through or not; `none` when the fuel of the loop ends.
    unfoldable pub commit : Bool → ObjectMeta → List ℕ → DiskShard → Option (DiskShard × Outcome)
    unfolding remove_locked evict install
    commit renames meta body s =
        if ltb s.max_bytes (length body)
        then some (discard s, discarded)
        else let cleared = remove_locked meta.key s in
          elim (evict (suc (length cleared.lru)) (length body) cleared) [
            | none ↦ none
            | some t ↦
                some (if renames then (install (sized meta body) body t, stored) else (t, failed))
          ]

    unfoldable pub remove_all : List String → DiskShard → DiskShard
    unfolding remove_locked
    remove_all [] s = s
    remove_all (k ∷ ks) s = remove_all ks (remove_locked k s)

    -- `Reset`, with the flush of the emptied index, which may fail.
    unfoldable pub reset : Bool → DiskShard → DiskShard
    unfolding remove_all
    reset flushes s =
        let t = remove_all (keys_of s.items) s in record t { dirty = t.dirty && not flushes }

    -- `Delete`
    abbrev pub delete : String → DiskShard → DiskShard
    delete k s = remove_locked k s

    abbrev pub refuse : ObjectMeta → DiskShard → DiskShard
    refuse m s = record s { blobs = unlink (blob_path m.key) s.blobs }

    unfoldable pub load_entry : ObjectMeta → DiskShard → DiskShard
    load_entry m s = elim (s.blobs (blob_path m.key)) [
      | none ↦ refuse m s
      | some b ↦
          if same_size m.size b
          then (if ltb s.max_bytes (size_of m) then refuse m s else admit m s)
          else refuse m s
    ]

    -- The entries from the last to the first.
    unfoldable pub load_entries : List ObjectMeta → DiskShard → DiskShard
    unfolding load_entry
    load_entries [] s = s
    load_entries (m ∷ ms) s = load_entry m (load_entries ms s)

    -- `load` of a new shard, by the entries of the index that hash to it.
    unfoldable pub load : List ObjectMeta → DiskShard → Option DiskShard
    unfolding load_entries evict
    load ms s = let t = load_entries ms s in evict (suc (length t.lru)) 0 t
