-- ===== src/Cache/Disk/Restart.antt =====
-- The index that a shard writes, and the shard that is loaded from it: internal/cache/disk.go.
use cadish.Cache.Disk.{DiskShard, Blobs, persisted, size_of}
use cadish.Cache.Meta.{ObjectMeta}
use cadish.Cache.Ring.{contains}
use cadish.Cache.Tier.{Object}
use cadish.Prelude.Dict.{Dict, lookup, weight_at}
use cadish.Prelude.{ℕ, ◌+◌, ◌≡◌, List, [], ◌∷◌, Option, none, some, String, if◌then◌else◌}

-- The bytes of the entries of some keys.
unfoldable bytes_of : List String → Dict ObjectMeta → ℕ
unfolding weight_at
bytes_of [] m = 0
bytes_of (k ∷ ks) m = weight_at size_of (lookup k m) + bytes_of ks m

-- An entry as it comes back from the index, and an object with such an entry.
abbrev pub kept_of : Option ObjectMeta → Option ObjectMeta
kept_of none = none
kept_of (some m) = some (persisted m)

abbrev pub object_of : Option Object → Option Object
object_of none = none
object_of (some (m, b)) = some (persisted m, b)

record Loaded (l : List String) (m : Dict ObjectMeta) (room : ℕ) (blobs : Blobs) (t : DiskShard)
    : Type 0 where
  its_lru : t.lru ≡ l
  its_bytes : t.cur_bytes ≡ bytes_of l m
  its_cap : t.max_bytes ≡ room
  its_blobs : t.blobs ≡ blobs
  its_items :
      (q : String) → lookup q t.items ≡ (if contains q l then kept_of (lookup q m) else none)
