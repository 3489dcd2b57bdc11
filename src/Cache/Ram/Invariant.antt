-- ===== src/Cache/Ram/Invariant.antt =====
-- The invariant of a shard: its map, its ring and its counter hold the same objects.
use cadish.Cache.Ring.{contains, IsRing, contains-remove, remove-IsRing}
use cadish.Cache.Ram.{RamEntry, RamShard, drop_entry}
use cadish.Prelude.Dict.{
  Dict, IsDistinct, lookup, has, insert, total, weight_at, has-erase, erase-IsDistinct, total-erase,
}
use cadish.Prelude.{ℕ, ◌+◌, ◌≤◌, ◌≡◌, String, if◌then◌else◌, length, arith, inl, inr, Option-cases}

abbrev pub body_size : RamEntry → ℕ
body_size e = length e.body

abbrev pub ref_count : RamEntry → ℕ
ref_count e = if e.ref then 1 else 0

-- Map, ring and counter agree: the part of the invariant that holds inside `commit` too.
pub record Agrees (s : RamShard) : Type 0 where
  pub distinct : IsDistinct s.items
  pub ring : IsRing s.lru
  pub same : (k : String) → contains k s.lru ≡ has k s.items
  pub counted : s.cur_bytes ≡ total body_size s.items

pub record IsValid (s : RamShard) : Type 0 where
  pub agrees : Agrees s
  pub mirrored : s.atomic_bytes ≡ s.cur_bytes
  pub bounded : s.cur_bytes ≤ s.max_bytes

-- An update of an entry that keeps its body.
pub total-insert :
    (weight : RamEntry → ℕ) (k : String) (v : RamEntry) (m : Dict RamEntry)
    → IsDistinct m
    → total weight (insert k v m) + weight_at weight (lookup k m) ≡ weight v + total weight m
unfolding insert total
total-insert weight k v m d = omega (arith, total-erase weight k m d)

pub drop_entry-Agrees : (k : String) (s : RamShard) → Agrees s → Agrees (drop_entry k s)
unfolding drop_entry
drop_entry-Agrees k s a = elim (Option-cases (lookup k s.items)) [
  | inl e ↦ rw (e, drop_entry) a
  | inr (old, e) ↦
      rw (e, drop_entry)
        (record {
          distinct = erase-IsDistinct k s.items a.distinct;
          ring = remove-IsRing k s.lru a.ring;
          same = λ q.
              ground (arith, contains-remove k q s.lru a.ring, has-erase k q s.items, a.same q);
          counted =
              unfold weight_at in
              ground (arith, total-erase body_size k s.items a.distinct, a.counted, e);
        })
]
