-- ===== src/Cache/Disk/Agree.antt =====
-- The invariant of a shard of the disk tier, and what a removal does: internal/cache/disk.go.
use cadish.Cache.Disk.{DiskShard, Blobs, new_disk, size_of, remove_locked, get}
use cadish.Cache.Meta.{ObjectMeta}
use cadish.Cache.Ring.{contains, IsRing, contains-remove, remove-IsRing, length-remove}
use cadish.Cache.Tier.{Object}
use cadish.Prelude.Dict.{
  IsDistinct, lookup, has, total, weight_at, lookup-erase, has-erase, has-lookup, erase-IsDistinct,
  total-erase,
}
use cadish.Prelude.Int.{pos}
use cadish.Prelude.{
  ℕ, ◌+◌, ◌≤◌, ◌≡◌, refl, ◌∙◌, Bool, true, false, List, [], Option, none, some, String, str_eq,
  eq_iff, length, if◌then◌else◌, arith, inl, inr, Option-cases, Bool-cases,
}

-- Map, list and counter hold the same objects.
pub record Agrees (s : DiskShard) : Type 0 where
  pub distinct : IsDistinct s.items
  pub ring : IsRing s.lru
  pub same : (k : String) → contains k s.lru ≡ has k s.items
  pub counted : s.cur_bytes ≡ total size_of s.items

-- An entry stands under its key, its blob is there, and has its size.
pub record IsBacked (blob_path : String → String) (s : DiskShard) : Type 0 where
  pub backed :
      (k : String) (m : ObjectMeta)
      → lookup k s.items ≡ some m
      → (b : List ℕ) × (s.blobs (blob_path k) ≡ some b) × (m.size ≡ pos (length b)) × (m.key ≡ k)

pub record IsValid (blob_path : String → String) (s : DiskShard) : Type 0 where
  pub agrees : Agrees s
  pub files : IsBacked blob_path s
  pub bounded : s.cur_bytes ≤ s.max_bytes

-- What a reader of a key gets when files can be opened.
abbrev pub read_of : Option ObjectMeta → Option (List ℕ) → Option Object
read_of none b = none
read_of (some m) none = none
read_of (some m) (some b) = some (m, b)

pub new_disk-IsValid :
    (blob_path : String → String) (room : ℕ) (blobs : Blobs)
    → IsValid blob_path (new_disk room blobs)
unfolding total contains has
new_disk-IsValid blob_path room blobs = record {
  agrees = record { distinct = tt; ring = tt; same = λ k. refl; counted = refl };
  files = record { backed = λ k m e. absurd (nothing k m e) };
  bounded = omega arith;
}
  where
    nothing : (k : String) (m : ObjectMeta) → lookup k [] ≡ some m → ⊥
    nothing k m e = unfold lookup in cc

module _ (blob_path : String → String) (unlinks : String → Bool) where
  pub lookup-remove_locked :
      (k q : String) (s : DiskShard)
      → lookup q (remove_locked blob_path unlinks k s).items
        ≡ (if str_eq k q then none else lookup q s.items)
  unfolding remove_locked
  lookup-remove_locked k q s = ground (arith, eq_iff k q, lookup-erase k q s.items)

  pub max_bytes-remove_locked :
      (k : String) (s : DiskShard) → (remove_locked blob_path unlinks k s).max_bytes ≡ s.max_bytes
  unfolding remove_locked
  max_bytes-remove_locked k s = ground arith

  pub remove_locked-Agrees :
      (k : String) (s : DiskShard) → Agrees s → Agrees (remove_locked blob_path unlinks k s)
  unfolding remove_locked
  remove_locked-Agrees k s a = elim (Option-cases (lookup k s.items)) [
    | inl e ↦ rw (e, remove_locked) a
    | inr (old, e) ↦
        rw (e, remove_locked)
          (record {
            distinct = erase-IsDistinct k s.items a.distinct;
            ring = remove-IsRing k s.lru a.ring;
            same = λ q.
                ground (arith, contains-remove k q s.lru a.ring, has-erase k q s.items, a.same q);
            counted =
                unfold weight_at in
                ground (arith, total-erase size_of k s.items a.distinct, a.counted, e);
          })
  ]

  pub cur_bytes-remove_locked-le :
      (k : String) (s : DiskShard) → (remove_locked blob_path unlinks k s).cur_bytes ≤ s.cur_bytes
  unfolding remove_locked
  cur_bytes-remove_locked-le k s = ground arith

  pub length-remove_locked :
      (k : String) (s : DiskShard)
      → Agrees s
      → contains k s.lru ≡ true
      → length (remove_locked blob_path unlinks k s).lru + 1 ≡ length s.lru
  unfolding remove_locked
  length-remove_locked k s a h =
      ground (arith, a.same k, has-lookup k s.items, length-remove k s.lru h)

  -- Paths of different keys differ.
  module _
      (apart : (k q : String)
        → str_eq k q ≡ false
        → str_eq (blob_path k) (blob_path q) ≡ false) where
    pub blobs-remove_locked :
        (k q : String) (s : DiskShard)
        → str_eq k q ≡ false
        → (remove_locked blob_path unlinks k s).blobs (blob_path q) ≡ s.blobs (blob_path q)
    unfolding remove_locked
    blobs-remove_locked k q s h = ground (arith, apart k q h)

    pub remove_locked-IsBacked :
        (k : String) (s : DiskShard)
        → IsBacked blob_path s
        → IsBacked blob_path (remove_locked blob_path unlinks k s)
    remove_locked-IsBacked k s f = record {
      backed = λ q m e. elim (Bool-cases (str_eq k q)) [
        | inl same ↦ absurd (ground (arith, lookup-remove_locked k q s, e, same))
        | inr other ↦
            let (b, p, z, n) =
              f.backed q m (ground (arith, lookup-remove_locked k q s, e, other)) in
            (b, blobs-remove_locked k q s other ∙ p, z, n)
      ];
    }

  pub get-read :
      (q : String) (s : DiskShard)
      → (get blob_path unlinks true q s).1 ≡ read_of (lookup q s.items) (s.blobs (blob_path q))
  unfolding get
  get-read q s = ground arith
