-- ===== src/Cache/Disk/Reads.antt =====
-- Lookups and removals on a shard of the disk tier: internal/cache/disk.go.
use cadish.Cache.Disk.Agree.{
  Agrees, IsValid, lookup-remove_locked, max_bytes-remove_locked, remove_locked-Agrees,
  remove_locked-IsBacked, cur_bytes-remove_locked-le, get-read, blobs-remove_locked,
}
use cadish.Cache.Disk.{DiskShard, remove_locked, opened, read_found, get, delete}
use cadish.Cache.Meta.{ObjectMeta}
use cadish.Cache.Ring.{contains, remove, contains-remove, remove-IsRing}
use cadish.Cache.Tier.{Object}
use cadish.Prelude.Dict.{lookup, has, has-lookup}
use cadish.Prelude.Int.{pos}
use cadish.Prelude.{
  ℕ, ◌≡◌, refl, sym, ap, ◌∙◌, Bool, true, false, not, ◌&&◌, ◌⊎◌, List, ◌∷◌, Option, none, some,
  String, str_eq, eq_iff, length, if◌then◌else◌, is_some, arith, inl, inr, Bool-cases, Option-cases,
}

-- The shard with a key moved to the front.
abbrev touched : String → DiskShard → DiskShard
touched k s = record s { lru = k ∷ remove k s.lru }

touched-Agrees :
    (k : String) (s : DiskShard) → Agrees s → has k s.items ≡ true → Agrees (touched k s)
unfolding contains
touched-Agrees k s a h = record {
  distinct = a.distinct;
  ring =
      (ground (arith, contains-remove k k s.lru a.ring, eq_iff k k), remove-IsRing k s.lru a.ring);
  same = λ q. ground (arith, contains-remove k q s.lru a.ring, a.same q, h, eq_iff k q);
  counted = a.counted;
}

-- What a lookup of a key may answer: a miss only when the entry or its file is missing or the open fails,
-- and a hit only with the entry and the file of the key, a body of the size that the entry states.
abbrev pub Sound : (String → String) → Bool → String → DiskShard → Option Object → Type 0
Sound blob_path opens k s none = (opens ≡ false) ⊎ (lookup k s.items ≡ none)
Sound blob_path opens k s (some (m, b)) =
    (lookup k s.items ≡ some m)
    × (m.key ≡ k)
    × (s.blobs (blob_path k) ≡ some b)
    × (m.size ≡ pos (length b))

-- The entries that a lookup leaves: all of them, less that of the key when its file cannot be opened.
abbrev pub Leaves : Bool → String → DiskShard → DiskShard → Type 0
Leaves opens k s t =
    (q : String) → lookup q t.items ≡ (if str_eq k q && not opens then none else lookup q s.items)

module _ (blob_path : String → String) (unlinks : String → Bool)
    (apart : (k q : String) → str_eq k q ≡ false → str_eq (blob_path k) (blob_path q) ≡ false) where
  pub remove_locked-IsValid :
      (k : String) (s : DiskShard)
      → IsValid blob_path s
      → IsValid blob_path (remove_locked blob_path unlinks k s)
  remove_locked-IsValid k s v = record {
    agrees = remove_locked-Agrees blob_path unlinks k s v.agrees;
    files = remove_locked-IsBacked blob_path unlinks apart k s v.files;
    bounded = omega (
      arith,
      v.bounded,
      cur_bytes-remove_locked-le blob_path unlinks k s,
      max_bytes-remove_locked blob_path unlinks k s,
    );
  }

  touched-IsValid :
      (k : String) (s : DiskShard)
      → IsValid blob_path s
      → has k s.items ≡ true
      → IsValid blob_path (touched k s)
  touched-IsValid k s v h = record {
    agrees = touched-Agrees k s v.agrees h;
    files = record { backed = v.files.backed };
    bounded = v.bounded;
  }

  get-found :
      (opens : Bool) (k : String) (s : DiskShard) (m : ObjectMeta)
      → lookup k s.items ≡ some m
      → get blob_path unlinks opens k s
        ≡ read_found blob_path unlinks (opened blob_path opens k s) k m (touched k s)
  unfolding get
  get-found opens k s m e = ground (arith, e)

  get-missing :
      (opens : Bool) (k : String) (s : DiskShard)
      → lookup k s.items ≡ none
      → get blob_path unlinks opens k s ≡ (s, none)
  unfolding get
  get-missing opens k s e = ground (arith, e)

  get-hit :
      (k : String) (s : DiskShard) (m : ObjectMeta) (b : List ℕ)
      → lookup k s.items ≡ some m
      → s.blobs (blob_path k) ≡ some b
      → get blob_path unlinks true k s ≡ (touched k s, some (m, b))
  get-hit k s m b e p =
      get-found true k s m e ∙ ap (λ o. read_found blob_path unlinks o k m (touched k s)) p

  missing-Leaves :
      (opens : Bool) (k : String) (s : DiskShard) → lookup k s.items ≡ none → Leaves opens k s s
  missing-Leaves opens k s e q = ground (arith, eq_iff k q, e)

  lost-Leaves :
      (k : String) (s : DiskShard)
      → Leaves false k s (remove_locked blob_path unlinks k (touched k s))
  lost-Leaves k s q = ground (arith, lookup-remove_locked blob_path unlinks k q (touched k s))

  kept-Leaves : (k : String) (s : DiskShard) → Leaves true k s (touched k s)
  kept-Leaves k s q = ground arith

  -- A lookup on a valid shard, whether its file can be opened or not, leaves a valid shard with all other
  -- entries. It misses only when there is no entry or the open fails, and then has dropped the entry; else
  -- the hit is the entry of the key with its file, of the size that the entry states.
  pub get-Sound :
      (opens : Bool) (k : String) (s : DiskShard)
      → IsValid blob_path s
      → IsValid blob_path (get blob_path unlinks opens k s).0
        × Sound blob_path opens k s (get blob_path unlinks opens k s).1
        × Leaves opens k s (get blob_path unlinks opens k s).0
  get-Sound opens k s v = elim (Option-cases (lookup k s.items)) [
    | inl e ↦ rw (get-missing opens k s e) (v, inr e, missing-Leaves opens k s e)
    | inr (m, e) ↦
        let touched_valid = touched-IsValid k s v (has-lookup k s.items ∙ ap is_some e) in
        elim (Bool-cases opens) [
          | inl h ↦
              let (b, p, z, i) = v.files.backed k m e in
              rw (h, get-hit k s m b e p) (touched_valid, (e, i, p, z), kept-Leaves k s)
          | inr h ↦
              rw (h, get-found false k s m e)
                (remove_locked-IsValid k (touched k s) touched_valid, inl refl, lost-Leaves k s)
        ]
  ]

  -- A lookup that opens its file changes no read.
  pub get-get :
      (k q : String) (s : DiskShard)
      → IsValid blob_path s
      → (get blob_path unlinks true q (get blob_path unlinks true k s).0).1
        ≡ (get blob_path unlinks true q s).1
  get-get k q s v = elim (Option-cases (lookup k s.items)) [
    | inl e ↦ rw (get-missing true k s e) refl
    | inr (m, e) ↦
        let (b, p, z, i) = v.files.backed k m e in
        let left : (get blob_path unlinks true k s).0 ≡ touched k s =
          ap (λ r. r.0) (get-found true k s m e)
          ∙ ap (λ o. (read_found blob_path unlinks o k m (touched k s)).0) p in
        ap (λ t. (get blob_path unlinks true q t).1) left
        ∙ get-read blob_path unlinks q (touched k s)
        ∙ sym (get-read blob_path unlinks q s)
  ]

  pub get-delete :
      (k q : String) (s : DiskShard)
      → (get blob_path unlinks true q (delete blob_path unlinks k s)).1
        ≡ (if str_eq k q then none else (get blob_path unlinks true q s).1)
  get-delete k q s = elim (Bool-cases (str_eq k q)) [
    | inl h ↦ ground (
      arith,
      get-read blob_path unlinks q (remove_locked blob_path unlinks k s),
      lookup-remove_locked blob_path unlinks k q s,
      h,
    )
    | inr h ↦ ground (
      arith,
      get-read blob_path unlinks q (remove_locked blob_path unlinks k s),
      get-read blob_path unlinks q s,
      lookup-remove_locked blob_path unlinks k q s,
      blobs-remove_locked blob_path unlinks apart k q s h,
      h,
    )
  ]
