-- ===== src/Cache/Disk/Room.antt =====
-- The eviction loop of the disk tier, round by round: internal/cache/disk.go.
use cadish.Cache.Disk.Agree.{
  Agrees, IsBacked, lookup-remove_locked, max_bytes-remove_locked, remove_locked-Agrees,
  length-remove_locked, blobs-remove_locked, remove_locked-IsBacked, get-read,
}
use cadish.Cache.Disk.{DiskShard, size_of, remove_locked, get, evict}
use cadish.Cache.Ring.{back, contains-back, contains-back-none}
use cadish.Cache.Tier.{Kept}
use cadish.Prelude.Dict.{lookup, total_none}
use cadish.Prelude.{
  ℕ, zero, suc, ◌+◌, ◌≤◌, ◌<◌, ◌≡◌, ◌⊎◌, inl, inr, refl, sym, ◌∙◌, Bool, true, false, none, some,
  String, str_eq, leb, length, arith, Bool-cases, Option-cases,
}

-- A key has gone, or its entry and its blob are as they were.
abbrev pub Stays : (String → String) → String → DiskShard → DiskShard → Type 0
Stays blob_path q s t =
    (lookup q t.items ≡ none)
    ⊎ ((lookup q t.items ≡ lookup q s.items) × (t.blobs (blob_path q) ≡ s.blobs (blob_path q)))

pub Stays-trans :
    (blob_path : String → String) (q : String) (s t u : DiskShard)
    → Stays blob_path q s t
    → Stays blob_path q t u
    → Stays blob_path q s u
Stays-trans blob_path q s t u h (inl gone) = inl gone
Stays-trans blob_path q s t u (inl gone) (inr (e, b)) = inl (e ∙ gone)
Stays-trans blob_path q s t u (inr (d, a)) (inr (e, b)) = inr (e ∙ d, b ∙ a)

-- A shard with room for `n` bytes, made from another by removals.
pub record Roomy (blob_path : String → String) (n : ℕ) (s t : DiskShard) : Type 0 where
  pub agrees : Agrees t
  pub files : IsBacked blob_path t
  pub fits : t.cur_bytes + n ≤ t.max_bytes
  pub same_cap : t.max_bytes ≡ s.max_bytes
  pub stays : (q : String) → Stays blob_path q s t

empty_ring : (s : DiskShard) → Agrees s → back s.lru ≡ none → s.cur_bytes ≡ 0
empty_ring s a e =
    a.counted ∙ total_none size_of s.items (λ q. sym (a.same q) ∙ contains-back-none q s.lru e)

module _ (blob_path : String → String) (unlinks : String → Bool)
    (apart : (k q : String) → str_eq k q ≡ false → str_eq (blob_path k) (blob_path q) ≡ false) where
  pub remove_locked-Stays :
      (k q : String) (s : DiskShard) → Stays blob_path q s (remove_locked blob_path unlinks k s)
  remove_locked-Stays k q s = elim (Bool-cases (str_eq k q)) [
    | inl h ↦ inl (lookup-remove_locked blob_path unlinks k q s ∙ rw h refl)
    | inr h ↦ inr (
      lookup-remove_locked blob_path unlinks k q s ∙ rw h refl,
      blobs-remove_locked blob_path unlinks apart k q s h,
    )
  ]

  evict_room :
      (fuel n : ℕ) (s : DiskShard)
      → leb (s.cur_bytes + n) s.max_bytes ≡ true
      → evict blob_path unlinks (suc fuel) n s ≡ some s
  unfolding evict
  evict_room fuel n s h = ground arith

  evict_empty :
      (fuel n : ℕ) (s : DiskShard)
      → leb (s.cur_bytes + n) s.max_bytes ≡ false
      → back s.lru ≡ none
      → evict blob_path unlinks (suc fuel) n s ≡ some s
  unfolding evict
  evict_empty fuel n s h e = ground arith

  evict_one :
      (fuel n : ℕ) (s : DiskShard) (k : String)
      → leb (s.cur_bytes + n) s.max_bytes ≡ false
      → back s.lru ≡ some k
      → evict blob_path unlinks (suc fuel) n s
        ≡ evict blob_path unlinks fuel n (remove_locked blob_path unlinks k s)
  unfolding evict
  evict_one fuel n s k h e = ground arith

  pub evict-Roomy :
      (fuel n : ℕ) (s : DiskShard)
      → length s.lru < fuel
      → Agrees s
      → IsBacked blob_path s
      → n ≤ s.max_bytes
      → (t : DiskShard) × (evict blob_path unlinks fuel n s ≡ some t) × Roomy blob_path n s t
  evict-Roomy zero n s h a f c = absurd (omega (arith, h))
  evict-Roomy (suc fuel) n s h a f c = elim (Bool-cases (leb (s.cur_bytes + n) s.max_bytes)) [
    | inl l ↦ (
      s,
      evict_room fuel n s l,
      record {
        agrees = a;
        files = f;
        fits = ground arith;
        same_cap = refl;
        stays = λ q. inr (refl, refl);
      },
    )
    | inr l ↦ elim (Option-cases (back s.lru)) [
      | inl e ↦ absurd (ground (arith, empty_ring s a e))
      | inr (k, e) ↦
          let r : DiskShard = remove_locked blob_path unlinks k s in
          let (t, ended, room) =
            evict-Roomy fuel n r
              (omega
                (arith, h, length-remove_locked blob_path unlinks k s a (contains-back k s.lru e)))
              (remove_locked-Agrees blob_path unlinks k s a)
              (remove_locked-IsBacked blob_path unlinks apart k s f)
              (omega (arith, c, max_bytes-remove_locked blob_path unlinks k s)) in
          (
            t,
            evict_one fuel n s k l e ∙ ended,
            record {
              agrees = room.agrees;
              files = room.files;
              fits = room.fits;
              same_cap = room.same_cap ∙ max_bytes-remove_locked blob_path unlinks k s;
              stays = λ q. Stays-trans blob_path q s r t (remove_locked-Stays k q s) (room.stays q);
            },
          )
    ]
  ]

  -- What a reader gets of a key that stays.
  pub get-Stays :
      (q : String) (s t : DiskShard)
      → Stays blob_path q s t
      → Kept (get blob_path unlinks true q s).1 (get blob_path unlinks true q t).1
  get-Stays q s t (inl gone) = inl (ground (arith, get-read blob_path unlinks q t))
  get-Stays q s t (inr (e, b)) =
      inr (ground (arith, get-read blob_path unlinks q t, get-read blob_path unlinks q s))
