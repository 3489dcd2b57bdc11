-- ===== src/Cache/Disk/Commit.antt =====
-- What a commit to a shard of the disk tier leaves behind: internal/cache/disk.go.
use cadish.Cache.Disk.Agree.{
  Agrees, IsBacked, IsValid, lookup-remove_locked, max_bytes-remove_locked, remove_locked-Agrees,
  remove_locked-IsBacked, get-read,
}
use cadish.Cache.Disk.Room.{Roomy, remove_locked-Stays, evict-Roomy, get-Stays, Stays-trans}
use cadish.Cache.Disk.{
  DiskShard, size_of, remove_locked, get, evict, discard, sized, install, commit,
}
use cadish.Cache.Meta.{ObjectMeta}
use cadish.Cache.Ring.{contains}
use cadish.Cache.Tier.{Outcome, stored, discarded, failed, Kept}
use cadish.Prelude.Dict.{
  Dict, IsDistinct, lookup, insert, total, weight_at, lookup-insert, has-insert, has-lookup,
  insert-IsDistinct, total-erase,
}
use cadish.Prelude.{
  ℕ, suc, ◌+◌, ◌≤◌, ◌<◌, ◌≡◌, ◌⊎◌, inl, inr, refl, sym, ap, ◌∙◌, Bool, true, false, List, none,
  some, String, str_eq, eq_iff, ltb, length, if◌then◌else◌, arith, Bool-cases,
}

total-insert_new :
    (k : String) (v : ObjectMeta) (m : Dict ObjectMeta)
    → IsDistinct m
    → lookup k m ≡ none
    → total size_of (insert k v m) ≡ size_of v + total size_of m
unfolding insert total weight_at
total-insert_new k v m d e = ground (arith, total-erase size_of k m d)

some-eq : {a b : ObjectMeta} → some a ≡ some b → a ≡ b
some-eq e = cc

module _ (blob_path : String → String) (unlinks : String → Bool)
    (apart : (k q : String) → str_eq k q ≡ false → str_eq (blob_path k) (blob_path q) ≡ false) where
  install-Agrees :
      (meta : ObjectMeta) (body : List ℕ) (s : DiskShard)
      → Agrees s
      → lookup meta.key s.items ≡ none
      → Agrees (install blob_path (sized meta body) body s)
  unfolding install
  install-Agrees meta body s a e = record {
    distinct = insert-IsDistinct meta.key m s.items a.distinct;
    ring =
        unfold contains in (ground (arith, a.same meta.key, has-lookup meta.key s.items), a.ring);
    same = λ q. unfold contains in ground (arith, has-insert meta.key q m s.items, a.same q);
    counted = ground (arith, total-insert_new meta.key m s.items a.distinct e, a.counted);
  }
    where
      m : ObjectMeta
      m = sized meta body

  lookup-install :
      (meta : ObjectMeta) (body : List ℕ) (s : DiskShard) (q : String)
      → lookup q (install blob_path (sized meta body) body s).items
        ≡ (if str_eq meta.key q then some (sized meta body) else lookup q s.items)
  unfolding install
  lookup-install meta body s q = lookup-insert meta.key q (sized meta body) s.items

  blobs-install :
      (meta : ObjectMeta) (body : List ℕ) (s : DiskShard) (q : String)
      → (install blob_path (sized meta body) body s).blobs (blob_path q)
        ≡ (if str_eq (blob_path meta.key) (blob_path q) then some body else s.blobs (blob_path q))
  unfolding install
  blobs-install meta body s q = refl

  install-IsBacked :
      (meta : ObjectMeta) (body : List ℕ) (s : DiskShard)
      → IsBacked blob_path s
      → IsBacked blob_path (install blob_path (sized meta body) body s)
  install-IsBacked meta body s f = record {
    backed = λ k n e. elim (Bool-cases (str_eq meta.key k)) [
      | inl h ↦
          let same : meta.key ≡ k = ground (arith, eq_iff meta.key k) in
          let n_is : sized meta body ≡ n =
            some-eq (ground (arith, lookup-install meta body s k, e, h)) in
          let path : blob_path meta.key ≡ blob_path k = ap blob_path same in
          (
            body,
            ground (
              arith,
              blobs-install meta body s k,
              eq_iff (blob_path meta.key) (blob_path k),
              path,
            ),
            ap (λ m. m.size) (sym n_is),
            ap (λ m. m.key) (sym n_is) ∙ same,
          )
      | inr h ↦
          let (b, p, z, i) = f.backed k n (ground (arith, lookup-install meta body s k, e, h)) in
          (b, ground (arith, blobs-install meta body s k, apart meta.key k h, p), z, i)
    ];
  }

  gone :
      (meta : ObjectMeta) (s t : DiskShard) {n : ℕ}
      → Roomy blob_path n (remove_locked blob_path unlinks meta.key s) t
      → lookup meta.key t.items ≡ none
  gone meta s t room =
      let r : DiskShard = remove_locked blob_path unlinks meta.key s in
      let e : lookup meta.key r.items ≡ none = ground (
        arith,
        lookup-remove_locked blob_path unlinks meta.key meta.key s,
        eq_iff meta.key meta.key,
      ) in
      elim (room.stays meta.key) [ inl g ↦ g | inr (k, b) ↦ k ∙ e ]

  -- What a commit that is not refused leaves.
  pub record Commits (renames : Bool) (meta : ObjectMeta) (body : List ℕ) (s t : DiskShard)
      : Type 0 where
    pub valid : IsValid blob_path t
    pub same_cap : t.max_bytes ≡ s.max_bytes
    pub its_key :
        (get blob_path unlinks true meta.key t).1
        ≡ (if renames then some (sized meta body, body) else none)
    pub others :
        (q : String)
        → str_eq meta.key q ≡ false
        → Kept (get blob_path unlinks true q s).1 (get blob_path unlinks true q t).1

  install-Commits :
      (meta : ObjectMeta) (body : List ℕ) (s t : DiskShard)
      → Roomy blob_path (length body) (remove_locked blob_path unlinks meta.key s) t
      → Commits true meta body s (install blob_path (sized meta body) body t)
  install-Commits meta body s t room =
      let r : DiskShard = remove_locked blob_path unlinks meta.key s in
      let u : DiskShard = install blob_path (sized meta body) body t in
      record {
        valid = record {
          agrees = install-Agrees meta body t room.agrees (gone meta s t room);
          files = install-IsBacked meta body t room.files;
          bounded = unfold install in room.fits;
        };
        same_cap =
            unfold install in
            (room.same_cap ∙ max_bytes-remove_locked blob_path unlinks meta.key s);
        its_key = ground (
          arith,
          get-read blob_path unlinks meta.key u,
          lookup-install meta body t meta.key,
          blobs-install meta body t meta.key,
          eq_iff meta.key meta.key,
          eq_iff (blob_path meta.key) (blob_path meta.key),
        );
        others = λ q h. get-Stays blob_path unlinks apart q s u (
            Stays-trans blob_path q s r u (remove_locked-Stays blob_path unlinks apart meta.key q s)
              (Stays-trans blob_path q r t u (room.stays q) (
                inr (
                  ground (arith, lookup-install meta body t q, h),
                  ground (arith, blobs-install meta body t q, apart meta.key q h),
                ))));
      }

  evicted-Commits :
      (meta : ObjectMeta) (body : List ℕ) (s t : DiskShard)
      → Roomy blob_path (length body) (remove_locked blob_path unlinks meta.key s) t
      → Commits false meta body s t
  evicted-Commits meta body s t room =
      let r : DiskShard = remove_locked blob_path unlinks meta.key s in
      record {
        valid = record {
          agrees = room.agrees;
          files = room.files;
          bounded = omega (arith, room.fits);
        };
        same_cap = room.same_cap ∙ max_bytes-remove_locked blob_path unlinks meta.key s;
        its_key = ground (arith, get-read blob_path unlinks meta.key t, gone meta s t room);
        others = λ q h. get-Stays blob_path unlinks apart q s t (
            Stays-trans blob_path q s r t (remove_locked-Stays blob_path unlinks apart meta.key q s)
              (room.stays q));
      }

  commit-small :
      (renames : Bool) (meta : ObjectMeta) (body : List ℕ) (s : DiskShard) (t : DiskShard)
      → ltb s.max_bytes (length body) ≡ false
      → evict blob_path unlinks
          (suc (length (remove_locked blob_path unlinks meta.key s).lru))
          (length body)
          (remove_locked blob_path unlinks meta.key s)
        ≡ some t
      → commit blob_path unlinks renames meta body s
        ≡ some
            (if renames then (install blob_path (sized meta body) body t, stored) else (t, failed))
  unfolding commit
  commit-small renames meta body s t h e = ground (arith, h, e)

  -- How a commit that is not refused ends.
  abbrev pub ending : Bool → Outcome
  ending renames = if renames then stored else failed

  small_commit :
      (renames : Bool) (meta : ObjectMeta) (body : List ℕ) (s t : DiskShard)
      → commit blob_path unlinks renames meta body s
        ≡ some
            (if renames then (install blob_path (sized meta body) body t, stored) else (t, failed))
      → ltb s.max_bytes (length body) ≡ false
      → Roomy blob_path (length body) (remove_locked blob_path unlinks meta.key s) t
      → (u : DiskShard) × (length body ≤ s.max_bytes)
        × (commit blob_path unlinks renames meta body s ≡ some (u, ending renames))
        × Commits renames meta body s u
  small_commit true meta body s t e h room = (
    install blob_path (sized meta body) body t,
    ground arith,
    e,
    install-Commits meta body s t room,
  )
  small_commit false meta body s t e h room =
      (t, ground arith, e, evicted-Commits meta body s t room)

  -- On a valid shard, and with blob paths that differ for different keys, `commit` ends. It refuses an
  -- object exactly when the object is larger than the shard's cap, and then only counts the refusal. Else
  -- the shard is valid again within the same cap, and every other key reads as before or is evicted; if
  -- the rename goes through, the key reads as the new object with its size recorded, and if it fails the
  -- key misses.
  pub commit-Commits :
      (renames : Bool) (meta : ObjectMeta) (body : List ℕ) (s : DiskShard)
      → IsValid blob_path s
      → ((s.max_bytes < length body)
          × (commit blob_path unlinks renames meta body s ≡ some (discard s, discarded)))
        ⊎ ((t : DiskShard) × (length body ≤ s.max_bytes)
            × (commit blob_path unlinks renames meta body s ≡ some (t, ending renames))
            × Commits renames meta body s t)
  commit-Commits renames meta body s v = elim (Bool-cases (ltb s.max_bytes (length body))) [
    | inl large ↦ inl (ground arith, unfold commit in rw large refl)
    | inr small ↦
        let r : DiskShard = remove_locked blob_path unlinks meta.key s in
        let (t, e, room) =
          evict-Roomy blob_path unlinks apart (suc (length r.lru)) (length body) r (omega arith)
            (remove_locked-Agrees blob_path unlinks meta.key s v.agrees)
            (remove_locked-IsBacked blob_path unlinks apart meta.key s v.files)
            (ground (arith, max_bytes-remove_locked blob_path unlinks meta.key s)) in
        inr (
          small_commit renames meta body s t (commit-small renames meta body s t small e) small
            room)
  ]
