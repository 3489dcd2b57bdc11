-- ===== src/Cache/Ram/Commit.antt =====
-- What each method of a shard leaves behind.
use cadish.Cache.Meta.{ObjectMeta}
use cadish.Cache.Ring.{contains}
use cadish.Cache.Ram.{
  RamEntry, RamShard, new_shard, get, drop_entry, delete, room_fuel, install, commit,
}
use cadish.Cache.Ram.Invariant.{body_size, Agrees, IsValid, total-insert, drop_entry-Agrees}
use cadish.Cache.Ram.Sweep.{total-ref_count-le, Survives, Roomy, make_room-Roomy}
use cadish.Prelude.Int.{pos}
use cadish.Prelude.Dict.{
  lookup, has, total, weight_at, lookup-erase, lookup-insert, has-insert, has-lookup,
  insert-IsDistinct,
}
use cadish.Prelude.{
  ℕ, ◌+◌, ◌≤◌, ◌<◌, ◌≡◌, ◌≢◌, refl, true, false, List, none, some, String, str_eq, eq_iff, ltb,
  if◌then◌else◌, length, arith, ◌⊎◌, inl, inr, Bool-cases, Option-cases, ◌∙◌,
}

pub new_shard-IsValid : (cap : ℕ) → IsValid (new_shard cap)
unfolding total contains has
new_shard-IsValid cap = record {
  agrees = record { distinct = tt; ring = tt; same = λ k. refl; counted = refl };
  mirrored = refl;
  bounded = omega arith;
}

lookup-drop_entry :
    (k q : String) (s : RamShard)
    → lookup q (drop_entry k s).items ≡ (if str_eq k q then none else lookup q s.items)
unfolding drop_entry
lookup-drop_entry k q s = ground (arith, eq_iff k q, lookup-erase k q s.items)

max_bytes-drop_entry : (k : String) (s : RamShard) → (drop_entry k s).max_bytes ≡ s.max_bytes
unfolding drop_entry
max_bytes-drop_entry k s = ground arith

install-IsValid :
    (meta : ObjectMeta) (body : List ℕ) (s : RamShard)
    → Agrees s
    → lookup meta.key s.items ≡ none
    → s.cur_bytes + length body ≤ s.max_bytes
    → IsValid (install meta body s)
unfolding install
install-IsValid meta body s a absent fits = record {
  agrees = record {
    distinct = insert-IsDistinct meta.key entry s.items a.distinct;
    ring =
        unfold contains in (ground (arith, a.same meta.key, has-lookup meta.key s.items), a.ring);
    same = λ q. unfold contains in ground (arith, has-insert meta.key q entry s.items, a.same q);
    counted =
        unfold weight_at in
        ground (arith, total-insert body_size meta.key entry s.items a.distinct, a.counted);
  };
  mirrored = refl;
  bounded = fits;
}
  where
    entry : RamEntry
    entry = record { meta = meta; body = body; ref = false }

-- What `commit` promises of the shard `t` that it leaves, when it installs the object.
pub record Commits (meta : ObjectMeta) (body : List ℕ) (s t : RamShard) : Type 0 where
  pub valid : IsValid t
  pub same_cap : t.max_bytes ≡ s.max_bytes
  pub stored : (get meta.key t).1 ≡ some (record meta { size = pos (length body) }, body)
  pub others : (q : String) → q ≢ meta.key → Survives (lookup q s.items) (lookup q t.items)

install-Commits :
    (meta : ObjectMeta) (body : List ℕ) (s t : RamShard)
    → Roomy (length body) (drop_entry meta.key s) t
    → Commits meta body s (install (record meta { size = pos (length body) }) body t)
install-Commits meta body s t room = record {
  valid = install-IsValid sized body t room.agrees absent room.fits;
  same_cap = unfold install in room.same_cap ∙ max_bytes-drop_entry meta.key s;
  stored =
      unfold install get in
      ground (
        arith,
        eq_iff meta.key meta.key,
        lookup-insert meta.key meta.key (record { meta = sized; body = body; ref = false }) t.items,
      );
  others = λ q other.
      unfold install in
      ground (
        arith,
        eq_iff meta.key q,
        lookup-insert meta.key q (record { meta = sized; body = body; ref = false }) t.items,
        lookup-drop_entry meta.key q s,
        room.survives q,
      );
}
  where
    sized : ObjectMeta
    sized = record meta { size = pos (length body) }

    absent : lookup meta.key t.items ≡ none
    absent = ground (
      arith,
      eq_iff meta.key meta.key,
      lookup-drop_entry meta.key meta.key s,
      room.survives meta.key,
    )

-- On a valid shard `commit` ends. It refuses an object exactly when the object is larger than the
-- shard's cap, and then changes nothing; else the shard is valid again, a `get` of the key returns the
-- new body with its size recorded, and every other entry is as it was or is evicted.
pub commit_lem :
    (meta : ObjectMeta) (body : List ℕ) (s : RamShard)
    → IsValid s
    → ((s.max_bytes < length body) × (commit meta body s ≡ some (s, false)))
      ⊎ ((t : RamShard) × (length body ≤ s.max_bytes)
          × (commit meta body s ≡ some (t, true))
          × Commits meta body s t)
unfolding commit
commit_lem meta body s v = elim (Bool-cases (ltb s.max_bytes (length body))) [
  | inl large ↦ inl (ground arith, rw large)
  | inr small ↦
      let cleared = drop_entry meta.key s in
      let (t, ended, room) =
        make_room-Roomy (room_fuel cleared) (length body) cleared
          (drop_entry-Agrees meta.key s v.agrees) (omega (arith, total-ref_count-le cleared.items))
          (ground (arith, max_bytes-drop_entry meta.key s)) in
      inr (
        install (record meta { size = pos (length body) }) body t,
        ground arith,
        ground (arith, ended),
        install-Commits meta body s t room,
      )
]

-- `get` changes no key's presence, no counter and no body, and returns what is stored.
pub get-IsValid : (key : String) (s : RamShard) → IsValid s → IsValid (get key s).0
unfolding get
get-IsValid key s v = elim (Option-cases (lookup key s.items)) [
  | inl e ↦ rw (e, get) v
  | inr (old, e) ↦
      rw (e, get)
        (record {
          agrees = record {
            distinct = insert-IsDistinct key (record old { ref = true }) s.items v.agrees.distinct;
            ring = v.agrees.ring;
            same = λ q. ground (
              arith,
              eq_iff key q,
              has-insert key q (record old { ref = true }) s.items,
              has-lookup key s.items,
              v.agrees.same q,
            );
            counted =
                unfold weight_at in
                ground (
                  arith,
                  total-insert body_size key (record old { ref = true }) s.items v.agrees.distinct,
                  v.agrees.counted,
                );
          };
          mirrored = v.mirrored;
          bounded = v.bounded;
        })
]

-- `delete` keeps the invariant, and takes out the key and nothing else.
pub delete_lem :
    (key : String) (s : RamShard)
    → IsValid s
    → IsValid (delete key s)
      × ((q : String) → (get q (delete key s)).1 ≡ (if str_eq key q then none else (get q s).1))
unfolding delete
delete_lem key s v = (valid, reads)
  where
    dropped : RamShard
    dropped = drop_entry key s

    le : dropped.cur_bytes ≤ dropped.max_bytes
    le = unfold drop_entry in ground (arith, v.bounded)

    valid : IsValid (delete key s)
    valid = elim (Option-cases (lookup key s.items)) [
      | inl e ↦ rw (e, delete) v
      | inr (old, e) ↦
          rw (e, delete)
            (record {
              agrees = record {
                distinct = (drop_entry-Agrees key s v.agrees).distinct;
                ring = (drop_entry-Agrees key s v.agrees).ring;
                same = (drop_entry-Agrees key s v.agrees).same;
                counted = (drop_entry-Agrees key s v.agrees).counted;
              };
              mirrored = refl;
              bounded = le;
            })
    ]

    reads : (q : String) → (get q (delete key s)).1 ≡ (if str_eq key q then none else (get q s).1)
    reads q = unfold get in ground (arith, eq_iff key q, lookup-drop_entry key q s)
