-- ===== src/Tests/Disk.antt =====
-- internal/cache/disk.go: a shard of 10 bytes that takes in three objects, and a restart.
use cadish.Cache.Disk.Agree.{IsValid}
use cadish.Cache.Disk.Commit.{Commits, commit-Commits, ending}
use cadish.Cache.Disk.Reads.{Sound, Leaves, get-Sound}
use cadish.Cache.Disk.{DiskShard, new_disk, write_blob, sized, discard, get, commit}
use cadish.Cache.Meta.{ObjectMeta}
use cadish.Cache.Ring.{back, remove, contains}
use cadish.Cache.Tier.{Outcome, stored, discarded}
use cadish.Prelude.Dict.{lookup, has, total, erase, insert}
use cadish.Prelude.Int.{pos}
use cadish.Prelude.{
  ℕ, ◌≤◌, ◌<◌, ◌≡◌, ◌⊎◌, refl, Bool, true, false, List, [], ◌∷◌, Option, none, some, String, str_eq,
  length, arith, ap, sym, ◌∙◌, eq_iff, inl, inr, Bool-cases,
}

abbrev own_path : String → String
own_path k = k

own_path_apart : (k q : String) → str_eq k q ≡ false → str_eq (own_path k) (own_path q) ≡ false
own_path_apart k q h = h

abbrev can_unlink : String → Bool
can_unlink p = true

abbrev object : String → ObjectMeta
object k = record {
  key = k;
  size = pos 0;
  content_type = "";
  etag = "";
  last_modified = "";
  content_encoding = "";
  vary = "";
  status = 200;
  forced_private = false;
  tier = "disk";
}

abbrev empty_disk : DiskShard
empty_disk = new_disk 10 (λ p. none)

abbrev then_store : String → List ℕ → Option (DiskShard × Outcome) → Option (DiskShard × Outcome)
then_store k b none = none
then_store k b (some (s, o)) = commit own_path can_unlink true (object k) b s

abbrev keys_left : Option (DiskShard × Outcome) → List String
keys_left none = []
keys_left (some (s, o)) = s.lru

abbrev four_bytes : List ℕ
four_bytes = 1 ∷ 2 ∷ 3 ∷ 4 ∷ []

-- The third object does not fit beside the first two: the first one goes.
oldest_goes :
    keys_left (
      then_store "/c" four_bytes
        (then_store "/b" four_bytes (then_store "/a" four_bytes (some (empty_disk, stored)))))
    ≡ "/c" ∷ "/b" ∷ []
unfolding commit lookup erase insert back remove
oldest_goes = refl

-- A shard with one object.
abbrev stocked : DiskShard
stocked = record {
  max_bytes = 10;
  cur_bytes = 4;
  items = ("/a", sized (object "/a") four_bytes) ∷ [];
  lru = "/a" ∷ [];
  dirty = true;
  blobs = write_blob "/a" (some four_bytes) (λ p. none);
  oversize_discards = 0;
  no_tier_discards = 0;
}

stocked_backed :
    (k : String) (m : ObjectMeta)
    → lookup k stocked.items ≡ some m
    → (b : List ℕ) × (stocked.blobs k ≡ some b) × (m.size ≡ pos (length b)) × (m.key ≡ k)
unfolding lookup
stocked_backed k m e = elim (Bool-cases (str_eq "/a" k)) [
  | inl h ↦
      let is : sized (object "/a") four_bytes ≡ m = ground (arith, h, e) in
      (
        four_bytes,
        ground (arith, h),
        ap (λ n. n.size) (sym is),
        ap (λ n. n.key) (sym is) ∙ ground (arith, eq_iff "/a" k, h),
      )
  | inr h ↦ absurd (ground (arith, h, e))
]

stocked-IsValid : IsValid own_path stocked
unfolding has contains total
stocked-IsValid = record {
  agrees = record { distinct = (refl, tt); ring = (refl, tt); same = λ k. refl; counted = refl };
  files = record { backed = stocked_backed };
  bounded = omega arith;
}

commit-Commits_example :
    ((stocked.max_bytes < length four_bytes)
      × (commit own_path can_unlink true (object "/b") four_bytes stocked
          ≡ some (discard stocked, discarded)))
    ⊎ ((t : DiskShard) × (length four_bytes ≤ stocked.max_bytes)
        × (commit own_path can_unlink true (object "/b") four_bytes stocked
            ≡ some (t, ending own_path can_unlink own_path_apart true))
        × Commits own_path can_unlink own_path_apart true (object "/b") four_bytes stocked t)
commit-Commits_example =
    commit-Commits own_path can_unlink own_path_apart true (object "/b") four_bytes stocked
      stocked-IsValid

get-Sound_example :
    IsValid own_path (get own_path can_unlink true "/a" stocked).0
    × Sound own_path true "/a" stocked (get own_path can_unlink true "/a" stocked).1
    × Leaves true "/a" stocked (get own_path can_unlink true "/a" stocked).0
get-Sound_example = get-Sound own_path can_unlink own_path_apart true "/a" stocked stocked-IsValid
