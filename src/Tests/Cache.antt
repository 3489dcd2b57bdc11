-- ===== src/Tests/Cache.antt =====
-- internal/cache, with tiers of a few megabytes and bodies of a few bytes.
use cadish.Cache.Meta.{ObjectMeta}
use cadish.Cache.Ram.{RamShard}
use cadish.Cache.Ring.{contains}
use cadish.Cache.Disk.{new_disk}
use cadish.Cache.Disk.Agree.{new_disk-IsValid}
use cadish.Cache.Disk.AsTier.{disk_tier}
use cadish.Cache.Ram.AsTier.{ram_tier, new_tier-IsValidTier, get-reset, reset-IsValidTier}
use cadish.Cache.Ram.Invariant.{Agrees}
use cadish.Cache.Ram.Promise as RamPromise
use cadish.Cache.Ram.Promise.{commit_reads, store_lem}
use cadish.Cache.Ram.Reads.{IsValidTier}
use cadish.Cache.Ram.Sweep.{measure}
use cadish.Cache.Ram.Tier as RamTiers
use cadish.Cache.Ram.Tier.{RamTier, RamWriter, new_tier, new_writer}
use cadish.Cache.Ram.WholeWrite.{store}
use cadish.Cache.Ram.Writers.{
  System, opened, deleted, Reach, here, next, fresh, IsBounded, buffered, reached-IsBounded,
}
use cadish.Cache.Router
use cadish.Cache.Router.{
  RouterConfig, default_config, resolve, ram, disk, tier_for, known_above, ram_extension, ext,
  Store,
}
use cadish.Cache.Router.Dedup
use cadish.Cache.Router.Oversize.{routed_to_refusal}
use cadish.Cache.Router.Promise as RouterPromise
use cadish.Cache.Router.Promise.{write_lem}
use cadish.Cache.Shard.Budget.{sum, shard_caps_exact}
use cadish.Cache.Shard.{shard_count, shard_caps}
use cadish.Cache.Tier.{Tier, Outcome, Kept}
use cadish.Prelude.Dict.{total, has}
use cadish.Prelude.Int.{pos}
use cadish.Prelude.{
  ℕ, ◌≤◌, ◌<◌, ◌≡◌, ◌⊎◌, inl, refl, true, false, List, [], ◌∷◌, none, some, String, str_eq, length,
  replicate, length-replicate, arith,
}

abbrev page : ObjectMeta
page = record {
  key = "/index.html";
  size = pos 3;
  content_type = "text/html";
  etag = "";
  last_modified = "";
  content_encoding = "";
  vary = "";
  status = 200;
  forced_private = false;
  tier = "";
}

abbrev body : List ℕ
body = 104 ∷ 105 ∷ 33 ∷ []

shard_caps_exact_example :
    (length (shard_caps 5_000_001 4) ≡ 4) × (sum (shard_caps 5_000_001 4) ≡ 5_000_001)
shard_caps_exact_example = shard_caps_exact 5_000_001 4 (omega arith)

-- A shard whose one body fills it, and was read since it came.
abbrev full_shard : RamShard
full_shard = record {
  max_bytes = 4;
  cur_bytes = 3;
  atomic_bytes = 3;
  items = ("/index.html", record { meta = page; body = body; ref = true }) ∷ [];
  lru = "/index.html" ∷ [];
}

full_shard-Agrees : Agrees full_shard
unfolding total contains has
full_shard-Agrees = record {
  distinct = (refl, tt);
  ring = (refl, tt);
  same = λ k. refl;
  counted = refl;
}

two_rounds : measure full_shard < 3
unfolding total
two_rounds = omega arith

abbrev small_tier : RamTier
small_tier = new_tier 5_000_000 1_000_000 5_000_000

small_tier-IsValid : IsValidTier small_tier
small_tier-IsValid = new_tier-IsValidTier 5_000_000 1_000_000 5_000_000

store_lem_example :
    (t : RamTier) × (o : Outcome) × (store page body small_tier ≡ some (t, o))
    × IsValidTier t
    × RamPromise.Answers page body o small_tier t
    × ((q : String)
        → (str_eq page.key q ≡ true) ⊎ Kept (RamTiers.get q small_tier).1 (RamTiers.get q t).1)
store_lem_example = store_lem page body small_tier small_tier-IsValid

-- A writer is opened, and a key is deleted.
abbrev opened_writer : System
opened_writer = record {
  tier = RamTiers.delete "a" (fresh 5_000_000 1_000_000 100).tier;
  writers = new_writer page ∷ [];
}

reached : Reach (fresh 5_000_000 1_000_000 100) opened_writer
reached = next (next here (opened page)) (deleted "a")

reached-IsBounded_example :
    IsBounded 100 1_000_000 opened_writer × (buffered opened_writer.writers ≤ 100)
reached-IsBounded_example = reached-IsBounded 5_000_000 1_000_000 100 (omega arith) reached

-- Blobs under the keys themselves, a disk on which every call goes through, and two empty tiers.
abbrev own_path : String → String
own_path k = k

own_path_apart : (k q : String) → str_eq k q ≡ false → str_eq (own_path k) (own_path q) ≡ false
own_path_apart k q h = h

abbrev disk_of_files : Tier
disk_of_files = disk_tier own_path (λ p. true) own_path_apart (λ m. true) true

abbrev two_tiers : Store ram_tier disk_of_files
two_tiers = record {
  cfg = resolve default_config;
  hot = RamTiers.reset small_tier;
  cold = new_disk 1_000_000 (λ p. none);
}

two_tiers-IsValid : Dedup.IsValid ram_tier disk_of_files two_tiers
two_tiers-IsValid = record {
  hot_valid = reset-IsValidTier small_tier small_tier-IsValid;
  cold_valid = new_disk-IsValid own_path 1_000_000 (λ p. none);
  exclusive = λ k. inl (get-reset k small_tier small_tier-IsValid);
}

write_lem_example :
    (t : Store ram_tier disk_of_files) × (o : Outcome) × (Router.write ram_tier disk_of_files page
        body two_tiers
      ≡ some (t, o))
    × Dedup.IsValid ram_tier disk_of_files t
    × RouterPromise.Answers ram_tier disk_of_files page body o two_tiers t
    × ((k : String)
        → (str_eq page.key k ≡ true)
          ⊎ Kept
              (Router.get ram_tier disk_of_files k two_tiers).1
              (Router.get ram_tier disk_of_files k t).1)
write_lem_example = write_lem ram_tier disk_of_files page body two_tiers two_tiers-IsValid

abbrev film : ObjectMeta
film = record page { key = "/film.mp4"; size = pos 80_000_000; tier = "ram" }

-- A RAM tier of 5 MB, in four shards, and an object of 2 MB.
abbrev small_config : RouterConfig
small_config = record default_config { ram_max_bytes = 5_000_000; ram_max_object_bytes = 5_000_000 }

unfoldable zeros : ℕ → List ℕ
zeros n = replicate n 0

length-zeros : (n : ℕ) → length (zeros n) ≡ n
unfolding zeros
length-zeros n = length-replicate n 0

abbrev clip : List ℕ
clip = zeros 2_000_000

abbrev clip_meta : ObjectMeta
clip_meta = record page { key = "/photo.png"; size = pos (length clip) }

script : ram_extension (ext clip_meta.key) ≡ true
unfolding ram_extension ext
script = refl

split_in_four : shard_count 5_000_000 ≡ 4
unfolding shard_count
split_in_four = refl

routed_to_refusal_example :
    (tier_for small_config clip_meta ≡ ram)
    × ((t : RamTier) × (RamTiers.commit clip_meta clip (new_tier 5_000_000 5_000_000 5_000_000)
          ≡ some (t, false)))
routed_to_refusal_example =
    routed_to_refusal small_config 5_000_000 clip_meta clip refl refl script refl
      (omega (arith, length-zeros 2_000_000))
      (rw (split_in_four, length-zeros 2_000_000) (omega arith))
