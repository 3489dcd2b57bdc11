-- ===== src/Cache/Router/Oversize.antt =====
-- The router compares a known size with the per-object cap of the whole tier, and a shard with its
-- own cap: between the two, an object is sent to RAM and refused there.
use cadish.Cache.Meta.{ObjectMeta}
use cadish.Cache.Ram
use cadish.Cache.Ram.{RamShard}
use cadish.Cache.Ram.AsTier.{new_tier-IsValidTier}
use cadish.Cache.Ram.Commit.{commit_lem}
use cadish.Cache.Ram.Reads.{shard-IsValid}
use cadish.Cache.Ram.Tier.{RamTier, new_tier, index_of, with_shard, commit}
use cadish.Cache.Router.{RouterConfig, ram, pick_tier, tier_for, ram_extension, ext, lookup_ext}
use cadish.Cache.Shard.{shard_count, caps_from, shard_caps}
use cadish.Prelude.Int.{pos}
use cadish.Prelude.{
  ℕ, zero, suc, ◌+◌, ◌/◌, ◌%◌, ◌≤◌, ◌<◌, ◌≡◌, inl, inr, true, false, List, [], ◌∷◌, map, some, ◌==◌,
  arith, length, get_elem?, replicate, Bool-cases,
}

caps_from-le :
    (left i base rem j : ℕ) {c : ℕ}
    → get_elem? (caps_from left i base rem) j ≡ some c
    → c ≤ base + 1
unfolding caps_from
caps_from-le zero i base rem j h = cc
caps_from-le (suc left) i base rem zero h = ground arith
caps_from-le (suc left) i base rem (suc j) h = caps_from-le left (i + 1) base rem j h

get_elem?-replicate : (n a j : ℕ) {c : ℕ} → get_elem? (replicate n a) j ≡ some c → c ≡ a
get_elem?-replicate zero a j h = cc
get_elem?-replicate (suc n) a zero h = ground arith
get_elem?-replicate (suc n) a (suc j) h = get_elem?-replicate n a j h

-- No shard's cap exceeds the mean by more than one byte.
shard_caps-le :
    (max_bytes n j : ℕ) {c : ℕ}
    → get_elem? (shard_caps max_bytes n) j ≡ some c
    → c ≤ max_bytes / n + 1
unfolding shard_caps
shard_caps-le max_bytes n j {c} h = elim (Bool-cases (max_bytes == 0)) [
  | inl e ↦
      let same : c ≡ max_bytes = get_elem?-replicate n max_bytes j (rw (e, shard_caps) at h) in
      ground arith
  | inr e ↦ caps_from-le n 0 (max_bytes / n) (max_bytes % n) j (rw (e, shard_caps) at h)
]

get_elem?-new_shards :
    (caps : List ℕ) (j : ℕ) {s : RamShard}
    → get_elem? (map Ram.new_shard caps) j ≡ some s
    → get_elem? caps j ≡ some s.max_bytes
get_elem?-new_shards [] j h = cc
get_elem?-new_shards (c ∷ caps) zero h = ground arith
get_elem?-new_shards (c ∷ caps) (suc j) h = get_elem?-new_shards caps j h

-- A commit into a new tier is refused if the body is larger than the mean share of a shard, and one
-- byte.
refused :
    (max_bytes most budget : ℕ) (meta : ObjectMeta) (body : List ℕ)
    → max_bytes / shard_count max_bytes + 1 < length body
    → (t : RamTier) × (commit meta body (new_tier max_bytes most budget) ≡ some (t, false))
unfolding commit
refused max_bytes most budget meta body large =
    let r = new_tier max_bytes most budget in
    let (s, at, sv) = shard-IsValid meta.key r (new_tier-IsValidTier max_bytes most budget) in
    let at_cap : get_elem? (shard_caps max_bytes (shard_count max_bytes)) (index_of meta.key r)
        ≡ some s.max_bytes =
      unfold new_tier in
      get_elem?-new_shards (shard_caps max_bytes (shard_count max_bytes)) (index_of meta.key r)
        at in
    let le = shard_caps-le max_bytes (shard_count max_bytes) (index_of meta.key r) at_cap in
    elim (commit_lem meta body s sv) [
      | inl (over, e) ↦ (with_shard meta.key s r, ground (arith, at, e))
      | inr (t, fits, e, c) ↦ absurd (omega (arith, le, fits))
    ]

-- With no override and no extension rule: an object of a RAM extension whose known size is within
-- the per-object cap, and exceeds the tier's budget divided by the number of shards by more than a
-- byte, is sent to RAM, and an empty RAM tier of that budget refuses it. It is cached nowhere, though
-- a disk tier may have room.
pub routed_to_refusal :
    (cfg : RouterConfig) (budget : ℕ) (meta : ObjectMeta) (body : List ℕ)
    → meta.tier ≡ ""
    → cfg.tier_extensions ≡ []
    → ram_extension (ext meta.key) ≡ true
    → meta.size ≡ pos (length body)
    → length body ≤ cfg.ram_max_object_bytes
    → cfg.ram_max_bytes / shard_count cfg.ram_max_bytes + 1 < length body
    → (tier_for cfg meta ≡ ram)
      × ((t : RamTier) × (commit meta body
              (new_tier cfg.ram_max_bytes cfg.ram_max_object_bytes budget)
            ≡ some (t, false)))
unfolding tier_for pick_tier lookup_ext
routed_to_refusal cfg budget meta body auto none_by_ext by_ext known within large = (
  rw (auto, none_by_ext, tier_for) (rw (known, pick_tier) (ground arith)),
  refused cfg.ram_max_bytes cfg.ram_max_object_bytes budget meta body large,
)
