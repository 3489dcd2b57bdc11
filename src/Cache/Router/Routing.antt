-- ===== src/Cache/Router/Routing.antt =====
-- Where the router sends an object.
use cadish.Cache.Meta.{ObjectMeta}
use cadish.Cache.Router.{
  RouterConfig, resolve, disk, known_above, pick_tier, resolve_tier, tier_for, ext, lookup_ext,
}
use cadish.Prelude.Int.{ℤ}
use cadish.Prelude.{
  ◌≤◌, ◌<◌, ◌≡◌, ◌⊎◌, inl, inr, true, ◌||◌, String, str_eq, arith, Bool-cases, Option-cases,
}

-- The bounds of `NewStore` agree: the per-object cap is never above the tier's budget; the cap and
-- the in-flight budget are not 0 unless the tier's budget is; and a cap that is set, and within the
-- tier's budget, is kept.
pub resolve_bounds :
    (cfg : RouterConfig)
    → ((resolve cfg).ram_max_object_bytes ≤ cfg.ram_max_bytes)
      × ((cfg.ram_max_bytes ≡ 0)
          ⊎ ((0 < (resolve cfg).ram_max_object_bytes) × (0 < (resolve cfg).ram_inflight_budget)))
      × ((cfg.ram_max_object_bytes ≡ 0)
          ⊎ (cfg.ram_max_bytes < cfg.ram_max_object_bytes)
          ⊎ ((resolve cfg).ram_max_object_bytes ≡ cfg.ram_max_object_bytes))
unfolding resolve
resolve_bounds cfg = grind arith

module _ (cfg : RouterConfig) (size : ℤ) where
  pick_tier_large :
      (key : String)
      → known_above size cfg.ram_max_object_bytes ≡ true
      → cfg.small_object_threshold ≤ cfg.ram_max_object_bytes
      → pick_tier cfg key size ≡ disk
  unfolding pick_tier
  pick_tier_large key large le = ground arith

  resolve_tier_large :
      (tier : String)
      → known_above size cfg.ram_max_object_bytes ≡ true
      → cfg.small_object_threshold ≤ cfg.ram_max_object_bytes
      → 0 < cfg.disk_max_bytes
      → resolve_tier cfg tier size ≡ disk
  unfolding resolve_tier
  resolve_tier_large tier large le room = ground (arith, pick_tier_large "" large le)

-- With a disk tier, and a small-object threshold within the per-object cap, an object whose size is
-- known to exceed the cap goes to disk: whatever its key, its override and the extension rules.
pub tier_for_large :
    (cfg : RouterConfig) (meta : ObjectMeta)
    → known_above meta.size cfg.ram_max_object_bytes ≡ true
    → cfg.small_object_threshold ≤ cfg.ram_max_object_bytes
    → 0 < cfg.disk_max_bytes
    → tier_for cfg meta ≡ disk
unfolding tier_for
tier_for_large cfg meta large le room =
    elim (Bool-cases (str_eq meta.tier "ram" || str_eq meta.tier "disk")) [
      | inl forced ↦
          rw (forced, tier_for) (resolve_tier_large cfg meta.size meta.tier large le room)
      | inr free ↦ elim (Option-cases (lookup_ext (ext meta.key) cfg.tier_extensions)) [
        | inl e ↦ ground (arith, free, e, pick_tier_large cfg meta.size meta.key large le)
        | inr (t, e) ↦ ground (arith, free, e, resolve_tier_large cfg meta.size t large le room)
      ]
    ]
