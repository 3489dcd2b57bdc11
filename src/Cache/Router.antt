-- ===== src/Cache/Router.antt =====
-- internal/cache/router.go: the store of two tiers. Extensions are compared as bytes. Of the letters
-- beyond ASCII, `ToLower` maps two to ASCII and the others to letters beyond it, which are left as they are
-- here: the extensions that a rule names are ASCII.
pub mod Dedup
pub mod Routing
pub mod Oversize
pub mod Promise
use mathlib.Core.List.{reverse}
use mathlib.Core.Option
use cadish.Cache.Meta.{ObjectMeta}
use cadish.Cache.Tier.{Object, Outcome, stored, discarded, failed, Tier}
use cadish.Prelude.Bytes.{same_bytes, has_prefix}
use cadish.Prelude.Int.{ℤ, pos, negsuc}
use cadish.Prelude.Utf8.{bytes}
use cadish.Prelude.{
  ℕ, ◌+◌, ◌≡◌, Bool, true, false, ◌&&◌, ◌||◌, List, [], ◌∷◌, drop, Option, none, some, String,
  str_eq, ltb, leb, ◌==◌, if◌then◌else◌,
}

pub record RouterConfig : Type 0 where
  pub ram_max_bytes : ℕ
  pub disk_max_bytes : ℕ
  pub small_object_threshold : ℕ
  pub ram_max_object_bytes : ℕ
  pub ram_inflight_budget : ℕ
  pub tier_extensions : List (List ℕ × String)

-- 64 << 20
abbrev pub default_ram_max_object_bytes : ℕ
default_ram_max_object_bytes = 67_108_864

-- `DefaultRouterConfig`
abbrev pub default_config : RouterConfig
default_config = record {
  ram_max_bytes = 47_244_640_256;
  disk_max_bytes = 375_809_638_400;
  small_object_threshold = 2_097_152;
  ram_max_object_bytes = default_ram_max_object_bytes;
  ram_inflight_budget = 47_244_640_256;
  tier_extensions = [];
}

-- The knobs that `NewStore` resolves before it makes the tiers.
unfoldable pub resolve : RouterConfig → RouterConfig
resolve cfg =
    let cap =
      (if cfg.ram_max_object_bytes == 0
        then default_ram_max_object_bytes
        else cfg.ram_max_object_bytes) in
    record cfg {
      ram_max_object_bytes = if ltb cfg.ram_max_bytes cap then cfg.ram_max_bytes else cap;
      ram_inflight_budget =
          if cfg.ram_inflight_budget == 0 then cfg.ram_max_bytes else cfg.ram_inflight_budget;
    }

-- The backwards walk of `path.Ext`, with the bytes passed so far.
unfoldable pub ext_back : List ℕ → List ℕ → List ℕ
ext_back [] seen = []
ext_back (c ∷ cs) seen =
    if c == b'/' then [] else if c == b'.' then c ∷ seen else ext_back cs (c ∷ seen)

unfoldable pub lower : ℕ → ℕ
lower c = if leb b'A' c && leb c b'Z' then c + 32 else c

-- A byte before lowered ones: U+0130 is lowered to i, and U+212A to k.
unfoldable pub lower_before : ℕ → List ℕ → List ℕ
unfolding lower has_prefix
lower_before c out =
    if c == 196 && has_prefix (176 ∷ []) out
    then b'i' ∷ drop 1 out
    else if c == 226 && has_prefix (132 ∷ 170 ∷ []) out
    then b'k' ∷ drop 2 out
    else lower c ∷ out

-- `strings.ToLower`
unfoldable pub to_lower : List ℕ → List ℕ
unfolding lower_before
to_lower [] = []
to_lower (c ∷ s) = lower_before c (to_lower s)

-- `strings.ToLower(path.Ext(key))`
unfoldable pub ext : String → List ℕ
unfolding ext_back to_lower bytes
ext key = to_lower (ext_back (reverse (bytes key)) [])

-- `ramExtensions[ext]`
unfoldable pub ram_extension : List ℕ → Bool
unfolding same_bytes bytes
ram_extension e =
    same_bytes e (bytes ".m3u8")
    || same_bytes e (bytes ".jpg")
    || same_bytes e (bytes ".jpeg")
    || same_bytes e (bytes ".webp")
    || same_bytes e (bytes ".png")
    || same_bytes e (bytes ".gif")

unfoldable pub lookup_ext : List ℕ → List (List ℕ × String) → Option String
unfolding same_bytes
lookup_ext e [] = none
lookup_ext e ((f, t) ∷ m) = if same_bytes f e then some t else lookup_ext e m

-- One of the two tiers: what the source names by `s.ram` and `s.disk`.
pub data Place : Type 0 where
  ram disk : Place

-- `size >= 0 && size > cap`
abbrev pub known_above : ℤ → ℕ → Bool
known_above (pos n) cap = ltb cap n
known_above (negsuc n) cap = false

-- `size >= 0 && size <= bound`
abbrev pub known_within : ℤ → ℕ → Bool
known_within (pos n) bound = leb n bound
known_within (negsuc n) bound = false

unfoldable pub pick_tier : RouterConfig → String → ℤ → Place
unfolding ram_extension ext
pick_tier cfg key size =
    if ram_extension (ext key)
    then (if known_above size cfg.ram_max_object_bytes then disk else ram)
    else if known_within size cfg.small_object_threshold
    then ram
    else disk

unfoldable pub resolve_tier : RouterConfig → String → ℤ → Place
unfolding pick_tier
resolve_tier cfg tier size =
    if str_eq tier "disk"
    then (if cfg.disk_max_bytes == 0 then ram else disk)
    else if str_eq tier "ram"
    then (if known_above size cfg.ram_max_object_bytes then disk else ram)
    else pick_tier cfg "" size

unfoldable pub tier_for : RouterConfig → ObjectMeta → Place
unfolding resolve_tier lookup_ext
tier_for cfg meta =
    if str_eq meta.tier "ram" || str_eq meta.tier "disk"
    then resolve_tier cfg meta.tier meta.size
    else elim (lookup_ext (ext meta.key) cfg.tier_extensions) [
      | some t ↦ resolve_tier cfg t meta.size
      | none ↦ pick_tier cfg meta.key meta.size
    ]

module _ (R D : Tier) where
  pub record Store : Type 0 where
    pub cfg : RouterConfig
    pub hot : R.State
    pub cold : D.State

  -- `GetTier`: the hit of the RAM tier, else that of the disk tier, with the tier's name.
  unfoldable pub get_tier : String → Store → Store × Option (Object × Place)
  get_tier key s =
      let (hot, in_ram) = R.get key s.hot in
      elim in_ram [
        | some found ↦ (record s { hot = hot }, some (found, ram))
        | none ↦
            let (cold, in_disk) = D.get key s.cold in
            (record s { hot = hot; cold = cold }, Option.map (λ found. (found, disk)) in_disk)
      ]

  -- The sibling's part of `dedupWriter.Commit`.
  abbrev pub dedup {ℓ} : {S : Type ℓ} → (String → S → S) → Outcome → String → S → S
  dedup delete stored key s = delete key s
  dedup delete discarded key s = s
  dedup delete failed key s = s

  -- A whole write: `Writer`, the body, and `dedupWriter.Commit`.
  unfoldable pub write : ObjectMeta → List ℕ → Store → Option (Store × Outcome)
  write meta body s = elim (tier_for s.cfg meta) [
    | ram ↦ elim (R.store meta body s.hot) [
      | none ↦ none
      | some (hot, o) ↦ some (record s { hot = hot; cold = dedup D.delete o meta.key s.cold }, o)
    ]
    | disk ↦ elim (D.store meta body s.cold) [
      | none ↦ none
      | some (cold, o) ↦ some (record s { cold = cold; hot = dedup R.delete o meta.key s.hot }, o)
    ]
  ]

  -- `Reset`
  unfoldable pub reset : Store → Store
  reset s = record s { hot = R.reset s.hot; cold = D.reset s.cold }

  -- `Get`
  unfoldable pub get : String → Store → Store × Option Object
  unfolding get_tier
  get key s = let (s', hit) = get_tier key s in (s', Option.map (λ h. h.0) hit)
