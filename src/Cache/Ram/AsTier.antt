-- ===== src/Cache/Ram/AsTier.antt =====
-- The in-memory tier fills the interface that the router relies on.
use mathlib.Core.Option.{some-injective}
use mathlib.Core.Path.{subst}
use cadish.Cache.Meta.{ObjectMeta}
use cadish.Cache.Ram
use cadish.Cache.Ram.{RamShard}
use cadish.Cache.Ram.Commit.{new_shard-IsValid}
use cadish.Cache.Ram.Reads.{
  AllValid, IsValidTier, shard-IsValid, get-shard, get_get-tier, delete-tier,
}
use cadish.Cache.Ram.Tier.{RamTier, new_tier, get, delete, reset, index_of}
use cadish.Cache.Ram.WholeWrite.{store, Stores, store-Stores}
use cadish.Cache.Shard.{shard_count, shard_caps}
use cadish.Cache.Shard.Budget.{shard_count_bounds, shard_caps_exact}
use cadish.Cache.Tier.{Outcome, stored, discarded, failed, Tier}
use cadish.Prelude.Dict.{lookup}
use cadish.Prelude.{
  ℕ, zero, suc, ◌≡◌, inr, refl, sym, ◌∙◌, ap, List, [], ◌∷◌, map, none, some, String, arith, length,
  get_elem?,
}

reset-AllValid : (l : List RamShard) → AllValid (map Ram.reset l)
unfolding Ram.reset
reset-AllValid [] = tt
reset-AllValid (s ∷ l) = (
  record {
    agrees = (new_shard-IsValid s.max_bytes).agrees;
    mirrored = refl;
    bounded = omega arith;
  },
  reset-AllValid l,
)

length-map {ℓ} : {A B : Type ℓ} (f : A → B) (l : List A) → length (map f l) ≡ length l
length-map f [] = refl
length-map f (x ∷ l) = ap suc (length-map f l)

pub reset-IsValidTier : (r : RamTier) → IsValidTier r → IsValidTier (reset r)
unfolding reset
reset-IsValidTier r v = record {
  shards_valid = reset-AllValid r.shards;
  some_shard = omega (arith, length-map Ram.reset r.shards, v.some_shard);
}

-- No shard of a reset tier has an entry.
empty-at :
    (l : List RamShard) (i : ℕ) (s : RamShard)
    → get_elem? (map Ram.reset l) i ≡ some s
    → s.items ≡ []
unfolding Ram.reset
empty-at [] i s h = cc
empty-at (x ∷ l) zero s h = ground arith
empty-at (x ∷ l) (suc i) s h = empty-at l i s h

-- After a flush of a valid tier every key misses.
pub get-reset : (q : String) (r : RamTier) → IsValidTier r → (get q (reset r)).1 ≡ none
unfolding Ram.get lookup reset
get-reset q r v =
    let (s, at, sv) = shard-IsValid q (reset r) (reset-IsValidTier r v) in
    ground (arith, get-shard q (reset r) s at, empty-at r.shards (index_of q (reset r)) s at)

-- The tier that `NewRAMTier` makes.
new_shards-AllValid : (caps : List ℕ) → AllValid (map Ram.new_shard caps)
new_shards-AllValid [] = tt
new_shards-AllValid (c ∷ caps) = (new_shard-IsValid c, new_shards-AllValid caps)

pub new_tier-IsValidTier : (max_bytes cap budget : ℕ) → IsValidTier (new_tier max_bytes cap budget)
unfolding new_tier
new_tier-IsValidTier max_bytes cap budget =
    let n = shard_count max_bytes in
    let (least, most, room) = shard_count_bounds max_bytes in
    let (count, total) = shard_caps_exact max_bytes n least in
    record {
      shards_valid = new_shards-AllValid (shard_caps max_bytes n);
      some_shard = omega (arith, length-map Ram.new_shard (shard_caps max_bytes n), count, least);
    }

-- Of a write that is known to end in `t`.
pub Stores-of :
    (m : ObjectMeta) (b : List ℕ) (r t : RamTier) (o : Outcome)
    → IsValidTier r
    → store m b r ≡ some (t, o)
    → Stores m b r t o
Stores-of m b r t o v e =
    let (t', o', e', st) = store-Stores m b r v in
    subst (λ p. Stores m b r p.0 p.1) (some-injective (t', o') (t, o) (sym e' ∙ e)) st

abbrev pub ram_tier : Tier
ram_tier = record {
  State = RamTier;
  get = get;
  store = store;
  delete = delete;
  reset = reset;
  IsValid = IsValidTier;
  get-IsValid = λ k s v. (get_get-tier k k s v).0;
  get_get = λ k q s v. inr (get_get-tier k q s v).1;
  store-IsValid = λ m b s v. let (t, o, e, st) = store-Stores m b s v in (t, o, e, st.valid);
  get-store_stored = λ m b s t v e. (Stores-of m b s t stored v e).fresh refl;
  get-store_discarded = λ m b s t q v e. (Stores-of m b s t discarded v e).refused refl q;
  get-store_failed = λ m b s t q v e. absurd ((Stores-of m b s t failed v e).never_fails refl);
  get-store_ne = λ m b s t o q v e other. (Stores-of m b s t o v e).others q other;
  delete-IsValid = λ k s v. (delete-tier k k s v).0;
  get-delete = λ k q s v. (delete-tier k q s v).1;
  reset-IsValid = reset-IsValidTier;
  get-reset = get-reset;
}
