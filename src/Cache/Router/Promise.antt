-- ===== src/Cache/Router/Promise.antt =====
-- A write through `Store.Writer`, and the lookups that follow it.
use cadish.Cache.Meta.{ObjectMeta}
use cadish.Cache.Router.Dedup.{IsValid, Writes, write-Writes}
use cadish.Cache.Router.{tier_for, Store, get_tier, get, write}
use cadish.Cache.Tier.{Outcome, stored, discarded, failed, stored_object, Kept, Tier}
use cadish.Prelude.{
  ℕ, ◌≡◌, ◌⊎◌, inl, inr, refl, true, List, some, String, str_eq, eq_iff, arith, Bool-cases,
}

module _ (R D : Tier) where
  -- What a lookup answers after a write with an outcome. An error of the tier leaves the key with its old
  -- copy or with none, and is not told apart here.
  abbrev pub Answers : ObjectMeta → List ℕ → Outcome → Store R D → Store R D → Type 0
  Answers m b stored s t = (get_tier R D m.key t).1 ≡ some (stored_object m b, tier_for s.cfg m)
  Answers m b discarded s t = (k : String) → (get R D k t).1 ≡ (get R D k s).1
  Answers m b failed s t = Unit

  answers :
      (m : ObjectMeta) (b : List ℕ) (o : Outcome) (s t : Store R D)
      → Writes R D m b o s t
      → Answers m b o s t
  answers m b stored s t w = w.fresh refl
  answers m b discarded s t w = w.untouched refl
  answers m b failed s t w = tt

  -- On a valid store (no key in both tiers) a write of a whole body ends, and leaves a valid store. If it
  -- reports the object as stored, a lookup of the key then returns it, from the tier that the routing
  -- chose; if it reports it as discarded, every key reads as before; and in every case each other key
  -- reads as before or is gone.
  pub write_lem :
      (m : ObjectMeta) (b : List ℕ) (s : Store R D)
      → IsValid R D s
      → (t : Store R D) × (o : Outcome) × (write R D m b s ≡ some (t, o))
        × IsValid R D t
        × Answers m b o s t
        × ((k : String) → (str_eq m.key k ≡ true) ⊎ Kept (get R D k s).1 (get R D k t).1)
  write_lem m b s v =
      let (t, o, e, w) = write-Writes R D m b s v in
      (
        t,
        o,
        e,
        w.valid,
        answers m b o s t w,
        λ k. elim (Bool-cases (str_eq m.key k)) [
          | inl same ↦ inl same
          | inr other ↦ inr (w.others k (λ p. ground (arith, eq_iff m.key k, p)))
        ],
      )
