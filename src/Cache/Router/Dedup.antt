-- ===== src/Cache/Router/Dedup.antt =====
-- The store keeps a key in one tier at most, so that a reader never gets a shadowed copy.
use mathlib.Core.Option
use cadish.Cache.Meta.{ObjectMeta}
use cadish.Cache.Router.{Place, ram, disk, tier_for, Store, get_tier, get, dedup, write}
use cadish.Cache.Tier.{Object, Outcome, stored, discarded, failed, stored_object, Kept, Tier}
use cadish.Prelude.{
  ◌≡◌, ◌≢◌, ◌⊎◌, inl, inr, refl, ◌∙◌, List, ℕ, Option, none, some, String, str_eq, eq_iff, arith,
  Bool-cases, Option-cases,
}

module _ (R D : Tier) where
  -- Both tiers are valid, and no key reads something in both.
  pub record IsValid (s : Store R D) : Type 0 where
    pub hot_valid : R.IsValid s.hot
    pub cold_valid : D.IsValid s.cold
    pub exclusive : (k : String) → ((R.get k s.hot).1 ≡ none) ⊎ ((D.get k s.cold).1 ≡ none)

  Kept-none : (o p : Option Object) → Kept o p → o ≡ none → p ≡ none
  Kept-none o p (inl gone) e = gone
  Kept-none o p (inr same) e = same ∙ e

  dedup-IsValid :
      (T : Tier) (o : Outcome) (k : String) (s : T.State)
      → T.IsValid s
      → T.IsValid (dedup R D T.delete o k s)
  dedup-IsValid T stored k s v = T.delete-IsValid k s v
  dedup-IsValid T discarded k s v = v
  dedup-IsValid T failed k s v = v

  -- After a whole write of `key` into tier `T`, beside the tier `U`, they are exclusive again.
  exclusive-after :
      (T U : Tier) (m : ObjectMeta) (b : List ℕ) (o : Outcome) (s t : T.State) (u : U.State)
      → T.IsValid s
      → U.IsValid u
      → T.store m b s ≡ some (t, o)
      → ((k : String) → ((T.get k s).1 ≡ none) ⊎ ((U.get k u).1 ≡ none))
      → (k : String) → ((T.get k t).1 ≡ none) ⊎ ((U.get k (dedup R D U.delete o m.key u)).1 ≡ none)
  exclusive-after T U m b stored s t u v w e x k = elim (x k) [
    | inr absent ↦ inr (ground (arith, U.get-delete m.key k u w))
    | inl absent ↦ elim (Bool-cases (str_eq m.key k)) [
      | inl here ↦ inr (ground (arith, U.get-delete m.key k u w))
      | inr there ↦ inl (
          Kept-none (T.get k s).1 (T.get k t).1
            (T.get-store_ne m b s t stored k v e (λ p. ground (arith, eq_iff m.key k, p))) absent)
    ]
  ]
  exclusive-after T U m b discarded s t u v w e x k = elim (x k) [
    | inr absent ↦ inr absent
    | inl absent ↦ inl (T.get-store_discarded m b s t k v e ∙ absent)
  ]
  exclusive-after T U m b failed s t u v w e x k = elim (x k) [
    | inr absent ↦ inr absent
    | inl absent ↦
        inl (Kept-none (T.get k s).1 (T.get k t).1 (T.get-store_failed m b s t k v e) absent)
  ]

  -- What a whole write into the tier `T` beside `U` leaves for readers.
  pub record Wrote (T U : Tier) (m : ObjectMeta) (b : List ℕ) (o : Outcome) (s t : T.State)
      (u v : U.State) : Type 0 where
    pub new_copy :
        o ≡ stored → ((T.get m.key t).1 ≡ some (stored_object m b)) × ((U.get m.key v).1 ≡ none)
    pub untouched : o ≡ discarded → (k : String) → (T.get k t).1 ≡ (T.get k s).1
    pub no_loss : (o ≡ stored → ⊥) → v ≡ u
    pub others :
        (k : String)
        → k ≢ m.key
        → Kept (T.get k s).1 (T.get k t).1 × ((U.get k v).1 ≡ (U.get k u).1)

  wrote :
      (T U : Tier) (m : ObjectMeta) (b : List ℕ) (o : Outcome) (s t : T.State) (u : U.State)
      → T.IsValid s
      → U.IsValid u
      → T.store m b s ≡ some (t, o)
      → Wrote T U m b o s t u (dedup R D U.delete o m.key u)
  wrote T U m b stored s t u v w e = record {
    new_copy = λ h. (
      T.get-store_stored m b s t v e,
      ground (arith, eq_iff m.key m.key, U.get-delete m.key m.key u w),
    );
    untouched = λ h. cc;
    no_loss = λ h. absurd (h refl);
    others = λ k other. (
      T.get-store_ne m b s t stored k v e other,
      ground (arith, eq_iff m.key k, U.get-delete m.key k u w),
    );
  }
  wrote T U m b discarded s t u v w e = record {
    new_copy = λ h. cc;
    untouched = λ h k. T.get-store_discarded m b s t k v e;
    no_loss = λ h. refl;
    others = λ k other. (T.get-store_ne m b s t discarded k v e other, refl);
  }
  wrote T U m b failed s t u v w e = record {
    new_copy = λ h. cc;
    untouched = λ h. cc;
    no_loss = λ h. refl;
    others = λ k other. (T.get-store_ne m b s t failed k v e other, refl);
  }

  tier_hit :
      (k : String) (s : Store R D)
      → (get_tier R D k s).1 ≡ (elim (R.get k s.hot).1 [
        | some o ↦ some (o, ram)
        | none ↦ Option.map (λ o. (o, disk)) (D.get k s.cold).1
      ])
  unfolding get_tier
  tier_hit k s = elim (Option-cases (R.get k s.hot).1) [
    | inl e ↦ ground (arith, e)
    | inr (o, e) ↦ ground (arith, e)
  ]

  read_hit :
      (k : String) (s : Store R D)
      → (get R D k s).1 ≡ (elim (R.get k s.hot).1 [ some o ↦ some o | none ↦ (D.get k s.cold).1 ])
  unfolding get
  read_hit k s = elim (Option-cases (R.get k s.hot).1) [
    | inl e ↦ elim (Option-cases (D.get k s.cold).1) [
      | inl f ↦ ground (arith, e, f)
      | inr (o, f) ↦ ground (arith, e, f)
    ]
    | inr (o, e) ↦ ground (arith, e)
  ]

  -- What the store promises of a write with outcome `o`, from `s` to `t`.
  pub record Writes (m : ObjectMeta) (b : List ℕ) (o : Outcome) (s t : Store R D) : Type 0 where
    pub valid : IsValid t
    pub fresh : o ≡ stored → (get_tier R D m.key t).1 ≡ some (stored_object m b, tier_for s.cfg m)
    pub untouched : o ≡ discarded → (k : String) → (get R D k t).1 ≡ (get R D k s).1
    pub others : (k : String) → k ≢ m.key → Kept (get R D k s).1 (get R D k t).1

  -- A reader sees the first of the two copies.
  abbrev first : Option Object → Option Object → Option Object
  first h c = elim h [ some o ↦ some o | none ↦ c ]

  first-Kept_hot :
      (h h' c c' : Option Object)
      → (h ≡ none) ⊎ (c ≡ none)
      → Kept h h' × (c' ≡ c)
      → Kept (first h c) (first h' c')
  first-Kept_hot h h' c c' x k = ground arith

  first-Kept_cold :
      (h h' c c' : Option Object) → Kept c c' × (h' ≡ h) → Kept (first h c) (first h' c')
  first-Kept_cold h h' c c' k = ground arith

  flip {ℓ} : {A B : Type ℓ} → A ⊎ B → B ⊎ A
  flip (inl a) = inr a
  flip (inr b) = inl b

  hot-Writes :
      (m : ObjectMeta) (b : List ℕ) (o : Outcome) (s : Store R D) (hot : R.State)
      → IsValid s
      → tier_for s.cfg m ≡ ram
      → R.store m b s.hot ≡ some (hot, o)
      → R.IsValid hot
      → Writes m b o s (record s { hot = hot; cold = dedup R D D.delete o m.key s.cold })
  hot-Writes m b o s hot v place e hv = record {
    valid = record {
      hot_valid = hv;
      cold_valid = dedup-IsValid D o m.key s.cold v.cold_valid;
      exclusive = exclusive-after R D m b o s.hot hot s.cold v.hot_valid v.cold_valid e v.exclusive;
    };
    fresh = λ h. ground (arith, tier_hit m.key t, (w.new_copy h).0);
    untouched =
        λ h k. ground (arith, read_hit k t, read_hit k s, w.untouched h k, w.no_loss (λ c. cc));
    others = λ k other.
        rw (read_hit k t, read_hit k s)
          (first-Kept_hot (R.get k s.hot).1 (R.get k hot).1 (D.get k s.cold).1 (D.get k t.cold).1
            (v.exclusive k) (w.others k other));
  }
    where
      t : Store R D
      t = record s { hot = hot; cold = dedup R D D.delete o m.key s.cold }

      w : Wrote R D m b o s.hot hot s.cold t.cold
      w = wrote R D m b o s.hot hot s.cold v.hot_valid v.cold_valid e

  cold-Writes :
      (m : ObjectMeta) (b : List ℕ) (o : Outcome) (s : Store R D) (cold : D.State)
      → IsValid s
      → tier_for s.cfg m ≡ disk
      → D.store m b s.cold ≡ some (cold, o)
      → D.IsValid cold
      → Writes m b o s (record s { cold = cold; hot = dedup R D R.delete o m.key s.hot })
  cold-Writes m b o s cold v place e cv = record {
    valid = record {
      hot_valid = dedup-IsValid R o m.key s.hot v.hot_valid;
      cold_valid = cv;
      exclusive = λ k. flip (
          exclusive-after D R m b o s.cold cold s.hot v.cold_valid v.hot_valid e
            (λ j. flip (v.exclusive j)) k);
    };
    fresh = λ h. ground (arith, tier_hit m.key t, w.new_copy h);
    untouched =
        λ h k. ground (arith, read_hit k t, read_hit k s, w.untouched h k, w.no_loss (λ c. cc));
    others = λ k other.
        rw (read_hit k t, read_hit k s)
          (first-Kept_cold (R.get k s.hot).1 (R.get k t.hot).1 (D.get k s.cold).1 (D.get k cold).1
            (w.others k other));
  }
    where
      t : Store R D
      t = record s { cold = cold; hot = dedup R D R.delete o m.key s.hot }

      w : Wrote D R m b o s.cold cold s.hot t.hot
      w = wrote D R m b o s.cold cold s.hot v.cold_valid v.hot_valid e

  -- On a valid store a write of a whole body ends, and leaves a valid store. If it reports the object
  -- as stored, the next lookup of the key returns it, from the tier that the routing chose; if it
  -- reports it as discarded, every key reads as before; and in every case each other key reads as
  -- before or is evicted.
  pub write-Writes :
      (m : ObjectMeta) (b : List ℕ) (s : Store R D)
      → IsValid s
      → (t : Store R D) × (o : Outcome) × (write R D m b s ≡ some (t, o)) × Writes m b o s t
  unfolding write
  write-Writes m b s v = elim (Place-cases (tier_for s.cfg m)) [
    | inl place ↦
        let (hot, o, e, hv) = R.store-IsValid m b s.hot v.hot_valid in
        (
          record s { hot = hot; cold = dedup R D D.delete o m.key s.cold },
          o,
          ground (arith, e),
          hot-Writes m b o s hot v place e hv,
        )
    | inr place ↦
        let (cold, o, e, cv) = D.store-IsValid m b s.cold v.cold_valid in
        (
          record s { cold = cold; hot = dedup R D R.delete o m.key s.hot },
          o,
          ground (arith, e),
          cold-Writes m b o s cold v place e cv,
        )
  ]
    where
      Place-cases : (p : Place) → (p ≡ ram) ⊎ (p ≡ disk)
      Place-cases ram = inl refl
      Place-cases disk = inr refl
