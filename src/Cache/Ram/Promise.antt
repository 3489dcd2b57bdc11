-- ===== src/Cache/Ram/Promise.antt =====
-- A commit into a shard and a whole write into the tier, as their callers see them.
use cadish.Cache.Meta.{ObjectMeta}
use cadish.Cache.Ram.{RamShard, get, commit}
use cadish.Cache.Ram.Commit.{commit_lem}
use cadish.Cache.Ram.Invariant.{IsValid}
use cadish.Cache.Ram.Reads.{IsValidTier}
use cadish.Cache.Ram.Sweep.{Survives}
use cadish.Cache.Ram.Tier
use cadish.Cache.Ram.Tier.{RamTier}
use cadish.Cache.Ram.WholeWrite.{store, Stores, store-Stores}
use cadish.Cache.Tier.{Outcome, stored, discarded, failed, stored_object, Kept}
use cadish.Prelude.Dict.{lookup}
use cadish.Prelude.{
  ℕ, ◌<◌, ◌≤◌, ◌≡◌, ◌⊎◌, inl, inr, refl, true, false, List, some, String, str_eq, eq_iff, arith,
  length, Bool-cases,
}

-- On a valid shard `commit` ends. Either the object is larger than the shard's cap, and it is refused and
-- nothing changes; or it fits, and the shard is valid again, a `get` of the key returns the body with its
-- size recorded, and the entry of each other key keeps its metadata and body or is evicted.
pub commit_reads :
    (meta : ObjectMeta) (body : List ℕ) (s : RamShard)
    → IsValid s
    → ((s.max_bytes < length body) × (commit meta body s ≡ some (s, false)))
      ⊎ ((t : RamShard) × (length body ≤ s.max_bytes)
          × (commit meta body s ≡ some (t, true))
          × IsValid t
          × ((get meta.key t).1 ≡ some (stored_object meta body))
          × ((q : String)
              → (str_eq meta.key q ≡ true) ⊎ Survives (lookup q s.items) (lookup q t.items)))
commit_reads meta body s v = elim (commit_lem meta body s v) [
  | inl refused ↦ inl refused
  | inr (t, fits, e, c) ↦ inr (
    t,
    fits,
    e,
    c.valid,
    c.stored,
    λ q. elim (Bool-cases (str_eq meta.key q)) [
      | inl same ↦ inl same
      | inr other ↦ inr (c.others q (λ p. ground (arith, eq_iff meta.key q, p)))
    ],
  )
]

-- What a lookup in the tier answers after a whole write.
abbrev pub Answers : ObjectMeta → List ℕ → Outcome → RamTier → RamTier → Type 0
Answers m b stored r t = (Tier.get m.key t).1 ≡ some (stored_object m b)
Answers m b discarded r t = (q : String) → (Tier.get q t).1 ≡ (Tier.get q r).1
Answers m b failed r t = ⊥

answers :
    (m : ObjectMeta) (b : List ℕ) (o : Outcome) (r t : RamTier)
    → Stores m b r t o
    → Answers m b o r t
answers m b stored r t w = w.fresh refl
answers m b discarded r t w = w.refused refl
answers m b failed r t w = absurd (w.never_fails refl)

-- On a valid tier a whole write (the writer, one `Write` of the body, `Commit`) ends, without an error, and
-- leaves a valid tier. If it reports the object as stored, the key reads as the body with its size; if as
-- discarded, every key reads as before; and in both cases each other key reads as before or is evicted.
pub store_lem :
    (m : ObjectMeta) (b : List ℕ) (r : RamTier)
    → IsValidTier r
    → (t : RamTier) × (o : Outcome) × (store m b r ≡ some (t, o))
      × IsValidTier t
      × Answers m b o r t
      × ((q : String) → (str_eq m.key q ≡ true) ⊎ Kept (Tier.get q r).1 (Tier.get q t).1)
store_lem m b r v =
    let (t, o, e, w) = store-Stores m b r v in
    (
      t,
      o,
      e,
      w.valid,
      answers m b o r t w,
      λ q. elim (Bool-cases (str_eq m.key q)) [
        | inl same ↦ inl same
        | inr other ↦ inr (w.others q (λ p. ground (arith, eq_iff m.key q, p)))
      ],
    )
