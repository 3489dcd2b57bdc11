-- ===== src/Cache/Disk/AsTier.antt =====
-- A shard of the disk tier as an instance of the interface: internal/cache/disk.go.
use mathlib.Core.Path.{subst}
use cadish.Cache.Disk.Agree.{IsValid, lookup-remove_locked, get-read}
use cadish.Cache.Disk.Commit.{Commits, commit-Commits, ending}
use cadish.Cache.Disk.Reads.{remove_locked-IsValid, get-Sound, get-get, get-delete}
use cadish.Cache.Disk.{
  DiskShard, keys_of, remove_locked, remove_all, reset, get, delete, discard, commit,
}
use cadish.Cache.Meta.{ObjectMeta}
use cadish.Cache.Ring.{contains}
use cadish.Cache.Tier.{Tier, Outcome, stored, discarded, failed, stored_object, Kept}
use cadish.Prelude.Dict.{Dict, lookup, has, has-lookup}
use cadish.Prelude.{
  ℕ, ◌≡◌, ◌≢◌, inl, inr, refl, sym, ap, ◌∙◌, Bool, true, false, List, [], ◌∷◌, none, some, String,
  str_eq, eq_iff, if◌then◌else◌, arith, if_all, suc, ◌==◌, Bool-cases,
}

contains-keys_of : (q : String) (m : Dict ObjectMeta) → contains q (keys_of m) ≡ has q m
unfolding contains has
contains-keys_of q [] = refl
contains-keys_of q ((k, v) ∷ m) = ground (arith, contains-keys_of q m)

some-eq : {p q : DiskShard × Outcome} → some p ≡ some q → p ≡ q
some-eq e = cc

module _ (blob_path : String → String) (unlinks : String → Bool)
    (apart : (k q : String) → str_eq k q ≡ false → str_eq (blob_path k) (blob_path q) ≡ false) where
  remove_all-IsValid :
      (ks : List String) (s : DiskShard)
      → IsValid blob_path s
      → IsValid blob_path (remove_all blob_path unlinks ks s)
  unfolding remove_all
  remove_all-IsValid [] s v = v
  remove_all-IsValid (k ∷ ks) s v =
      remove_all-IsValid ks (remove_locked blob_path unlinks k s)
        (remove_locked-IsValid blob_path unlinks apart k s v)

  lookup-remove_all :
      (q : String) (ks : List String) (s : DiskShard)
      → lookup q (remove_all blob_path unlinks ks s).items
        ≡ (if contains q ks then none else lookup q s.items)
  unfolding remove_all contains
  lookup-remove_all q [] s = refl
  lookup-remove_all q (k ∷ ks) s = ground (
    arith,
    lookup-remove_all q ks (remove_locked blob_path unlinks k s),
    lookup-remove_locked blob_path unlinks k q s,
  )

  pub reset-IsValid :
      (flushes : Bool) (s : DiskShard)
      → IsValid blob_path s
      → IsValid blob_path (reset blob_path unlinks flushes s)
  unfolding reset
  reset-IsValid flushes s v =
      let w : IsValid blob_path (remove_all blob_path unlinks (keys_of s.items) s) =
        remove_all-IsValid (keys_of s.items) s v in
      record {
        agrees = record {
          distinct = w.agrees.distinct;
          ring = w.agrees.ring;
          same = w.agrees.same;
          counted = w.agrees.counted;
        };
        files = record { backed = w.files.backed };
        bounded = w.bounded;
      }

  lookup-reset :
      (flushes : Bool) (q : String) (s : DiskShard)
      → lookup q (reset blob_path unlinks flushes s).items ≡ none
  unfolding reset
  lookup-reset flushes q s =
      lookup-remove_all q (keys_of s.items) s
      ∙ ground (arith, contains-keys_of q s.items, has-lookup q s.items)

  pub get-reset :
      (flushes : Bool) (q : String) (s : DiskShard)
      → (get blob_path unlinks true q (reset blob_path unlinks flushes s)).1 ≡ none
  get-reset flushes q s = ground (
    arith,
    get-read blob_path unlinks q (reset blob_path unlinks flushes s),
    lookup-reset flushes q s,
  )

  -- How a whole write ends, in the terms of the interface.
  pub record Stores (m : ObjectMeta) (b : List ℕ) (s t : DiskShard) (o : Outcome) : Type 0 where
    pub valid : IsValid blob_path t
    pub fresh : o ≡ stored → (get blob_path unlinks true m.key t).1 ≡ some (stored_object m b)
    pub refused :
        o ≡ discarded
        → (q : String) → (get blob_path unlinks true q t).1 ≡ (get blob_path unlinks true q s).1
    pub broken :
        o ≡ failed
        → (q : String) → Kept (get blob_path unlinks true q s).1 (get blob_path unlinks true q t).1
    pub others :
        (q : String)
        → q ≢ m.key
        → Kept (get blob_path unlinks true q s).1 (get blob_path unlinks true q t).1

  recounted-IsValid :
      (oversize no_tier : ℕ) (s : DiskShard)
      → IsValid blob_path s
      → IsValid blob_path (record s { oversize_discards = oversize; no_tier_discards = no_tier })
  recounted-IsValid oversize no_tier s v = record {
    agrees = record {
      distinct = v.agrees.distinct;
      ring = v.agrees.ring;
      same = v.agrees.same;
      counted = v.agrees.counted;
    };
    files = record { backed = v.files.backed };
    bounded = v.bounded;
  }

  discard-IsValid : (s : DiskShard) → IsValid blob_path s → IsValid blob_path (discard s)
  discard-IsValid s v =
      if_all (IsValid blob_path) (s.max_bytes == 0)
        (λ e. recounted-IsValid s.oversize_discards (suc s.no_tier_discards) s v)
        (λ e. recounted-IsValid (suc s.oversize_discards) s.no_tier_discards s v)

  get-discard :
      (q : String) (s : DiskShard)
      → (get blob_path unlinks true q (discard s)).1 ≡ (get blob_path unlinks true q s).1
  get-discard q s =
      if_all (λ t. (get blob_path unlinks true q t).1 ≡ (get blob_path unlinks true q s).1)
        (s.max_bytes == 0)
        (λ e. get-read blob_path unlinks q _ ∙ sym (get-read blob_path unlinks q s))
        (λ e. get-read blob_path unlinks q _ ∙ sym (get-read blob_path unlinks q s))

  discard-Stores :
      (m : ObjectMeta) (b : List ℕ) (s : DiskShard)
      → IsValid blob_path s
      → Stores m b s (discard s) discarded
  discard-Stores m b s v = record {
    valid = discard-IsValid s v;
    fresh = λ e. cc;
    refused = λ e q. get-discard q s;
    broken = λ e. cc;
    others = λ q h. inr (get-discard q s);
  }

  apart_key : (k q : String) → q ≢ k → str_eq k q ≡ false
  apart_key k q h = elim (Bool-cases (str_eq k q)) [
    | inl e ↦ let same : q ≡ k = ground (arith, eq_iff k q) in absurd (h same)
    | inr e ↦ e
  ]

  ending-Stores :
      (renames : Bool) (m : ObjectMeta) (b : List ℕ) (s t : DiskShard)
      → Commits blob_path unlinks apart renames m b s t
      → Stores m b s t (ending blob_path unlinks apart renames)
  ending-Stores true m b s t c = record {
    valid = c.valid;
    fresh = λ e. c.its_key;
    refused = λ e. cc;
    broken = λ e. cc;
    others = λ q h. c.others q (apart_key m.key q h);
  }
  ending-Stores false m b s t c = record {
    valid = c.valid;
    fresh = λ e. cc;
    refused = λ e. cc;
    broken = λ e q. elim (Bool-cases (str_eq m.key q)) [
      | inl h ↦ inl (gone_now q h)
      | inr h ↦ c.others q h
    ];
    others = λ q h. c.others q (apart_key m.key q h);
  }
    where
      gone_now : (q : String) → str_eq m.key q ≡ true → (get blob_path unlinks true q t).1 ≡ none
      gone_now q h =
          let same : m.key ≡ q = ground (arith, eq_iff m.key q) in
          ap (λ k. (get blob_path unlinks true k t).1) (sym same) ∙ c.its_key

  pub commit-Stores :
      (renames : Bool) (m : ObjectMeta) (b : List ℕ) (s : DiskShard)
      → IsValid blob_path s
      → (t : DiskShard) × (o : Outcome) × (commit blob_path unlinks renames m b s ≡ some (t, o))
        × Stores m b s t o
  commit-Stores renames m b s v = elim (commit-Commits blob_path unlinks apart renames m b s v) [
    | inl (large, e) ↦ (discard s, discarded, e, discard-Stores m b s v)
    | inr (t, small, e, c) ↦
        (t, ending blob_path unlinks apart renames, e, ending-Stores renames m b s t c)
  ]

  pub Stores-of :
      (renames : Bool) (m : ObjectMeta) (b : List ℕ) (s t : DiskShard) (o : Outcome)
      → IsValid blob_path s
      → commit blob_path unlinks renames m b s ≡ some (t, o)
      → Stores m b s t o
  Stores-of renames m b s t o v e =
      let (t', o', e', st) = commit-Stores renames m b s v in
      subst (λ p. Stores m b s p.0 p.1) (some-eq (sym e' ∙ e)) st

  -- The shard as a tier: which renames go through, and whether the flush of a reset does, are given; files
  -- can be opened.
  abbrev pub disk_tier : (ObjectMeta → Bool) → Bool → Tier
  disk_tier renames flushes = record {
    State = DiskShard;
    get = get blob_path unlinks true;
    store = λ m b s. commit blob_path unlinks (renames m) m b s;
    delete = delete blob_path unlinks;
    reset = reset blob_path unlinks flushes;
    IsValid = IsValid blob_path;
    get-IsValid = λ k s v. (get-Sound blob_path unlinks apart true k s v).0;
    get_get = λ k q s v. inr (get-get blob_path unlinks apart k q s v);
    store-IsValid =
        λ m b s v. let (t, o, e, st) = commit-Stores (renames m) m b s v in (t, o, e, st.valid);
    get-store_stored = λ m b s t v e. (Stores-of (renames m) m b s t stored v e).fresh refl;
    get-store_discarded =
        λ m b s t q v e. (Stores-of (renames m) m b s t discarded v e).refused refl q;
    get-store_failed = λ m b s t q v e. (Stores-of (renames m) m b s t failed v e).broken refl q;
    get-store_ne = λ m b s t o q v e other. (Stores-of (renames m) m b s t o v e).others q other;
    delete-IsValid = λ k s v. remove_locked-IsValid blob_path unlinks apart k s v;
    get-delete = λ k q s v. get-delete blob_path unlinks apart k q s;
    reset-IsValid = λ s v. reset-IsValid flushes s v;
    get-reset = λ q s v. get-reset flushes q s;
  }
