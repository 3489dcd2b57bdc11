-- ===== src/Cache/Ram/Reads.antt =====
-- What can be read from the tier after a call: the shards put together.
use mathlib.Core.Option.{some-injective}
use mathlib.Core.Path.{subst}
use cadish.Cache.Meta.{ObjectMeta}
use cadish.Cache.Ram
use cadish.Cache.Ram.Sweep.{Survives}
use cadish.Cache.Ram.{RamEntry, RamShard, new_shard}
use cadish.Cache.Ram.Commit.{Commits, commit_lem, delete_lem, get-IsValid}
use cadish.Cache.Ram.Invariant.{IsValid}
use cadish.Cache.Ram.Tier.{RamTier, index_of, shard, with_shard, get, delete, commit}
use cadish.Cache.Shard.Budget.{shard_index-lt}
use cadish.Cache.Tier.{stored_object, Kept}
use cadish.Prelude.Dict.{lookup, lookup-insert}
use cadish.Prelude.{
  ℕ, zero, suc, ◌<◌, ◌≡◌, ◌≢◌, inl, inr, Bool, true, false, List, [], ◌∷◌, none, some, String,
  str_eq, eq_iff, arith, ◌==◌, if◌then◌else◌, length, get_elem?, set, get_elem?-set_self,
  get_elem?-set_ne, get_elem?-lt, lt-get_elem?, length-set, Bool-cases, Option-cases,
}

abbrev pub AllValid : List RamShard → Type 0
AllValid [] = Unit
AllValid (s ∷ l) = IsValid s × AllValid l

-- Every shard is valid, and there is one.
pub record IsValidTier (r : RamTier) : Type 0 where
  pub shards_valid : AllValid r.shards
  pub some_shard : 0 < length r.shards

AllValid-set :
    (l : List RamShard) (i : ℕ) (s : RamShard) → AllValid l → IsValid s → AllValid (set l i s)
AllValid-set [] i s a v = tt
AllValid-set (x ∷ l) zero s a v = (v, a.1)
AllValid-set (x ∷ l) (suc i) s a v = (a.0, AllValid-set l i s a.1 v)

AllValid-at :
    (l : List RamShard) (i : ℕ) (s : RamShard) → AllValid l → get_elem? l i ≡ some s → IsValid s
AllValid-at [] i s a h = cc
AllValid-at (x ∷ l) zero s a h = subst IsValid (some-injective x s h) a.0
AllValid-at (x ∷ l) (suc i) s a h = AllValid-at l i s a.1 h

-- The shard of a key is there, and valid.
pub shard-IsValid :
    (key : String) (r : RamTier)
    → IsValidTier r
    → (s : RamShard) × (shard key r ≡ some s) × IsValid s
shard-IsValid key r v =
    let (s, at) = get_elem?-lt r.shards (index_of key r) (shard_index-lt key _ v.some_shard) in
    (s, at, AllValid-at r.shards (index_of key r) s v.shards_valid at)

pub with_shard-IsValidTier :
    (key : String) (s : RamShard) (r : RamTier)
    → IsValidTier r
    → IsValid s
    → IsValidTier (with_shard key s r)
with_shard-IsValidTier key s r v sv = record {
  shards_valid = AllValid-set r.shards (index_of key r) s v.shards_valid sv;
  some_shard = omega (arith, v.some_shard, length-set r.shards (index_of key r) s);
}

shard-with_shard :
    (k q : String) (s s' : RamShard) (r : RamTier)
    → shard k r ≡ some s
    → shard q (with_shard k s' r) ≡ (if index_of k r == index_of q r then some s' else shard q r)
shard-with_shard k q s s' r at =
    rw (length-set r.shards (index_of k r) s') (elim (Bool-cases (index_of k r == index_of q r)) [
      | inl same ↦ ground (
        arith,
        get_elem?-set_self r.shards (index_of k r) s' (lt-get_elem? r.shards (index_of k r) at),
      )
      | inr other ↦
          ground (arith, get_elem?-set_ne r.shards (index_of k r) (index_of q r) s' (ground arith))
    ])

pub get-shard :
    (q : String) (r : RamTier) (s : RamShard) → shard q r ≡ some s → (get q r).1 ≡ (Ram.get q s).1
unfolding get
get-shard q r s at = ground arith

-- A changed shard shows in the reads of its keys only.
pub get-with_shard :
    (k q : String) (s s' : RamShard) (r : RamTier)
    → shard k r ≡ some s
    → (get q (with_shard k s' r)).1
      ≡ (if index_of k r == index_of q r then (Ram.get q s').1 else (get q r).1)
unfolding get
get-with_shard k q s s' r at = ground (arith, shard-with_shard k q s s' r at)

-- The reads of a shard, against its map.
Ram_get-lookup :
    (q : String) (s : RamShard) (e : RamEntry)
    → lookup q s.items ≡ some e
    → (Ram.get q s).1 ≡ some (e.meta, e.body)
unfolding Ram.get
Ram_get-lookup q s e h = ground arith

Ram_get_none : (q : String) (s : RamShard) → lookup q s.items ≡ none → (Ram.get q s).1 ≡ none
unfolding Ram.get
Ram_get_none q s h = ground arith

Kept-Survives :
    (q : String) (s t : RamShard)
    → Survives (lookup q s.items) (lookup q t.items)
    → Kept (Ram.get q s).1 (Ram.get q t).1
unfolding Ram.get
Kept-Survives q s t h = elim (Option-cases (lookup q t.items)) [
  | inl gone ↦ inl (ground arith)
  | inr (e', there) ↦ elim (Option-cases (lookup q s.items)) [
    | inl e ↦ absurd (ground (arith, h))
    | inr (e, old) ↦ inr (ground (arith, h))
  ]
]

Ram_get_get : (k q : String) (s : RamShard) → (Ram.get q (Ram.get k s).0).1 ≡ (Ram.get q s).1
unfolding Ram.get
Ram_get_get k q s = elim (Option-cases (lookup k s.items)) [
  | inl e ↦ ground (arith, e)
  | inr (v, e) ↦ ground (arith, eq_iff k q, lookup-insert k q (record v { ref = true }) s.items)
]

-- A `get` of one key keeps a valid tier valid, and changes no read.
pub get_get-tier :
    (k q : String) (r : RamTier)
    → IsValidTier r
    → IsValidTier (get k r).0 × ((get q (get k r).0).1 ≡ (get q r).1)
get_get-tier k q r v =
    let (s, at, sv) = shard-IsValid k r v in
    let moved : (get k r).0 ≡ with_shard k (Ram.get k s).0 r = unfold get in ground (arith, at) in
    rw moved (
      with_shard-IsValidTier k (Ram.get k s).0 r v (get-IsValid k s sv),
      ground (arith, get-with_shard k q s (Ram.get k s).0 r at, Ram_get_get k q s, get-shard q r s),
    )

-- Of a valid tier: `delete` takes out its key, and nothing else.
pub delete-tier :
    (k q : String) (r : RamTier)
    → IsValidTier r
    → IsValidTier (delete k r)
      × ((get q (delete k r)).1 ≡ (if str_eq k q then none else (get q r).1))
delete-tier k q r v =
    let (s, at, sv) = shard-IsValid k r v in
    let (dv, reads) = delete_lem k s sv in
    let moved : delete k r ≡ with_shard k (Ram.delete k s) r =
      unfold delete in ground (arith, at) in
    rw moved (
      with_shard-IsValidTier k (Ram.delete k s) r v dv,
      ground
          (arith, eq_iff k q, get-with_shard k q s (Ram.delete k s) r at, reads q, get-shard q r s),
    )

-- What a commit into a valid tier leaves.
pub record CommitsTier (m : ObjectMeta) (b : List ℕ) (r t : RamTier) (stored : Bool) : Type 0 where
  pub valid : IsValidTier t
  pub fresh : stored ≡ true → (get m.key t).1 ≡ some (stored_object m b)
  pub refused : stored ≡ false → (q : String) → (get q t).1 ≡ (get q r).1
  pub others : (q : String) → q ≢ m.key → Kept (get q r).1 (get q t).1

-- A shard that refuses the object is put back as it was.
refused-CommitsTier :
    (m : ObjectMeta) (b : List ℕ) (r : RamTier) (s : RamShard)
    → IsValidTier r
    → shard m.key r ≡ some s
    → IsValid s
    → CommitsTier m b r (with_shard m.key s r) false
refused-CommitsTier m b r s v at sv = record {
  valid = with_shard-IsValidTier m.key s r v sv;
  fresh = λ e. cc;
  refused = λ e q. ground (arith, get-with_shard m.key q s s r at, get-shard q r s);
  others = λ q other. inr (ground (arith, get-with_shard m.key q s s r at, get-shard q r s));
}

stored-CommitsTier :
    (m : ObjectMeta) (b : List ℕ) (r : RamTier) (s t : RamShard)
    → IsValidTier r
    → shard m.key r ≡ some s
    → Commits m b s t
    → CommitsTier m b r (with_shard m.key t r) true
stored-CommitsTier m b r s t v at c = record {
  valid = with_shard-IsValidTier m.key t r v c.valid;
  fresh = λ e. ground (arith, get-with_shard m.key m.key s t r at, c.stored);
  refused = λ e. cc;
  others = λ q other. elim (Bool-cases (index_of m.key r == index_of q r)) [
    | inl same ↦
        rw (get-with_shard m.key q s t r at)
          (rw same (rw (get-shard q r s (ground arith)) (Kept-Survives q s t (c.others q other))))
    | inr apart ↦ inr (ground (arith, get-with_shard m.key q s t r at))
  ];
}

pub commit-CommitsTier :
    (m : ObjectMeta) (b : List ℕ) (r : RamTier)
    → IsValidTier r
    → (t : RamTier) × (stored : Bool) × (commit m b r ≡ some (t, stored))
      × CommitsTier m b r t stored
unfolding commit
commit-CommitsTier m b r v =
    let (s, at, sv) = shard-IsValid m.key r v in
    elim (commit_lem m b s sv) [
      | inl (large, e) ↦
          (with_shard m.key s r, false, ground (arith, at, e), refused-CommitsTier m b r s v at sv)
      | inr (t, small, e, c) ↦
          (with_shard m.key t r, true, ground (arith, at, e), stored-CommitsTier m b r s t v at c)
    ]
