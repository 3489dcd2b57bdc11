-- ===== src/Cache/Ram/WholeWrite.antt =====
-- A whole write into the in-memory tier: a new writer, one `Write` of the body, and `Commit`; its
-- outcome is that of `Stored`.
use cadish.Cache.Meta.{ObjectMeta}
use cadish.Cache.Ram.Reads.{IsValidTier, CommitsTier, commit-CommitsTier}
use cadish.Cache.Ram.Tier.{
  RamTier, RamWriter, new_writer, release, drop_buffer, write_reserved, write, commit,
  commit_writer, get, settle,
}
use cadish.Cache.Tier.{Outcome, stored, discarded, failed, stored_object, Kept}
use cadish.Prelude.{
  ℕ, ◌+◌, ◌≡◌, ◌≢◌, ◌⊎◌, inl, inr, refl, ◌∙◌, Bool, true, false, List, Option, none, some, String,
  arith, if◌then◌else◌, length, ltb, ◌&&◌,
}

abbrev pub outcome : Bool → Outcome
outcome true = stored
outcome false = discarded

unfoldable pub store : ObjectMeta → List ℕ → RamTier → Option (RamTier × Outcome)
store meta body r = elim (write r (new_writer meta) body) [
  | none ↦ none
  | some (r', w) ↦ elim (commit_writer r' w) [
    | none ↦ none
    | some (r'', w') ↦ some (r'', outcome w'.stored)
  ]
]

-- Two tiers with the same shards read the same.
get-same : (q : String) (r t : RamTier) → t.shards ≡ r.shards → (get q t).1 ≡ (get q r).1
unfolding get
get-same q r t e = rw (e, get) (ground arith)

IsValidTier-same : (r t : RamTier) → t.shards ≡ r.shards → IsValidTier r → IsValidTier t
IsValidTier-same r t e v = record {
  shards_valid = rw e v.shards_valid;
  some_shard = rw e v.some_shard;
}

-- The first write of a writer: it has buffered the bytes, or given up.
record Wrote (m : ObjectMeta) (b : List ℕ) (r t : RamTier) (w : RamWriter) : Type 0 where
  same_shards : t.shards ≡ r.shards
  same_meta : w.meta ≡ m
  unstored : w.stored ≡ false
  buffer : (w.overflow ≡ true) ⊎ ((w.overflow ≡ false) × (w.buf ≡ some b))

-- The first write, in full.
abbrev first_write : ObjectMeta → List ℕ → RamTier → RamTier × RamWriter
first_write m b r =
    if ltb 0 r.max_object_bytes && ltb r.max_object_bytes (0 + length b)
    then drop_buffer r (new_writer m)
    else write_reserved r (new_writer m) b (0 + length b)

write-Wrote :
    (m : ObjectMeta) (b : List ℕ) (r : RamTier)
    → (write r (new_writer m) b ≡ some (first_write m b r))
      × Wrote m b r (first_write m b r).0 (first_write m b r).1
unfolding write
write-Wrote m b r = (refl, ground arith)

-- `Commit` of a writer that has given up, and of one that has the body.
commit_given_up :
    (r : RamTier) (w : RamWriter) → w.overflow ≡ true → commit_writer r w ≡ some (settle r w)
unfolding commit_writer
commit_given_up r w h = ground arith

commit_buffered :
    (b : List ℕ) (r t : RamTier) (w : RamWriter) (st : Bool)
    → w.overflow ≡ false
    → w.buf ≡ some b
    → commit w.meta b r ≡ some (t, st)
    → commit_writer r w ≡ some (settle t (record w { stored = st }))
unfolding commit_writer
commit_buffered b r t w st h e c = ground arith

settle-shards : (r : RamTier) (w : RamWriter) → (settle r w).0.shards ≡ r.shards
unfolding release
settle-shards r w = ground arith

-- How a whole write ends: what `commit` promises, for the object as the outcome tells it.
pub record Stores (m : ObjectMeta) (b : List ℕ) (r t : RamTier) (o : Outcome) : Type 0 where
  pub valid : IsValidTier t
  pub never_fails : o ≢ failed
  pub fresh : o ≡ stored → (get m.key t).1 ≡ some (stored_object m b)
  pub refused : o ≡ discarded → (q : String) → (get q t).1 ≡ (get q r).1
  pub others : (q : String) → q ≢ m.key → Kept (get q r).1 (get q t).1

-- Nothing was committed: the shards are as they were.
unstored-Stores :
    (m : ObjectMeta) (b : List ℕ) (r t : RamTier)
    → IsValidTier r
    → t.shards ≡ r.shards
    → Stores m b r t discarded
unstored-Stores m b r t v e = record {
  valid = IsValidTier-same r t e v;
  never_fails = λ h. cc;
  fresh = λ h. cc;
  refused = λ h q. get-same q r t e;
  others = λ q other. inr (get-same q r t e);
}

committed-Stores :
    (m : ObjectMeta) (b : List ℕ) (r r' t u : RamTier) (st : Bool)
    → r'.shards ≡ r.shards
    → u.shards ≡ t.shards
    → CommitsTier m b r' t st
    → Stores m b r u (outcome st)
committed-Stores m b r r' t u true e f c = record {
  valid = IsValidTier-same t u f c.valid;
  never_fails = λ h. cc;
  fresh = λ h. get-same m.key t u f ∙ c.fresh refl;
  refused = λ h. cc;
  others = λ q other. rw (get-same q t u f, ← get-same q r r' e) (c.others q other);
}
committed-Stores m b r r' t u false e f c = record {
  valid = IsValidTier-same t u f c.valid;
  never_fails = λ h. cc;
  fresh = λ h. cc;
  refused = λ h q. get-same q t u f ∙ c.refused refl q ∙ get-same q r r' e;
  others = λ q other. rw (get-same q t u f, ← get-same q r r' e) (c.others q other);
}

pub store-Stores :
    (m : ObjectMeta) (b : List ℕ) (r : RamTier)
    → IsValidTier r
    → (t : RamTier) × (o : Outcome) × (store m b r ≡ some (t, o)) × Stores m b r t o
unfolding store
store-Stores m b r v = elim wrote.buffer [
  | inl gave_up ↦ (
    (settle r' w).0,
    discarded,
    ground (arith, written, commit_given_up r' w gave_up, wrote.unstored),
    unstored-Stores m b r (settle r' w).0 v (settle-shards r' w ∙ wrote.same_shards),
  )
  | inr (live, has_body) ↦
      let (t, st, e, c) = commit-CommitsTier m b r' (IsValidTier-same r r' wrote.same_shards v) in
      let committed = commit_buffered b r' t w st live has_body (rw wrote.same_meta e) in
      (
        (settle t (record w { stored = st })).0,
        outcome st,
        ground (arith, written, committed),
        committed-Stores m b r r' t (settle t (record w { stored = st })).0 st wrote.same_shards
            (settle-shards t (record w { stored = st })) c,
      )
]
  where
    r' : RamTier
    r' = (first_write m b r).0

    w : RamWriter
    w = (first_write m b r).1

    written : write r (new_writer m) b ≡ some (r', w)
    written = (write-Wrote m b r).0

    wrote : Wrote m b r r' w
    wrote = (write-Wrote m b r).1
