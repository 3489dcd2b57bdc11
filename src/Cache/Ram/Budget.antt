-- ===== src/Cache/Ram/Budget.antt =====
-- The guard against running out of memory, for any interleaving of the calls of any number of
-- writers: what they buffer together stays within the in-flight budget.
use cadish.Cache.Meta.{ObjectMeta}
use cadish.Cache.Ram.Tier.{
  RamTier, RamWriter, release, drop_buffer, write_reserved, write, commit, commit_writer, settle,
  shard,
}
use cadish.Cache.Ram
use cadish.Prelude.Int.{pos, ◌+ℤ◌, ◌-ℤ◌}
use cadish.Prelude.{
  ℕ, ◌+◌, ◌≤◌, ◌<◌, ◌≡◌, Bool, List, ◌++◌, Option, none, some, length, length-append, arith, ◌⊎◌,
  inl, inr, Bool-cases, Option-cases,
}

-- A buffer is covered by its reservation, and is within the per-object cap where there is one.
abbrev pub Covered : ℕ → ℕ → Option (List ℕ) → Type 0
Covered cap reserved none = Unit
Covered cap reserved (some b) = (length b ≤ reserved) × ((cap ≡ 0) ⊎ (length b ≤ cap))

-- The account of a tier, for one writer beside others that hold `rest`.
pub record Account (rest : ℕ) (r : RamTier) (w : RamWriter) : Type 0 where
  pub budgeted : 0 < r.inflight_budget
  pub charged : r.inflight_bytes ≡ pos (rest + w.reserved)
  pub within : rest + w.reserved ≤ r.inflight_budget
  pub covered : Covered r.max_object_bytes w.reserved w.buf

-- What a call leaves alone.
pub record SameBounds (r r' : RamTier) : Type 0 where
  pub same_budget : r'.inflight_budget ≡ r.inflight_budget
  pub same_cap : r'.max_object_bytes ≡ r.max_object_bytes

drop_buffer-Account :
    (rest : ℕ) (r : RamTier) (w : RamWriter)
    → Account rest r w
    → Account rest (drop_buffer r w).0 (drop_buffer r w).1 × SameBounds r (drop_buffer r w).0
unfolding drop_buffer ◌-ℤ◌
drop_buffer-Account rest r w a = ground arith

write_reserved-Account :
    (rest : ℕ) (r : RamTier) (w : RamWriter) (body : List ℕ)
    → Account rest r w
    → (r.max_object_bytes ≡ 0) ⊎ (length body ≤ r.max_object_bytes)
    → Account rest
        (write_reserved r w body (length body)).0
        (write_reserved r w body (length body)).1
      × SameBounds r (write_reserved r w body (length body)).0
unfolding write_reserved ◌+ℤ◌ ◌-ℤ◌
write_reserved-Account rest r w body a cap = ground arith

pub settle-Account :
    (rest : ℕ) (r : RamTier) (w : RamWriter)
    → Account rest r w
    → Account rest (settle r w).0 (settle r w).1 × SameBounds r (settle r w).0
unfolding release ◌-ℤ◌
settle-Account rest r w a = ground arith

pub write-Account :
    (rest : ℕ) (r r' : RamTier) (w w' : RamWriter) (p : List ℕ)
    → Account rest r w
    → write r w p ≡ some (r', w')
    → Account rest r' w' × SameBounds r r'
unfolding write
write-Account rest r r' w w' p a h = elim (Bool-cases w.overflow) [
  | inl gone ↦ ground arith
  | inr live ↦ elim (Option-cases w.buf) [
    | inl e ↦ ground arith
    | inr (b, e) ↦ ground (
      arith,
      length-append b p,
      drop_buffer-Account rest r w a,
      write_reserved-Account rest r w (b ++ p) a,
    )
  ]
]

commit-SameBounds :
    (meta : ObjectMeta) (body : List ℕ) (r r' : RamTier) (stored : Bool)
    → commit meta body r ≡ some (r', stored)
    → SameBounds r r' × (r'.inflight_bytes ≡ r.inflight_bytes)
unfolding commit
commit-SameBounds meta body r r' stored h = elim (Option-cases (shard meta.key r)) [
  | inl e ↦ ground arith
  | inr (s, e) ↦ elim (Option-cases (Ram.commit meta body s)) [
    | inl f ↦ ground arith
    | inr (t, f) ↦ ground arith
  ]
]

pub commit_writer-Account :
    (rest : ℕ) (r r' : RamTier) (w w' : RamWriter)
    → Account rest r w
    → commit_writer r w ≡ some (r', w')
    → Account rest r' w' × SameBounds r r'
unfolding commit_writer
commit_writer-Account rest r r' w w' a h = elim (Bool-cases w.overflow) [
  | inl gone ↦ ground (arith, settle-Account rest r w a)
  | inr live ↦ elim (Option-cases w.buf) [
    | inl e ↦ ground arith
    | inr (b, e) ↦ elim (Option-cases (commit w.meta b r)) [
      | inl f ↦ ground arith
      | inr ((t, stored), f) ↦ ground (
        arith,
        commit-SameBounds w.meta b r t stored f,
        settle-Account rest t (record w { stored = stored }),
      )
    ]
  ]
]
