-- ===== src/Cache/Ram/Writers.antt =====
-- Any number of writers on one tier, whose calls interleave in any order: each call is one step, for
-- it touches the shared budget once.
use cadish.Cache.Meta.{ObjectMeta}
use cadish.Cache.Ram.Budget.{
  Covered, Account, SameBounds, write-Account, commit_writer-Account, settle-Account,
}
use cadish.Cache.Ram.Tier.{
  RamTier, RamWriter, new_tier, new_writer, write, commit_writer, abort_writer, get, delete, reset,
}
use cadish.Prelude.Int.{pos}
use cadish.Prelude.{
  ℕ, zero, suc, ◌+◌, ◌≤◌, ◌<◌, ◌≡◌, refl, sym, ap, ◌∙◌, ◌-◌, List, [], ◌∷◌, Option, none, some,
  String, length, get_elem?, set, arith, inr,
}

pub record System : Type 0 where
  pub tier : RamTier
  pub writers : List RamWriter

abbrev pub after : System → ℕ → RamTier × RamWriter → System
after s i (r, w) = record { tier = r; writers = set s.writers i w }

-- A step is a call: of a new writer, of a writer `i`, or of a reader.
pub data Step (s : System) : System → Type 0 where
  opened : (meta : ObjectMeta) → Step s (record s { writers = new_writer meta ∷ s.writers })
  written :
      (i : ℕ) (w : RamWriter) (p : List ℕ) (r : RamTier × RamWriter)
      → get_elem? s.writers i ≡ some w
      → write s.tier w p ≡ some r
      → Step s (after s i r)
  committed :
      (i : ℕ) (w : RamWriter) (r : RamTier × RamWriter)
      → get_elem? s.writers i ≡ some w
      → commit_writer s.tier w ≡ some r
      → Step s (after s i r)
  aborted :
      (i : ℕ) (w : RamWriter)
      → get_elem? s.writers i ≡ some w
      → Step s (after s i (abort_writer s.tier w))
  read : (key : String) → Step s (record s { tier = (get key s.tier).0 })
  deleted : (key : String) → Step s (record s { tier = delete key s.tier })
  flushed : Step s (record s { tier = reset s.tier })

pub data Reach (s : System) : System → Type 0 where
  here : Reach s s
  next : {t u : System} → Reach s t → Step t u → Reach s u

abbrev pub held : List RamWriter → ℕ
held [] = 0
held (w ∷ ws) = w.reserved + held ws

abbrev size_of : Option (List ℕ) → ℕ
size_of none = 0
size_of (some b) = length b

-- The bytes in all buffers.
abbrev pub buffered : List RamWriter → ℕ
buffered [] = 0
buffered (w ∷ ws) = size_of w.buf + buffered ws

abbrev pub AllCovered : ℕ → List RamWriter → Type 0
AllCovered cap [] = Unit
AllCovered cap (w ∷ ws) = Covered cap w.reserved w.buf × AllCovered cap ws

-- Of a tier with bounds `budget` and `cap`: the budget is charged with what the writers hold, and no
-- more than allowed.
pub record IsBounded (budget cap : ℕ) (s : System) : Type 0 where
  pub has_budget : s.tier.inflight_budget ≡ budget
  pub has_cap : s.tier.max_object_bytes ≡ cap
  pub charged : s.tier.inflight_bytes ≡ pos (held s.writers)
  pub within : held s.writers ≤ budget
  pub covered : AllCovered cap s.writers

held-set :
    (ws : List RamWriter) (i : ℕ) (w w' : RamWriter)
    → get_elem? ws i ≡ some w
    → held (set ws i w') + w.reserved ≡ held ws + w'.reserved
held-set [] i w w' h = cc
held-set (x ∷ ws) zero w w' h = ground arith
held-set (x ∷ ws) (suc i) w w' h = omega (arith, held-set ws i w w' h)

AllCovered-set :
    (cap : ℕ) (ws : List RamWriter) (i : ℕ) (w' : RamWriter)
    → AllCovered cap ws
    → Covered cap w'.reserved w'.buf
    → AllCovered cap (set ws i w')
AllCovered-set cap [] i w' a c = tt
AllCovered-set cap (x ∷ ws) zero w' a c = (c, a.1)
AllCovered-set cap (x ∷ ws) (suc i) w' a c = (a.0, AllCovered-set cap ws i w' a.1 c)

Covered-at :
    (cap : ℕ) (ws : List RamWriter) (i : ℕ) (w : RamWriter)
    → AllCovered cap ws
    → get_elem? ws i ≡ some w
    → Covered cap w.reserved w.buf × (w.reserved ≤ held ws)
Covered-at cap [] i w a h = cc
Covered-at cap (x ∷ ws) zero w a h = ground arith
Covered-at cap (x ∷ ws) (suc i) w a h =
    let c = Covered-at cap ws i w a.1 h in (c.0, omega (arith, c.1))

buffered-le-held : (cap : ℕ) (ws : List RamWriter) → AllCovered cap ws → buffered ws ≤ held ws
buffered-le-held cap [] a = omega arith
buffered-le-held cap (w ∷ ws) a = ground (arith, buffered-le-held cap ws a.1)

module _ (budget cap : ℕ) (positive : 0 < budget) where
  -- The account of writer `i` beside the others.
  account :
      (s : System) (i : ℕ) (w : RamWriter)
      → IsBounded budget cap s
      → get_elem? s.writers i ≡ some w
      → Account (held s.writers - w.reserved) s.tier w
  account s i w b at =
      let (covered, le) = Covered-at cap s.writers i w b.covered at in
      record {
        budgeted = omega (arith, b.has_budget);
        charged = b.charged ∙ ap pos (omega (arith, le));
        within = omega (arith, le, b.within, b.has_budget);
        covered = rw b.has_cap covered;
      }

  settle_up :
      (s : System) (i : ℕ) (w w' : RamWriter) (r : RamTier)
      → IsBounded budget cap s
      → get_elem? s.writers i ≡ some w
      → Account (held s.writers - w.reserved) r w' × SameBounds s.tier r
      → IsBounded budget cap (after s i (r, w'))
  settle_up s i w w' r b at (a, same) =
      let (_, le) = Covered-at cap s.writers i w b.covered at in
      let moved : held (set s.writers i w') ≡ held s.writers - w.reserved + w'.reserved =
        omega (arith, held-set s.writers i w w' at, le) in
      record {
        has_budget = same.same_budget ∙ b.has_budget;
        has_cap = same.same_cap ∙ b.has_cap;
        charged = a.charged ∙ ap pos (sym moved);
        within = omega (arith, moved, a.within, same.same_budget, b.has_budget);
        covered =
            AllCovered-set cap s.writers i w' b.covered
              (rw (same.same_cap ∙ b.has_cap) at a.covered);
      }

  Step-IsBounded : {s t : System} → Step s t → IsBounded budget cap s → IsBounded budget cap t
  unfolding get delete reset
  Step-IsBounded (opened meta) b = record {
    has_budget = b.has_budget;
    has_cap = b.has_cap;
    charged = ground (arith, b.charged);
    within = omega (arith, b.within);
    covered = ((omega arith, inr (omega arith)), b.covered);
  }
  Step-IsBounded {s} (written i w p (r, w') at done) b =
      settle_up s i w w' r b at
        (write-Account (held s.writers - w.reserved) s.tier r w w' p (account s i w b at) done)
  Step-IsBounded {s} (committed i w (r, w') at done) b =
      settle_up s i w w' r b at (
        commit_writer-Account (held s.writers - w.reserved) s.tier r w w' (account s i w b at) done)
  Step-IsBounded {s} (aborted i w at) b =
      settle_up s i w (abort_writer s.tier w).1 (abort_writer s.tier w).0 b at
        (settle-Account (held s.writers - w.reserved) s.tier w (account s i w b at))
  Step-IsBounded (read key) b = ground arith
  Step-IsBounded (deleted key) b = ground arith
  Step-IsBounded flushed b = ground arith

  Reach-IsBounded : {s t : System} → IsBounded budget cap s → Reach s t → IsBounded budget cap t
  Reach-IsBounded b here = b
  Reach-IsBounded b (next r st) = Step-IsBounded st (Reach-IsBounded b r)

abbrev pub fresh : ℕ → ℕ → ℕ → System
fresh max_bytes cap budget = record { tier = new_tier max_bytes cap budget; writers = [] }

-- However the calls of any number of writers and readers interleave on a new tier with an in-flight
-- budget other than 0: the budget is charged with exactly what the writers have reserved, all buffers
-- together hold at most the budget, and each buffer is within the per-object cap where that is not 0.
pub reached-IsBounded :
    (max_bytes cap budget : ℕ) {s : System}
    → 0 < budget
    → Reach (fresh max_bytes cap budget) s
    → IsBounded budget cap s × (buffered s.writers ≤ budget)
unfolding new_tier
reached-IsBounded max_bytes cap budget {s} positive r =
    let b =
      Reach-IsBounded budget cap positive
        (record {
          has_budget = refl;
          has_cap = refl;
          charged = refl;
          within = omega arith;
          covered = tt;
        })
        r in
    (b, omega (arith, buffered-le-held cap s.writers b.covered, b.within))
