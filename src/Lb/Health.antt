-- ===== src/Lb/Health.antt =====
-- The health state machine of a backend: internal/lb/health.go.
pub mod Rotation
pub mod Window
pub mod Steady
use cadish.Prelude.Int.{ℤ, pos, pos_part, leb_ℤ}
use cadish.Prelude.{
  ℕ, zero, suc, ◌+◌, ◌-◌, ◌%◌, Bool, true, false, List, [], ◌∷◌, ltb, leb, if◌then◌else◌, length,
  set, take, replicate,
}

-- `results` is a ring of the recent outcomes, `idx` the next position to write, `filled` how many
-- positions hold an outcome.
pub record HealthFsm : Type 0 where
  pub window : ℕ
  pub threshold : ℕ
  pub results : List Bool
  pub idx : ℕ
  pub filled : ℕ
  pub up : Bool

-- A setting that is not positive counts as 1.
abbrev pub at_least_one : ℤ → ℕ
at_least_one n = if leb_ℤ n (pos 0) then 1 else pos_part n

unfoldable pub new_health_fsm : ℤ → ℤ → Bool → HealthFsm
new_health_fsm window threshold start_up =
    let w = at_least_one window in
    let t = at_least_one threshold in
    record {
      window = w;
      threshold = if ltb w t then w else t;
      results = replicate w false;
      idx = 0;
      filled = 0;
      up = start_up;
    }

-- The loop of `record` over the filled positions, for one kind of outcome.
unfoldable pub count : Bool → List Bool → ℕ
count b [] = 0
count true (true ∷ l) = suc (count true l)
count true (false ∷ l) = count true l
count false (true ∷ l) = count false l
count false (false ∷ l) = suc (count false l)

-- `record`, with whether the state changed.
unfoldable pub record_probe : Bool → HealthFsm → HealthFsm × Bool
unfolding count
record_probe success f =
    let results = set f.results f.idx success in
    let filled = (if ltb f.filled f.window then suc f.filled else f.filled) in
    let g = (record f { results = results; idx = (f.idx + 1) % f.window; filled = filled }) in
    let succ = count true (take filled results) in
    let fail = count false (take filled results) in
    if f.up
    then (if leb f.threshold fail then (record g { up = false }, true) else (g, false))
    else (if leb f.threshold succ then (record g { up = true }, true) else (g, false))

-- A run of probes, the oldest first.
unfoldable pub probes : List Bool → HealthFsm → HealthFsm
unfolding record_probe
probes [] f = f
probes (b ∷ l) f = probes l (record_probe b f).0
