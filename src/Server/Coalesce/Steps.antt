-- ===== src/Server/Coalesce/Steps.antt =====
-- Requests that share a coalescer, as every interleaving of their steps: serveMiss of handler.go.
use cadish.Prelude.{
  ℕ, ◌+◌, ◌≡◌, Bool, List, [], ◌∷◌, ◌++◌, some, String, str_eq, ◌==◌, if◌then◌else◌,
}
use cadish.Server.Coalesce.{Coalescer, new_coalescer, Entered, enter, finish}

-- The requests that fetch for a key, and the calls that the other requests wait for.
pub record World : Type 0 where
  pub table : Coalescer
  pub winners : List (String × ℕ)
  pub waiters : List ℕ

abbrev pub new_world : World
new_world = record { table = new_coalescer; winners = []; waiters = [] }

-- A request comes in for a key.
abbrev pub take_part : String → Entered → World → World
take_part key e w =
    if e.winner
    then (record { table = e.table; winners = (key, e.call) ∷ w.winners; waiters = w.waiters })
    else (record { table = e.table; winners = w.winners; waiters = e.call ∷ w.waiters })

abbrev pub arrive : String → World → World
arrive key w = take_part key (enter key w.table) w

-- What the steps lead to: an arrival, a winner that finishes with any result, and a waiter that goes,
-- woken or given up.
pub data Reached : World → Type 0 where
  started : Reached new_world
  arrived : (w : World) (key : String) → Reached w → Reached (arrive key w)
  finished :
      (w : World) (c : Coalescer) (before after : List (String × ℕ)) (key : String) (call : ℕ)
      (succeeded : Bool)
      → Reached w
      → w.winners ≡ before ++ ((key, call) ∷ after)
      → finish key call succeeded w.table ≡ some c
      → Reached (record { table = c; winners = before ++ after; waiters = w.waiters })
  gone :
      (w : World) (before after : List ℕ) (call : ℕ)
      → Reached w
      → w.waiters ≡ before ++ (call ∷ after)
      → Reached (record { table = w.table; winners = w.winners; waiters = before ++ after })

-- How many requests fetch for a key, and how many fetch under a call.
unfoldable pub fetching : String → List (String × ℕ) → ℕ
fetching k [] = 0
fetching k ((j, c) ∷ ws) = (if str_eq j k then 1 else 0) + fetching k ws

unfoldable pub running : ℕ → List (String × ℕ) → ℕ
running c [] = 0
running c ((j, d) ∷ ws) = (if d == c then 1 else 0) + running c ws
