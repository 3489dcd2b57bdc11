-- ===== src/Server/Coalesce.antt =====
-- One origin fetch for a herd of requests: internal/server/coalesce.go, and its use in handler.go.
-- A call is the number of its cell in the heap; the mutex makes `enter` and `finish` one step each.
pub mod Steps
pub mod Invariant
pub mod Ending
pub mod Wake
use cadish.Prelude.Dict.{Dict, lookup, has, insert, erase}
use cadish.Prelude.{
  ℕ, suc, Bool, true, false, not, [], Option, none, some, String, ◌==◌, if◌then◌else◌,
}

-- `done` closed, and `succeeded`.
pub record FetchCall : Type 0 where
  pub finished : Bool
  pub succeeded : Bool

pub record Coalescer : Type 0 where
  pub calls : Dict ℕ
  pub heap : ℕ → FetchCall
  pub allocated : ℕ

abbrev pub new_call : FetchCall
new_call = record { finished = false; succeeded = false }

abbrev pub new_coalescer : Coalescer
new_coalescer = record { calls = []; heap = λ c. new_call; allocated = 0 }

abbrev pub write_call : ℕ → FetchCall → (ℕ → FetchCall) → ℕ → FetchCall
write_call c f heap d = if c == d then f else heap d

pub record Entered : Type 0 where
  pub table : Coalescer
  pub call : ℕ
  pub winner : Bool

-- `enter`, by what the map says of the key.
abbrev pub enter_found : Option ℕ → String → Coalescer → Entered
enter_found (some existing) key c = record { table = c; call = existing; winner = false }
enter_found none key c = record {
  table = record {
    calls = insert key c.allocated c.calls;
    heap = write_call c.allocated new_call c.heap;
    allocated = suc c.allocated;
  };
  call = c.allocated;
  winner = true;
}

unfoldable pub enter : String → Coalescer → Entered
unfolding lookup insert
enter key c = enter_found (lookup key c.calls) key c

-- `c.calls[key] == call`
unfoldable pub points_at : String → ℕ → Dict ℕ → Bool
unfolding lookup
points_at key call calls = elim (lookup key calls) [ none ↦ false | some c ↦ c == call ]

-- `finish`, by whether the map still points at the call; closing `done` twice would fault.
abbrev pub finish_pointed : Bool → String → ℕ → Bool → Coalescer → Option Coalescer
finish_pointed pointed key call succeeded c =
    if (c.heap call).finished
    then none
    else some (record c {
      calls = if pointed then erase key c.calls else c.calls;
      heap = write_call call (record { finished = true; succeeded = succeeded }) c.heap;
    })

unfoldable pub finish : String → ℕ → Bool → Coalescer → Option Coalescer
unfolding points_at erase
finish key call succeeded c = finish_pointed (points_at key call c.calls) key call succeeded c

-- `begin` and `end` of the background fetches: the result, and the keys in flight.
unfoldable pub begin : String → Dict {0} Unit → Bool × Dict {0} Unit
unfolding has insert
begin key in_flight =
    if has key in_flight then (false, in_flight) else (true, insert key tt in_flight)

unfoldable pub end : String → Dict {0} Unit → Dict {0} Unit
unfolding erase
end key in_flight = erase key in_flight
