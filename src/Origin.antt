-- ===== src/Origin.antt =====
-- What an origin answers: internal/origin/origin.go. A body is the number of its handle.
pub mod Chain
use cadish.Prelude.{ℕ, Bool, true, false, List, [], ◌∷◌, ◌++◌, Option, none, some}

-- An error by what `errors.Is` and `errors.As` find in it. `done` is the context's error, which the
-- chain may wrap with the number of an origin.
pub data Error : Type 0 where
  not_found skip : Error
  status_error : ℕ → Option ℕ → Error
  connection : ℕ → Error
  done : Error
  done_after : ℕ → Error

pub record Response : Type 0 where
  pub status_code : ℕ
  pub negative : Bool
  pub body : ℕ

-- What `Fetch` returns.
pub data Outcome : Type 0 where
  ok : Response → Outcome
  err : Error → Outcome

-- `StatusOf`
unfoldable pub status_of : Error → ℕ
status_of not_found = 404
status_of (status_error s b) = s
status_of _ = 0

abbrev pub is_skip : Error → Bool
is_skip skip = true
is_skip _ = false

abbrev pub handle : Option ℕ → List ℕ
handle none = []
handle (some b) = b ∷ []

-- The live body that an error carries.
unfoldable pub error_body : Error → List ℕ
error_body (status_error s b) = handle b
error_body _ = []

-- `CloseBody` clears the body of the error.
unfoldable pub without_body : Error → Error
without_body (status_error s b) = status_error s none
without_body e = e
