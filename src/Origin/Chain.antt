-- ===== src/Origin/Chain.antt =====
-- The chain of origins: internal/origin/chain/chain.go.
-- An attempt is what the context and the origin say when the loop comes to that origin.
pub mod Bodies
pub mod Verdict
pub mod Writes
use cadish.Origin.{
  Error, not_found, skip, done, done_after, Response, Outcome, ok, err, status_of, is_skip,
  error_body, without_body,
}
use cadish.Prelude.{
  ℕ, suc, ◌+◌, Bool, true, false, not, ◌&&◌, List, [], ◌∷◌, ◌++◌, Option, none, some, leb, ◌==◌,
  if◌then◌else◌,
}

pub record Attempt : Type 0 where
  pub cancelled : Bool
  pub outcome : Outcome

unfoldable pub has_status : ℕ → List ℕ → Bool
has_status s [] = false
has_status s (t ∷ ts) = if s == t then true else has_status s ts

-- `WithFallThroughStatuses`
unfoldable pub fall_through_statuses : List ℕ → Error → Bool
unfolding status_of has_status
fall_through_statuses set e = let s = status_of e in if s == 0 then true else has_status s set

unfoldable pub default_fall_through : Error → Bool
unfolding status_of
default_fall_through e =
    let s = status_of e in
    if s == 0 then true else if s == 404 then true else leb 500 s && leb s 599

-- `lastErr`, `lastNeg`, and the handles that were closed.
pub record Held : Type 0 where
  pub last_err : Option Error
  pub last_neg : Option Response
  pub closed : List ℕ

abbrev pub nothing_held : Held
nothing_held = record { last_err = none; last_neg = none; closed = [] }

-- `if lastNeg != nil { lastNeg.Body.Close() }`
unfoldable pub close_neg : Held → Held
close_neg h = elim h.last_neg [
  | none ↦ h
  | some r ↦ record h { closed = h.closed ++ (r.body ∷ []) }
]

-- `origin.CloseStatusErrBody(lastErr)`
unfoldable pub close_err : Held → Held
unfolding error_body without_body
close_err h = elim h.last_err [
  | none ↦ h
  | some e ↦ record h { last_err = some (without_body e); closed = h.closed ++ error_body e }
]

-- What `Fetch` returns, how many origins it asked, and the handles it closed.
pub record Fetched : Type 0 where
  pub result : Outcome
  pub asked : ℕ
  pub released : List ℕ

abbrev pub surface : Outcome → ℕ → Held → Fetched
surface o n h = record { result = o; asked = n; released = h.closed }

-- The context was done before origin `i`.
unfoldable pub stop_done : ℕ → Held → Fetched
unfolding close_neg close_err
stop_done i h =
    let g = close_neg h in
    elim g.last_err [
      | none ↦ surface (err done) i g
      | some e ↦ surface (err (done_after i)) i (close_err g)
    ]

-- Every origin fell through.
unfoldable pub settle : ℕ → Held → Fetched
unfolding close_err
settle n h = elim h.last_neg [
  | some r ↦ surface (ok r) n (close_err h)
  | none ↦ elim h.last_err [ none ↦ surface (err not_found) n h | some e ↦ surface (err e) n h ]
]

-- How the loop goes on after one origin.
pub data Next : Type 0 where
  next : Held → Next
  return : Fetched → Next

unfoldable pub on_response : Bool → ℕ → Response → Held → Next
unfolding close_neg close_err
on_response has_body i r h =
    if not r.negative
    then return (surface (ok r) (suc i) (close_err (close_neg h)))
    else if has_body
    then return (surface (ok r) (suc i) (close_neg h))
    else next (record (close_err (close_neg h)) { last_neg = some r; last_err = none })

unfoldable pub on_error : (Error → Bool) → Bool → ℕ → Error → Held → Next
unfolding close_neg close_err
on_error fall_through has_body i e h =
    let g = record (close_err h) { last_err = some e } in
    if is_skip e
    then next (record g { last_err = none })
    else if has_body
    then return (surface (err e) (suc i) (close_neg g))
    else if not (fall_through e)
    then return (surface (err e) (suc i) (close_neg g))
    else next g

unfoldable pub on_outcome : (Error → Bool) → Bool → ℕ → Outcome → Held → Next
unfolding on_response on_error
on_outcome fall_through has_body i (ok r) h = on_response has_body i r h
on_outcome fall_through has_body i (err e) h = on_error fall_through has_body i e h

-- The loop, from origin `i` on.
unfoldable pub fetch_from : (Error → Bool) → Bool → ℕ → List Attempt → Held → Fetched
unfolding stop_done settle on_outcome
fetch_from fall_through has_body i [] h = settle i h
fetch_from fall_through has_body i (a ∷ ts) h = elim a.cancelled [
  | true ↦ stop_done i h
  | false ↦ elim (on_outcome fall_through has_body i a.outcome h) [
    | return f ↦ f
    | next g ↦ fetch_from fall_through has_body (suc i) ts g
  ]
]

-- `Fetch`
unfoldable pub fetch : (Error → Bool) → Bool → List Attempt → Fetched
unfolding fetch_from
fetch fall_through has_body ts = fetch_from fall_through has_body 0 ts nothing_held
