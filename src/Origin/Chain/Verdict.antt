-- ===== src/Origin/Chain/Verdict.antt =====
-- What the chain answers, as one look at what all its origins say: internal/origin/chain/chain.go.
use cadish.Origin.{Error, not_found, Response, Outcome, ok, err, is_skip}
use cadish.Origin.Chain.{
  Attempt, Held, nothing_held, close_neg, close_err, surface, stop_done, settle, next, return,
  on_response, on_error, on_outcome, fetch_from, fetch,
}
use cadish.Prelude.{
  ℕ, suc, ◌≡◌, refl, ap, ◌∙◌, Bool, true, false, not, ◌&&◌, List, [], ◌∷◌, map, Option, none, some,
  if◌then◌else◌, arith, inl, inr, Bool-cases,
}

-- An answer that ends the chain: a positive response, or an error that neither declines nor falls through.
unfoldable pub decisive : (Error → Bool) → Outcome → Bool
decisive fall_through (ok r) = not r.negative
decisive fall_through (err e) = not (is_skip e) && not (fall_through e)

unfoldable pub first_decisive : (Error → Bool) → List Outcome → Option Outcome
unfolding decisive
first_decisive fall_through [] = none
first_decisive fall_through (o ∷ os) =
    if decisive fall_through o then some o else first_decisive fall_through os

unfoldable pub last_response : List Outcome → Option Response
last_response [] = none
last_response (o ∷ os) = elim (last_response os) [
  | some r ↦ some r
  | none ↦ elim o [ ok r ↦ some r | err e ↦ none ]
]

-- The answer to an error: one that declines is a miss.
abbrev pub as_miss : Error → Outcome
as_miss e = err (if is_skip e then not_found else e)

unfoldable pub last_error : List Outcome → Outcome
last_error [] = err not_found
last_error (o ∷ []) = elim o [ ok r ↦ ok r | err e ↦ as_miss e ]
last_error (o ∷ p ∷ os) = last_error (p ∷ os)

-- The first decisive answer, else the last response, else the last error.
unfoldable pub verdict : (Error → Bool) → List Outcome → Outcome
unfolding first_decisive last_response last_error
verdict fall_through os = elim (first_decisive fall_through os) [
  | some o ↦ o
  | none ↦ elim (last_response os) [ some r ↦ ok r | none ↦ last_error os ]
]

abbrev pub outcomes : List Attempt → List Outcome
outcomes ts = map (λ a. a.outcome) ts

unfoldable pub cancelled_none : List Attempt → Bool
cancelled_none [] = true
cancelled_none (a ∷ ts) = not a.cancelled && cancelled_none ts

-- The verdict, given what the loop holds.
abbrev held_error : Option Error → List Outcome → Outcome
held_error l [] = elim l [ none ↦ err not_found | some e ↦ err e ]
held_error l (o ∷ os) = last_error (o ∷ os)

abbrev held_verdict : (Error → Bool) → Held → List Outcome → Outcome
held_verdict fall_through h os = elim (first_decisive fall_through os) [
  | some o ↦ o
  | none ↦ elim (last_response os) [
    | some r ↦ ok r
    | none ↦ elim h.last_neg [ some r ↦ ok r | none ↦ held_error h.last_err os ]
  ]
]

-- What one answer without a decision leaves held.
abbrev after_err : Outcome → Option Error
after_err (ok r) = none
after_err (err e) = if is_skip e then none else some e

abbrev after_neg : Outcome → Option Response → Option Response
after_neg (ok r) n = some r
after_neg (err e) n = n

abbrev kept : Outcome → Held → Held
kept (ok r) h = record (close_err (close_neg h)) { last_neg = some r; last_err = none }
kept (err e) h = record (close_err h) { last_err = after_err (err e) }

-- What a decision drops.
abbrev dropped : Outcome → Held → Held
dropped (ok r) h = close_err (close_neg h)
dropped (err e) h = close_neg (record (close_err h) { last_err = some e })

close_neg-keeps :
    (h : Held) → ((close_neg h).last_err ≡ h.last_err) × ((close_neg h).last_neg ≡ h.last_neg)
unfolding close_neg
close_neg-keeps h = ground arith

close_err-keeps : (h : Held) → (close_err h).last_neg ≡ h.last_neg
unfolding close_err
close_err-keeps h = ground arith

kept-last_neg : (o : Outcome) (h : Held) → (kept o h).last_neg ≡ after_neg o h.last_neg
kept-last_neg (ok r) h = refl
kept-last_neg (err e) h = close_err-keeps h

pub fetch_from-stops :
    (fall_through : Error → Bool) (has_body : Bool) (i : ℕ) (a : Attempt) (ts : List Attempt)
    (h : Held)
    → a.cancelled ≡ true
    → fetch_from fall_through has_body i (a ∷ ts) h ≡ stop_done i h
unfolding fetch_from
fetch_from-stops fall_through has_body i a ts h c = rw c refl

pub fetch_from-asks :
    (fall_through : Error → Bool) (has_body : Bool) (i : ℕ) (a : Attempt) (ts : List Attempt)
    (h : Held)
    → a.cancelled ≡ false
    → fetch_from fall_through has_body i (a ∷ ts) h
      ≡ elim (on_outcome fall_through has_body i a.outcome h) [
        | return f ↦ f
        | next g ↦ fetch_from fall_through has_body (suc i) ts g
      ]
unfolding fetch_from
fetch_from-asks fall_through has_body i a ts h c = rw c refl

decided :
    (fall_through : Error → Bool) (i : ℕ) (o : Outcome) (h : Held)
    → decisive fall_through o ≡ true
    → on_outcome fall_through false i o h ≡ return (surface o (suc i) (dropped o h))
unfolding decisive on_outcome
decided fall_through i (ok r) h d = unfold on_response in rw d refl
decided fall_through i (err e) h d =
    unfold on_error in
    let s : is_skip e ≡ false = ground arith in
    let f : fall_through e ≡ false = ground arith in rw (s, f) refl

passed :
    (fall_through : Error → Bool) (i : ℕ) (o : Outcome) (h : Held)
    → decisive fall_through o ≡ false
    → on_outcome fall_through false i o h ≡ next (kept o h)
unfolding decisive on_outcome
passed fall_through i (ok r) h d = unfold on_response in rw d refl
passed fall_through i (err e) h d = elim (Bool-cases (is_skip e)) [
  | inl s ↦ unfold on_error in rw s refl
  | inr s ↦ unfold on_error in let f : fall_through e ≡ true = ground arith in rw (s, f) refl
]

-- The verdict moves past an answer that decides nothing.
verdict-passed :
    (fall_through : Error → Bool) (o : Outcome) (os : List Outcome) (h : Held)
    → decisive fall_through o ≡ false
    → held_verdict fall_through (kept o h) os ≡ held_verdict fall_through h (o ∷ os)
unfolding first_decisive last_response last_error
verdict-passed fall_through (ok r) os h d = ground arith
verdict-passed fall_through (err e) [] h d = ground (arith, close_err-keeps h)
verdict-passed fall_through (err e) (p ∷ os) h d = ground (arith, close_err-keeps h)

open_verdict :
    (fall_through : Error → Bool) (os : List Outcome)
    → held_verdict fall_through nothing_held os ≡ verdict fall_through os
unfolding verdict last_error
open_verdict fall_through [] = refl
open_verdict fall_through (o ∷ os) = refl

fetch_from-verdict :
    (fall_through : Error → Bool) (i : ℕ) (ts : List Attempt) (h : Held)
    → cancelled_none ts ≡ true
    → (fetch_from fall_through false i ts h).result ≡ held_verdict fall_through h (outcomes ts)
unfolding cancelled_none
fetch_from-verdict fall_through i [] h c =
    unfold fetch_from settle first_decisive last_response in ground arith
fetch_from-verdict fall_through i (a ∷ ts) h c =
    let going : a.cancelled ≡ false = ground arith in
    let later : cancelled_none ts ≡ true = ground arith in
    elim (Bool-cases (decisive fall_through a.outcome)) [
      | inl d ↦
          ap (λ f. f.result) (fetch_from-asks fall_through false i a ts h going)
          ∙ rw (decided fall_through i a.outcome h d) (unfold first_decisive in ground (arith, d))
      | inr d ↦
          ap (λ f. f.result) (fetch_from-asks fall_through false i a ts h going)
          ∙ rw (passed fall_through i a.outcome h d) (
              fetch_from-verdict fall_through (suc i) ts (kept a.outcome h) later
              ∙ verdict-passed fall_through a.outcome (outcomes ts) h d)
    ]

-- A request without a body, on a context that is never done, gets the verdict on the answers of the
-- origins: the first decisive one, else the last response (a negative one), else the error of the last
-- origin, where declining counts as a miss.
pub fetch-verdict :
    (fall_through : Error → Bool) (ts : List Attempt)
    → cancelled_none ts ≡ true
    → (fetch fall_through false ts).result ≡ verdict fall_through (outcomes ts)
unfolding fetch
fetch-verdict fall_through ts c =
    fetch_from-verdict fall_through 0 ts nothing_held c ∙ open_verdict fall_through (outcomes ts)
