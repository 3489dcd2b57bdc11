-- ===== src/Origin/Chain/Writes.antt =====
-- Requests with a body in the chain: internal/origin/chain/chain.go.
use mathlib.Core.Path.{subst}
use cadish.Origin.{Error, not_found, Outcome, ok, err, is_skip}
use cadish.Origin.Chain.{
  Attempt, Held, nothing_held, close_err, Fetched, stop_done, settle, Next, next, return,
  on_response, on_error, on_outcome, fetch_from, fetch,
}
use cadish.Origin.Chain.Bodies.{if_next, settle-asked, stop_done-asked}
use cadish.Origin.Chain.Verdict.{outcomes, cancelled_none, fetch_from-stops, fetch_from-asks}
use cadish.Prelude.{
  ℕ, suc, ◌+◌, ◌-◌, ◌≤◌, ◌≡◌, refl, sym, ◌∙◌, Bool, true, false, not, List, [], ◌∷◌, none, take,
  if◌then◌else◌, arith, inl, inr, Bool-cases,
}

-- An origin that declines leaves the body of the request untouched.
abbrev pub declines : Outcome → Bool
declines (ok r) = false
declines (err e) = is_skip e

-- How many origins took the body in.
unfoldable pub takers : List Outcome → ℕ
takers [] = 0
takers (o ∷ os) = (if declines o then 0 else 1) + takers os

-- The answer of the first origin that does not decline.
unfoldable pub first_answer : List Outcome → Outcome
first_answer [] = err not_found
first_answer (o ∷ os) = if declines o then first_answer os else o

-- One round under a request body.
abbrev Wrote : ℕ → Outcome → Next → Type 0
Wrote i o (return f) = (f.result ≡ o) × (f.asked ≡ suc i) × (declines o ≡ false)
Wrote i o (next g) = (declines o ≡ true) × (g.last_err ≡ none) × (g.last_neg ≡ none)

on_outcome-Wrote :
    (fall_through : Error → Bool) (i : ℕ) (o : Outcome) (h : Held)
    → h.last_neg ≡ none
    → Wrote i o (on_outcome fall_through true i o h)
unfolding on_outcome on_response
on_outcome-Wrote fall_through i (ok r) h p =
    if_next (Wrote i (ok r)) (not r.negative) (refl, refl, refl) (refl, refl, refl)
on_outcome-Wrote fall_through i (err e) h p = elim (Bool-cases (is_skip e)) [
  | inl s ↦ unfold on_error in rw s (s, refl, (unfold close_err in ground (arith, p)))
  | inr s ↦ unfold on_error in rw s (refl, refl, s)
]

-- What the loop answers from origin `i` on, and that one origin takes the body.
abbrev Once : ℕ → List Attempt → Fetched → Type 0
Once i ts f =
    (i ≤ f.asked)
    × (takers (take (f.asked - i) (outcomes ts)) ≤ 1)
    × (cancelled_none ts ≡ true → f.result ≡ first_answer (outcomes ts))

taken-suc :
    (n m : ℕ) (a : Attempt) (ts : List Attempt)
    → m ≡ suc n
    → takers (take m (outcomes (a ∷ ts)))
      ≡ (if declines a.outcome then 0 else 1) + takers (take n (outcomes ts))
unfolding takers
taken-suc n m a ts e = rw e refl

first_answer-step :
    (o : Outcome) (os : List Outcome)
    → first_answer (o ∷ os) ≡ (if declines o then first_answer os else o)
unfolding first_answer
first_answer-step o os = refl

later_none :
    (a : Attempt) (ts : List Attempt) → cancelled_none (a ∷ ts) ≡ true → cancelled_none ts ≡ true
unfolding cancelled_none
later_none a ts c = ground (arith, c)

asks-Once :
    (fall_through : Error → Bool) (i : ℕ) (a : Attempt) (ts : List Attempt) (n : Next)
    → Wrote i a.outcome n
    → ((g : Held)
        → g.last_err ≡ none
        → g.last_neg ≡ none
        → Once (suc i) ts (fetch_from fall_through true (suc i) ts g))
    → Once i (a ∷ ts) (elim n [ return f ↦ f | next g ↦ fetch_from fall_through true (suc i) ts g ])
asks-Once fall_through i a ts (return f) (r, k, d) rec = (
  omega (arith, k),
  (unfold takers in ground (arith, taken-suc 0 (f.asked - i) a ts (omega (arith, k)), d)),
  λ c. r ∙ sym (first_answer-step a.outcome (outcomes ts) ∙ rw d refl),
)
asks-Once fall_through i a ts (next g) (d, p, q) rec =
    let (le, w, v) = rec g p q in
    let f : Fetched = fetch_from fall_through true (suc i) ts g in
    (
      omega (arith, le),
      ground (arith, taken-suc (f.asked - suc i) (f.asked - i) a ts (omega (arith, le)), d, w),
      λ c. v (later_none a ts c) ∙ sym (first_answer-step a.outcome (outcomes ts) ∙ rw d refl),
    )

none-Once :
    (i : ℕ) (ts : List Attempt) (f : Fetched)
    → f.asked ≡ i
    → (cancelled_none ts ≡ true → f.result ≡ first_answer (outcomes ts))
    → Once i ts f
none-Once i ts f e v =
    let z : f.asked - i ≡ 0 = omega (arith, e) in
    (omega (arith, e), rw z (unfold takers in omega arith), v)

fetch_from-Once :
    (fall_through : Error → Bool) (i : ℕ) (ts : List Attempt) (h : Held)
    → h.last_err ≡ none
    → h.last_neg ≡ none
    → Once i ts (fetch_from fall_through true i ts h)
fetch_from-Once fall_through i [] h p q =
    unfold fetch_from in
    none-Once i [] (settle i h) (settle-asked i h)
      (λ c. unfold settle first_answer in ground (arith, p, q))
fetch_from-Once fall_through i (a ∷ ts) h p q = elim (Bool-cases a.cancelled) [
  | inl c ↦ subst (Once i (a ∷ ts)) (sym (fetch_from-stops fall_through true i a ts h c)) (
      none-Once i (a ∷ ts) (stop_done i h) (stop_done-asked i h)
        (λ k. unfold cancelled_none in ground (arith, k, c)))
  | inr c ↦ subst (Once i (a ∷ ts)) (sym (fetch_from-asks fall_through true i a ts h c)) (
      asks-Once fall_through i a ts (on_outcome fall_through true i a.outcome h)
        (on_outcome-Wrote fall_through i a.outcome h q)
        (λ g r s. fetch_from-Once fall_through (suc i) ts g r s))
]

-- A request with a body reaches at most one origin that does not decline, whatever the origins
-- answer and whenever the context is done.
pub takers-fetch :
    (fall_through : Error → Bool) (ts : List Attempt)
    → takers (take (fetch fall_through true ts).asked (outcomes ts)) ≤ 1
unfolding fetch
takers-fetch fall_through ts =
    let (le, w, v) = fetch_from-Once fall_through 0 ts nothing_held refl refl in
    let f : Fetched = fetch_from fall_through true 0 ts nothing_held in
    let z : f.asked - 0 ≡ f.asked = omega arith in
    subst (λ n. takers (take n (outcomes ts)) ≤ 1) z w

-- On a context that is never done, a request with a body gets the answer of the first origin that
-- does not decline, and a miss when all decline.
pub fetch-first_answer :
    (fall_through : Error → Bool) (ts : List Attempt)
    → cancelled_none ts ≡ true
    → (fetch fall_through true ts).result ≡ first_answer (outcomes ts)
unfolding fetch
fetch-first_answer fall_through ts c =
    let (le, w, v) = fetch_from-Once fall_through 0 ts nothing_held refl refl in v c
