-- ===== src/Origin/Chain/Bodies.antt =====
-- Who closes the bodies that the chain opens: internal/origin/chain/chain.go.
use cadish.Origin.{
  Error, not_found, skip, status_error, connection, done, done_after, Response, Outcome, ok, err,
  is_skip, error_body,
}
use cadish.Origin.Chain.{
  Attempt, Held, nothing_held, close_neg, close_err, Fetched, stop_done, settle, Next, next, return,
  on_response, on_error, on_outcome, fetch_from, fetch,
}
use cadish.Origin.Chain.Verdict.{fetch_from-stops, fetch_from-asks}
use mathlib.Core.Path.{subst}
use cadish.Prelude.{
  ℕ, zero, suc, ◌+◌, ◌-◌, ◌≤◌, ◌≡◌, refl, sym, ◌∙◌, Bool, true, false, not, List, [], ◌∷◌, ◌++◌,
  Option, none, some, ◌==◌, if◌then◌else◌, arith, inl, inr, Bool-cases, Option-cases,
}

unfoldable pub count : ℕ → List ℕ → ℕ
count x [] = 0
count x (y ∷ ys) = (if x == y then 1 else 0) + count x ys

-- The live bodies of an answer.
unfoldable pub bodies : Outcome → List ℕ
unfolding error_body
bodies (ok r) = r.body ∷ []
bodies (err e) = error_body e

-- The bodies that the first `n` origins open.
unfoldable pub opened : ℕ → List Attempt → List ℕ
unfolding bodies
opened zero ts = []
opened (suc n) [] = []
opened (suc n) (a ∷ ts) = bodies a.outcome ++ opened n ts

count-append : (x : ℕ) (ys zs : List ℕ) → count x (ys ++ zs) ≡ count x ys + count x zs
unfolding count
count-append x [] zs = ground arith
count-append x (y ∷ ys) zs = ground (arith, count-append x ys zs)

-- The bodies that the loop holds open.
abbrev neg_body : Option Response → List ℕ
neg_body none = []
neg_body (some r) = r.body ∷ []

abbrev err_body : Option Error → List ℕ
err_body none = []
err_body (some e) = error_body e

abbrev owned : ℕ → Held → ℕ
owned x h = count x (neg_body h.last_neg) + count x (err_body h.last_err) + count x h.closed

-- What the chain lets out: closed, or in the answer.
abbrev let_out : ℕ → Fetched → ℕ
let_out x f = count x f.released + count x (bodies f.result)

close_neg-closed :
    (x : ℕ) (h : Held)
    → count x (close_neg h).closed ≡ count x h.closed + count x (neg_body h.last_neg)
unfolding close_neg count
close_neg-closed x h = elim (Option-cases h.last_neg) [
  | inl e ↦ ground arith
  | inr (r, e) ↦ ground (arith, count-append x h.closed (r.body ∷ []))
]

close_neg-last_err : (h : Held) → (close_neg h).last_err ≡ h.last_err
unfolding close_neg
close_neg-last_err h = ground arith

close_err-closed :
    (x : ℕ) (h : Held)
    → count x (close_err h).closed ≡ count x h.closed + count x (err_body h.last_err)
unfolding close_err count
close_err-closed x h = elim (Option-cases h.last_err) [
  | inl e ↦ ground arith
  | inr (e, k) ↦ ground (arith, count-append x h.closed (error_body e))
]

close_err-last_neg : (h : Held) → (close_err h).last_neg ≡ h.last_neg
unfolding close_err
close_err-last_neg h = ground arith

-- With a request body nothing is held.
abbrev Plain : Bool → Held → Type 0
Plain false h = Unit
Plain true h = (h.last_err ≡ none) × (h.last_neg ≡ none)

abbrev balance : ℕ → Next → ℕ
balance x (return f) = let_out x f
balance x (next g) = owned x g

abbrev NextPlain : Bool → Next → Type 0
NextPlain b (return f) = Unit
NextPlain b (next g) = Plain b g

settle-balance : (x i : ℕ) (h : Held) → let_out x (settle i h) ≡ owned x h
unfolding settle count bodies error_body
settle-balance x i h = ground (arith, close_err-closed x h)

stop_done-balance : (x i : ℕ) (h : Held) → let_out x (stop_done i h) ≡ owned x h
unfolding stop_done count bodies error_body
stop_done-balance x i h =
    ground (arith, close_neg-closed x h, close_neg-last_err h, close_err-closed x (close_neg h))

on_response-balance :
    (x : ℕ) (b : Bool) (i : ℕ) (r : Response) (h : Held)
    → Plain b h
    → balance x (on_response b i r h) ≡ owned x h + count x (r.body ∷ [])
unfolding on_response count bodies
on_response-balance x false i r h p =
    ground (arith, close_neg-closed x h, close_neg-last_err h, close_err-closed x (close_neg h))
on_response-balance x true i r h p =
    ground (arith, close_neg-closed x h, close_neg-last_err h, close_err-closed x (close_neg h))

skip_bodyless : (e : Error) → is_skip e ≡ true → error_body e ≡ []
unfolding error_body
skip_bodyless not_found s = cc
skip_bodyless skip s = refl
skip_bodyless (status_error c b) s = cc
skip_bodyless (connection n) s = cc
skip_bodyless done s = cc
skip_bodyless (done_after i) s = cc

on_error-balance :
    (fall_through : Error → Bool) (x : ℕ) (b : Bool) (i : ℕ) (e : Error) (h : Held)
    → balance x (on_error fall_through b i e h) ≡ owned x h + count x (error_body e)
unfolding on_error
on_error-balance fall_through x b i e h =
    let g : Held = record (close_err h) { last_err = some e } in
    elim (Bool-cases (is_skip e)) [
      | inl s ↦
          unfold count in
          ground (arith, skip_bodyless e, close_err-closed x h, close_err-last_neg h)
      | inr s ↦
          unfold count bodies in
          ground (arith, close_err-closed x h, close_err-last_neg h, close_neg-closed x g)
    ]

on_outcome-balance :
    (fall_through : Error → Bool) (x : ℕ) (b : Bool) (i : ℕ) (o : Outcome) (h : Held)
    → Plain b h
    → balance x (on_outcome fall_through b i o h) ≡ owned x h + count x (bodies o)
unfolding on_outcome bodies
on_outcome-balance fall_through x b i (ok r) h p = on_response-balance x b i r h p
on_outcome-balance fall_through x b i (err e) h p = on_error-balance fall_through x b i e h

pub if_next : (P : Next → Type 0) (c : Bool) {m n : Next} → P m → P n → P (if c then m else n)
if_next P true p q = p
if_next P false p q = q

-- What one round leaves: one more origin asked, or nothing held under a request body.
abbrev Round : Bool → ℕ → Next → Type 0
Round b i (return f) = f.asked ≡ suc i
Round b i (next g) = Plain b g

on_error-Round :
    (fall_through : Error → Bool) (b : Bool) (i : ℕ) (e : Error) (h : Held)
    → Plain b h
    → Round b i (on_error fall_through b i e h)
unfolding on_error
on_error-Round fall_through false i e h p =
    if_next (Round false i) (is_skip e) tt (if_next (Round false i) (not (fall_through e)) refl tt)
on_error-Round fall_through true i e h (p, q) =
    if_next (Round true i) (is_skip e) (refl, close_err-last_neg h ∙ q) refl

on_outcome-Round :
    (fall_through : Error → Bool) (b : Bool) (i : ℕ) (o : Outcome) (h : Held)
    → Plain b h
    → Round b i (on_outcome fall_through b i o h)
unfolding on_outcome on_response
on_outcome-Round fall_through false i (ok r) h p = if_next (Round false i) (not r.negative) refl tt
on_outcome-Round fall_through true i (ok r) h p = if_next (Round true i) (not r.negative) refl refl
on_outcome-Round fall_through b i (err e) h p = on_error-Round fall_through b i e h p

-- A result that owns what the loop held and what it opened since origin `i`.
abbrev Owns : ℕ → ℕ → List Attempt → Held → Fetched → Type 0
Owns x i ts h f = (i ≤ f.asked) × (let_out x f ≡ owned x h + count x (opened (f.asked - i) ts))

opened-suc :
    (x n m : ℕ) (a : Attempt) (ts : List Attempt)
    → m ≡ suc n
    → count x (opened m (a ∷ ts)) ≡ count x (bodies a.outcome) + count x (opened n ts)
unfolding opened
opened-suc x n m a ts e = rw e (count-append x (bodies a.outcome) (opened n ts))

asks-Owns :
    (fall_through : Error → Bool) (x : ℕ) (b : Bool) (i : ℕ) (a : Attempt) (ts : List Attempt)
    (h : Held) (n : Next)
    → balance x n ≡ owned x h + count x (bodies a.outcome)
    → Round b i n
    → ((g : Held) → Plain b g → Owns x (suc i) ts g (fetch_from fall_through b (suc i) ts g))
    → Owns x i
        (a ∷ ts)
        h
        (elim n [ return f ↦ f | next g ↦ fetch_from fall_through b (suc i) ts g ])
asks-Owns fall_through x b i a ts h (return f) e r rec = (
  omega (arith, r),
  unfold opened count in ground (arith, opened-suc x 0 (f.asked - i) a ts (omega (arith, r))),
)
asks-Owns fall_through x b i a ts h (next g) e r rec =
    let (le, k) = rec g r in
    let f : Fetched = fetch_from fall_through b (suc i) ts g in
    (
      omega (arith, le),
      omega (arith, e, k, opened-suc x (f.asked - suc i) (f.asked - i) a ts (omega (arith, le))),
    )

nothing-Plain : (b : Bool) → Plain b nothing_held
nothing-Plain false = tt
nothing-Plain true = (refl, refl)

opened_none : (x i n : ℕ) (ts : List Attempt) → n ≡ i → count x (opened (n - i) ts) ≡ 0
unfolding opened count
opened_none x i n ts e = let z : n - i ≡ 0 = omega (arith, e) in rw z refl

pub settle-asked : (i : ℕ) (h : Held) → (settle i h).asked ≡ i
unfolding settle
settle-asked i h = ground arith

pub stop_done-asked : (i : ℕ) (h : Held) → (stop_done i h).asked ≡ i
unfolding stop_done
stop_done-asked i h = ground arith

none-Owns :
    (x i : ℕ) (ts : List Attempt) (h : Held) (f : Fetched)
    → f.asked ≡ i
    → let_out x f ≡ owned x h
    → Owns x i ts h f
none-Owns x i ts h f e k = (omega (arith, e), omega (arith, k, opened_none x i f.asked ts e))

fetch_from-Owns :
    (fall_through : Error → Bool) (x : ℕ) (b : Bool) (i : ℕ) (ts : List Attempt) (h : Held)
    → Plain b h
    → Owns x i ts h (fetch_from fall_through b i ts h)
fetch_from-Owns fall_through x b i [] h p =
    unfold fetch_from in none-Owns x i [] h (settle i h) (settle-asked i h) (settle-balance x i h)
fetch_from-Owns fall_through x b i (a ∷ ts) h p = elim (Bool-cases a.cancelled) [
  | inl c ↦
      subst (Owns x i (a ∷ ts) h) (sym (fetch_from-stops fall_through b i a ts h c))
        (none-Owns x i (a ∷ ts) h (stop_done i h) (stop_done-asked i h) (stop_done-balance x i h))
  | inr c ↦ subst (Owns x i (a ∷ ts) h) (sym (fetch_from-asks fall_through b i a ts h c)) (
      asks-Owns fall_through x b i a ts h (on_outcome fall_through b i a.outcome h)
        (on_outcome-balance fall_through x b i a.outcome h p)
        (on_outcome-Round fall_through b i a.outcome h p)
        (λ g q. fetch_from-Owns fall_through x b (suc i) ts g q))
]

-- Whatever the origins answer, with or without a request body, and whenever the context is done:
-- each body that the asked origins opened is closed exactly once or is the body of the answer, never
-- both and never neither.
pub fetch-bodies :
    (fall_through : Error → Bool) (b : Bool) (ts : List Attempt) (x : ℕ)
    → let f = fetch fall_through b ts in
      count x (opened f.asked ts) ≡ count x f.released + count x (bodies f.result)
unfolding fetch
fetch-bodies fall_through b ts x =
    let (le, e) = fetch_from-Owns fall_through x b 0 ts nothing_held (nothing-Plain b) in
    let f : Fetched = fetch_from fall_through b 0 ts nothing_held in
    let z : f.asked - 0 ≡ f.asked = omega arith in
    let k : count x (opened (f.asked - 0) ts) ≡ count x (opened f.asked ts) = rw z refl in
    unfold count in grind (arith, e, k)
