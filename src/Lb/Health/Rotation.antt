-- ===== src/Lb/Health/Rotation.antt =====
-- Lists read from a position on, around the end.
use cadish.Lb.Health.{count}
use native.Mathlib.Nat.{mod-eq_of_lt, mod_self}
use mathlib.Core.Path.{subst}
use cadish.Prelude.{
  ℕ, zero, suc, ◌+◌, ◌-◌, ◌%◌, ◌≤◌, ◌<◌, ◌≡◌, inl, inr, refl, sym, ap, Bool, true, false, List, [],
  ◌∷◌, ◌++◌, ltb, length, set, take, drop, arith, Bool-cases, length-append,
}

-- The last n of a list.
abbrev pub last_n {ℓ} : {A : Type ℓ} → ℕ → List A → List A
last_n n l = drop (length l - n) l

abbrev pub ring_of : ℕ → List Bool → List Bool
ring_of i xs = drop i xs ++ take i xs

pub count-append : (b : Bool) (xs ys : List Bool) → count b (xs ++ ys) ≡ count b xs + count b ys
unfolding count
count-append b [] ys = ground arith
count-append true (true ∷ xs) ys = omega (arith, count-append true xs ys)
count-append true (false ∷ xs) ys = count-append true xs ys
count-append false (true ∷ xs) ys = count-append false xs ys
count-append false (false ∷ xs) ys = omega (arith, count-append false xs ys)

pub append_nil : (xs : List Bool) → xs ++ [] ≡ xs
append_nil [] = refl
append_nil (x ∷ xs) = ap (λ l. x ∷ l) (append_nil xs)

pub append_assoc : (xs ys zs : List Bool) → (xs ++ ys) ++ zs ≡ xs ++ (ys ++ zs)
append_assoc [] ys zs = refl
append_assoc (x ∷ xs) ys zs = ap (λ l. x ∷ l) (append_assoc xs ys zs)

pub take-drop : (n : ℕ) (xs : List Bool) → take n xs ++ drop n xs ≡ xs
take-drop zero xs = refl
take-drop (suc n) [] = refl
take-drop (suc n) (x ∷ xs) = ap (λ l. x ∷ l) (take-drop n xs)

pub take_all : (n : ℕ) (xs : List Bool) → length xs ≡ n → take n xs ≡ xs
take_all zero [] h = refl
take_all zero (x ∷ xs) h = absurd (omega arith)
take_all (suc n) [] h = refl
take_all (suc n) (x ∷ xs) h = ap (λ l. x ∷ l) (take_all n xs (omega arith))

pub drop_all : (n : ℕ) (xs : List Bool) → length xs ≡ n → drop n xs ≡ []
drop_all zero [] h = refl
drop_all zero (x ∷ xs) h = absurd (omega arith)
drop_all (suc n) [] h = refl
drop_all (suc n) (x ∷ xs) h = drop_all n xs (omega arith)

-- A write at a position, seen from its two sides.
pub take-set :
    (i : ℕ) (xs : List Bool) (b : Bool)
    → i < length xs
    → take (suc i) (set xs i b) ≡ take i xs ++ (b ∷ [])
take-set i [] b h = absurd (omega arith)
take-set zero (x ∷ xs) b h = refl
take-set (suc i) (x ∷ xs) b h = ap (λ l. x ∷ l) (take-set i xs b (omega arith))

pub drop-set : (i : ℕ) (xs : List Bool) (b : Bool) → drop (suc i) (set xs i b) ≡ drop (suc i) xs
drop-set i [] b = refl
drop-set zero (x ∷ xs) b = refl
drop-set (suc i) (x ∷ xs) b = drop-set i xs b

pub drop_cons :
    (i : ℕ) (xs : List Bool) → i < length xs → (x : Bool) × (drop i xs ≡ x ∷ drop (suc i) xs)
drop_cons i [] h = absurd (omega arith)
drop_cons zero (x ∷ xs) h = (x, refl)
drop_cons (suc i) (x ∷ xs) h = drop_cons i xs (omega arith)

-- The oldest outcome goes, the new one comes last.
pub ring_of-set :
    (i : ℕ) (xs : List Bool) (b : Bool)
    → i < length xs
    → ring_of (suc i) (set xs i b) ≡ drop 1 (ring_of i xs ++ (b ∷ []))
ring_of-set i xs b h =
    let (x, e) = drop_cons i xs h in
    rw (drop-set i xs b, take-set i xs b h, e)
      (sym (append_assoc (drop (suc i) xs) (take i xs) (b ∷ [])))

-- The position wraps around at the end.
pub ring_of_wrap :
    (i n : ℕ) (xs : List Bool)
    → i < n
    → length xs ≡ n
    → ring_of ((i + 1) % n) xs ≡ ring_of (suc i) xs
ring_of_wrap i n xs h e = elim (Bool-cases (ltb (i + 1) n)) [
  | inl lt ↦
      let lt' : i + 1 < n = ground arith in
      let f : (i + 1) % n ≡ suc i = omega (arith, mod-eq_of_lt lt') in rw f refl
  | inr ge ↦
      let last : suc i ≡ n = ground arith in
      let at_end : n ≡ i + 1 = omega arith in
      let f : (i + 1) % n ≡ 0 = subst (λ k. k % n ≡ 0) at_end (mod_self n) in
      rw (f, last, drop_all n xs e, take_all n xs e) (append_nil xs)
]

pub count-ring_of : (c : Bool) (i : ℕ) (xs : List Bool) → count c (ring_of i xs) ≡ count c xs
count-ring_of c i xs = omega (
  arith,
  count-append c (drop i xs) (take i xs),
  count-append c (take i xs) (drop i xs),
  ap (count c) (take-drop i xs),
)

pub length-ring_of : (i : ℕ) (xs : List Bool) → length (ring_of i xs) ≡ length xs
length-ring_of i xs = omega (
  arith,
  length-append (drop i xs) (take i xs),
  length-append (take i xs) (drop i xs),
  ap length (take-drop i xs),
)

pub length-take : (n : ℕ) (xs : List Bool) → n ≤ length xs → length (take n xs) ≡ n
length-take zero xs h = refl
length-take (suc n) [] h = absurd (omega arith)
length-take (suc n) (x ∷ xs) h = omega (arith, length-take n xs (omega arith))

pub short : (n : ℕ) (l : List Bool) → length l ≤ n → last_n n l ≡ l
short n l h = let e : length l - n ≡ 0 = omega arith in ap (λ k. drop k l) e
