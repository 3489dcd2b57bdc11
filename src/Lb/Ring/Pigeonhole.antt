-- ===== src/Lb/Ring/Pigeonhole.antt =====
-- Distinct backends of a list are no more than the list.
use cadish.Cache.Ring.{contains, remove, IsRing, contains-remove, remove-IsRing, length-remove}
use cadish.Lb.Ring.{contains_string}
use cadish.Prelude.{
  ◌≤◌, ◌≡◌, refl, true, false, List, [], ◌∷◌, ◌++◌, String, str_eq, eq_iff, if◌then◌else◌, length,
  arith,
}

pub contains_string_lem : (l : List String) (s : String) → contains_string l s ≡ contains s l
unfolding contains_string contains
contains_string_lem [] s = refl
contains_string_lem (x ∷ l) s = ground (arith, contains_string_lem l s)

pub distinct_le :
    (xs ys : List String)
    → IsRing xs
    → IsRing ys
    → ((q : String) → contains q xs ≡ true → contains q ys ≡ true)
    → length xs ≤ length ys
unfolding contains
distinct_le [] ys d e sub = omega arith
distinct_le (x ∷ xs) ys (once, d) e sub =
    let has : contains x ys ≡ true = sub x (ground (arith, eq_iff x x)) in
    let left : (q : String) → contains q xs ≡ true → contains q (remove x ys) ≡ true =
      λ q h. ground (arith, eq_iff x q, sub q (ground arith), contains-remove x q ys e) in
    let rest : length xs ≤ length (remove x ys) =
      distinct_le xs (remove x ys) d (remove-IsRing x ys e) left in
    omega (arith, length-remove x ys has)

pub contains-append :
    (q x : String) (xs : List String)
    → contains q (xs ++ (x ∷ [])) ≡ (if contains q xs then true else str_eq x q)
unfolding contains
contains-append q x [] = ground arith
contains-append q x (y ∷ xs) = ground (arith, contains-append q x xs)

pub append-IsRing :
    (x : String) (xs : List String) → IsRing xs → contains x xs ≡ false → IsRing (xs ++ (x ∷ []))
unfolding contains
append-IsRing x [] d h = (refl, tt)
append-IsRing x (y ∷ xs) (once, d) h =
    ground (arith, eq_iff y x, eq_iff x y, contains-append y x xs, append-IsRing x xs d)
