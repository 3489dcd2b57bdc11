-- ===== src/Lb/Ring/Build/Shares.antt =====
-- The points of each backend, and their order: newRing of internal/lb/ring.go.
use cadish.Lb.Ring.Build.{taken, insert_point, sort_points}
use cadish.Lb.Ring.{owner_of}
use cadish.Prelude.{
  ℕ, ◌+◌, ◌<◌, ◌≡◌, refl, ap, ◌∙◌, true, false, List, [], ◌∷◌, ◌++◌, String, str_eq, leb, ◌==◌,
  if◌then◌else◌, All, arith, if_all,
}

-- How many of some points a backend owns.
unfoldable pub share_of : String → List ℕ → List (ℕ × String) → ℕ
unfolding owner_of
share_of q [] m = 0
share_of q (p ∷ ps) m = (if str_eq (owner_of p m) q then 1 else 0) + share_of q ps m

abbrev pub NoRepeat : List ℕ → Type 0
NoRepeat [] = Unit
NoRepeat (p ∷ ps) = All (λ q. (p == q) ≡ false) ps × NoRepeat ps

abbrev pub Increasing : List ℕ → Type 0
Increasing [] = Unit
Increasing (p ∷ ps) = All (λ q. p < q) ps × Increasing ps

pub All-snoc : (P : ℕ → Type 0) (xs : List ℕ) (x : ℕ) → All P xs → P x → All P (xs ++ (x ∷ []))
All-snoc P [] x a p = (p, tt)
All-snoc P (y ∷ ys) x (q, a) p = (q, All-snoc P ys x a p)

pub All-map : (P Q : ℕ → Type 0) (xs : List ℕ) → ((x : ℕ) → P x → Q x) → All P xs → All Q xs
All-map P Q [] f a = tt
All-map P Q (x ∷ xs) f (p, a) = (f x p, All-map P Q xs f a)

-- A free point is none of those that are taken.
apart : (p x : ℕ) (m : List (ℕ × String)) → taken p m ≡ false → taken x m ≡ true → (p == x) ≡ false
apart p x m a b = ground (arith, a, b)

share_of-cons :
    (q id : String) (p : ℕ) (ps : List ℕ) (m : List (ℕ × String))
    → taken p m ≡ false
    → All (λ x. taken x m ≡ true) ps
    → share_of q ps ((p, id) ∷ m) ≡ share_of q ps m
unfolding share_of
share_of-cons q id p [] m free a = refl
share_of-cons q id p (x ∷ ps) m free (t, a) =
    ground (arith, apart p x m free t, share_of-cons q id p ps m free a)

share_of-snoc :
    (q : String) (p : ℕ) (ps : List ℕ) (m : List (ℕ × String))
    → share_of q (ps ++ (p ∷ [])) m ≡ share_of q ps m + (if str_eq (owner_of p m) q then 1 else 0)
unfolding share_of
share_of-snoc q p [] m = omega arith
share_of-snoc q p (x ∷ ps) m = omega (arith, share_of-snoc q p ps m)

owner_of-first : (p : ℕ) (id : String) (m : List (ℕ × String)) → owner_of p ((p, id) ∷ m) ≡ id
unfolding owner_of
owner_of-first p id m = ground arith

-- A placement gives its backend one point, and takes none from another.
pub share_of-place :
    (q id : String) (p : ℕ) (ps : List ℕ) (m : List (ℕ × String))
    → taken p m ≡ false
    → All (λ x. taken x m ≡ true) ps
    → share_of q (ps ++ (p ∷ [])) ((p, id) ∷ m) ≡ share_of q ps m + (if str_eq id q then 1 else 0)
share_of-place q id p ps m free a =
    share_of-snoc q p ps ((p, id) ∷ m)
    ∙ ap (λ o. share_of q ps ((p, id) ∷ m) + (if str_eq o q then 1 else 0)) (owner_of-first p id m)
    ∙ ap (λ n. n + (if str_eq id q then 1 else 0)) (share_of-cons q id p ps m free a)

pub NoRepeat-place :
    (p : ℕ) (ps : List ℕ) (m : List (ℕ × String))
    → taken p m ≡ false
    → All (λ x. taken x m ≡ true) ps
    → NoRepeat ps
    → NoRepeat (ps ++ (p ∷ []))
NoRepeat-place p [] m free a d = (tt, tt)
NoRepeat-place p (x ∷ ps) m free (t, a) (h, d) = (
  All-snoc (λ y. (x == y) ≡ false) ps p h (let e = apart p x m free t in ground (arith, e)),
  NoRepeat-place p ps m free a d,
)

-- The points come sorted, and are the same ones.
insert_point-All :
    (P : ℕ → Type 0) (p : ℕ) (ps : List ℕ) → P p → All P ps → All P (insert_point p ps)
unfolding insert_point
insert_point-All P p [] h a = (h, tt)
insert_point-All P p (q ∷ qs) h (k, a) =
    if_all (All P) (leb p q) (λ e. (h, (k, a))) (λ e. (k, insert_point-All P p qs h a))

pub sort_points-All : (P : ℕ → Type 0) (ps : List ℕ) → All P ps → All P (sort_points ps)
unfolding sort_points
sort_points-All P [] a = tt
sort_points-All P (p ∷ ps) (h, a) = insert_point-All P p (sort_points ps) h (sort_points-All P ps a)

share_of-insert_point :
    (q : String) (p : ℕ) (ps : List ℕ) (m : List (ℕ × String))
    → share_of q (insert_point p ps) m ≡ share_of q (p ∷ ps) m
unfolding share_of insert_point
share_of-insert_point q p [] m = refl
share_of-insert_point q p (x ∷ ps) m = ground (arith, share_of-insert_point q p ps m)

pub share_of-sort_points :
    (q : String) (ps : List ℕ) (m : List (ℕ × String))
    → share_of q (sort_points ps) m ≡ share_of q ps m
unfolding share_of sort_points
share_of-sort_points q [] m = refl
share_of-sort_points q (p ∷ ps) m =
    share_of-insert_point q p (sort_points ps) m
    ∙ ap (λ n. (if str_eq (owner_of p m) q then 1 else 0) + n) (share_of-sort_points q ps m)

insert_point-Increasing :
    (p : ℕ) (ps : List ℕ)
    → All (λ q. (p == q) ≡ false) ps
    → Increasing ps
    → Increasing (insert_point p ps)
unfolding insert_point
insert_point-Increasing p [] a i = (tt, tt)
insert_point-Increasing p (q ∷ qs) (h, a) (k, i) =
    if_all Increasing (leb p q)
      (λ e.
        let lt : p < q = ground (arith, e, h) in
        ((lt, All-map (λ x. q < x) (λ x. p < x) qs (λ x l. omega (arith, l, lt)) k), (k, i)))
      (λ e.
        let gt : q < p = ground (arith, e) in
        (insert_point-All (λ x. q < x) p qs gt k, insert_point-Increasing p qs a i))

pub sort_points-Increasing : (ps : List ℕ) → NoRepeat ps → Increasing (sort_points ps)
unfolding sort_points
sort_points-Increasing [] d = tt
sort_points-Increasing (p ∷ ps) (h, d) =
    insert_point-Increasing p (sort_points ps) (sort_points-All (λ q. (p == q) ≡ false) ps h)
      (sort_points-Increasing ps d)
