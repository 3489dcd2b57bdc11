-- ===== src/Cache/Ring.antt =====
-- `container/list` as the caches use it: a ring of keys, front first.
use cadish.Prelude.{
  ◌+◌, ◌≡◌, refl, Bool, true, false, List, [], ◌∷◌, Option, none, some, String, str_eq, eq_iff,
  arith, if◌then◌else◌, length,
}

-- Some node holds the key.
unfoldable pub contains : String → List String → Bool
contains k [] = false
contains k (j ∷ l) = if str_eq j k then true else contains k l

-- `Remove(el)` for the node that holds `k`.
unfoldable pub remove : String → List String → List String
remove k [] = []
remove k (j ∷ l) = if str_eq j k then l else j ∷ remove k l

-- `Back()`
unfoldable pub back : List String → Option String
back [] = none
back (k ∷ []) = some k
back (k ∷ j ∷ l) = back (j ∷ l)

-- `Remove(Back())`
unfoldable pub drop_back : List String → List String
drop_back [] = []
drop_back (k ∷ []) = []
drop_back (k ∷ j ∷ l) = k ∷ drop_back (j ∷ l)

-- Each key has one node.
abbrev pub IsRing : List String → Type 0
IsRing [] = Unit
IsRing (k ∷ l) = (contains k l ≡ false) × IsRing l

pub contains-remove :
    (k q : String) (l : List String)
    → IsRing l
    → contains q (remove k l) ≡ (if str_eq k q then false else contains q l)
unfolding contains remove
contains-remove k q [] r = ground arith
contains-remove k q (j ∷ l) (fresh, r) =
    ground (arith, eq_iff j k, eq_iff j q, eq_iff k q, contains-remove k q l r)

pub remove-IsRing : (k : String) (l : List String) → IsRing l → IsRing (remove k l)
unfolding contains remove
remove-IsRing k [] r = tt
remove-IsRing k (j ∷ l) (fresh, r) = ground (arith, contains-remove k j l r, remove-IsRing k l r)

pub remove_absent : (k : String) (l : List String) → contains k l ≡ false → remove k l ≡ l
unfolding contains remove
remove_absent k [] h = refl
remove_absent k (j ∷ l) h = ground (arith, remove_absent k l)

pub contains-back : (k : String) (l : List String) → back l ≡ some k → contains k l ≡ true
unfolding contains back
contains-back k [] h = cc
contains-back k (j ∷ []) h = ground (arith, eq_iff j k)
contains-back k (j ∷ i ∷ l) h = ground (arith, contains-back k (i ∷ l) h)

pub drop_back-remove :
    (k : String) (l : List String) → IsRing l → back l ≡ some k → drop_back l ≡ remove k l
unfolding contains back drop_back remove
drop_back-remove k [] r h = refl
drop_back-remove k (j ∷ []) r h = ground (arith, eq_iff j k)
drop_back-remove k (j ∷ i ∷ l) (fresh, r) h =
    ground (arith, eq_iff j k, contains-back k (i ∷ l) h, drop_back-remove k (i ∷ l) r h)

pub length-remove :
    (k : String) (l : List String) → contains k l ≡ true → length (remove k l) + 1 ≡ length l
unfolding contains remove
length-remove k [] h = cc
length-remove k (j ∷ l) h = ground (arith, length-remove k l)

pub contains-back-none : (q : String) (l : List String) → back l ≡ none → contains q l ≡ false
unfolding contains back
contains-back-none q [] h = refl
contains-back-none q (j ∷ []) h = cc
contains-back-none q (j ∷ i ∷ l) h = absurd (back_some (i ∷ l) j h)
  where
    back_some : (l : List String) (j : String) → back (j ∷ l) ≡ none → ⊥
    back_some [] j h = cc
    back_some (i ∷ l) j h = back_some l i h
