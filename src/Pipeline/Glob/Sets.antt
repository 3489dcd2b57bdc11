-- ===== src/Pipeline/Glob/Sets.antt =====
-- A set of patterns beside what its patterns mean: internal/pipeline/glob.go.
use cadish.Pipeline.Glob.{
  star, Glob, compile_glob, match_glob, PathSet, new_path_set, count_stars, add, in_exact, any_glob,
  match_set,
}
use cadish.Pipeline.Glob.Decides.{suffix_step, match_glob-wild}
use cadish.Pipeline.Glob.Trie.{has_prefix_of-insert, has_prefix_of-new}
use cadish.Pipeline.Glob.Wild.{wild}
use cadish.Prelude.Bytes.{Bytes, any_suffix, has_prefix, has_suffix, same_bytes, contains_byte}
use cadish.Prelude.{
  ℕ, ◌-◌, ◌≤◌, ◌≡◌, refl, sym, ap, ◌∙◌, Bool, true, false, ◌&&◌, ◌||◌, List, [], ◌∷◌, ◌++◌, ◌==◌,
  length, take, arith, inl, inr, Bool-cases,
}

-- A pattern without a star means itself.
pub wild-exact : (p s : Bytes) → contains_byte star p ≡ false → wild p s ≡ same_bytes p s
unfolding wild contains_byte same_bytes
wild-exact [] [] h = refl
wild-exact [] (c ∷ s) h = refl
wild-exact (a ∷ p) [] h = ground arith
wild-exact (a ∷ p) (c ∷ s) h = ground (arith, wild-exact p s)

pub wild_all : (s : Bytes) → wild (star ∷ []) s ≡ true
unfolding wild any_suffix
wild_all [] = refl
wild_all (c ∷ s) = wild_all s

ends_starred : (p : Bytes) → has_suffix (star ∷ []) p ≡ true → 1 ≤ count_stars p
unfolding count_stars
ends_starred [] h = unfold has_suffix any_suffix same_bytes in cc
ends_starred (c ∷ []) h = unfold has_suffix any_suffix same_bytes in ground arith
ends_starred (c ∷ d ∷ p) h = ground (arith, suffix_step c d p, ends_starred (d ∷ p))

-- A pattern whose one star ends it.
abbrev OnePrefix : Bytes → Type 0
OnePrefix p = (count_stars p ≡ 1) × (has_suffix (star ∷ []) p ≡ true)

wild_front :
    (c d : ℕ) (p : Bytes)
    → take (length (c ∷ d ∷ p) - 1) (c ∷ d ∷ p) ≡ c ∷ take (length (d ∷ p) - 1) (d ∷ p)
wild_front c d p = ground arith

one_later : (c d : ℕ) (p : Bytes) → OnePrefix (c ∷ d ∷ p) → (c == star ≡ false) × OnePrefix (d ∷ p)
unfolding count_stars
one_later c d p (e, h) =
    let k : has_suffix (star ∷ []) (d ∷ p) ≡ true = ground (arith, suffix_step c d p) in
    let plain : c == star ≡ false = ground (arith, ends_starred (d ∷ p) k) in
    (plain, (ground (arith, plain), k))

wild_step :
    (c d : ℕ) (p : Bytes) (x : ℕ) (s : Bytes)
    → c == star ≡ false
    → wild (d ∷ p) s ≡ has_prefix (take (length (d ∷ p) - 1) (d ∷ p)) s
    → wild (c ∷ d ∷ p) (x ∷ s) ≡ has_prefix (c ∷ take (length (d ∷ p) - 1) (d ∷ p)) (x ∷ s)
unfolding has_prefix
wild_step c d p x s plain e = unfold wild in ground (arith, plain, e)

wild-prefix : (p s : Bytes) → OnePrefix p → wild p s ≡ has_prefix (take (length p - 1) p) s
wild-prefix [] s (e, h) = unfold count_stars in cc
wild-prefix (c ∷ []) s (e, h) =
    let k : c ≡ star = unfold count_stars in ground arith in
    ap (λ x. wild (x ∷ []) s) k ∙ wild_all s ∙ (unfold has_prefix in refl)
wild-prefix (c ∷ d ∷ p) [] o =
    let (plain, k) = one_later c d p o in
    rw (wild_front c d p) (unfold wild has_prefix in rw plain refl)
wild-prefix (c ∷ d ∷ p) (x ∷ s) o =
    let (plain, k) = one_later c d p o in
    rw (wild_front c d p) (wild_step c d p x s plain (wild-prefix (d ∷ p) s k))

pub any_glob-snoc :
    (path : Bytes) (gs : List Glob) (g : Glob)
    → any_glob path (gs ++ (g ∷ [])) ≡ (match_glob g path || any_glob path gs)
unfolding any_glob
any_glob-snoc path [] g = ground arith
any_glob-snoc path (k ∷ gs) g = ground (arith, any_glob-snoc path gs g)

in_exact-add :
    (path pat : Bytes) (es : List Bytes)
    → in_exact path (pat ∷ es) ≡ (same_bytes pat path || in_exact path es)
unfolding in_exact
in_exact-add path pat es = ground arith

pub same_bytes-eq : (p s : Bytes) → same_bytes p s ≡ true → p ≡ s
unfolding same_bytes
same_bytes-eq [] [] h = refl
same_bytes-eq [] (c ∷ s) h = cc
same_bytes-eq (a ∷ p) [] h = cc
same_bytes-eq (a ∷ p) (c ∷ s) h =
    let e : a ≡ c = ground arith in
    let k : same_bytes p s ≡ true = ground arith in
    ap (λ x. x ∷ p) e ∙ ap (λ l. c ∷ l) (same_bytes-eq p s k)

-- The structure that `add` chooses.
data Class (pat : Bytes) : Type 0 where
  whole : pat ≡ star ∷ [] → Class pat
  literal : same_bytes pat (star ∷ []) ≡ false → contains_byte star pat ≡ false → Class pat
  prefix :
      same_bytes pat (star ∷ []) ≡ false → contains_byte star pat ≡ true → OnePrefix pat → Class pat
  general :
      same_bytes pat (star ∷ []) ≡ false
      → contains_byte star pat ≡ true
      → (count_stars pat == 1 && has_suffix (star ∷ []) pat) ≡ false
      → Class pat

classify : (pat : Bytes) → Class pat
classify pat = elim (Bool-cases (same_bytes pat (star ∷ []))) [
  | inl a ↦ whole (same_bytes-eq pat (star ∷ []) a)
  | inr a ↦ elim (Bool-cases (contains_byte star pat)) [
    | inr b ↦ literal a b
    | inl b ↦ elim (Bool-cases (count_stars pat == 1 && has_suffix (star ∷ []) pat)) [
      | inl c ↦ prefix a b (ground arith, ground arith)
      | inr c ↦ general a b c
    ]
  ]
]

match_set-add :
    (pat path : Bytes) (s : PathSet)
    → match_set (add pat s) path ≡ (wild pat path || match_set s path)
match_set-add pat path s = elim (classify pat) [
  | whole e ↦
      ap (λ q. match_set (add q s) path) e
      ∙ (unfold add match_set same_bytes in
          sym (ap (λ b. b || match_set s path) (ap (λ q. wild q path) e ∙ wild_all path)))
  | literal a b ↦ unfold add match_set in rw (a, b, wild-exact pat path b) (ground arith)
  | prefix a b (c, d) ↦
      unfold add match_set in
      rw
        (
          a,
          b,
          c,
          d,
          has_prefix_of-insert (take (length pat - 1) pat) path s.prefixes,
          wild-prefix pat path (c, d),
        )
        (ground arith)
  | general a b c ↦
      unfold add match_set in
      rw (a, b, c, any_glob-snoc path s.globs (compile_glob pat), match_glob-wild pat path b)
        (ground arith)
]

unfoldable pub add_all : List Bytes → PathSet → PathSet
unfolding add
add_all [] s = s
add_all (p ∷ ps) s = add_all ps (add p s)

-- Some pattern of a list matches.
unfoldable pub some_wild : List Bytes → Bytes → Bool
unfolding wild
some_wild [] path = false
some_wild (p ∷ ps) path = wild p path || some_wild ps path

match_set-add_all :
    (pats : List Bytes) (path : Bytes) (s : PathSet)
    → match_set (add_all pats s) path ≡ (some_wild pats path || match_set s path)
unfolding add_all some_wild
match_set-add_all [] path s = refl
match_set-add_all (p ∷ ps) path s =
    ground (arith, match_set-add_all ps path (add p s), match_set-add p path s)

-- The set that takes in a list of patterns matches a path exactly when one of the patterns means it.
pub match_set-some_wild :
    (pats : List Bytes) (path : Bytes)
    → match_set (add_all pats new_path_set) path ≡ some_wild pats path
match_set-some_wild pats path =
    match_set-add_all pats path new_path_set
    ∙ (unfold match_set in rw (has_prefix_of-new path) (ground arith))
