-- ===== src/Pipeline/Query/Names.antt =====
-- A set of parameter names beside what its patterns mean: internal/pipeline/cachekey.go.
use cadish.Pipeline.Glob.Decides.{match_glob-wild}
use cadish.Pipeline.Glob.Sets.{wild-exact, wild_all, any_glob-snoc, same_bytes-eq, some_wild}
use cadish.Pipeline.Glob.Wild.{wild}
use cadish.Pipeline.Glob.{star, compile_glob}
use cadish.Pipeline.Query.{NameGlobSet, add_name, add_names, match_name}
use cadish.Prelude.Bytes.{Bytes, same_bytes, contains_byte}
use cadish.Prelude.{
  ◌≡◌, refl, sym, ap, ◌∙◌, false, ◌||◌, List, [], ◌∷◌, arith, inl, inr, Bool-cases,
}

match_name-add_name :
    (n name : Bytes) (s : NameGlobSet)
    → match_name (add_name n s) name ≡ (wild n name || match_name s name)
match_name-add_name n name s = elim (Bool-cases (same_bytes n (star ∷ []))) [
  | inl a ↦
      let e : n ≡ star ∷ [] = same_bytes-eq n (star ∷ []) a in
      ap (λ q. match_name (add_name q s) name) e
      ∙ (unfold add_name match_name same_bytes in
          sym (ap (λ b. b || match_name s name) (ap (λ q. wild q name) e ∙ wild_all name)))
  | inr a ↦ elim (Bool-cases (contains_byte star n)) [
    | inl b ↦
        unfold add_name match_name in
        rw (a, b, any_glob-snoc name s.globs (compile_glob n), match_glob-wild n name b)
          (ground arith)
    | inr b ↦ unfold add_name match_name in rw (a, b, wild-exact n name b) (ground arith)
  ]
]

match_name-add_names :
    (ns : List Bytes) (name : Bytes) (s : NameGlobSet)
    → match_name (add_names ns s) name ≡ (some_wild ns name || match_name s name)
unfolding add_names some_wild
match_name-add_names [] name s = refl
match_name-add_names (n ∷ ns) name s =
    ground (arith, match_name-add_names ns name (add_name n s), match_name-add_name n name s)

-- A set of parameter names matches exactly the names that one of its patterns means.
pub match_name-some_wild :
    (ns : List Bytes) (name : Bytes)
    → match_name (add_names ns (record { exact = []; globs = []; match_all = false })) name
      ≡ some_wild ns name
match_name-some_wild ns name =
    match_name-add_names ns name (record { exact = []; globs = []; match_all = false })
    ∙ (unfold match_name in ground arith)
