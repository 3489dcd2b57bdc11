-- ===== src/Tests/Glob.antt =====
-- internal/pipeline/glob.go: a set of one pattern of each class, a bare star left out.
use cadish.Pipeline.Glob.{compile_glob, match_glob, new_path_set, match_set}
use cadish.Pipeline.Glob.Sets.{add_all, some_wild, match_set-some_wild}
use cadish.Prelude.Bytes.{Bytes}
use cadish.Prelude.{◌≡◌, refl, true, false, List, [], ◌∷◌}

-- "/a", "/b/*" and "*m*/z"
abbrev exact_pattern : Bytes
exact_pattern = 47 ∷ 97 ∷ []

abbrev prefix_pattern : Bytes
prefix_pattern = 47 ∷ 98 ∷ 47 ∷ 42 ∷ []

abbrev inner_pattern : Bytes
inner_pattern = 42 ∷ 109 ∷ 42 ∷ 47 ∷ 122 ∷ []

abbrev patterns : List Bytes
patterns = exact_pattern ∷ prefix_pattern ∷ inner_pattern ∷ []

-- "/m/m/z"
abbrev deep_path : Bytes
deep_path = 47 ∷ 109 ∷ 47 ∷ 109 ∷ 47 ∷ 122 ∷ []

set_matches : match_set (add_all patterns new_path_set) deep_path ≡ true
unfolding match_set add_all
set_matches = refl

set_refuses : match_set (add_all patterns new_path_set) (47 ∷ 98 ∷ []) ≡ false
unfolding match_set add_all
set_refuses = refl

-- The anchor at the end must lie behind the last part: "a*a" does not match "a".
no_overlap : match_glob (compile_glob (97 ∷ 42 ∷ 97 ∷ [])) (97 ∷ []) ≡ false
unfolding match_glob compile_glob
no_overlap = refl

match_set-some_wild_example :
    match_set (add_all patterns new_path_set) deep_path ≡ some_wild patterns deep_path
match_set-some_wild_example = match_set-some_wild patterns deep_path
