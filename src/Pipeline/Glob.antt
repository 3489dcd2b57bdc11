-- ===== src/Pipeline/Glob.antt =====
-- Path and host patterns: internal/pipeline/glob.go. Texts are lists of bytes.
pub mod Trie
pub mod Wild
pub mod Segments
pub mod Decides
pub mod Sets
use cadish.Prelude.Bytes.{
  Bytes, is_empty, same_bytes, has_prefix, has_suffix, after_index, contains_byte,
}
use cadish.Prelude.{
  ℕ, zero, suc, ◌+◌, ◌-◌, Bool, true, false, not, ◌&&◌, ◌||◌, List, [], ◌∷◌, ◌++◌, Option, none,
  some, ◌==◌, length, drop, take, if◌then◌else◌,
}

-- '*'
abbrev pub star : ℕ
star = 42

-- A node and its children by byte.
mutual
  pub data TrieNode : Type 0 where
    node : Bool → Children → TrieNode

  pub data Children : Type 0 where
    nil : Children
    child : ℕ → TrieNode → Children → Children

abbrev pub new_trie : TrieNode
new_trie = node false nil

abbrev pub terminal : TrieNode → Bool
terminal (node t ks) = t

abbrev pub children : TrieNode → Children
children (node t ks) = ks

-- `cur.children[b]`
unfoldable pub find_child : ℕ → Children → Option TrieNode
find_child b nil = none
find_child b (child c t ks) = if c == b then some t else find_child b ks

-- The child of a byte, made when it is missing, is changed.
unfoldable pub with_child : ℕ → (TrieNode → TrieNode) → Children → Children
with_child b f nil = child b (f new_trie) nil
with_child b f (child c t ks) =
    let rest = with_child b f ks in if c == b then child c (f t) ks else child c t rest

unfoldable pub insert : Bytes → TrieNode → TrieNode
unfolding with_child
insert [] (node t ks) = node true ks
insert (b ∷ p) (node t ks) = node t (with_child b (insert p) ks)

unfoldable pub has_prefix_of : Bytes → TrieNode → Bool
unfolding find_child
has_prefix_of [] t = terminal t
has_prefix_of (b ∷ s) t = elim (terminal t) [
  | true ↦ true
  | false ↦ elim (find_child b (children t)) [ none ↦ false | some u ↦ has_prefix_of s u ]
]

pub record Glob : Type 0 where
  pub leading_star : Bool
  pub trailing_star : Bool
  pub parts : List Bytes

-- `strings.Split(pat, "*")`
unfoldable pub split_star : Bytes → List Bytes
split_star [] = [] ∷ []
split_star (c ∷ p) =
    let rest = split_star p in
    if c == star then [] ∷ rest else elim rest [ [] ↦ (c ∷ []) ∷ [] | q ∷ qs ↦ (c ∷ q) ∷ qs ]

unfoldable pub non_empty : List Bytes → List Bytes
non_empty [] = []
non_empty (p ∷ ps) = let rest = non_empty ps in if is_empty p then rest else p ∷ rest

unfoldable pub compile_glob : Bytes → Glob
unfolding has_prefix has_suffix split_star non_empty
compile_glob pat = record {
  leading_star = has_prefix (star ∷ []) pat;
  trailing_star = has_suffix (star ∷ []) pat;
  parts = non_empty (split_star pat);
}

-- The parts between the anchors, in order.
unfoldable pub match_parts : List Bytes → Bytes → Option Bytes
unfolding after_index
match_parts [] s = some s
match_parts (p ∷ ps) s = elim (after_index p s) [ none ↦ none | some t ↦ match_parts ps t ]

-- `parts[:len(parts)-1]` and `parts[len(parts)-1]`, for a list that is not empty.
unfoldable pub init : List Bytes → List Bytes
init [] = []
init (p ∷ []) = []
init (p ∷ q ∷ ps) = p ∷ init (q ∷ ps)

unfoldable pub last : List Bytes → Bytes
last [] = []
last (p ∷ []) = p
last (p ∷ q ∷ ps) = last (q ∷ ps)

abbrev pub no_parts : List Bytes → Bool
no_parts [] = true
no_parts (p ∷ ps) = false

-- `match`, behind the anchor of the first part.
unfoldable pub match_rest : Bool → List Bytes → Bytes → Bool
unfolding match_parts init last has_suffix
match_rest trailing parts s =
    let anchored = not trailing && not (no_parts parts) in
    let suffix = (if anchored then last parts else []) in
    elim (match_parts (if anchored then init parts else parts) s) [
      | none ↦ false
      | some t ↦ if is_empty suffix then true else has_suffix suffix t
    ]

unfoldable pub match_glob : Glob → Bytes → Bool
unfolding has_prefix match_rest
match_glob g s = elim g.parts [
  | [] ↦ true
  | p ∷ ps ↦
      if g.leading_star
      then match_rest g.trailing_star (p ∷ ps) s
      else (if has_prefix p s then match_rest g.trailing_star ps (drop (length p) s) else false)
]

pub record PathSet : Type 0 where
  pub exact : List Bytes
  pub prefixes : TrieNode
  pub globs : List Glob
  pub match_all : Bool

abbrev pub new_path_set : PathSet
new_path_set = record { exact = []; prefixes = new_trie; globs = []; match_all = false }

-- `strings.Count(pat, "*")`
unfoldable pub count_stars : Bytes → ℕ
count_stars [] = 0
count_stars (c ∷ p) = (if c == star then 1 else 0) + count_stars p

-- `add`
unfoldable pub add : Bytes → PathSet → PathSet
unfolding same_bytes contains_byte count_stars has_suffix insert compile_glob
add pat s =
    if same_bytes pat (star ∷ [])
    then record s { match_all = true }
    else if not (contains_byte star pat)
    then record s { exact = pat ∷ s.exact }
    else if count_stars pat == 1 && has_suffix (star ∷ []) pat
    then record s { prefixes = insert (take (length pat - 1) pat) s.prefixes }
    else record s { globs = s.globs ++ (compile_glob pat ∷ []) }

unfoldable pub in_exact : Bytes → List Bytes → Bool
in_exact path [] = false
in_exact path (e ∷ es) = if same_bytes e path then true else in_exact path es

unfoldable pub any_glob : Bytes → List Glob → Bool
unfolding match_glob
any_glob path [] = false
any_glob path (g ∷ gs) = if match_glob g path then true else any_glob path gs

-- `Match`
unfoldable pub match_set : PathSet → Bytes → Bool
unfolding in_exact has_prefix_of any_glob
match_set s path =
    if s.match_all
    then true
    else if in_exact path s.exact
    then true
    else if has_prefix_of path s.prefixes
    then true
    else any_glob path s.globs
