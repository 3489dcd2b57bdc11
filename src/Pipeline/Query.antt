-- ===== src/Pipeline/Query.antt =====
-- The query of a cache key: writeCanonicalQuery and the sets of parameter names of
-- internal/pipeline/cachekey.go. A query is a Go map from names to values, in the order of a range over it.
pub mod Escape
pub mod Injective
pub mod Names
use cadish.Pipeline.Glob.{star, Glob, compile_glob, in_exact, any_glob}
use cadish.Prelude.Bytes.{Bytes, same_bytes, contains_byte}
use cadish.Prelude.{
  ℕ, ◌+◌, ◌-◌, ◌/◌, ◌%◌, Bool, true, false, not, ◌&&◌, ◌||◌, List, [], ◌∷◌, ◌++◌, Option, none,
  some, ltb, leb, ◌==◌, map, if◌then◌else◌,
}

pub record NameGlobSet : Type 0 where
  pub exact : List Bytes
  pub globs : List Glob
  pub match_all : Bool

unfoldable pub add_name : Bytes → NameGlobSet → NameGlobSet
unfolding same_bytes contains_byte compile_glob
add_name n s =
    if same_bytes n (star ∷ [])
    then record s { match_all = true }
    else if not (contains_byte star n)
    then record s { exact = n ∷ s.exact }
    else record s { globs = s.globs ++ (compile_glob n ∷ []) }

-- `newNameGlobSet`, from a set that holds the names before.
unfoldable pub add_names : List Bytes → NameGlobSet → NameGlobSet
unfolding add_name
add_names [] s = s
add_names (n ∷ ns) s = add_names ns (add_name n s)

unfoldable pub match_name : NameGlobSet → Bytes → Bool
unfolding in_exact any_glob
match_name s name =
    if s.match_all then true else if in_exact name s.exact then true else any_glob name s.globs

-- `<=` on strings.
unfoldable pub leb_bytes : Bytes → Bytes → Bool
leb_bytes [] s = true
leb_bytes (a ∷ p) [] = false
leb_bytes (a ∷ p) (b ∷ s) =
    let rest = leb_bytes p s in if ltb a b then true else (if a == b then rest else false)

unfoldable pub insert_string : Bytes → List Bytes → List Bytes
unfolding leb_bytes
insert_string s [] = s ∷ []
insert_string s (t ∷ ts) =
    let rest = insert_string s ts in if leb_bytes s t then s ∷ t ∷ ts else t ∷ rest

-- `sort.Strings`
unfoldable pub sort_strings : List Bytes → List Bytes
unfolding insert_string
sort_strings [] = []
sort_strings (s ∷ ss) = insert_string s (sort_strings ss)

-- The bytes that `url.QueryEscape` leaves: letters, digits, and - _ . ~
unfoldable pub unreserved : ℕ → Bool
unreserved c =
    leb 97 c && leb c 122
    || leb 65 c && leb c 90
    || leb 48 c && leb c 57
    || c == 45
    || c == 95
    || c == 46
    || c == 126

abbrev pub hex_digit : ℕ → ℕ
hex_digit n = if ltb n 10 then 48 + n else 55 + n

abbrev pub escape_byte : ℕ → Bytes
escape_byte c =
    if unreserved c
    then c ∷ []
    else if c == 32
    then 43 ∷ []
    else 37 ∷ hex_digit (c / 16) ∷ hex_digit (c % 16) ∷ []

-- `url.QueryEscape`
unfoldable pub query_escape : Bytes → Bytes
unfolding unreserved
query_escape [] = []
query_escape (c ∷ s) = escape_byte c ++ query_escape s

abbrev pub Query : Type 0
Query = List (Bytes × List Bytes)

unfoldable pub values_of : Bytes → Query → List Bytes
unfolding same_bytes
values_of k [] = []
values_of k ((j, vs) ∷ q) = if same_bytes j k then vs else values_of k q

abbrev pub dropped_name : Option NameGlobSet → Option NameGlobSet → Bytes → Bool
dropped_name allow deny k =
    elim allow [ none ↦ false | some s ↦ not (match_name s k) ]
    || elim deny [ none ↦ false | some s ↦ match_name s k ]

unfoldable pub kept_names : Option NameGlobSet → Option NameGlobSet → Query → List Bytes
unfolding match_name
kept_names allow deny [] = []
kept_names allow deny ((k, vs) ∷ q) =
    let rest = kept_names allow deny q in if dropped_name allow deny k then rest else k ∷ rest

abbrev pub with_name : Bytes → List Bytes → List (Bytes × Bytes)
with_name k [] = []
with_name k (v ∷ vs) = (k, v) ∷ with_name k vs

-- The pairs that the loops go through.
unfoldable pub pairs_of : List Bytes → Query → List (Bytes × Bytes)
unfolding values_of sort_strings
pairs_of [] q = []
pairs_of (k ∷ ks) q = with_name k (sort_strings (values_of k q)) ++ pairs_of ks q

unfoldable pub canonical_pairs :
    Option NameGlobSet → Option NameGlobSet → Query → List (Bytes × Bytes)
unfolding kept_names pairs_of sort_strings
canonical_pairs allow deny q = pairs_of (sort_strings (kept_names allow deny q)) q

-- What is written before a pair, the pair, and the rest.
unfoldable pub write_pairs : Bool → Bool → List (Bytes × Bytes) → Bytes
unfolding query_escape
write_pairs prefix first [] = []
write_pairs prefix first ((k, v) ∷ ps) =
    (if first then (if prefix then 63 ∷ [] else []) else 38 ∷ [])
    ++ (query_escape k ++ (61 ∷ (query_escape v ++ write_pairs prefix false ps)))

-- `writeCanonicalQuery`
unfoldable pub write_canonical_query :
    Bool → Option NameGlobSet → Option NameGlobSet → Query → Bytes
unfolding canonical_pairs write_pairs
write_canonical_query prefix allow deny q = write_pairs prefix true (canonical_pairs allow deny q)
