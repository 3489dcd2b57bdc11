-- ===== src/Tests/Query.antt =====
-- internal/pipeline/cachekey.go: a query in two orders, and a value with delimiters inside.
use cadish.Pipeline.Glob.Sets.{some_wild}
use cadish.Pipeline.Query.Injective.{AllOctets, write_canonical_query-injective}
use cadish.Pipeline.Query.Names.{match_name-some_wild}
use cadish.Pipeline.Query.{
  NameGlobSet, add_names, match_name, Query, canonical_pairs, write_canonical_query,
}
use cadish.Prelude.Bytes.{same_bytes, contains_byte}
use cadish.Prelude.{◌≡◌, refl, true, false, [], ◌∷◌, none, some, arith}

-- a=1&b=2 and b=2&a=1
abbrev in_order : Query
in_order = (97 ∷ [], (49 ∷ []) ∷ []) ∷ (98 ∷ [], (50 ∷ []) ∷ []) ∷ []

abbrev turned : Query
turned = (98 ∷ [], (50 ∷ []) ∷ []) ∷ (97 ∷ [], (49 ∷ []) ∷ []) ∷ []

-- One parameter `a` with the value "1&b=2".
abbrev one_value : Query
one_value = (97 ∷ [], (49 ∷ 38 ∷ 98 ∷ 61 ∷ 50 ∷ []) ∷ []) ∷ []

-- "?a=1&b=2"
ordered_text :
    write_canonical_query true none none turned ≡ 63 ∷ 97 ∷ 61 ∷ 49 ∷ 38 ∷ 98 ∷ 61 ∷ 50 ∷ []
unfolding write_canonical_query
ordered_text = refl

-- "?a=1%26b%3D2"
escaped_text :
    write_canonical_query true none none one_value
    ≡ 63 ∷ 97 ∷ 61 ∷ 49 ∷ 37 ∷ 50 ∷ 54 ∷ 98 ∷ 37 ∷ 51 ∷ 68 ∷ 50 ∷ []
unfolding write_canonical_query
escaped_text = refl

-- The parameters whose names begin with "a", dropped: "b=2".
abbrev names_a : NameGlobSet
names_a = add_names ((97 ∷ 42 ∷ []) ∷ []) (record { exact = []; globs = []; match_all = false })

filtered_text : write_canonical_query false none (some names_a) turned ≡ 98 ∷ 61 ∷ 50 ∷ []
unfolding write_canonical_query add_names same_bytes contains_byte
filtered_text = refl

octets_in_order : AllOctets (canonical_pairs none none in_order)
unfolding canonical_pairs
octets_in_order =
    (((omega arith, tt), (omega arith, tt)), (((omega arith, tt), (omega arith, tt)), tt))

octets_turned : AllOctets (canonical_pairs none none turned)
unfolding canonical_pairs
octets_turned =
    (((omega arith, tt), (omega arith, tt)), (((omega arith, tt), (omega arith, tt)), tt))

same_text :
    write_canonical_query true none none in_order ≡ write_canonical_query true none none turned
unfolding write_canonical_query
same_text = refl

write_canonical_query-injective_example :
    canonical_pairs none none in_order ≡ canonical_pairs none none turned
write_canonical_query-injective_example =
    write_canonical_query-injective true none none none none in_order turned octets_in_order
      octets_turned same_text

match_name-some_wild_example :
    match_name
      (add_names ((97 ∷ 42 ∷ []) ∷ []) (record { exact = []; globs = []; match_all = false }))
      (97 ∷ 98 ∷ [])
    ≡ some_wild ((97 ∷ 42 ∷ []) ∷ []) (97 ∷ 98 ∷ [])
match_name-some_wild_example = match_name-some_wild ((97 ∷ 42 ∷ []) ∷ []) (97 ∷ 98 ∷ [])
