-- ===== src/Pipeline/Query/Injective.antt =====
-- Canonical queries side by side: writeCanonicalQuery of internal/pipeline/cachekey.go.
use cadish.Pipeline.Query.Escape.{first_byte, first_byte-delimiter, Ends, query_escape-injective}
use cadish.Pipeline.Query.{
  NameGlobSet, Query, query_escape, canonical_pairs, write_pairs, write_canonical_query,
}
use cadish.Prelude.Bytes.{Bytes}
use cadish.Prelude.{
  ℕ, ◌<◌, ◌≡◌, refl, sym, ap, ◌∙◌, Bool, true, false, List, [], ◌∷◌, ◌++◌, Option, inl, inr,
  if◌then◌else◌, All,
}

abbrev Pairs : Type 0
Pairs = List (Bytes × Bytes)

-- Names and values made of bytes.
abbrev pub Octets : Bytes → Type 0
Octets s = All (λ c. c < 256) s

abbrev pub AllOctets : List (Bytes × Bytes) → Type 0
AllOctets ps = All (λ kv. Octets kv.0 × Octets kv.1) ps

abbrev lead : Bool → Bool → Bytes
lead prefix first = if first then (if prefix then 63 ∷ [] else []) else 38 ∷ []

write-cons :
    (prefix first : Bool) (k v : Bytes) (ps : Pairs)
    → write_pairs prefix first ((k, v) ∷ ps)
      ≡ lead prefix first
        ++ (query_escape k ++ (61 ∷ (query_escape v ++ write_pairs prefix false ps)))
unfolding write_pairs
write-cons prefix first k v ps = refl

nothing_written : (prefix first : Bool) → [] ≡ write_pairs prefix first []
unfolding write_pairs
nothing_written prefix first = refl

write-Ends : (prefix : Bool) (ps : Pairs) → Ends (write_pairs prefix false ps)
write-Ends prefix [] = unfold write_pairs first_byte in refl
write-Ends prefix ((k, v) ∷ ps) =
    ap first_byte (write-cons prefix false k v ps)
    ∙ first_byte-delimiter 38
        (query_escape k ++ (61 ∷ (query_escape v ++ write_pairs prefix false ps))) (inl refl)

-- A text with a byte in it.
not_empty : (xs ys : Bytes) (c : ℕ) → [] ≡ xs ++ (c ∷ ys) → ⊥
not_empty [] ys c e = cc
not_empty (x ∷ xs) ys c e = cc

some_text :
    (prefix first : Bool) (k v : Bytes) (ps : Pairs)
    → [] ≡ write_pairs prefix first ((k, v) ∷ ps)
    → ⊥
some_text prefix false k v ps e =
    not_empty [] (query_escape k ++ (61 ∷ (query_escape v ++ write_pairs prefix false ps))) 38
      (e ∙ write-cons prefix false k v ps)
some_text true true k v ps e =
    not_empty [] (query_escape k ++ (61 ∷ (query_escape v ++ write_pairs true false ps))) 63
      (e ∙ write-cons true true k v ps)
some_text false true k v ps e =
    not_empty (query_escape k) (query_escape v ++ write_pairs false false ps) 61
      (e ∙ write-cons false true k v ps)

tail_eq : (c : ℕ) (p q : Bytes) → c ∷ p ≡ c ∷ q → p ≡ q
tail_eq c p q e = cc

lead_eq :
    (prefix first : Bool) (p q : Bytes) → lead prefix first ++ p ≡ lead prefix first ++ q → p ≡ q
lead_eq prefix false p q e = tail_eq 38 p q e
lead_eq true true p q e = tail_eq 63 p q e
lead_eq false true p q e = e

equals-Ends : (r : Bytes) → Ends (61 ∷ r)
equals-Ends r = first_byte-delimiter 61 r (inr refl)

write_pairs-injective :
    (prefix first : Bool) (ps qs : Pairs)
    → AllOctets ps
    → AllOctets qs
    → write_pairs prefix first ps ≡ write_pairs prefix first qs
    → ps ≡ qs
write_pairs-injective prefix first [] [] a b e = refl
write_pairs-injective prefix first [] ((k, v) ∷ qs) a b e =
    absurd (some_text prefix first k v qs (nothing_written prefix first ∙ e))
write_pairs-injective prefix first ((k, v) ∷ ps) [] a b e =
    absurd (some_text prefix first k v ps (nothing_written prefix first ∙ sym e))
write_pairs-injective prefix first ((k, v) ∷ ps) ((l, w) ∷ qs) ((ka, va), a) ((la, wa), b) e =
    let pt : Bytes = query_escape v ++ write_pairs prefix false ps in
    let qt : Bytes = query_escape w ++ write_pairs prefix false qs in
    let bare : query_escape k ++ (61 ∷ pt) ≡ query_escape l ++ (61 ∷ qt) =
      lead_eq prefix first _ _
        (sym (write-cons prefix first k v ps) ∙ e ∙ write-cons prefix first l w qs) in
    let (names, r) =
      query_escape-injective k l (61 ∷ pt) (61 ∷ qt) ka la (equals-Ends pt) (equals-Ends qt) bare in
    let (values, rest) =
      query_escape-injective v w (write_pairs prefix false ps) (write_pairs prefix false qs) va wa
        (write-Ends prefix ps) (write-Ends prefix qs) (tail_eq 61 pt qt r) in
    ap (λ x. (x, v) ∷ ps) names
    ∙ ap (λ x. (l, x) ∷ ps) values
    ∙ ap (λ x. (l, w) ∷ x) (write_pairs-injective prefix false ps qs a b rest)

-- Two queries with the same canonical text, under the same kind of token and any filters, have the same
-- names and values after the filters, in the same order: no delimiter inside a name or a value brings
-- two of them together.
pub write_canonical_query-injective :
    (prefix : Bool) (allow deny allow' deny' : Option NameGlobSet) (q r : Query)
    → AllOctets (canonical_pairs allow deny q)
    → AllOctets (canonical_pairs allow' deny' r)
    → write_canonical_query prefix allow deny q ≡ write_canonical_query prefix allow' deny' r
    → canonical_pairs allow deny q ≡ canonical_pairs allow' deny' r
unfolding write_canonical_query
write_canonical_query-injective prefix allow deny allow' deny' q r a b e =
    write_pairs-injective prefix true (canonical_pairs allow deny q)
      (canonical_pairs allow' deny' r) a b e
