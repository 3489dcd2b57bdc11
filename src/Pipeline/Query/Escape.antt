-- ===== src/Pipeline/Query/Escape.antt =====
-- Reading escaped bytes back: `url.QueryEscape`, as internal/pipeline/cachekey.go uses it.
use mathlib.Core.List.{append_assoc}
use cadish.Pipeline.Query.{unreserved, hex_digit, escape_byte, query_escape}
use cadish.Prelude.Bytes.{Bytes}
use cadish.Prelude.{
  ℕ, ◌+◌, ◌-◌, ◌*◌, ◌/◌, ◌%◌, ◌<◌, ◌≡◌, refl, sym, ap, ◌∙◌, true, false, [], ◌∷◌, ◌++◌, Option,
  none, some, ltb, ◌==◌, if◌then◌else◌, All, arith, ◌⊎◌, inl, inr, Bool-cases,
}

abbrev hex_value : ℕ → ℕ
hex_value d = if ltb d 58 then d - 48 else d - 55

-- The first byte that escaped bytes stand for, and the rest.
abbrev after_percent : Bytes → Option (ℕ × Bytes)
after_percent [] = none
after_percent (a ∷ []) = none
after_percent (a ∷ b ∷ r) = some (16 * hex_value a + hex_value b, r)

unfoldable pub first_byte : Bytes → Option (ℕ × Bytes)
unfolding unreserved
first_byte [] = none
first_byte (c ∷ r) =
    if c == 37
    then after_percent r
    else if c == 43
    then some (32, r)
    else if unreserved c
    then some (c, r)
    else none

hex_back : (n : ℕ) → n < 16 → hex_value (hex_digit n) ≡ n
hex_back n h = ground arith

plain_byte :
    (c : ℕ)
    → unreserved c ≡ true
    → (c == 37 ≡ false) × (c == 43 ≡ false) × (c == 38 ≡ false) × (c == 61 ≡ false)
unfolding unreserved
plain_byte c u = (ground arith, ground arith, ground arith, ground arith)

first_byte-plain : (c : ℕ) (r : Bytes) → unreserved c ≡ true → first_byte (c ∷ r) ≡ some (c, r)
unfolding first_byte
first_byte-plain c r u = let (a, b, d, e) = plain_byte c u in ground (arith, a, b, u)

percent_back :
    (c : ℕ) (r : Bytes)
    → c < 256
    → first_byte (37 ∷ hex_digit (c / 16) ∷ hex_digit (c % 16) ∷ r) ≡ some (c, r)
unfolding first_byte
percent_back c r h =
    let whole : 16 * hex_value (hex_digit (c / 16)) + hex_value (hex_digit (c % 16)) ≡ c =
      omega (arith, hex_back (c / 16) (omega (arith, h)), hex_back (c % 16) (omega arith)) in
    ap (λ n. some (n, r)) whole

space_back : (r : Bytes) → first_byte (43 ∷ r) ≡ some (32, r)
unfolding first_byte
space_back r = refl

-- An escaped byte is read back.
pub first_byte-escape :
    (c : ℕ) (r : Bytes) → c < 256 → first_byte (escape_byte c ++ r) ≡ some (c, r)
first_byte-escape c r h = elim (Bool-cases (unreserved c)) [
  | inl u ↦ rw u (first_byte-plain c r u)
  | inr u ↦ rw u (elim (Bool-cases (c == 32)) [
    | inl s ↦ let is : c ≡ 32 = ground arith in rw s (space_back r ∙ ap (λ n. some (n, r)) (sym is))
    | inr s ↦ rw s (percent_back c r h)
  ])
]

-- A delimiter stands for no byte.
abbrev pub Delimits : ℕ → Type 0
Delimits d = (d ≡ 38) ⊎ (d ≡ 61)

pub first_byte-delimiter : (d : ℕ) (r : Bytes) → Delimits d → first_byte (d ∷ r) ≡ none
unfolding first_byte
first_byte-delimiter d r (inl e) = ap (λ x. first_byte (x ∷ r)) e
first_byte-delimiter d r (inr e) = ap (λ x. first_byte (x ∷ r)) e

-- Text that begins with no escaped byte.
abbrev pub Ends : Bytes → Type 0
Ends t = first_byte t ≡ none

pair_eq : (x y : ℕ × Bytes) → some x ≡ some y → (x.0 ≡ y.0) × (x.1 ≡ y.1)
pair_eq x y e = let k : x ≡ y = cc in (ap (λ z. z.0) k, ap (λ z. z.1) k)

nothing_read : {x : ℕ × Bytes} → none ≡ some x → ⊥
nothing_read e = cc

escape-cons :
    (c : ℕ) (s r : Bytes) → query_escape (c ∷ s) ++ r ≡ escape_byte c ++ (query_escape s ++ r)
unfolding query_escape
escape-cons c s r = append_assoc (escape_byte c) (query_escape s) r

first-cons :
    (c : ℕ) (s r : Bytes)
    → c < 256
    → first_byte (query_escape (c ∷ s) ++ r) ≡ some (c, query_escape s ++ r)
first-cons c s r h = ap first_byte (escape-cons c s r) ∙ first_byte-escape c (query_escape s ++ r) h

first_nil : (p : Bytes) → first_byte (query_escape [] ++ p) ≡ first_byte p
unfolding query_escape
first_nil p = refl

escape_nil : (p q : Bytes) → query_escape [] ++ p ≡ query_escape [] ++ q → p ≡ q
unfolding query_escape
escape_nil p q h = h

-- Escaped texts that go on with no escaped byte are equal only piece by piece.
pub query_escape-injective :
    (s t p q : Bytes)
    → All (λ c. c < 256) s
    → All (λ c. c < 256) t
    → Ends p
    → Ends q
    → query_escape s ++ p ≡ query_escape t ++ q
    → (s ≡ t) × (p ≡ q)
query_escape-injective [] [] p q a b e f h = (refl, escape_nil p q h)
query_escape-injective [] (d ∷ t) p q a (l, b) e f h =
    absurd (nothing_read (sym e ∙ sym (first_nil p) ∙ ap first_byte h ∙ first-cons d t q l))
query_escape-injective (c ∷ s) [] p q (k, a) b e f h =
    absurd (nothing_read (sym f ∙ sym (first_nil q) ∙ ap first_byte (sym h) ∙ first-cons c s p k))
query_escape-injective (c ∷ s) (d ∷ t) p q (k, a) (l, b) e f h =
    let (same, rest) =
      pair_eq (c, query_escape s ++ p) (d, query_escape t ++ q)
        (sym (first-cons c s p k) ∙ ap first_byte h ∙ first-cons d t q l) in
    let (tails, ends) = query_escape-injective s t p q a b e f rest in
    (ap (λ x. x ∷ s) same ∙ ap (λ x. d ∷ x) tails, ends)
