-- ===== src/Pipeline/Glob/Segments.antt =====
-- The first occurrence of a segment, which the loop of `match` takes: internal/pipeline/glob.go.
use cadish.Pipeline.Glob.{non_empty, match_parts, init, last}
use cadish.Pipeline.Glob.Wild.{in_order}
use cadish.Prelude.Bytes.{
  Bytes, is_empty, any_suffix, has_prefix, has_suffix, same_bytes, after_index,
}
use cadish.Prelude.{
  ℕ, zero, suc, ◌≡◌, refl, ◌∙◌, Bool, true, false, ◌&&◌, List, [], ◌∷◌, none, some, length, drop,
  if◌then◌else◌, arith, inl, inr, Bool-cases, Option-cases,
}

-- More text in front changes nothing for the segments after a star.
in_order_longer :
    (g : Bytes) (gs : List Bytes) (c : ℕ) (s : Bytes)
    → in_order (g ∷ gs) s ≡ true
    → in_order (g ∷ gs) (c ∷ s) ≡ true
unfolding in_order any_suffix
in_order_longer g [] c s h = ground arith
in_order_longer g (k ∷ gs) c s h = ground arith

drop_none : (n : ℕ) → drop {A = ℕ} n [] ≡ []
drop_none zero = refl
drop_none (suc n) = refl

in_order_earlier :
    (g : Bytes) (gs : List Bytes) (n c : ℕ) (s : Bytes)
    → in_order (g ∷ gs) (drop n s) ≡ true
    → in_order (g ∷ gs) (drop n (c ∷ s)) ≡ true
in_order_earlier g gs zero c s h = in_order_longer g gs c s h
in_order_earlier g gs (suc n) c [] h = rw (drop_none n) h
in_order_earlier g gs (suc n) c (d ∷ s) h = in_order_earlier g gs n d s h

-- An occurrence, and the rest of the segments behind it.
abbrev found : Bytes → List Bytes → Bytes → Bool
found g gs t = has_prefix g t && in_order gs (drop (length g) t)

found_later :
    (g h : Bytes) (gs : List Bytes) (s : Bytes)
    → any_suffix (found g (h ∷ gs)) s ≡ true
    → in_order (h ∷ gs) (drop (length g) s) ≡ true
unfolding any_suffix
found_later g h gs [] e = ground arith
found_later g h gs (c ∷ s) e = elim (Bool-cases (found g (h ∷ gs) (c ∷ s))) [
  | inl now ↦ ground arith
  | inr later ↦ in_order_earlier h gs (length g) c s (found_later g h gs s (ground arith))
]

-- The segments by the first occurrence.
abbrev leftmost : Bytes → List Bytes → Bytes → Bool
leftmost g gs s = elim (after_index g s) [ none ↦ false | some t ↦ in_order gs t ]

found-leftmost :
    (g h : Bytes) (gs : List Bytes) (s : Bytes)
    → any_suffix (found g (h ∷ gs)) s ≡ leftmost g (h ∷ gs) s
unfolding any_suffix after_index
found-leftmost [] h gs [] = unfold has_prefix in ground arith
found-leftmost (b ∷ g) h gs [] = unfold has_prefix in ground arith
found-leftmost g h gs (c ∷ s) = elim (Bool-cases (has_prefix g (c ∷ s))) [
  | inl here ↦ ground (arith, found_later g h gs (c ∷ s))
  | inr there ↦ ground (arith, found-leftmost g h gs s)
]

pub in_order-leftmost :
    (g h : Bytes) (gs : List Bytes) (s : Bytes) → in_order (g ∷ h ∷ gs) s ≡ leftmost g (h ∷ gs) s
unfolding in_order
in_order-leftmost g h gs s = found-leftmost g h gs s

-- The loop of `match`, and the anchor at the end.
abbrev pub run : List Bytes → Bytes → Bytes → Bool
run parts suffix s = elim (match_parts parts s) [
  | none ↦ false
  | some t ↦ if is_empty suffix then true else has_suffix suffix t
]

any_empty : (s : Bytes) → any_suffix (same_bytes []) s ≡ true
unfolding any_suffix same_bytes
any_empty [] = refl
any_empty (c ∷ s) = any_empty s

after_index_empty : (s : Bytes) → after_index [] s ≡ some s
unfolding after_index has_prefix
after_index_empty [] = refl
after_index_empty (c ∷ s) = refl

pub in_order-run :
    (g : Bytes) (gs : List Bytes) (s : Bytes)
    → in_order (g ∷ gs) s ≡ run (non_empty (init (g ∷ gs))) (last (g ∷ gs)) s
unfolding non_empty init last match_parts
in_order-run [] [] s = unfold in_order in any_empty s
in_order-run (c ∷ g) [] s = unfold in_order has_suffix in refl
in_order-run [] (h ∷ gs) s =
    in_order-leftmost [] h gs s ∙ ground (arith, after_index_empty s, in_order-run h gs s)
in_order-run (c ∷ g) (h ∷ gs) s = elim (Option-cases (after_index (c ∷ g) s)) [
  | inl e ↦ ground (arith, in_order-leftmost (c ∷ g) h gs s)
  | inr (t, e) ↦ ground (arith, in_order-leftmost (c ∷ g) h gs s, in_order-run h gs t)
]
