-- ===== src/Prelude/Bytes.antt =====
-- Byte strings, with Go's tests on them.
use cadish.Prelude.{
  ℕ, Bool, true, false, ◌&&◌, ◌||◌, List, [], ◌∷◌, Option, none, some, ◌==◌, length, drop,
  if◌then◌else◌,
}

abbrev pub Bytes : Type 0
Bytes = List ℕ

abbrev pub is_empty : Bytes → Bool
is_empty [] = true
is_empty (c ∷ s) = false

-- `==` on strings.
unfoldable pub same_bytes : Bytes → Bytes → Bool
same_bytes [] [] = true
same_bytes (x ∷ xs) (y ∷ ys) = x == y && same_bytes xs ys
same_bytes _ _ = false

-- `strings.HasPrefix`, the prefix first.
unfoldable pub has_prefix : Bytes → Bytes → Bool
has_prefix [] s = true
has_prefix (p ∷ ps) [] = false
has_prefix (p ∷ ps) (c ∷ s) = p == c && has_prefix ps s

-- Some suffix of a string, itself and the empty one included, has a property.
unfoldable pub any_suffix : (Bytes → Bool) → Bytes → Bool
any_suffix f [] = f []
any_suffix f (c ∷ s) = f (c ∷ s) || any_suffix f s

-- `strings.HasSuffix`, the suffix first.
unfoldable pub has_suffix : Bytes → Bytes → Bool
unfolding any_suffix same_bytes
has_suffix e s = any_suffix (same_bytes e) s

-- What follows the first occurrence: `s[strings.Index(s, p)+len(p):]`.
unfoldable pub after_index : Bytes → Bytes → Option Bytes
unfolding has_prefix
after_index p [] = if is_empty p then some [] else none
after_index p (c ∷ s) = elim (has_prefix p (c ∷ s)) [
  | true ↦ some (drop (length p) (c ∷ s))
  | false ↦ after_index p s
]

unfoldable pub contains_byte : ℕ → Bytes → Bool
contains_byte b [] = false
contains_byte b (c ∷ s) = if c == b then true else contains_byte b s
