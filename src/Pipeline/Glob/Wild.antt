-- ===== src/Pipeline/Glob/Wild.antt =====
-- What a pattern of internal/pipeline/glob.go means: `*` stands for any run of bytes, every other byte for itself.
use cadish.Pipeline.Glob.{star, split_star}
use cadish.Prelude.Bytes.{Bytes, is_empty, any_suffix, has_prefix, same_bytes}
use cadish.Prelude.{
  ℕ, ◌≡◌, refl, sym, ◌∙◌, Bool, false, ◌&&◌, List, [], ◌∷◌, ◌==◌, length, drop, if◌then◌else◌,
  arith, inl, inr, Bool-cases,
}

abbrev pub starts : ℕ → (Bytes → Bool) → Bytes → Bool
starts p f [] = false
starts p f (c ∷ s) = p == c && f s

unfoldable pub wild : Bytes → Bytes → Bool
wild [] s = is_empty s
wild (p ∷ ps) s = if p == star then any_suffix (wild ps) s else starts p (wild ps) s

-- What the segments after a star mean: each occurs behind the one before, and the last ends the text.
unfoldable pub in_order : List Bytes → Bytes → Bool
in_order [] s = is_empty s
in_order (g ∷ []) s = any_suffix (same_bytes g) s
in_order (g ∷ h ∷ gs) s =
    any_suffix (λ t. has_prefix g t && in_order (h ∷ gs) (drop (length g) t)) s

-- A pattern by its segments: the first one begins the text.
unfoldable pub by_segments : List Bytes → Bytes → Bool
by_segments [] s = is_empty s
by_segments (g ∷ []) s = same_bytes g s
by_segments (g ∷ h ∷ gs) s = has_prefix g s && in_order (h ∷ gs) (drop (length g) s)

any_suffix-ext :
    (f g : Bytes → Bool) (s : Bytes) → ((t : Bytes) → f t ≡ g t) → any_suffix f s ≡ any_suffix g s
unfolding any_suffix
any_suffix-ext f g [] h = h []
any_suffix-ext f g (c ∷ s) h = ground (arith, h (c ∷ s), any_suffix-ext f g s h)

-- The segments after a star, each shifted one place.
in_order-by_segments :
    (g : Bytes) (gs : List Bytes) (s : Bytes)
    → in_order (g ∷ gs) s ≡ any_suffix (by_segments (g ∷ gs)) s
unfolding in_order by_segments
in_order-by_segments g [] s = refl
in_order-by_segments g (h ∷ gs) s = refl

pub split_star-cons : (p : Bytes) → (q : Bytes) × (qs : List Bytes) × (split_star p ≡ q ∷ qs)
unfolding split_star
split_star-cons [] = ([], [], refl)
split_star-cons (c ∷ p) = elim (Bool-cases (c == star)) [
  | inl e ↦ ([], split_star p, ground arith)
  | inr e ↦ let (q, qs, f) = split_star-cons p in (c ∷ q, qs, ground arith)
]

by_segments-star :
    (gs : List Bytes) (q : Bytes) (qs : List Bytes) (s : Bytes)
    → gs ≡ q ∷ qs
    → by_segments ([] ∷ gs) s ≡ any_suffix (by_segments gs) s
unfolding by_segments has_prefix
by_segments-star gs q qs s e = rw e (in_order-by_segments q qs s)

by_segments-byte :
    (a : ℕ) (q : Bytes) (qs : List Bytes) (s : Bytes)
    → by_segments ((a ∷ q) ∷ qs) s ≡ starts a (by_segments (q ∷ qs)) s
unfolding by_segments has_prefix same_bytes
by_segments-byte a q [] [] = refl
by_segments-byte a q [] (c ∷ s) = refl
by_segments-byte a q (h ∷ qs) [] = refl
by_segments-byte a q (h ∷ qs) (c ∷ s) = ground arith

starts-ext :
    (a : ℕ) (f g : Bytes → Bool) (s : Bytes)
    → ((t : Bytes) → f t ≡ g t)
    → starts a f s ≡ starts a g s
starts-ext a f g [] h = refl
starts-ext a f g (c ∷ s) h = ground (arith, h s)

pub wild-by_segments : (p s : Bytes) → wild p s ≡ by_segments (split_star p) s
unfolding wild split_star
wild-by_segments [] [] = unfold by_segments same_bytes in refl
wild-by_segments [] (c ∷ s) = unfold by_segments same_bytes in refl
wild-by_segments (a ∷ p) s =
    let (q, qs, e) = split_star-cons p in
    elim (Bool-cases (a == star)) [
      | inl f ↦ rw f (
          any_suffix-ext (wild p) (by_segments (split_star p)) s (wild-by_segments p)
          ∙ sym (by_segments-star (split_star p) q qs s e))
      | inr f ↦ rw f (
          starts-ext a (wild p) (by_segments (split_star p)) s (wild-by_segments p)
          ∙ rw e (sym (by_segments-byte a q qs s)))
    ]
