-- ===== src/Pipeline/Glob/Decides.antt =====
-- A compiled pattern beside what it means: internal/pipeline/glob.go.
use cadish.Pipeline.Glob.{
  star, Glob, split_star, non_empty, compile_glob, init, last, no_parts, match_parts, match_rest,
  match_glob,
}
use cadish.Pipeline.Glob.Segments.{run, in_order-run}
use cadish.Pipeline.Glob.Wild.{wild, in_order, by_segments, split_star-cons, wild-by_segments}
use cadish.Prelude.Bytes.{
  Bytes, is_empty, any_suffix, has_prefix, has_suffix, same_bytes, contains_byte,
}
use cadish.Prelude.{
  ℕ, ◌≡◌, refl, sym, ap, ◌∙◌, Bool, true, false, List, [], ◌∷◌, ◌==◌, length, drop, arith, inl, inr,
  Bool-cases,
}

split_at : (c : ℕ) (p : Bytes) → c == star ≡ true → split_star (c ∷ p) ≡ [] ∷ split_star p
unfolding split_star
split_at c p h = ground arith

split_on :
    (c : ℕ) (p q : Bytes) (qs : List Bytes)
    → c == star ≡ false
    → split_star p ≡ q ∷ qs
    → split_star (c ∷ p) ≡ (c ∷ q) ∷ qs
unfolding split_star
split_on c p q qs h e = ground arith

leading :
    (c : ℕ) (p q : Bytes) (qs : List Bytes)
    → split_star (c ∷ p) ≡ q ∷ qs
    → has_prefix (star ∷ []) (c ∷ p) ≡ is_empty q
unfolding has_prefix
leading c p q qs e =
    let (r, rs, f) = split_star-cons p in
    elim (Bool-cases (c == star)) [
      | inl h ↦ ground (arith, split_at c p h)
      | inr h ↦ ground (arith, split_on c p r rs h f)
    ]

not_blank : (c : ℕ) (p q : Bytes) → split_star (c ∷ p) ≡ q ∷ [] → is_empty q ≡ false
not_blank c p q e =
    let (r, rs, f) = split_star-cons p in
    elim (Bool-cases (c == star)) [
      | inl h ↦ ground (arith, split_at c p h)
      | inr h ↦ ground (arith, split_on c p r rs h f)
    ]

pub suffix_step :
    (c d : ℕ) (p : Bytes) → has_suffix (star ∷ []) (c ∷ d ∷ p) ≡ has_suffix (star ∷ []) (d ∷ p)
unfolding has_suffix any_suffix same_bytes
suffix_step c d p = ground arith

last_longer :
    (c : ℕ) (r : Bytes) (rs : List Bytes)
    → (rs ≡ [] → is_empty r ≡ false)
    → is_empty (last (r ∷ rs)) ≡ is_empty (last ((c ∷ r) ∷ rs))
unfolding last
last_longer c r [] h = h refl
last_longer c r (k ∷ rs) h = refl

trailing :
    (c : ℕ) (p : Bytes) → has_suffix (star ∷ []) (c ∷ p) ≡ is_empty (last (split_star (c ∷ p)))
unfolding last
trailing c [] = unfold split_star has_suffix any_suffix same_bytes in ground arith
trailing c (d ∷ p) =
    let (r, rs, f) = split_star-cons (d ∷ p) in
    suffix_step c d p ∙ trailing d p ∙ elim (Bool-cases (c == star)) [
      | inl h ↦ rw (split_at c (d ∷ p) h, f) refl
      | inr h ↦
          rw (split_on c (d ∷ p) r rs h f, f)
            (last_longer c r rs (λ e. not_blank d p r (f ∙ ap (λ l. r ∷ l) e)))
    ]

-- The anchor at the end, seen on the segments.
anchor_open :
    (g : Bytes) (gs : List Bytes)
    → is_empty (last (g ∷ gs)) ≡ true
    → non_empty (g ∷ gs) ≡ non_empty (init (g ∷ gs))
unfolding non_empty init last
anchor_open g [] h = ground arith
anchor_open g (k ∷ gs) h = ground (arith, anchor_open k gs h)

-- Parts with a last one.
record Anchored (parts before : List Bytes) (end : Bytes) : Type 0 where
  some_parts : no_parts parts ≡ false
  before_end : init parts ≡ before
  at_end : last parts ≡ end

anchor_more :
    (g : Bytes) (parts before : List Bytes) (end : Bytes)
    → Anchored parts before end
    → Anchored (g ∷ parts) (g ∷ before) end
unfolding init last
anchor_more g [] before end a = absurd (ground (arith, a.some_parts))
anchor_more g (k ∷ parts) before end a = record {
  some_parts = refl;
  before_end = ap (λ l. g ∷ l) a.before_end;
  at_end = a.at_end;
}

anchor_shut :
    (g : Bytes) (gs : List Bytes)
    → is_empty (last (g ∷ gs)) ≡ false
    → Anchored (non_empty (g ∷ gs)) (non_empty (init (g ∷ gs))) (last (g ∷ gs))
unfolding non_empty init last
anchor_shut [] [] h = cc
anchor_shut (c ∷ g) [] h = record { some_parts = refl; before_end = refl; at_end = refl }
anchor_shut [] (k ∷ gs) h = anchor_shut k gs h
anchor_shut (c ∷ g) (k ∷ gs) h =
    anchor_more (c ∷ g) (non_empty (k ∷ gs)) (non_empty (init (k ∷ gs))) (last (k ∷ gs))
      (anchor_shut k gs h)

rest_open : (parts : List Bytes) (s : Bytes) → match_rest true parts s ≡ run parts [] s
unfolding match_rest
rest_open parts s = refl

run_blank : (parts : List Bytes) (e s : Bytes) → is_empty e ≡ true → run parts e s ≡ run parts [] s
run_blank parts [] s h = refl
run_blank parts (c ∷ e) s h = cc

rest_shut :
    (parts before : List Bytes) (end s : Bytes)
    → Anchored parts before end
    → match_rest false parts s ≡ run before end s
unfolding match_rest
rest_shut [] before end s a = absurd (ground (arith, a.some_parts))
rest_shut (p ∷ ps) before end s a = ground (arith, a.before_end, a.at_end)

-- `match` behind the first anchor, on the segments.
rest-run :
    (g : Bytes) (gs : List Bytes) (s : Bytes)
    → match_rest (is_empty (last (g ∷ gs))) (non_empty (g ∷ gs)) s ≡ in_order (g ∷ gs) s
rest-run g gs s = rw (in_order-run g gs s) (elim (Bool-cases (is_empty (last (g ∷ gs)))) [
  | inl h ↦
      rw (h, anchor_open g gs h)
        (rest_open (non_empty (init (g ∷ gs))) s
          ∙ sym (run_blank (non_empty (init (g ∷ gs))) (last (g ∷ gs)) s h))
  | inr h ↦ rw h (
      rest_shut (non_empty (g ∷ gs)) (non_empty (init (g ∷ gs))) (last (g ∷ gs)) s
        (anchor_shut g gs h))
])

-- A compiled pattern with a star, by its segments.
record Compiled (g : Glob) (q h : Bytes) (gs : List Bytes) : Type 0 where
  leads : g.leading_star ≡ is_empty q
  trails : g.trailing_star ≡ is_empty (last (h ∷ gs))
  its_parts : g.parts ≡ non_empty (q ∷ h ∷ gs)

rest_blank : (b : Bool) (s : Bytes) → match_rest b [] s ≡ true
unfolding match_rest match_parts
rest_blank b s = ground arith

match_led :
    (g : Glob) (s : Bytes)
    → g.leading_star ≡ true
    → match_glob g s ≡ match_rest g.trailing_star g.parts s
unfolding match_glob
match_led g s h = led g.parts
  where
    led :
        (ps : List Bytes) → match_glob (record g { parts = ps }) s ≡ match_rest g.trailing_star ps s
    led [] = sym (rest_blank g.trailing_star s)
    led (p ∷ ps) = rw h refl

match_segments :
    (g : Glob) (q h : Bytes) (gs : List Bytes) (s : Bytes)
    → Compiled g q h gs
    → match_glob g s ≡ by_segments (q ∷ h ∷ gs) s
unfolding by_segments has_prefix
match_segments g [] h gs s c =
    match_led g s c.leads ∙ rw (c.its_parts, c.trails) (unfold non_empty in rest-run h gs s)
match_segments g (b ∷ q) h gs s c =
    unfold match_glob non_empty in
    rw (c.its_parts, c.trails, c.leads) (ground (arith, rest-run h gs (drop (length (b ∷ q)) s)))

-- A text with a star has two segments.
starred :
    (p : Bytes)
    → contains_byte star p ≡ true
    → (q : Bytes) × (h : Bytes) × (gs : List Bytes) × (split_star p ≡ q ∷ h ∷ gs)
unfolding contains_byte
starred [] e = cc
starred (c ∷ p) e = elim (Bool-cases (c == star)) [
  | inl f ↦ let (q, qs, k) = split_star-cons p in ([], q, qs, split_at c p f ∙ ap (λ l. [] ∷ l) k)
  | inr f ↦
      let (q, h, gs, k) = starred p (ground arith) in (c ∷ q, h, gs, split_on c p q (h ∷ gs) f k)
]

starred-Compiled :
    (c : ℕ) (p q h : Bytes) (gs : List Bytes)
    → split_star (c ∷ p) ≡ q ∷ h ∷ gs
    → Compiled (compile_glob (c ∷ p)) q h gs
unfolding compile_glob
starred-Compiled c p q h gs e = record {
  leads = leading c p q (h ∷ gs) e;
  trails = trailing c p ∙ ap (λ l. is_empty (last l)) e ∙ (unfold last in refl);
  its_parts = ap non_empty e;
}

-- A compiled pattern with a star matches the texts that the pattern means.
pub match_glob-wild :
    (p s : Bytes) → contains_byte star p ≡ true → match_glob (compile_glob p) s ≡ wild p s
match_glob-wild [] s h = unfold contains_byte in cc
match_glob-wild (c ∷ p) s h =
    let (q, k, gs, e) = starred (c ∷ p) h in
    match_segments (compile_glob (c ∷ p)) q k gs s (starred-Compiled c p q k gs e)
    ∙ rw (wild-by_segments (c ∷ p) s, e) refl
