-- ===== src/Server/Range/Forms.antt =====
-- The forms of a single range, and what RFC 7233 makes of them: internal/server/range.go.
use cadish.Prelude.Bytes.{Bytes, is_empty, has_prefix, contains_byte}
use cadish.Prelude.Int.{ℤ, pos, ◌+ℤ◌, ◌-ℤ◌, int_laws, eq_of_parts}
use cadish.Prelude.{
  ℕ, zero, suc, ◌-◌, ◌≤◌, ◌<◌, ◌≡◌, refl, sym, ap, ◌∙◌, true, false, ◌&&◌, ◌||◌, [], ◌∷◌, ◌++◌,
  none, some, ltb, leb, ◌==◌, if◌then◌else◌, arith, inl, inr, Bool-cases,
}
use cadish.Server.Range.Decimal.{
  within, IsNumber, decimal-IsNumber, parse_int-IsNumber, trim_space-within, contains_comma,
  within_more, within-append, cut_dash-append,
}
use cadish.Server.Range.{
  Parsed, range, invalid, unsatisfiable, trim_space, max_int64, parse_int, cut_dash, bytes_unit,
  last_of, suffix_range, up_to, between_of, end_range, start_range, spec_range, parse_single_range,
  decimal,
}

-- What a client asks for.
pub data Wanted : Type 0 where
  between : ℕ → ℕ → Wanted
  onward : ℕ → Wanted
  last_bytes : ℕ → Wanted

-- Its header, behind the unit.
unfoldable pub render_spec : Wanted → Bytes
unfolding decimal
render_spec (between a b) = decimal a ++ (45 ∷ decimal b)
render_spec (onward a) = decimal a ++ (45 ∷ [])
render_spec (last_bytes n) = 45 ∷ decimal n

abbrev pub render : Wanted → Bytes
render w = bytes_unit ++ render_spec w

-- Its numbers are numbers of the machine.
abbrev pub InInt64 : Wanted → Type 0
InInt64 (between a b) = (a ≤ max_int64) × (b ≤ max_int64)
InInt64 (onward a) = a ≤ max_int64
InInt64 (last_bytes n) = n ≤ max_int64

abbrev part : ℕ → ℕ → Parsed
part a n = range (record { start = pos a; length = pos n })

-- What an object of `size` bytes gives: the bytes asked for that exist, if there are any.
unfoldable pub satisfy : Wanted → ℕ → Parsed
satisfy (between a b) size =
    if ltb a size && leb a b
    then part a ((if ltb b size then suc b else size) - a)
    else unsatisfiable
satisfy (onward a) size = if ltb a size then part a (size - a) else unsatisfiable
satisfy (last_bytes n) size =
    if n == 0 || size == 0 then unsatisfiable else part (size - n) (if ltb size n then size else n)

-- A tail of the object, and a piece that ends inside it.
up_to_end : (a size : ℕ) → a < size → up_to (pos a) (pos size -ℤ pos 1) ≡ part a (size - a)
up_to_end a size h =
    let e : (pos size -ℤ pos 1) -ℤ pos a +ℤ pos 1 ≡ pos (size - a) =
      eq_of_parts _ _ (omega int_laws) in
    ap (λ k. range (record { start = pos a; length = k })) e

up_to_inside : (a b : ℕ) → a ≤ b → up_to (pos a) (pos b) ≡ part a (suc b - a)
up_to_inside a b h =
    let e : pos b -ℤ pos a +ℤ pos 1 ≡ pos (suc b - a) = eq_of_parts _ _ (omega int_laws) in
    ap (λ k. range (record { start = pos a; length = k })) e

onward_range :
    (a size : ℕ) (s : Bytes)
    → IsNumber a s
    → a ≤ max_int64
    → start_range s [] (pos size) ≡ satisfy (onward a) size
unfolding start_range end_range satisfy
onward_range a size s i h = ground (arith, parse_int-IsNumber a s i h, up_to_end a size)

sub_pos : (a b : ℕ) → b ≤ a → pos a -ℤ pos b ≡ pos (a - b)
sub_pos a b h = eq_of_parts _ _ (omega int_laws)

last_of-pos : (n size : ℕ) → 0 < size → last_of (pos n) (pos size) ≡ satisfy (last_bytes n) size
unfolding satisfy
last_of-pos n size h = ground (arith, sub_pos size n, sub_pos size size)

between_of-pos :
    (a b size : ℕ) → a < size → between_of (pos a) (pos b) (pos size) ≡ satisfy (between a b) size
unfolding satisfy
between_of-pos a b size h = ground (arith, up_to_end a size, up_to_inside a b)

end_range-read :
    (b : ℕ) (start : ℤ) (e : Bytes) (size : ℤ)
    → IsNumber b e
    → b ≤ max_int64
    → end_range start e size ≡ between_of start (pos b) size
unfolding end_range
end_range-read b start e size i h =
    ap
      (λ c.
        if c
        then up_to start (size -ℤ pos 1)
        else elim (parse_int e) [ none ↦ invalid | some n ↦ between_of start n size ])
      i.some_digit
    ∙ ap (λ o. elim o [ none ↦ invalid | some n ↦ between_of start n size ])
        (parse_int-IsNumber b e i h)

start_range-read :
    (a : ℕ) (s e : Bytes) (size : ℕ)
    → IsNumber a s
    → a ≤ max_int64
    → start_range s e (pos size)
      ≡ (if ltb a size then end_range (pos a) e (pos size) else unsatisfiable)
unfolding start_range
start_range-read a s e size i h = ground (arith, parse_int-IsNumber a s i h)

between_range :
    (a b size : ℕ) (s e : Bytes)
    → IsNumber a s
    → IsNumber b e
    → InInt64 (between a b)
    → start_range s e (pos size) ≡ satisfy (between a b) size
between_range a b size s e i j (h, k) =
    start_range-read a s e size i h ∙ elim (Bool-cases (ltb a size)) [
      | inl l ↦
          rw l (end_range-read b (pos a) e (pos size) j k ∙ between_of-pos a b size (ground arith))
      | inr l ↦ rw l (unfold satisfy in ground arith)
    ]

last_range :
    (n size : ℕ) (s : Bytes)
    → IsNumber n s
    → n ≤ max_int64
    → 0 < size
    → suffix_range s (pos size) ≡ satisfy (last_bytes n) size
unfolding suffix_range
last_range n size s i h p =
    ap (λ o. elim o [ none ↦ invalid | some k ↦ last_of k (pos size) ]) (parse_int-IsNumber n s i h)
    ∙ last_of-pos n size p

-- Both sides of the dash, as `spec_range` reads them.
abbrev sides : Bytes → Bytes → ℤ → Parsed
sides a b size =
    if is_empty (trim_space a)
    then suffix_range (trim_space b) size
    else start_range (trim_space a) (trim_space b) size

sides-within :
    (a b : Bytes) (size : ℤ)
    → within 45 a ≡ true
    → within 45 b ≡ true
    → sides a b size ≡ (if is_empty a then suffix_range b size else start_range a b size)
sides-within a b size h k = rw (trim_space-within a h, trim_space-within b k) refl

spec_range-cut :
    (spec a b : Bytes) (size : ℤ)
    → is_empty spec ≡ false
    → contains_byte 44 spec ≡ false
    → cut_dash spec ≡ some (a, b)
    → spec_range spec size ≡ sides a b size
unfolding spec_range
spec_range-cut spec a b size h c e =
    rw (h, c) (ap (λ o. elim o [ none ↦ invalid | some ab ↦ sides ab.0 ab.1 size ]) e)

append_full : (s e : Bytes) (c : ℕ) → is_empty (s ++ (c ∷ e)) ≡ false
append_full [] e c = refl
append_full (d ∷ s) e c = refl

dash-within :
    (s e : Bytes) → within 45 s ≡ true → within 45 e ≡ true → within 45 (s ++ (45 ∷ e)) ≡ true
dash-within s e h k = within-append 45 s (45 ∷ e) h (unfold within in ground (arith, k))

spec_range-dash :
    (s e : Bytes) (size : ℤ)
    → within 48 s ≡ true
    → within 45 e ≡ true
    → spec_range (s ++ (45 ∷ e)) size
      ≡ (if is_empty s then suffix_range e size else start_range s e size)
spec_range-dash s e size h k =
    let t : within 45 s ≡ true = within_more s h in
    spec_range-cut (s ++ (45 ∷ e)) s e size (append_full s e 45)
      (contains_comma (s ++ (45 ∷ e)) (dash-within s e t k)) (cut_dash-append s e h)
    ∙ sides-within s e size t k

-- The rendered numbers of a form are what the parser reads.
decimal-within : (n : ℕ) → within 45 (decimal n) ≡ true
decimal-within n =
    within_more (decimal n) (let i : IsNumber n (decimal n) = decimal-IsNumber n in i.all_digits)

render_spec-within : (w : Wanted) → within 45 (render_spec w) ≡ true
unfolding render_spec
render_spec-within (between a b) =
    dash-within (decimal a) (decimal b) (decimal-within a) (decimal-within b)
render_spec-within (onward a) =
    dash-within (decimal a) [] (decimal-within a) (unfold within in refl)
render_spec-within (last_bytes n) =
    dash-within [] (decimal n) (unfold within in refl) (decimal-within n)

spec_range-render :
    (w : Wanted) (size : ℕ)
    → InInt64 w
    → 0 < size
    → spec_range (render_spec w) (pos size) ≡ satisfy w size
unfolding render_spec
spec_range-render (between a b) size h p =
    let i : IsNumber a (decimal a) = decimal-IsNumber a in
    let j : IsNumber b (decimal b) = decimal-IsNumber b in
    spec_range-dash (decimal a) (decimal b) (pos size) i.all_digits
      (within_more (decimal b) j.all_digits)
    ∙ rw i.some_digit (between_range a b size (decimal a) (decimal b) i j h)
spec_range-render (onward a) size h p =
    let i : IsNumber a (decimal a) = decimal-IsNumber a in
    spec_range-dash (decimal a) [] (pos size) i.all_digits (unfold within in refl)
    ∙ rw i.some_digit (onward_range a size (decimal a) i h)
spec_range-render (last_bytes n) size h p =
    let i : IsNumber n (decimal n) = decimal-IsNumber n in
    spec_range-dash [] (decimal n) (pos size) (unfold within in refl)
      (within_more (decimal n) i.all_digits)
    ∙ last_range n size (decimal n) i h p

parse_prefixed :
    (spec : Bytes) (size : ℕ)
    → 0 < size
    → parse_single_range (bytes_unit ++ spec) (pos size) ≡ spec_range (trim_space spec) (pos size)
unfolding parse_single_range has_prefix
parse_prefixed spec size h = ground arith

parse_nothing : (header : Bytes) → parse_single_range header (pos 0) ≡ unsatisfiable
unfolding parse_single_range
parse_nothing header = refl

satisfy_none : (w : Wanted) → satisfy w 0 ≡ unsatisfiable
unfolding satisfy
satisfy_none (between a b) = ground arith
satisfy_none (onward a) = ground arith
satisfy_none (last_bytes n) = ground arith

-- The three forms of a range, printed with numbers below 2^63 and parsed against an object of any
-- size: the bytes asked for that exist, or a 416 when there is none.
pub parse_single_range-render :
    (w : Wanted) (size : ℕ) → InInt64 w → parse_single_range (render w) (pos size) ≡ satisfy w size
parse_single_range-render w zero h = parse_nothing (render w) ∙ sym (satisfy_none w)
parse_single_range-render w (suc n) h =
    parse_prefixed (render_spec w) (suc n) (omega arith)
    ∙ rw (trim_space-within (render_spec w) (render_spec-within w))
        (spec_range-render w (suc n) h (omega arith))
