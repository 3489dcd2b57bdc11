-- ===== src/Server/Range/Bounds.antt =====
-- Where an accepted range lies in its object: internal/server/range.go.
use mathlib.Core.Path.{subst}
use cadish.Prelude.Bytes.{Bytes, is_empty, has_prefix, contains_byte}
use cadish.Prelude.Int.{ℤ, pos, ◌+ℤ◌, ◌-ℤ◌, ◌≤ℤ◌, leb_ℤ, ltb_ℤ, int_laws, leb_ℤ-false, ltb_ℤ-false}
use cadish.Prelude.{◌≡◌, not, ◌||◌, if_all, option_all, drop}
use cadish.Server.Range.{
  HttpRange, bytes_unit, Parsed, range, trim_space, parse_int, cut_dash, suffix_range, up_to,
  end_range, start_range, spec_range, parse_single_range,
}

-- A byte at least, and none outside the object.
abbrev pub Fits : ℤ → HttpRange → Type 0
Fits size r = (pos 0 ≤ℤ r.start) × (pos 1 ≤ℤ r.length) × (r.start +ℤ r.length ≤ℤ size)

abbrev Inside : ℤ → Parsed → Type 0
Inside size (range r) = Fits size r
Inside size _ = Unit

up_to-Inside :
    (start end size : ℤ)
    → pos 0 ≤ℤ start
    → start ≤ℤ end
    → end +ℤ pos 1 ≤ℤ size
    → Inside size (up_to start end)
up_to-Inside start end size a b c = (a, omega (int_laws, b), omega (int_laws, b, c))

suffix_range-Inside : (e : Bytes) (size : ℤ) → pos 1 ≤ℤ size → Inside size (suffix_range e size)
unfolding suffix_range
suffix_range-Inside e size p = option_all (Inside size) (parse_int e) tt (λ n.
    if_all (Inside size) (leb_ℤ n (pos 0)) (λ l. tt)
      (λ l.
        if_all (λ k. Inside size (range (record { start = size -ℤ k; length = k }))) (ltb_ℤ size n)
          (λ o. (omega int_laws, p, omega int_laws))
          (λ o. (
            omega (int_laws, ltb_ℤ-false size n o),
            omega (int_laws, leb_ℤ-false n (pos 0) l),
            omega int_laws,
          ))))

end_range-Inside :
    (start : ℤ) (e : Bytes) (size : ℤ)
    → pos 0 ≤ℤ start
    → start +ℤ pos 1 ≤ℤ size
    → Inside size (end_range start e size)
unfolding end_range
end_range-Inside start e size a b =
    let whole : Inside size (up_to start (size -ℤ pos 1)) =
      up_to-Inside start (size -ℤ pos 1) size a (omega int_laws) (omega int_laws) in
    if_all (Inside size) (is_empty e) (λ l. whole)
      (λ l. option_all (Inside size) (parse_int e) tt (λ end.
        if_all (Inside size) (ltb_ℤ end start) (λ o. tt)
          (λ o.
            if_all (Inside size) (leb_ℤ size end) (λ p. whole)
              (λ p.
                up_to-Inside start end size a (ltb_ℤ-false end start o) (leb_ℤ-false size end p)))))

start_range-Inside : (s e : Bytes) (size : ℤ) → pos 1 ≤ℤ size → Inside size (start_range s e size)
unfolding start_range
start_range-Inside s e size p = option_all (Inside size) (parse_int s) tt (λ start.
    if_all (Inside size) (ltb_ℤ start (pos 0)) (λ l. tt)
      (λ l.
        if_all (Inside size) (leb_ℤ size start) (λ o. tt)
          (λ o.
            end_range-Inside start e size (ltb_ℤ-false start (pos 0) l)
              (leb_ℤ-false size start o))))

spec_range-Inside : (spec : Bytes) (size : ℤ) → pos 1 ≤ℤ size → Inside size (spec_range spec size)
unfolding spec_range
spec_range-Inside spec size p =
    if_all (Inside size) (is_empty spec || contains_byte 44 spec) (λ l. tt)
      (λ l. option_all (Inside size) (cut_dash spec) tt (λ ab.
        if_all (Inside size) (is_empty (trim_space ab.0))
          (λ o. suffix_range-Inside (trim_space ab.1) size p)
          (λ o. start_range-Inside (trim_space ab.0) (trim_space ab.1) size p)))

parse_single_range-Inside :
    (header : Bytes) (size : ℤ) → Inside size (parse_single_range header size)
unfolding parse_single_range
parse_single_range-Inside header size =
    if_all (Inside size) (leb_ℤ size (pos 0)) (λ l. tt)
      (λ l.
        if_all (Inside size) (not (has_prefix bytes_unit header)) (λ o. tt)
          (λ o.
            spec_range-Inside (trim_space (drop 6 header)) size
              (omega (int_laws, leb_ℤ-false size (pos 0) l))))

-- For any header and any size, negative ones included: an accepted range has at least one byte, starts
-- at 0 or later and ends inside the object.
pub parse_single_range-Fits :
    (header : Bytes) (size : ℤ) (r : HttpRange)
    → parse_single_range header size ≡ range r
    → Fits size r
parse_single_range-Fits header size r e =
    subst (Inside size) e (parse_single_range-Inside header size)
