-- ===== src/Server/Range/Decimal.antt =====
-- Decimal numbers, written and read back: `strconv.FormatInt` and `strconv.ParseInt` as range.go uses them.
use cadish.Prelude.Bytes.{Bytes, is_empty, contains_byte}
use cadish.Prelude.Int.{pos}
use cadish.Prelude.{
  ℕ, zero, suc, ◌+◌, ◌-◌, ◌*◌, ◌/◌, ◌%◌, ◌≤◌, ◌<◌, ◌≡◌, refl, ap, ◌∙◌, Bool, true, false, ◌&&◌, [],
  ◌∷◌, ◌++◌, some, ltb, leb, arith, inl, inr, Bool-cases,
}
use cadish.Server.Range.{
  is_space, trim_left, trim_right, trim_space, digits, max_int64, parse_int, cut_dash, decimal_from,
  decimal,
}

digits-append : (a b : ℕ) (xs ys : Bytes) → digits a xs ≡ some b → digits a (xs ++ ys) ≡ digits b ys
unfolding digits
digits-append a b [] ys h = ground arith
digits-append a b (c ∷ xs) ys h = ground (arith, digits-append (a * 10 + (c - 48)) b xs ys)

one_digit : (a n : ℕ) → n < 10 → digits a ((48 + n) ∷ []) ≡ some (a * 10 + n)
unfolding digits
one_digit a n h = ground arith

first_digit : (f n : ℕ) → ltb n 10 ≡ true → digits 0 (decimal_from (suc f) n) ≡ some n
unfolding decimal_from
first_digit f n l = rw l (one_digit 0 n (ground arith) ∙ ap some (omega arith))

more_digits :
    (f n : ℕ)
    → ltb n 10 ≡ false
    → digits 0 (decimal_from f (n / 10)) ≡ some (n / 10)
    → digits 0 (decimal_from (suc f) n) ≡ some n
unfolding decimal_from
more_digits f n l e = rw l (
    digits-append 0 (n / 10) (decimal_from f (n / 10)) ((48 + n % 10) ∷ []) e
    ∙ one_digit (n / 10) (n % 10) (omega arith)
    ∙ ap some (omega arith))

digits-decimal_from : (f n : ℕ) → n < f → digits 0 (decimal_from f n) ≡ some n
digits-decimal_from zero n h = absurd (omega arith)
digits-decimal_from (suc f) n h = elim (Bool-cases (ltb n 10)) [
  | inl l ↦ first_digit f n l
  | inr l ↦ more_digits f n l (digits-decimal_from f (n / 10) (ground arith))
]

-- Characters from `lo` to '9'.
unfoldable pub within : ℕ → Bytes → Bool
within lo [] = true
within lo (c ∷ s) = leb lo c && leb c 57 && within lo s

digits-within : (a b : ℕ) (s : Bytes) → digits a s ≡ some b → within 48 s ≡ true
unfolding digits within
digits-within a b [] h = refl
digits-within a b (c ∷ s) h = ground (arith, digits-within (a * 10 + (c - 48)) b s)

-- The text of a number.
pub record IsNumber (n : ℕ) (s : Bytes) : Type 0 where
  pub some_digit : is_empty s ≡ false
  pub its_value : digits 0 s ≡ some n
  pub all_digits : within 48 s ≡ true

append_full : (s : Bytes) (c : ℕ) → is_empty (s ++ (c ∷ [])) ≡ false
append_full [] c = refl
append_full (d ∷ s) c = refl

decimal_full : (f n : ℕ) → is_empty (decimal_from (suc f) n) ≡ false
unfolding decimal_from
decimal_full f n = ground (arith, append_full (decimal_from f (n / 10)) (48 + n % 10))

pub decimal-IsNumber : (n : ℕ) → IsNumber n (decimal n)
unfolding decimal
decimal-IsNumber n =
    let v : digits 0 (decimal_from (suc n) n) ≡ some n =
      digits-decimal_from (suc n) n (omega arith) in
    record {
      some_digit = decimal_full n n;
      its_value = v;
      all_digits = digits-within 0 n (decimal_from (suc n) n) v;
    }

pub parse_int-IsNumber :
    (n : ℕ) (s : Bytes) → IsNumber n s → n ≤ max_int64 → parse_int s ≡ some (pos n)
unfolding parse_int within
parse_int-IsNumber n [] i h = absurd (ground (arith, i.some_digit))
parse_int-IsNumber n (c ∷ s) i h = ground (arith, i.its_value, i.all_digits)

-- Characters from the dash on are no space, and no comma.
not_space : (c : ℕ) → 45 ≤ c → c ≤ 57 → is_space c ≡ false
unfolding is_space
not_space c h k = ground arith

trim_left-within : (s : Bytes) → within 45 s ≡ true → trim_left s ≡ s
unfolding trim_left within
trim_left-within [] h = refl
trim_left-within (c ∷ s) h =
    let sp : is_space c ≡ false = not_space c (ground arith) (ground arith) in rw sp refl

trim_right-within : (s : Bytes) → within 45 s ≡ true → trim_right s ≡ s
unfolding trim_right within
trim_right-within [] h = refl
trim_right-within (c ∷ s) h =
    let sp : is_space c ≡ false = not_space c (ground arith) (ground arith) in
    let rest : trim_right s ≡ s = trim_right-within s (ground arith) in rw (sp, rest) refl

pub trim_space-within : (s : Bytes) → within 45 s ≡ true → trim_space s ≡ s
unfolding trim_space
trim_space-within s h = rw (trim_left-within s h) (trim_right-within s h)

pub contains_comma : (s : Bytes) → within 45 s ≡ true → contains_byte 44 s ≡ false
unfolding contains_byte within
contains_comma [] h = refl
contains_comma (c ∷ s) h = ground (arith, contains_comma s)

pub within_more : (s : Bytes) → within 48 s ≡ true → within 45 s ≡ true
unfolding within
within_more [] h = refl
within_more (c ∷ s) h = ground (arith, within_more s)

pub within-append :
    (lo : ℕ) (xs ys : Bytes)
    → within lo xs ≡ true
    → within lo ys ≡ true
    → within lo (xs ++ ys) ≡ true
unfolding within
within-append lo [] ys h k = k
within-append lo (c ∷ xs) ys h k = ground (arith, within-append lo xs ys)

pub cut_dash-append :
    (xs ys : Bytes) → within 48 xs ≡ true → cut_dash (xs ++ (45 ∷ ys)) ≡ some (xs, ys)
unfolding cut_dash within
cut_dash-append [] ys h = refl
cut_dash-append (c ∷ xs) ys h = ground (arith, cut_dash-append xs ys)
