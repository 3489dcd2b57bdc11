-- ===== src/Server/Range.antt =====
-- A Range header against a known size: internal/server/range.go. The header is its code points.
pub mod Decimal
pub mod Bounds
pub mod Forms
use cadish.Prelude.Bytes.{Bytes, is_empty, has_prefix, contains_byte}
use cadish.Prelude.Int.{ℤ, pos, negsuc, ◌+ℤ◌, ◌-ℤ◌, leb_ℤ, ltb_ℤ}
use cadish.Prelude.{
  ℕ, zero, suc, ◌+◌, ◌-◌, ◌*◌, ◌/◌, ◌%◌, Bool, true, false, not, ◌&&◌, ◌||◌, List, [], ◌∷◌, ◌++◌,
  Option, none, some, ltb, leb, ◌==◌, drop, if◌then◌else◌,
}

pub record HttpRange : Type 0 where
  pub start : ℤ
  pub length : ℤ

-- A resolved range, `errInvalidRange` or `errUnsatisfiableRange`.
pub data Parsed : Type 0 where
  range : HttpRange → Parsed
  invalid unsatisfiable : Parsed

-- `unicode.IsSpace`
unfoldable pub is_space : ℕ → Bool
is_space c =
    leb 9 c && leb c 13
    || c == 32
    || c == 0x85
    || c == 0xa0
    || c == 0x1680
    || leb 0x2000 c && leb c 0x200a
    || c == 0x2028
    || c == 0x2029
    || c == 0x202f
    || c == 0x205f
    || c == 0x3000

unfoldable pub trim_left : Bytes → Bytes
unfolding is_space
trim_left [] = []
trim_left (c ∷ s) = let rest = trim_left s in if is_space c then rest else c ∷ s

unfoldable pub trim_right : Bytes → Bytes
unfolding is_space
trim_right [] = []
trim_right (c ∷ s) = let rest = trim_right s in if is_space c && is_empty rest then [] else c ∷ rest

-- `strings.TrimSpace`
unfoldable pub trim_space : Bytes → Bytes
unfolding trim_left trim_right
trim_space s = trim_right (trim_left s)

-- The value of digits behind the ones read.
unfoldable pub digits : ℕ → Bytes → Option ℕ
digits n [] = some n
digits n (c ∷ s) =
    let rest = digits (n * 10 + (c - 48)) s in if leb 48 c && leb c 57 then rest else none

abbrev pub max_int64 : ℕ
max_int64 = 9223372036854775807

abbrev pub non_negative : Bytes → Option ℤ
non_negative s =
    if is_empty s
    then none
    else elim (digits 0 s) [ none ↦ none | some n ↦ if leb n max_int64 then some (pos n) else none ]

abbrev pub negative : Bytes → Option ℤ
negative s = if is_empty s then none else elim (digits 0 s) [
  | none ↦ none
  | some n ↦ if leb n (suc max_int64) then some (pos 0 -ℤ pos n) else none
]

-- `strconv.ParseInt(s, 10, 64)`, `none` for its errors.
unfoldable pub parse_int : Bytes → Option ℤ
unfolding digits
parse_int [] = none
parse_int (c ∷ s) =
    if c == 43 then non_negative s else if c == 45 then negative s else non_negative (c ∷ s)

-- What stands before and after the first dash.
unfoldable pub cut_dash : Bytes → Option (Bytes × Bytes)
cut_dash [] = none
cut_dash (c ∷ s) = elim (c == 45) [
  | true ↦ some ([], s)
  | false ↦ elim (cut_dash s) [ none ↦ none | some (a, b) ↦ some (c ∷ a, b) ]
]

-- "bytes="
abbrev pub bytes_unit : Bytes
bytes_unit = 98 ∷ 121 ∷ 116 ∷ 101 ∷ 115 ∷ 61 ∷ []

-- The last `n` bytes.
abbrev pub last_of : ℤ → ℤ → Parsed
last_of n size =
    if leb_ℤ n (pos 0)
    then unsatisfiable
    else (let k = (if ltb_ℤ size n then size else n) in
        range (record { start = size -ℤ k; length = k }))

unfoldable pub suffix_range : Bytes → ℤ → Parsed
unfolding parse_int
suffix_range end_str size = elim (parse_int end_str) [ none ↦ invalid | some n ↦ last_of n size ]

abbrev pub up_to : ℤ → ℤ → Parsed
up_to start end = range (record { start = start; length = (end -ℤ start) +ℤ pos 1 })

abbrev pub between_of : ℤ → ℤ → ℤ → Parsed
between_of start end size =
    if ltb_ℤ end start
    then unsatisfiable
    else if leb_ℤ size end
    then up_to start (size -ℤ pos 1)
    else up_to start end

-- The end of a range with a start.
unfoldable pub end_range : ℤ → Bytes → ℤ → Parsed
unfolding parse_int
end_range start end_str size =
    if is_empty end_str
    then up_to start (size -ℤ pos 1)
    else elim (parse_int end_str) [ none ↦ invalid | some end ↦ between_of start end size ]

unfoldable pub start_range : Bytes → Bytes → ℤ → Parsed
unfolding parse_int end_range
start_range start_str end_str size = elim (parse_int start_str) [
  | none ↦ invalid
  | some start ↦
      if ltb_ℤ start (pos 0)
      then invalid
      else if leb_ℤ size start
      then unsatisfiable
      else end_range start end_str size
]

unfoldable pub spec_range : Bytes → ℤ → Parsed
unfolding trim_space cut_dash suffix_range start_range
spec_range spec size =
    if is_empty spec || contains_byte 44 spec then invalid else elim (cut_dash spec) [
      | none ↦ invalid
      | some (a, b) ↦
          if is_empty (trim_space a)
          then suffix_range (trim_space b) size
          else start_range (trim_space a) (trim_space b) size
    ]

-- `parseSingleRange`
unfoldable pub parse_single_range : Bytes → ℤ → Parsed
unfolding has_prefix trim_space spec_range
parse_single_range header size =
    if leb_ℤ size (pos 0)
    then unsatisfiable
    else if not (has_prefix bytes_unit header)
    then invalid
    else spec_range (trim_space (drop 6 header)) size

-- `strconv.FormatInt`, on a number that is not negative. A number has fewer digits than it counts.
unfoldable pub decimal_from : ℕ → ℕ → Bytes
decimal_from zero n = []
decimal_from (suc f) n =
    let rest = decimal_from f (n / 10) in
    if ltb n 10 then (48 + n) ∷ [] else rest ++ ((48 + n % 10) ∷ [])

unfoldable pub decimal : ℕ → Bytes
unfolding decimal_from
decimal n = decimal_from (suc n) n

unfoldable pub format_int : ℤ → Bytes
unfolding decimal
format_int (pos n) = decimal n
format_int (negsuc n) = 45 ∷ decimal (suc n)

-- `contentRange`
unfoldable pub content_range : HttpRange → ℤ → Bytes
unfolding format_int
content_range r size =
    (98 ∷ 121 ∷ 116 ∷ 101 ∷ 115 ∷ 32 ∷ [])
    ++ format_int r.start
    ++ (45 ∷ [])
    ++ format_int ((r.start +ℤ r.length) -ℤ pos 1)
    ++ (47 ∷ [])
    ++ format_int size
