-- ===== src/Tests/Range.antt =====
-- internal/server/range.go: a range, a suffix, and headers that are refused, on an object of 1000 bytes.
use cadish.Prelude.Bytes.{Bytes, contains_byte}
use cadish.Prelude.Int.{pos, ◌+ℤ◌, ◌-ℤ◌}
use cadish.Prelude.{◌≡◌, refl, [], ◌∷◌, ◌++◌, arith}
use cadish.Server.Range.{
  HttpRange, range, invalid, unsatisfiable, bytes_unit, parse_single_range, content_range,
}
use cadish.Server.Range.Bounds.{Fits, parse_single_range-Fits}
use cadish.Server.Range.Forms.{between, render, satisfy, parse_single_range-render}

-- "bytes= 10 - 20 "
abbrev spaced : Bytes
spaced = bytes_unit ++ (32 ∷ 49 ∷ 48 ∷ 32 ∷ 45 ∷ 32 ∷ 50 ∷ 48 ∷ 32 ∷ [])

abbrev eleven : HttpRange
eleven = record { start = pos 10; length = pos 11 }

spaces_pass : parse_single_range spaced (pos 1000) ≡ range eleven
unfolding parse_single_range contains_byte ◌+ℤ◌ ◌-ℤ◌
spaces_pass = refl

-- "bytes 10-20/1000"
content_range_text :
    content_range eleven (pos 1000)
    ≡ 98 ∷ 121 ∷ 116 ∷ 101 ∷ 115 ∷ 32 ∷ 49 ∷ 48 ∷ 45 ∷ 50 ∷ 48 ∷ 47 ∷ 49 ∷ 48 ∷ 48 ∷ 48 ∷ []
unfolding content_range ◌+ℤ◌ ◌-ℤ◌
content_range_text = refl

-- "bytes=1-2,4-5" and "bytes=a-"
several_refused :
    parse_single_range (bytes_unit ++ (49 ∷ 45 ∷ 50 ∷ 44 ∷ 52 ∷ 45 ∷ 53 ∷ [])) (pos 1000) ≡ invalid
unfolding parse_single_range contains_byte ◌+ℤ◌ ◌-ℤ◌
several_refused = refl

letters_refused : parse_single_range (bytes_unit ++ (97 ∷ 45 ∷ [])) (pos 1000) ≡ invalid
unfolding parse_single_range contains_byte ◌+ℤ◌ ◌-ℤ◌
letters_refused = refl

-- A suffix with a sign: "bytes=--5".
negative_suffix : parse_single_range (bytes_unit ++ (45 ∷ 45 ∷ 53 ∷ [])) (pos 1000) ≡ unsatisfiable
unfolding parse_single_range contains_byte ◌+ℤ◌ ◌-ℤ◌
negative_suffix = refl

parse_single_range-Fits_example : Fits (pos 1000) eleven
parse_single_range-Fits_example = parse_single_range-Fits spaced (pos 1000) eleven spaces_pass

parse_single_range-render_example :
    parse_single_range (render (between 990 2000)) (pos 1000) ≡ satisfy (between 990 2000) 1000
parse_single_range-render_example =
    parse_single_range-render (between 990 2000) 1000 (omega arith, omega arith)
