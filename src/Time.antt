-- ===== src/Time.antt =====
-- Go's `time.Time` and `time.Duration` as integers: nanoseconds since the zero time, and nanoseconds.
-- A sum of durations is an int64 and wraps; an instant has seconds of its own, which do not.
use cadish.Prelude.Int.{ℤ, pos, negsuc, pos_part, neg_part, ltb_ℤ}
use cadish.Prelude.{
  ℕ, ◌+◌, ◌-◌, ◌%◌, ◌<◌, ◌≤◌, ◌≡◌, ◌↔◌, Bool, true, false, ltb, ◌==◌, if◌then◌else◌, arith,
}

abbrev pub Time : Type 0
Time = ℤ

abbrev pub Duration : Type 0
Duration = ℤ

abbrev pub zero_time : Time
zero_time = pos 0

-- `t.IsZero()`
unfoldable pub is_zero : Time → Bool
is_zero (pos n) = n == 0
is_zero (negsuc n) = false

-- `t.Before(u)`
unfoldable pub before : Time → Time → Bool
before t u = ltb_ℤ t u

-- Strictly earlier, as an order.
abbrev pub ◌<ℤ◌ : ℤ → ℤ → Type 0
◌<ℤ◌ a b = pos_part a + neg_part b < pos_part b + neg_part a

pub before_iff : (t u : Time) → (before t u ≡ true) ↔ ◌<ℤ◌ t u
unfolding before
before_iff t u = ground arith

-- 2^63
abbrev pub half_words : ℕ
half_words = 9_223_372_036_854_775_808

-- The 64 bits of an integer, as a number below 2^64.
abbrev low_bits : ℤ → ℕ
low_bits (pos n) = n % (half_words + half_words)
low_bits (negsuc n) = half_words + half_words - 1 - n % (half_words + half_words)

-- What an int64 makes of a result.
unfoldable pub int64 : ℤ → ℤ
int64 z =
    let n = low_bits z in
    if ltb n half_words then pos n else negsuc (half_words + half_words - 1 - n)

-- The integers that an int64 holds.
abbrev pub Fits : ℤ → Type 0
Fits z = (pos_part z < half_words) × (neg_part z ≤ half_words)

pub int64_id : (z : ℤ) → Fits z → int64 z ≡ z
unfolding int64
int64_id (pos n) (h, _) = ground arith
int64_id (negsuc n) (_, h) = ground arith
