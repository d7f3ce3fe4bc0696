-- ===== src/Base/Long.antt =====
-- `atol` and `atoi`, which keep the range of `long` as `strtol` does, and the conversions between
-- `long`, `unsigned long` and `int`.
use hmsdk.Base.{
  ℕ, ◌-◌, ◌^◌, ◌%◌, ◌<◌, ◌≤◌, ◌≡◌, refl, sym, none, some, [], append-nil, arith, Bytes, ltb,
  if◌then◌else◌,
}
use hmsdk.Base.Int.{ℤ, pos, negsuc}
use hmsdk.Base.Decimal.{to_decimal, strtol}
use hmsdk.Base.Decimal.RoundTrip.{strtol-to_decimal}

abbrev clamp_long : ℤ → ℤ
clamp_long (pos n) = if ltb n (2 ^ 63) then pos n else pos (2 ^ 63 - 1)
clamp_long (negsuc n) = if ltb n (2 ^ 63) then negsuc n else negsuc (2 ^ 63 - 1)

unfoldable pub atol : Bytes → ℤ
atol s = elim (strtol s) [ none ↦ pos 0 | some z ↦ clamp_long z ]

abbrev pub as_u64 : ℤ → ℕ
as_u64 (pos n) = n % 2 ^ 64
as_u64 (negsuc n) = 2 ^ 64 - 1 - n % 2 ^ 64

-- The `int` with these low 32 bits.
abbrev int_of_word : ℕ → ℤ
int_of_word w = if ltb w (2 ^ 31) then pos w else negsuc (2 ^ 32 - 1 - w)

unfoldable pub atoi : Bytes → ℤ
atoi s = int_of_word (as_u64 (atol s) % 2 ^ 32)

strtol-to_decimal_whole : (n : ℕ) → strtol (to_decimal n) ≡ some (pos n)
strtol-to_decimal_whole n = rw (sym (append-nil (to_decimal n))) (strtol-to_decimal n [] refl)

pub atol-to_decimal : (n : ℕ) → n < 2 ^ 63 → atol (to_decimal n) ≡ pos n
unfolding atol
atol-to_decimal n h = rw (atol, strtol-to_decimal_whole n) (ground arith)

pub atol-to_decimal_clamped : (n : ℕ) → 2 ^ 63 ≤ n → atol (to_decimal n) ≡ pos (2 ^ 63 - 1)
unfolding atol
atol-to_decimal_clamped n h = rw (atol, strtol-to_decimal_whole n) (ground arith)

pub atoi-to_decimal : (n : ℕ) → n < 2 ^ 31 → atoi (to_decimal n) ≡ pos n
unfolding atoi
atoi-to_decimal n h = rw (atoi, atol-to_decimal n (omega arith)) (ground arith)
