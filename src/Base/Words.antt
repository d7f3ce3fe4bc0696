-- ===== src/Base/Words.antt =====
-- `uint64_t` and `size_t`: numbers below 2 ^ 64, with the wrap-around of sums written out.
use hmsdk.Base.{ℕ, ◌+◌, ◌-◌, ◌^◌, ◌%◌}

abbrev pub u64_mod : ℕ
u64_mod = 2 ^ 64

abbrev pub add_u64 : ℕ → ℕ → ℕ
add_u64 a b = (a + b) % u64_mod

-- `a - b`, for `b` below the modulus.
abbrev pub sub_u64 : ℕ → ℕ → ℕ
sub_u64 a b = (a + u64_mod - b) % u64_mod
