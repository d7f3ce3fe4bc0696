-- ===== src/Bwprof/Sample.antt =====
-- Whole numbers as `double`s and a small machine as PCM, to run the code and its theorems on.
use hmsdk.Base.{
  ℕ, ◌^◌, leb, zero, suc, ◌+◌, ◌-◌, ◌*◌, ◌/◌, ◌%◌, ◌≡◌, refl, sym, ◌≢◌, false, Option, none, some,
  [], ◌∷◌, ◌++◌, arith, Bytes, Lacks, All-append, replicate, ◌==◌, if◌then◌else◌,
}
use hmsdk.Base.Words.{u64_mod}
use hmsdk.Base.Int.{pos}
use hmsdk.Base.Decimal.{to_decimal, read_digits, starts_with_digit, is_digit}
use hmsdk.Base.Decimal.RoundTrip.{
  read_digits-to_decimal, starts_with_digit-to_decimal, Lacks-to_decimal,
}
use hmsdk.Bwprof.Config.{Config, default_config, record_mode}
use hmsdk.Bwprof.Double.{Double, IsPrinted, Signed}
use hmsdk.Bwprof.Stats.{BwStats}
use hmsdk.Bwprof.Pcm.{Pcm, IsCounting}

abbrev pub whole_fixed : ℕ → ℕ → Bytes
whole_fixed n x = to_decimal x ++ (b'.' ∷ replicate n b'0')

abbrev pub whole_stod : Bytes → Option ℕ
whole_stod s = if starts_with_digit s then some (read_digits 0 s) else none

instance abbrev pub whole_double : Double ℕ
whole_double = record {
  of_nat = λ n. n;
  add = λ a b. a + b;
  mul = λ a b. a * b;
  div = λ a b. a / b;
  eq = λ a b. a == b;
  fixed = whole_fixed;
  stod = whole_stod;
}

-- Words, in two's complement.
abbrev pub word_signed : Signed ℕ
word_signed = record {
  sub = λ a b. (a + (2 ^ 64 - b)) % 2 ^ 64;
  is_negative = λ a. leb (2 ^ 63) a;
  minus_one = 2 ^ 64 - 1;
}

pub whole_fixed-ne-nil : (n x : ℕ) → whole_fixed n x ≢ []
whole_fixed-ne-nil n x e =
    let digit = starts_with_digit-to_decimal x (b'.' ∷ replicate n b'0') in cc (rw e at digit)

Lacks-zeros : (c n : ℕ) → c ≢ b'0' → Lacks c (replicate n b'0')
Lacks-zeros c zero h = tt
Lacks-zeros c (suc n) h = (λ e. h (sym e), Lacks-zeros c n h)

pub Lacks-whole_fixed :
    (c n x : ℕ) → is_digit c ≡ false → c ≢ b'0' → c ≢ b'.' → Lacks c (whole_fixed n x)
Lacks-whole_fixed c n x digit h k =
    All-append _ (to_decimal x) _ (Lacks-to_decimal c x digit) (λ e. k (sym e), Lacks-zeros c n h)

pub whole_stod-fixed : (n x : ℕ) → whole_stod (whole_fixed n x) ≡ some x
whole_stod-fixed n x = rw (
  starts_with_digit-to_decimal x (b'.' ∷ replicate n b'0'),
  read_digits-to_decimal x (b'.' ∷ replicate n b'0') refl,
)

abbrev pub whole-IsPrinted : IsPrinted ℕ
whole-IsPrinted = record {
  rounded = λ n x. x;
  fixed-ne-nil = whole_fixed-ne-nil;
  fixed_no_comma = λ n x. Lacks-whole_fixed b',' n x refl (omega arith) (omega arith);
  fixed_no_newline = λ n x. Lacks-whole_fixed b'\n' n x refl (omega arith) (omega arith);
  stod-fixed = whole_stod-fixed;
}

abbrev pub difference : ℕ → ℕ → ℕ
difference prev curr = (curr + (u64_mod - prev % u64_mod)) % u64_mod

-- Two sockets with two channels and six CXL ports. A state is one number, which every counter of
-- the socket shows.
abbrev pub small_pcm : Pcm ℕ
small_pcm = record {
  max_channels = 2;
  gnr = 173;
  gnr_d = 174;
  grr = 182;
  srf = 175;
  cpu_family_model = 173;
  num_sockets = 2;
  num_cxl_ports = λ _. 6;
  get_mc_counter = λ _ _ prev curr. difference prev curr;
  get_cxlcm_counter = λ _ prev curr. difference prev curr;
  get_cxldp_counter = λ _ prev curr. difference prev curr;
}

pub difference-add : (prev curr : ℕ) → (difference prev curr + prev) % u64_mod ≡ curr % u64_mod
difference-add prev curr = omega arith

abbrev pub small_pcm-IsCounting : IsCounting small_pcm
small_pcm-IsCounting = record {
  mc = λ _ _ st. st;
  cxlcm = λ _ st. st;
  cxldp = λ _ st. st;
  mc_difference = λ _ _ prev curr. difference-add prev curr;
  cxlcm_difference = λ _ prev curr. difference-add prev curr;
  cxldp_difference = λ _ prev curr. difference-add prev curr;
}

-- `bwprof record` of socket 1.
abbrev pub record_config : Config
record_config = record default_config { command = record_mode; socket = pos 1 }

abbrev pub sample_stats : BwStats ℕ
sample_stats = record {
  dram_read_bw = 10;
  dram_write_bw = 20;
  dram_total_bw = 30;
  cxl_read_bw = 4;
  cxl_write_bw = 5;
  cxl_total_bw = 9;
  dram_read_sz = 0;
  dram_write_sz = 0;
  dram_total_sz = 0;
  cxl_read_sz = 0;
  cxl_write_sz = 0;
  cxl_total_sz = 0;
  dram_read_ratio = 0;
  dram_write_ratio = 0;
  cxl_read_ratio = 0;
  cxl_write_ratio = 0;
  dram_ratio = 0;
  cxl_ratio = 0;
}

-- Fractions, in which `div` is exact.
abbrev pub fraction_double : Double (ℕ × ℕ)
fraction_double = record {
  of_nat = λ n. (n, 1);
  add = λ x y. (x.0 * y.1 + y.0 * x.1, x.1 * y.1);
  mul = λ x y. (x.0 * y.0, x.1 * y.1);
  div = λ x y. (x.0 * y.1, x.1 * y.0);
  eq = λ x y. x.0 * y.1 == y.0 * x.1;
  fixed = λ n x. whole_fixed n (x.0 / x.1);
  stod = λ s. if starts_with_digit s then some (read_digits 0 s, 1) else none;
}

-- Division that gives 7 where the divisor is zero.
abbrev pub other_division : ℕ × ℕ → ℕ × ℕ → ℕ × ℕ
other_division x y = if fraction_double.eq y (0, 1) then (7, 1) else fraction_double.div x y
