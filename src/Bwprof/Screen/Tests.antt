-- ===== src/Bwprof/Screen/Tests.antt =====
-- What is shown of the sample statistics.
use hmsdk.Base.{◌≡◌, arith, All, length}
use hmsdk.Base.Decimal.{to_decimal}
use hmsdk.Bwprof.Screen.{formatted_lines}
use hmsdk.Bwprof.Screen.Alignment.{Fits, length-formatted_lines}
use hmsdk.Bwprof.Sample.{whole_double, sample_stats}

sample_stats-Fits : Fits sample_stats
unfolding to_decimal
sample_stats-Fits = record {
  widths = omega arith;
  size_widths = omega arith;
  ratio_widths = omega arith;
}

length-formatted_lines_example : All (λ line. length line ≡ 69) (formatted_lines 1 sample_stats)
length-formatted_lines_example =
    length-formatted_lines 1 sample_stats (omega arith) sample_stats-Fits
