-- ===== src/Bwprof/Clock.antt =====
-- `getMonotonicTimestamp`: the timestamp of a line, from the nanoseconds of `steady_clock`.
use hmsdk.Base.{ℕ, ◌^◌, ◌/◌, ◌%◌}
use hmsdk.Bwprof.Double.{Double}

module _ {D : Type 0} ⦃d : Double D⦄ where
  open d use {of_nat, add, div}

  pub monotonic_timestamp : ℕ → D
  monotonic_timestamp now =
      let secs = now / 10 ^ 9 in
      let nanosecs = now % 10 ^ 9 in add (of_nat secs) (div (of_nat nanosecs) (of_nat (10 ^ 9)))
