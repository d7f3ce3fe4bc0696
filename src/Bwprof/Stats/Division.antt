-- ===== src/Bwprof/Stats/Division.antt =====
-- The divisions of `calculate`.
use hmsdk.Base.{ℕ, ◌≡◌, ◌≢◌, inl, inr, false, arith, ◌==◌, Bool-cases}
use hmsdk.Bwprof.Double.{Double}
use hmsdk.Bwprof.Stats.{SocketMemoryData, to_bw, to_size_gb, calculate_ratio, calculate}

-- The same numbers with another division.
abbrev pub with_division : {D : Type 0} → Double D → (D → D → D) → Double D
with_division d quotient = record d { div = quotient }

module _ {D : Type 0} (d : Double D) (quotient : D → D → D)
    (agrees : (x y : D) → d.eq y (d.of_nat 0) ≡ false → quotient x y ≡ d.div x y)
    (of_nat_nonzero : (n : ℕ) → n ≢ 0 → d.eq (d.of_nat n) (d.of_nat 0) ≡ false)
    (seconds_nonzero : (n : ℕ)
      → n ≢ 0
      → d.eq (d.div (d.of_nat n) (d.of_nat 1000)) (d.of_nat 0) ≡ false) where
  to_size_gb_agrees : (n : ℕ) → to_size_gb ⦃d = with_division d quotient⦄ n ≡ to_size_gb ⦃d = d⦄ n
  unfolding to_size_gb
  to_size_gb_agrees n = agrees _ _ (of_nat_nonzero 1_000_000_000 (omega arith))

  calculate_ratio_agrees :
      (x y : D) → calculate_ratio ⦃d = with_division d quotient⦄ x y ≡ calculate_ratio ⦃d = d⦄ x y
  unfolding calculate_ratio
  calculate_ratio_agrees x y = ground (arith, agrees x y)

  to_bw_agrees : (n ms : ℕ) → to_bw ⦃d = with_division d quotient⦄ n ms ≡ to_bw ⦃d = d⦄ n ms
  unfolding to_bw
  to_bw_agrees n ms = elim (Bool-cases (ms == 0)) [
    | inl zero ↦ rw zero
    | inr positive ↦ rw positive (
        rw (
          agrees _ (d.of_nat 1000) (of_nat_nonzero 1000 (omega arith)),
          agrees _ (d.of_nat 1_000_000) (of_nat_nonzero 1_000_000 (omega arith)),
          agrees _ _ (seconds_nonzero ms (ground arith)),
        ))
  ]

  -- `StatsCalculator::calculate` makes no division by zero: with any other division that agrees
  -- with `/` where the divisor is not zero, it returns the same.
  pub calculate_division :
      (now acc : SocketMemoryData) (elapsed : ℕ)
      → calculate ⦃d = with_division d quotient⦄ now acc elapsed ≡ calculate ⦃d = d⦄ now acc elapsed
  unfolding calculate
  calculate_division now acc elapsed =
      simp (to_size_gb_agrees, calculate_ratio_agrees, to_bw_agrees)
