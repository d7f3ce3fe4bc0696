-- ===== src/Bwprof/Stats.antt =====
-- `SocketMemoryData`, `BWStats`, `StatsCalculator` and the conversions of `namespace utils`.
pub mod Division
use hmsdk.Base.{ℕ, ◌==◌, if◌then◌else◌}
use hmsdk.Base.Words.{add_u64}
use hmsdk.Bwprof.Double.{Double}

pub record SocketMemoryData : Type 0 where
  pub reads : ℕ
  pub writes : ℕ
  pub cxl_reads : ℕ
  pub cxl_writes : ℕ

-- `reset`, and the default member initialisers
abbrev pub zero_data : SocketMemoryData
zero_data = record { reads = 0; writes = 0; cxl_reads = 0; cxl_writes = 0 }

unfoldable pub accumulate : SocketMemoryData → SocketMemoryData → SocketMemoryData
accumulate d other = record {
  reads = add_u64 d.reads other.reads;
  writes = add_u64 d.writes other.writes;
  cxl_reads = add_u64 d.cxl_reads other.cxl_reads;
  cxl_writes = add_u64 d.cxl_writes other.cxl_writes;
}

pub record BwStats (D : Type 0) : Type 0 where
  pub dram_read_bw : D
  pub dram_write_bw : D
  pub dram_total_bw : D
  pub cxl_read_bw : D
  pub cxl_write_bw : D
  pub cxl_total_bw : D
  pub dram_read_sz : D
  pub dram_write_sz : D
  pub dram_total_sz : D
  pub cxl_read_sz : D
  pub cxl_write_sz : D
  pub cxl_total_sz : D
  pub dram_read_ratio : D
  pub dram_write_ratio : D
  pub cxl_read_ratio : D
  pub cxl_write_ratio : D
  pub dram_ratio : D
  pub cxl_ratio : D

module _ {D : Type 0} ⦃d : Double D⦄ where
  open d use {of_nat, add, mul, div, eq}

  unfoldable pub to_bw : ℕ → ℕ → D
  to_bw events elapsed_ms =
      if elapsed_ms == 0
      then of_nat 0
      else div (div (mul (of_nat events) (of_nat 64)) (of_nat 1_000_000))
          (div (of_nat elapsed_ms) (of_nat 1000))

  unfoldable pub to_size_gb : ℕ → D
  to_size_gb events = div (mul (of_nat events) (of_nat 64)) (of_nat 1_000_000_000)

  unfoldable pub calculate_ratio : D → D → D
  calculate_ratio numerator denominator =
      if eq denominator (of_nat 0) then of_nat 0 else mul (div numerator denominator) (of_nat 100)

  -- The totals and ratios that `calculate` and `printReport` compute alike, from the bandwidths
  -- (reads, writes, total) and the sizes (reads, writes) of DRAM and CXL.
  unfoldable pub from_sizes :
      (dr dw dt cr cw ct : D) (dram_rd dram_wr cxl_rd cxl_wr : D) → BwStats D
  unfolding calculate_ratio
  from_sizes dr dw dt cr cw ct dram_rd dram_wr cxl_rd cxl_wr =
      let dram_total = add dram_rd dram_wr in
      let cxl_total = add cxl_rd cxl_wr in
      let total = add dram_total cxl_total in
      record {
        dram_read_bw = dr;
        dram_write_bw = dw;
        dram_total_bw = dt;
        cxl_read_bw = cr;
        cxl_write_bw = cw;
        cxl_total_bw = ct;
        dram_read_sz = dram_rd;
        dram_write_sz = dram_wr;
        dram_total_sz = dram_total;
        cxl_read_sz = cxl_rd;
        cxl_write_sz = cxl_wr;
        cxl_total_sz = cxl_total;
        dram_read_ratio = calculate_ratio dram_rd dram_total;
        dram_write_ratio = calculate_ratio dram_wr dram_total;
        cxl_read_ratio = calculate_ratio cxl_rd cxl_total;
        cxl_write_ratio = calculate_ratio cxl_wr cxl_total;
        dram_ratio = calculate_ratio dram_total total;
        cxl_ratio = calculate_ratio cxl_total total;
      }

  unfoldable pub calculate : SocketMemoryData → SocketMemoryData → ℕ → BwStats D
  unfolding from_sizes to_bw to_size_gb
  calculate now acc elapsed =
      let dr = to_bw now.reads elapsed in
      let dw = to_bw now.writes elapsed in
      let cr = to_bw now.cxl_reads elapsed in
      let cw = to_bw now.cxl_writes elapsed in
      from_sizes dr dw (add dr dw) cr cw (add cr cw) (to_size_gb acc.reads) (to_size_gb acc.writes)
        (to_size_gb acc.cxl_reads) (to_size_gb acc.cxl_writes)
