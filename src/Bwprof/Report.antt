-- ===== src/Bwprof/Report.antt =====
-- `printReport`: the aggregated statistics of a recording, from the text of its bwprof.csv.
pub mod Totals
pub mod Recording
use hmsdk.Base.{
  ℕ, zero, suc, ◌+◌, ◌*◌, ◌/◌, Option, none, some, List, [], ◌∷◌, ◌++◌, map, Bytes, codes, length,
  replicate,
}
use hmsdk.Base.Words.{sub_u64}
use hmsdk.Bwprof.Result.{Result, ok, throw, at, ◌>>=◌}
use hmsdk.Bwprof.Double.{Double}
use hmsdk.Bwprof.Stats.{BwStats, from_sizes}
use hmsdk.Bwprof.Split.{split_string}

pub data Report (D : Type 0) : Type 0 where
  -- "No data found in" the file
  no_data : Bytes → Report D
  -- each socket with the statistics that are printed for it
  sockets : List (ℕ × BwStats D) → Report D

skip_header : List Bytes → List Bytes
skip_header [] = []
skip_header (header ∷ rows) = rows

module _ {D : Type 0} ⦃d : Double D⦄ where
  open d use {of_nat, add, div, stod}

  value_or_zero : Bytes → D
  value_or_zero s = elim (stod s) [ none ↦ of_nat 0 | some x ↦ x ]

  unfoldable pub row_values : Bytes → List D
  unfolding value_or_zero
  row_values line = map value_or_zero (split_string line b',')

  unfoldable pub all_values : Bytes → List (List D)
  unfolding row_values skip_header
  all_values text = map row_values (skip_header (split_string text b'\n'))

  -- `sum_values[col] += row[col]` for every column that both have.
  add_row : List D → List D → List D
  add_row [] row = []
  add_row (s ∷ sums) [] = s ∷ sums
  add_row (s ∷ sums) (x ∷ row) = add s x ∷ add_row sums row

  sum_rows : List D → List (List D) → List D
  unfolding add_row
  sum_rows sums [] = sums
  sum_rows sums (row ∷ rows) = sum_rows (add_row sums row) rows

  average_values : List D → ℕ → List D
  average_values sums num_rows = map (λ s. div s (of_nat num_rows)) sums

  report_socket : List D → List D → ℕ → Result (BwStats D)
  report_socket avg_values sum_values skt = do
    let base_col = 1 + skt * 6
    read_bw ← at avg_values (base_col + 0)
    write_bw ← at avg_values (base_col + 1)
    total_bw ← at avg_values (base_col + 2)
    cxl_read_bw ← at avg_values (base_col + 3)
    cxl_write_bw ← at avg_values (base_col + 4)
    cxl_total_bw ← at avg_values (base_col + 5)
    read_sum ← at sum_values (base_col + 0)
    write_sum ← at sum_values (base_col + 1)
    cxl_read_sum ← at sum_values (base_col + 3)
    cxl_write_sum ← at sum_values (base_col + 4)
    ok (
        from_sizes read_bw write_bw total_bw cxl_read_bw cxl_write_bw cxl_total_bw
          (div read_sum (of_nat 1000)) (div write_sum (of_nat 1000))
          (div cxl_read_sum (of_nat 1000)) (div cxl_write_sum (of_nat 1000)))

  -- The loop over the sockets `skt`, `skt + 1`, … with `left` to go.
  report_sockets : List D → List D → ℕ → ℕ → Result (List (ℕ × BwStats D))
  report_sockets avg_values sum_values zero skt = ok []
  report_sockets avg_values sum_values (suc left) skt = do
    stats ← report_socket avg_values sum_values skt
    rest ← report_sockets avg_values sum_values left (skt + 1)
    ok ((skt, stats) ∷ rest)

  -- The part of the function behind the test for an empty file. `num_columns - 1` is a `size_t`.
  summarize : List D → List (List D) → Result (List (ℕ × BwStats D))
  summarize first more = do
    let num_columns = length first
    let num_rows = suc (length more)
    let sum_values = sum_rows (replicate num_columns (of_nat 0)) (first ∷ more)
    let avg_values = average_values sum_values num_rows
    report_sockets avg_values sum_values (sub_u64 num_columns 1 / 6) 0

  report_rows : Bytes → List (List D) → Result (Report D)
  report_rows filename [] = ok (no_data filename)
  report_rows filename (first ∷ more) = do ok (sockets (← summarize first more))

  -- `file` is the text of the file, if it can be opened.
  pub print_report : Bytes → Option Bytes → Result (Report D)
  print_report data_dir none =
      throw (codes "Failed to open " ++ (data_dir ++ codes "/bwprof.csv for reading"))
  print_report data_dir (some text) =
      report_rows (data_dir ++ codes "/bwprof.csv") (all_values text)
