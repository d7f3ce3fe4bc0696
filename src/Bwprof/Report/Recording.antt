-- ===== src/Bwprof/Report/Recording.antt =====
-- A recording that `OutputFormatter` wrote, read by `printReport`.
use hmsdk.Base.{
  ℕ, ◌+◌, ◌-◌, ◌*◌, ◌/◌, ◌<◌, ◌≡◌, refl, ap, ◌∙◌, false, some, List, [], ◌∷◌, ◌++◌, append_assoc,
  append-nil, map, arith, Bytes, codes, Lacks, All, length,
}
use mathlib.Core.List.{cons-ne-nil}
use hmsdk.Base.Words.{u64_mod}
use hmsdk.Bwprof.Result.{ok}
use hmsdk.Bwprof.Config.{Config, record_mode}
use hmsdk.Bwprof.Double.{Double, IsPrinted}
use hmsdk.Bwprof.Stats.{BwStats}
use hmsdk.Bwprof.Split.RoundTrip.{lines, split_string-lines, lines-append}
use hmsdk.Bwprof.Output.{
  OutputFormatter, csv_header, csv_line, line_cells, write_csv_header, write_csv_line,
}
use hmsdk.Bwprof.Output.Columns.{split_string-csv_line, csv_header_no_newline, csv_line_no_newline}
use hmsdk.Bwprof.Report.{no_data, sockets, value_or_zero, row_values, all_values, print_report}
use hmsdk.Bwprof.Report.Totals.{socket_reports, print_report-totals, print_report-no_data}

-- The lines of a recording: the clock, and the statistics of each selected socket.
abbrev pub Row : Type 0 → Type 0
Row D = D × List (BwStats D)

csv_file-write_csv_header :
    (config : Config) (f : OutputFormatter) {g : OutputFormatter}
    → config.command ≡ record_mode
    → f.csv_file ≡ some []
    → f.header_written ≡ false
    → write_csv_header config f ≡ ok g
    → g.csv_file ≡ some (lines b'\n' (csv_header config.socket f.num_sockets ∷ []))
unfolding write_csv_header
csv_file-write_csv_header config f mode opened fresh e = ground arith

module _ {D : Type 0} ⦃d : Double D⦄ where
  abbrev pub write_rows : Config → List (Row D) → OutputFormatter → OutputFormatter
  write_rows config [] f = f
  write_rows config ((timestamp, stats) ∷ rows) f =
      write_rows config rows (write_csv_line config timestamp stats f)

  abbrev pub row_lines : List (Row D) → List Bytes
  row_lines [] = []
  row_lines ((timestamp, stats) ∷ rows) = csv_line timestamp stats ∷ row_lines rows

  csv_file-write_csv_line :
      (config : Config) (timestamp : D) (stats : List (BwStats D)) (f : OutputFormatter)
      (ls : List Bytes)
      → config.command ≡ record_mode
      → f.csv_file ≡ some (lines b'\n' ls)
      → (write_csv_line config timestamp stats f).csv_file
        ≡ some (lines b'\n' (ls ++ (csv_line timestamp stats ∷ [])))
  unfolding write_csv_line
  csv_file-write_csv_line config timestamp stats f ls mode e =
      rw (mode, e) (ap some (lines-append b'\n' ls (csv_line timestamp stats)))

  csv_file-write_rows :
      (config : Config) (rows : List (Row D)) (f : OutputFormatter) (ls : List Bytes)
      → config.command ≡ record_mode
      → f.csv_file ≡ some (lines b'\n' ls)
      → (write_rows config rows f).csv_file ≡ some (lines b'\n' (ls ++ row_lines rows))
  csv_file-write_rows config [] f ls mode e = rw append-nil e
  csv_file-write_rows config ((timestamp, stats) ∷ rows) f ls mode e =
      csv_file-write_rows config rows (write_csv_line config timestamp stats f)
        (ls ++ (csv_line timestamp stats ∷ [])) mode
        (csv_file-write_csv_line config timestamp stats f ls mode e)
      ∙ rw append_assoc

  -- The text of the file: the header, and a line for each row.
  pub csv_file-recording :
      (config : Config) (f g : OutputFormatter) (rows : List (Row D))
      → config.command ≡ record_mode
      → f.csv_file ≡ some []
      → f.header_written ≡ false
      → write_csv_header config f ≡ ok g
      → (write_rows config rows g).csv_file
        ≡ some (lines b'\n' (csv_header config.socket f.num_sockets ∷ row_lines rows))
  csv_file-recording config f g rows mode opened fresh e =
      csv_file-write_rows config rows g (csv_header config.socket f.num_sockets ∷ []) mode
        (csv_file-write_csv_header config f mode opened fresh e)

module _ {D : Type 0} ⦃d : Double D⦄ (p : IsPrinted D) where
  -- What is read back of a row: the numbers, rounded to the digits that were printed.
  abbrev pub rounded_stats : List (BwStats D) → List D
  rounded_stats [] = []
  rounded_stats (s ∷ stats) =
      p.rounded 2 s.dram_read_bw
      ∷ p.rounded 2 s.dram_write_bw
      ∷ p.rounded 2 s.dram_total_bw
      ∷ p.rounded 2 s.cxl_read_bw
      ∷ p.rounded 2 s.cxl_write_bw
      ∷ p.rounded 2 s.cxl_total_bw
      ∷ rounded_stats stats

  abbrev pub rounded_rows : List (Row D) → List (List D)
  rounded_rows [] = []
  rounded_rows ((timestamp, stats) ∷ rows) =
      (p.rounded 9 timestamp ∷ rounded_stats stats) ∷ rounded_rows rows

  value_or_zero-fixed : (n : ℕ) (x : D) → value_or_zero (d.fixed n x) ≡ p.rounded n x
  unfolding value_or_zero
  value_or_zero-fixed n x = rw (value_or_zero, p.stod-fixed n x)

  values-line_cells :
      (stats : List (BwStats D)) → map value_or_zero (line_cells stats) ≡ rounded_stats stats
  values-line_cells [] = refl
  values-line_cells (s ∷ stats) = simp (value_or_zero-fixed, values-line_cells stats)

  row_values-csv_line :
      (timestamp : D) (stats : List (BwStats D))
      → row_values (csv_line timestamp stats) ≡ p.rounded 9 timestamp ∷ rounded_stats stats
  unfolding row_values
  row_values-csv_line timestamp stats =
      rw (split_string-csv_line p timestamp stats)
        (rw (value_or_zero-fixed 9 timestamp, values-line_cells stats))

  map-row_lines : (rows : List (Row D)) → map row_values (row_lines rows) ≡ rounded_rows rows
  map-row_lines [] = refl
  map-row_lines ((timestamp, stats) ∷ rows) =
      rw (row_values-csv_line timestamp stats, map-row_lines rows)

  pub row_lines_no_newline : (rows : List (Row D)) → All (Lacks b'\n') (row_lines rows)
  row_lines_no_newline [] = tt
  row_lines_no_newline ((timestamp, stats) ∷ rows) =
      (csv_line_no_newline p timestamp stats, row_lines_no_newline rows)

  all_values-lines :
      (header : Bytes) (rows : List (Row D))
      → Lacks b'\n' header
      → all_values (lines b'\n' (header ∷ row_lines rows)) ≡ rounded_rows rows
  unfolding all_values
  all_values-lines header rows l =
      rw (split_string-lines b'\n' (header ∷ row_lines rows) (l, row_lines_no_newline rows))
        (map-row_lines rows)

  length-rounded_stats :
      (stats : List (BwStats D)) → length (rounded_stats stats) ≡ 6 * length stats
  length-rounded_stats [] = refl
  length-rounded_stats (s ∷ stats) = omega (arith, length-rounded_stats stats)

  -- Write a header and at least one line into a fresh bwprof.csv and read the file with
  -- `printReport`: it reports as many sockets as the first line has statistics, computed from the
  -- recorded throughputs rounded to the printed digits.
  pub print_report-recording :
      (config : Config) (f g : OutputFormatter) (data_dir : Bytes) (timestamp : D)
      (stats : List (BwStats D)) (more : List (Row D))
      → config.command ≡ record_mode
      → f.csv_file ≡ some []
      → f.header_written ≡ false
      → write_csv_header config f ≡ ok g
      → 1 + 6 * length stats < u64_mod
      → let rows : List (Row D) = (timestamp, stats) ∷ more in
        print_report data_dir (write_rows config rows g).csv_file
        ≡ ok (sockets (socket_reports (rounded_rows rows) (length stats) 0))
  print_report-recording config f g data_dir timestamp stats more mode opened fresh e lt =
      let rows : List (Row D) = (timestamp, stats) ∷ more in
      let header = csv_header config.socket f.num_sockets in
      let first : List D = p.rounded 9 timestamp ∷ rounded_stats stats in
      let columns = length-rounded_stats stats in
      let count : (length first - 1) / 6 ≡ length stats = omega (arith, columns) in
      let file = csv_file-recording config f g rows mode opened fresh e in
      let report =
        print_report-totals data_dir _ first (rounded_rows more)
          (all_values-lines header rows (csv_header_no_newline config.socket f.num_sockets))
          (cons-ne-nil _ _) (omega (arith, columns)) in
      rw file
        (report ∙ ap (λ n. ok (sockets (socket_reports (first ∷ rounded_rows more) n 0))) count)

  -- A recording of a header alone.
  pub print_report-no_rows :
      (config : Config) (f g : OutputFormatter) (data_dir : Bytes)
      → config.command ≡ record_mode
      → f.csv_file ≡ some []
      → f.header_written ≡ false
      → write_csv_header config f ≡ ok g
      → print_report {D = D} data_dir g.csv_file ≡ ok (no_data (data_dir ++ codes "/bwprof.csv"))
  print_report-no_rows config f g data_dir mode opened fresh e =
      let header = csv_header config.socket f.num_sockets in
      ap (print_report {D = D} data_dir)
        (csv_file-recording {D = D} config f g [] mode opened fresh e)
      ∙ print_report-no_data {D = D} data_dir (lines b'\n' (header ∷ []))
          (all_values-lines header [] (csv_header_no_newline config.socket f.num_sockets))
