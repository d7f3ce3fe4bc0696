-- ===== src/Bwprof/Dump/Recording.antt =====
-- The dump of a recording that `OutputFormatter` wrote.
use hmsdk.Base.{ℕ, ◌≡◌, refl, true, false, some, List, [], ◌∷◌, ◌++◌, Bytes, codes}
use hmsdk.Bwprof.Result.{ok}
use hmsdk.Bwprof.Config.{Config, record_mode}
use hmsdk.Bwprof.Double.{Double, IsPrinted, Signed}
use hmsdk.Bwprof.Stats.{BwStats}
use hmsdk.Bwprof.Split.{split_string}
use hmsdk.Bwprof.Split.RoundTrip.{split_string-lines}
use hmsdk.Bwprof.Output.{
  OutputFormatter, header_columns, csv_header, csv_line, line_cells, write_csv_header,
}
use hmsdk.Bwprof.Output.Columns.{
  split_string-csv_header, split_string-csv_line, csv_header_no_newline,
}
use hmsdk.Bwprof.Report.Recording.{
  Row, write_rows, row_lines, row_lines_no_newline, csv_file-recording, rounded_stats,
}
use hmsdk.Bwprof.Dump.{
  pad_left, print_cells, as_it_is, as_number, dump_header, dump_row, dump_rows, dump_lines,
  print_dump,
}

-- A line of the dump: its first column, and the others.
abbrev pub dump_line : Bytes → List Bytes → Bytes
dump_line time columns = pad_left 11 time ++ print_cells as_it_is columns

module _ {D : Type 0} ⦃d : Double D⦄ (s : Signed D) (p : IsPrinted D) where
  open d use {fixed}
  open s use {sub, is_negative, minus_one}

  -- The numbers of a row as they are printed: what was recorded, to two digits once more.
  abbrev pub columns_of : List D → List Bytes
  columns_of [] = []
  columns_of (x ∷ xs) = fixed 2 x ∷ columns_of xs

  -- The lines of the rows, with the time since the first of all.
  abbrev pub dumped : D → List (Row D) → Bytes
  dumped first [] = []
  dumped first ((timestamp, stats) ∷ rows) =
      dump_line (fixed 2 (sub (p.rounded 9 timestamp) first)) (columns_of (rounded_stats p stats))
      ++ dumped first rows

  as_number-fixed : (n : ℕ) (x : D) → as_number s (fixed n x) ≡ fixed 2 (p.rounded n x)
  as_number-fixed n x = rw (as_number, p.stod-fixed n x) refl

  print_cells-line_cells :
      (stats : List (BwStats D))
      → print_cells (as_number s) (line_cells stats)
        ≡ print_cells as_it_is (columns_of (rounded_stats p stats))
  print_cells-line_cells [] = refl
  print_cells-line_cells (x ∷ stats) = simp (as_number-fixed, print_cells-line_cells stats)

  dump_row-csv_line :
      (first timestamp : D) (stats : List (BwStats D))
      → is_negative first ≡ false
      → dump_row s first (split_string (csv_line timestamp stats) b',')
        ≡ ok (
          first,
          dump_line
              (fixed 2 (sub (p.rounded 9 timestamp) first))
              (columns_of (rounded_stats p stats)),
        )
  unfolding dump_row
  dump_row-csv_line first timestamp stats h =
      rw
        (
          split_string-csv_line p timestamp stats,
          p.stod-fixed 9 timestamp,
          h,
          print_cells-line_cells stats,
        )
        refl

  dump_rows-row_lines :
      (first : D) (rows : List (Row D))
      → is_negative first ≡ false
      → dump_rows s first (row_lines rows) ≡ ok (dumped first rows)
  unfolding dump_rows
  dump_rows-row_lines first [] h = refl
  dump_rows-row_lines first ((timestamp, stats) ∷ rows) h =
      rw (dump_row-csv_line first timestamp stats h, dump_rows-row_lines first rows h) refl

  -- The first line sets the time from which the others count.
  dump_rows-first :
      (timestamp : D) (stats : List (BwStats D)) (rows : List (Row D))
      → is_negative minus_one ≡ true
      → is_negative (p.rounded 9 timestamp) ≡ false
      → dump_rows s minus_one (row_lines ((timestamp, stats) ∷ rows))
        ≡ ok (dumped (p.rounded 9 timestamp) ((timestamp, stats) ∷ rows))
  unfolding dump_rows dump_row
  dump_rows-first timestamp stats rows m h =
      rw
        (
          split_string-csv_line p timestamp stats,
          p.stod-fixed 9 timestamp,
          m,
          print_cells-line_cells stats,
          dump_rows-row_lines (p.rounded 9 timestamp) rows h,
        )
        refl

  -- Write a header and at least one line into a fresh bwprof.csv and dump the file: what is printed
  -- is the header with "Time(s)" in the place of its first column, and for each line the time since
  -- the first one and the recorded throughputs, where a number is the recorded one rounded to the
  -- printed digits. The first time of the clock is not negative, and -1.0 is.
  pub print_dump-recording :
      (config : Config) (f g : OutputFormatter) (data_dir : Bytes) (timestamp : D)
      (stats : List (BwStats D)) (more : List (Row D))
      → is_negative minus_one ≡ true
      → is_negative (p.rounded 9 timestamp) ≡ false
      → config.command ≡ record_mode
      → f.csv_file ≡ some []
      → f.header_written ≡ false
      → write_csv_header config f ≡ ok g
      → let rows : List (Row D) = (timestamp, stats) ∷ more in
        print_dump s data_dir (write_rows config rows g).csv_file
        ≡ ok (
            dump_line (codes "Time(s)") (header_columns config.socket f.num_sockets 0)
            ++ dumped (p.rounded 9 timestamp) rows)
  unfolding print_dump dump_lines dump_header
  print_dump-recording config f g data_dir timestamp stats more m h mode opened fresh e =
      let rows : List (Row D) = (timestamp, stats) ∷ more in
      let header = csv_header config.socket f.num_sockets in
      rw
        (
          csv_file-recording config f g rows mode opened fresh e,
          split_string-lines b'\n' (header ∷ row_lines rows)
              (csv_header_no_newline config.socket f.num_sockets, row_lines_no_newline p rows),
          dump_rows-first timestamp stats more m h,
          split_string-csv_header config.socket f.num_sockets,
        )
        refl
