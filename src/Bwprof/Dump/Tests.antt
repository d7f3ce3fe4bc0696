-- ===== src/Bwprof/Dump/Tests.antt =====
-- A dump of a recording of socket 1 of 2. The numbers from 2 ^ 63 on stand for negative ones.
use hmsdk.Base.{◌≡◌, refl, ℕ, false, true, some, List, [], ◌∷◌, ◌++◌, codes}
use hmsdk.Base.Int.{pos}
use hmsdk.Base.Decimal.{to_decimal, read_digits}
use hmsdk.Bwprof.Result.{ok}
use hmsdk.Bwprof.Split.{split_string}
use hmsdk.Bwprof.Output.{OutputFormatter, header_columns, csv_header, write_csv_header}
use hmsdk.Bwprof.Report.Recording.{Row, write_rows}
use hmsdk.Bwprof.Dump.{pad_left, dump_header, dump_row, dump_rows, dump_lines, print_dump}
use hmsdk.Bwprof.Dump.Recording.{dump_line, dumped, print_dump-recording}
use hmsdk.Bwprof.Sample.{whole_double, word_signed, whole-IsPrinted, record_config, sample_stats}

dumps :
    print_dump word_signed (codes "d") (some (codes "Timestamp,a\n7.0,12.5\n9.5,x\n"))
    ≡ ok (codes "    Time(s)            a\n       0.00        12.00\n       2.00            x\n")
unfolding print_dump dump_lines dump_header dump_rows dump_row pad_left split_string to_decimal
    read_digits
dumps = refl

abbrev fresh_file : OutputFormatter
fresh_file = record {
  num_sockets = 2;
  csv_file = some [];
  header_written = false;
  show_realtime_output = false;
}

abbrev with_header : OutputFormatter
with_header = record fresh_file {
  csv_file = some (csv_header (pos 1) 2 ++ (b'\n' ∷ []));
  header_written = true;
}

abbrev second_row : List (Row ℕ)
second_row = (8, sample_stats ∷ []) ∷ []

print_dump-recording_example :
    print_dump word_signed
      (codes "d")
      (write_rows record_config ((7, sample_stats ∷ []) ∷ second_row) with_header).csv_file
    ≡ ok (
        dump_line (codes "Time(s)") (header_columns (pos 1) 2 0)
        ++ dumped word_signed whole-IsPrinted 7 ((7, sample_stats ∷ []) ∷ second_row))
unfolding write_csv_header
print_dump-recording_example =
    print_dump-recording word_signed whole-IsPrinted record_config fresh_file with_header
      (codes "d") 7 (sample_stats ∷ []) second_row refl refl refl refl refl refl
