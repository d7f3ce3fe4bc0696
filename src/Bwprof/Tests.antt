-- ===== src/Bwprof/Tests.antt =====
-- Runs of the model of tools/bwprof/bwprof.cc, and its theorems at concrete inputs: the files of a
-- recording.
mod Monitoring
use hmsdk.Base.{
  ℕ, ◌+◌, ◌*◌, ◌<◌, ◌≡◌, refl, inl, inr, true, false, some, List, [], ◌∷◌, ◌++◌, arith, codes, All,
  length, get_elem?, ◌==◌,
}
use hmsdk.Base.Int.{pos, negsuc}
use hmsdk.Base.Decimal.{read_digits}
use hmsdk.Bwprof.Result.{ok, undefined}
use hmsdk.Bwprof.Config.{default_config, record_mode, skips}
use hmsdk.Bwprof.Stats.{SocketMemoryData, BwStats, zero_data, calculate, accumulate}
use hmsdk.Bwprof.Stats.Division.{with_division, calculate_division}
use hmsdk.Bwprof.Split.{split_string, cells}
use hmsdk.Bwprof.Split.RoundTrip.{lines, split_string-cells, split_string-lines}
use hmsdk.Bwprof.Output.{
  OutputFormatter, Shown, new_formatter, set_num_sockets, csv_header, csv_line, write_csv_header,
  results_from, statistics,
}
use hmsdk.Bwprof.Output.Columns.{selected}
use hmsdk.Bwprof.Output.Results.{numbers, IsResult, results_from-IsResult, columns_agree}
use hmsdk.Bwprof.Report.{sockets, all_values, print_report}
use hmsdk.Bwprof.Report.Totals.{socket_reports, print_report-totals, print_report_empty_row}
use hmsdk.Bwprof.Report.Recording.{write_rows, Row, rounded_rows, print_report-recording}
use hmsdk.Bwprof.Events.{socket_events, calculate_events, fill_from}
use hmsdk.Bwprof.Events.Counters.{Leads, counters, socket_events-Leads}
use hmsdk.Bwprof.Events.Tables.{events_at, calculate_events-eq}
use hmsdk.Bwprof.Process.{
  ProcessExecutor, new_executor, execute_command, exited, still_running, block_exited, finish,
  silent, exited_with, terminated_by, wait_for_child_non_blocking, wait_for_child,
}
use hmsdk.Bwprof.Process.Protocol.{IsConsistent, executor-IsConsistent}
use hmsdk.Bwprof.Monitor.{Monitor, Round, stopped, looped, begin_monitor, run_rounds}
use hmsdk.Bwprof.Monitor.Totals.{IsTotal, last_states, monitoring-IsTotal}
use hmsdk.Bwprof.Monitor.Ending.{finish_after_run}
use hmsdk.Bwprof.Sample.{
  whole_double, whole-IsPrinted, small_pcm, small_pcm-IsCounting, record_config, sample_stats,
}

-- `splitString`
split_string-cells_example :
    split_string (codes "1,22,3") b',' ≡ codes "1" ∷ codes "22" ∷ codes "3" ∷ []
split_string-cells_example =
    split_string-cells b',' (codes "1") (codes "22" ∷ codes "3" ∷ []) (omega arith) (omega arith)
      (λ e. cc)

split_string-lines_example : split_string (codes "a\n\nb\n") b'\n' ≡ codes "a" ∷ [] ∷ codes "b" ∷ []
split_string-lines_example =
    split_string-lines b'\n' (codes "a" ∷ [] ∷ codes "b" ∷ []) (omega arith)

-- `printReport`
abbrev report_text : List ℕ
report_text = codes "Timestamp,a,b,c,d,e,f\n1.0,10,20,30,4,5,9\n2.0,20,30,50,6,x,6\n"

abbrev report_row : List ℕ
report_row = 1 ∷ 10 ∷ 20 ∷ 30 ∷ 4 ∷ 5 ∷ 9 ∷ []

abbrev report_more : List (List ℕ)
report_more = (2 ∷ 20 ∷ 30 ∷ 50 ∷ 6 ∷ 0 ∷ 6 ∷ []) ∷ []

report_values : all_values report_text ≡ report_row ∷ report_more
unfolding all_values split_string read_digits
report_values = refl

print_report-totals_example :
    print_report (codes "d") (some report_text)
    ≡ ok (sockets (socket_reports (report_row ∷ report_more) 1 0))
print_report-totals_example =
    print_report-totals (codes "d") report_text report_row report_more report_values (λ e. cc)
      (omega arith)

print_report_empty_row_example :
    print_report {D = ℕ} (codes "d") (some (codes "Timestamp,a\n\n1.0,2.0\n")) ≡ undefined
unfolding all_values split_string read_digits
print_report_empty_row_example =
    print_report_empty_row (codes "d") (codes "Timestamp,a\n\n1.0,2.0\n") ((1 ∷ 2 ∷ []) ∷ []) refl

-- A recording of socket 1 of 2.
abbrev fresh_file : OutputFormatter
fresh_file = record {
  num_sockets = 2;
  csv_file = some [];
  header_written = false;
  show_realtime_output = false;
}

abbrev with_header : OutputFormatter
with_header = record fresh_file {
  csv_file = some (csv_header (pos 1) 2 ++ (b'\n' ∷ []));
  header_written = true;
}

abbrev second_row : List (Row ℕ)
second_row = (8, sample_stats ∷ []) ∷ []

print_report-recording_example :
    print_report
      (codes "d")
      (write_rows record_config ((7, sample_stats ∷ []) ∷ second_row) with_header).csv_file
    ≡ ok (
        sockets
          (socket_reports (rounded_rows whole-IsPrinted ((7, sample_stats ∷ []) ∷ second_row)) 1 0))
unfolding write_csv_header
print_report-recording_example =
    print_report-recording whole-IsPrinted record_config fresh_file with_header (codes "d") 7
      (sample_stats ∷ []) second_row refl refl refl refl (omega arith)

columns_agree_example :
    (length (split_string (csv_header (pos 1) 2) b',') ≡ 1 + 6 * length (selected (pos 1) 2 0))
    × (length (split_string (csv_line 7 (statistics ((1, sample_stats) ∷ []))) b',')
        ≡ 1 + 6 * length (selected (pos 1) 2 0))
unfolding skips
columns_agree_example = columns_agree whole-IsPrinted (pos 1) 2 7 ((1, sample_stats) ∷ []) refl
