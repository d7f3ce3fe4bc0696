-- ===== src/Bwprof/Profiler/Tests.antt =====
-- What the small sessions record.
use hmsdk.Base.{ℕ, ◌≡◌, some, [], ◌∷◌, arith, codes}
use hmsdk.Base.Int.{pos}
use hmsdk.Bwprof.Result.{ok}
use hmsdk.Bwprof.Split.RoundTrip.{lines}
use hmsdk.Bwprof.Output.{csv_header}
use hmsdk.Bwprof.Report.{no_data, print_report}
use hmsdk.Bwprof.Report.Recording.{row_lines}
use hmsdk.Bwprof.Process.{silent}
use hmsdk.Bwprof.Monitor.{Monitor}
use hmsdk.Bwprof.Sample.{whole_double, whole-IsPrinted, small_pcm}
use hmsdk.Bwprof.Profiler.{finished, record_session}
use hmsdk.Bwprof.Profiler.Session.{session_rows}
use hmsdk.Bwprof.Profiler.Recorded.{record_session-finished, record_session-report}
use hmsdk.Bwprof.Profiler.Sample.{true_config, measurement, exit_round, world, info, at_once, later}

record_session-finished_example :
    (m : Monitor ℕ) × (record_session small_pcm true_config (world (measurement ∷ exit_round ∷ []))
      ≡ ok (finished (some info) m silent))
    × (m.formatter.csv_file
        ≡ some (
            lines b'\n' (
              csv_header (pos 1) 2
              ∷ row_lines (
                  session_rows small_pcm true_config
                    (world (measurement ∷ exit_round ∷ []))
                    (measurement ∷ [])))))
record_session-finished_example = record_session-finished small_pcm true_config later

-- The command exits before the first measurement: there is no data.
reports_nothing :
    (m : Monitor ℕ) × (record_session small_pcm true_config (world (exit_round ∷ []))
      ≡ ok (finished (some info) m silent))
    × (print_report {D = ℕ} (codes "bwprof.data") m.formatter.csv_file
        ≡ ok (no_data (codes "bwprof.data/bwprof.csv")))
reports_nothing =
    record_session-report small_pcm true_config whole-IsPrinted [] at_once (omega arith)
