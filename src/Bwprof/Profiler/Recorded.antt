-- ===== src/Bwprof/Profiler/Recorded.antt =====
-- What a session of `record` leaves, and what `printReport` makes of it.
use hmsdk.Base.{
  ℕ, zero, suc, ◌+◌, ◌*◌, ◌≤◌, ◌<◌, ◌≡◌, refl, ◌∙◌, ap, inl, inr, some, List, [], ◌∷◌, ◌++◌, arith,
  Bytes, codes, length, Bool-cases,
}
use hmsdk.Base.Words.{u64_mod}
use hmsdk.Bwprof.Result.{ok}
use hmsdk.Bwprof.Config.{Config, skips}
use hmsdk.Bwprof.Double.{Double, IsPrinted}
use hmsdk.Bwprof.Stats.{SocketMemoryData, zero_data}
use hmsdk.Bwprof.Pcm.{Pcm}
use hmsdk.Bwprof.Split.RoundTrip.{lines}
use hmsdk.Bwprof.Output.{OutputFormatter, new_formatter, set_num_sockets, csv_header, statistics}
use hmsdk.Bwprof.Output.Columns.{selected}
use hmsdk.Bwprof.Report.{Report, no_data, sockets, print_report}
use hmsdk.Bwprof.Report.Totals.{socket_reports}
use hmsdk.Bwprof.Report.Recording.{
  write_rows, row_lines, csv_file-recording, rounded_rows, print_report-recording,
  print_report-no_rows,
}
use hmsdk.Bwprof.Process.{silent}
use hmsdk.Bwprof.Monitor.{Monitor, Round}
use hmsdk.Bwprof.Output.Selected.{stats_of}
use hmsdk.Bwprof.Monitor.Rows.{total_after, row_of, rows_of}
use hmsdk.Bwprof.Profiler.{World, finished, record_session}
use hmsdk.Bwprof.Profiler.Session.{
  CommandRun, session_rows, opened_file, with_header, write_csv_header-eq, record_session-eq,
}

length-selected : (config : Config) (left skt : ℕ) → length (selected config.socket left skt) ≤ left
length-selected config zero skt = omega arith
length-selected config (suc left) skt = ground (arith, length-selected config left (skt + 1))

length-stats_of :
    {D : Type 0} (d : Double D) (config : Config) (now total : ℕ → SocketMemoryData)
    (elapsed left skt : ℕ)
    → length (statistics ⦃d = d⦄ (stats_of ⦃d = d⦄ config now total elapsed left skt))
      ≡ length (selected config.socket left skt)
length-stats_of d config now total elapsed zero skt = refl
length-stats_of d config now total elapsed (suc left) skt =
    elim (Bool-cases (skips config.socket skt)) [
      | inl skip ↦ rw skip (length-stats_of d config now total elapsed left (skt + 1))
      | inr keep ↦ rw keep (ap suc (length-stats_of d config now total elapsed left (skt + 1)))
    ]

module _ {S : Type 0} (pcm : Pcm S) {D : Type 0} ⦃d : Double D⦄ (config : Config) where
  module _ {world : World S D} {going : List (Round S D)} {info : Bytes}
      (run : CommandRun pcm config world going info) where
    -- A recorded command that exits ends the session: whatever the counters are, the loop throws
    -- nothing and stops at the first wait that sees the exit, and bwprof.csv then holds the header and
    -- one line for each round before it, with the bandwidths of the selected sockets from the
    -- counters at the two ends of the round. This is where every step before the loop succeeds, there
    -- is a socket, and the command is still running in each of those rounds.
    pub record_session-finished :
        (m : Monitor S) × (record_session pcm config world ≡ ok (finished (some info) m silent))
        × (m.formatter.csv_file
            ≡ some (
                lines b'\n' (
                  csv_header config.socket pcm.num_sockets
                  ∷ row_lines (session_rows pcm config world going))))
    unfolding set_num_sockets new_formatter
    record_session-finished =
        let (m, e, f) = record_session-eq pcm config run in
        (
          m,
          e,
          ap (λ (o : OutputFormatter). o.csv_file) f
              ∙ csv_file-recording config (opened_file pcm config) (with_header pcm config)
                  (session_rows pcm config world going) run.records refl refl
                  (write_csv_header-eq pcm config run.records run.sockets),
        )

  -- What is to be reported of the rounds.
  abbrev pub report_of : IsPrinted D → World S D → List (Round S D) → Report D
  report_of p world [] = no_data (config.data_dir ++ codes "/bwprof.csv")
  report_of p world (r ∷ rs) = sockets (
      socket_reports (rounded_rows p (session_rows pcm config world (r ∷ rs)))
        (length (selected config.socket pcm.num_sockets 0)) 0)

  module _ (p : IsPrinted D) {world : World S D} {info : Bytes} where
    report-write_rows :
        (going : List (Round S D))
        → CommandRun pcm config world going info
        → 1 + 6 * pcm.num_sockets < u64_mod
        → print_report config.data_dir
            (write_rows config
              (session_rows pcm config world going)
              (with_header pcm config)).csv_file
          ≡ ok (report_of p world going)
    unfolding set_num_sockets new_formatter
    report-write_rows [] run lt =
        print_report-no_rows p config (opened_file pcm config) (with_header pcm config)
          config.data_dir run.records refl refl
          (write_csv_header-eq pcm config run.records run.sockets)
    report-write_rows (r ∷ rs) run lt =
        let (timestamp, stats) =
          row_of pcm config world.first_time world.first_states (λ _. zero_data) r in
        let more =
          rows_of pcm config r.current_time r.states
            (total_after pcm config (λ _. zero_data) world.first_states r.states) rs in
        let count : length stats ≡ length (selected config.socket pcm.num_sockets 0) =
          length-stats_of d config _ _ _ pcm.num_sockets 0 in
        let bound = length-selected config pcm.num_sockets 0 in
        print_report-recording p config (opened_file pcm config) (with_header pcm config)
          config.data_dir timestamp stats more run.records refl refl
          (write_csv_header-eq pcm config run.records run.sockets) (omega (arith, count, bound))
        ∙ ap (λ n. ok (sockets (socket_reports (rounded_rows p ((timestamp, stats) ∷ more)) n 0)))
            count

    -- Record a command until it exits and read the bwprof.csv of the session with `printReport`: it
    -- reports the selected sockets, each with the averages and sums of its bandwidths over the
    -- rounds before the exit, where every bandwidth comes from the counters at the two ends of its
    -- round. If the command exits before the first measurement, there is no data. This is where
    -- every step before the loop succeeds, the command is still running in each of those rounds, and
    -- the columns can be counted in a `size_t`.
    pub record_session-report :
        (going : List (Round S D))
        → CommandRun pcm config world going info
        → 1 + 6 * pcm.num_sockets < u64_mod
        → (m : Monitor S) × (record_session pcm config world ≡ ok (finished (some info) m silent))
          × (print_report config.data_dir m.formatter.csv_file ≡ ok (report_of p world going))
    record_session-report going run lt =
        let (m, e, f) = record_session-eq pcm config run in
        (
          m,
          e,
          ap (λ (o : OutputFormatter). print_report config.data_dir o.csv_file) f
              ∙ report-write_rows going run lt,
        )
