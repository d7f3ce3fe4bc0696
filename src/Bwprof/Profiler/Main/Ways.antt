-- ===== src/Bwprof/Profiler/Main/Ways.antt =====
-- What a run of `main` comes to, from its command line.
use hmsdk.Base.{◌+◌, ◌*◌, ◌<◌, ◌≡◌, ◌≢◌, refl, ap, ◌∙◌, some, List, Bytes}
use hmsdk.Base.Words.{u64_mod}
use hmsdk.Bwprof.Result.{Result, ok, throw, undefined}
use hmsdk.Bwprof.Config.{
  Config, CommandType, default_config, record_mode, top, dump, report, info, help, invalid,
}
use hmsdk.Bwprof.Double.{Double, Signed, IsPrinted}
use hmsdk.Bwprof.Pcm.{Pcm}
use hmsdk.Bwprof.Report.{Report, print_report}
use hmsdk.Bwprof.Process.{silent}
use hmsdk.Bwprof.Files.{FileSystem}
use hmsdk.Bwprof.Directory.{prepare_data_directory}
use hmsdk.Bwprof.Options.{Key, Parsing, goes_on, fails, shows_help, parse_keys}
use hmsdk.Bwprof.Options.Accepted.{IsAccepted, parse_keys-IsAccepted}
use hmsdk.Bwprof.Monitor.{Monitor, Round}
use hmsdk.Bwprof.Profiler.{World, Ended, finished, record_session, run_record_mode}
use hmsdk.Bwprof.Profiler.Session.{CommandRun}
use hmsdk.Bwprof.Profiler.Recorded.{report_of, record_session-report}
use hmsdk.Bwprof.Profiler.Main.{
  Saved, Outcome, succeeds, profiled, reported, caught, caught_at, run_command, dispatch,
  after_parsing, invalid_help, main, run,
}

module _ {S : Type 0} (pcm : Pcm S) {D : Type 0} ⦃d : Double D⦄ (s : Signed D) {F : Type 0}
    (files : FileSystem F) where
  caught-ne-invalid_help :
      (saved : Saved) (world : World S D) (r : Result (Outcome S D))
      → caught pcm s files saved world r ≢ invalid_help
  caught-ne-invalid_help saved world (ok _) e = cc
  caught-ne-invalid_help saved world (throw _) e = cc
  caught-ne-invalid_help saved world undefined e = cc

  dispatch_valid :
      (saved : Saved) (world : World S D) (command : CommandType) (config : Config) (f : F)
      → command ≢ invalid
      → (dispatch pcm s files saved world command config f).0 ≢ invalid_help
  dispatch_valid saved world record_mode config f h = caught-ne-invalid_help saved world _
  dispatch_valid saved world top config f h = caught-ne-invalid_help saved world _
  dispatch_valid saved world dump config f h = caught-ne-invalid_help saved world _
  dispatch_valid saved world report config f h = caught-ne-invalid_help saved world _
  dispatch_valid saved world info config f h = caught-ne-invalid_help saved world _
  dispatch_valid saved world help config f h = λ e. cc
  dispatch_valid saved world invalid config f h = λ e. h refl

  -- No run of `main`, whatever the command line, the files and the machine are, reaches the branch
  -- of the `switch` that shows the help list and returns 1.
  pub main-ne-invalid_help :
      (saved : Saved) (world : World S D) (keys : List Key) (f : F)
      → (main pcm s files saved world keys f).0 ≢ invalid_help
  unfolding main
  main-ne-invalid_help saved world keys f =
      go (parse_keys keys default_config) (λ config. parse_keys-IsAccepted keys config)
    where
      go :
          (p : Parsing)
          → ((config : Config) → p ≡ goes_on config → IsAccepted config)
          → (after_parsing pcm s files saved world p f).0 ≢ invalid_help
      go (goes_on config) v =
          dispatch_valid saved world config.command config f (v config refl).never_invalid
      go (fails message) v = λ e. cc
      go shows_help v = λ e. cc

  pub main-eq :
      (saved : Saved) (world : World S D) (keys : List Key) (f : F) {config : Config}
      → parse_keys keys default_config ≡ goes_on config
      → main pcm s files saved world keys f
        ≡ dispatch pcm s files saved world config.command config f
  unfolding main
  main-eq saved world keys f e = rw e refl

  run_record_mode-eq :
      (world : World S D) (config : Config) (f f' : F) {ended : Ended S D}
      → prepare_data_directory files config.data_dir f ≡ (ok tt, f')
      → record_session pcm config world ≡ ok ended
      → run_record_mode pcm config world files f ≡ (ok ended, f')
  unfolding run_record_mode
  run_record_mode-eq world config f f' e r = rw (e, r) refl

  dispatch-record :
      (saved : Saved) (world : World S D) (config : Config) (f f' : F) {ended : Ended S D}
      → config.command ≡ record_mode
      → run_record_mode pcm config world files f ≡ (ok ended, f')
      → dispatch pcm s files saved world config.command config f ≡ (succeeds (profiled ended), f')
  unfolding run
  dispatch-record saved world config f f' mode e =
      ap (λ c. dispatch pcm s files saved world c config f) mode
      ∙ ap (λ c. caught_at pcm s files saved world (run_command pcm s files saved world c config f))
          mode
      ∙ rw e refl

  dispatch-report :
      (saved : Saved) (world : World S D) (config : Config) (f : F) {r : Report D}
      → config.command ≡ report
      → print_report config.data_dir saved.csv ≡ ok r
      → dispatch pcm s files saved world config.command config f ≡ (succeeds (reported r), f)
  dispatch-report saved world config f mode e =
      ap (λ c. dispatch pcm s files saved world c config f) mode ∙ rw e refl

  -- Two runs of `main`: `record` with a command that exits, and `report` on the same directory with
  -- the bwprof.csv that the first run has written. Both end with status 0. The first one throws
  -- nothing after the data directory has been prepared, whatever the counters are, and the second
  -- one reports the selected sockets, each with the averages and sums of its bandwidths over the
  -- rounds before the exit, every bandwidth from the counters at the two ends of its round and
  -- rounded to the digits that bwprof.csv holds, and the reported sockets are numbered from 0; if the
  -- command has exited before the first measurement, it says that there is no data. This is for
  -- command lines that argp accepts, where the data directory is prepared, every step before the
  -- loop succeeds, there is a socket, the command is still running in each of those rounds, and the columns can be
  -- counted in a `size_t`.
  pub main-recording :
      (p : IsPrinted D) (saved : Saved) (world later : World S D) (keys report_keys : List Key)
      (config report_config : Config) (f f' : F) (going : List (Round S D)) (text : Bytes)
      → parse_keys keys default_config ≡ goes_on config
      → prepare_data_directory files config.data_dir f ≡ (ok tt, f')
      → CommandRun pcm config world going text
      → 1 + 6 * pcm.num_sockets < u64_mod
      → parse_keys report_keys default_config ≡ goes_on report_config
      → report_config.command ≡ report
      → report_config.data_dir ≡ config.data_dir
      → (m : Monitor S) × (main pcm s files saved world keys f
          ≡ (succeeds (profiled (finished (some text) m silent)), f'))
        × (main pcm s files (record saved { csv = m.formatter.csv_file }) later report_keys f'
            ≡ (succeeds (reported (report_of pcm config p world going)), f'))
  main-recording p saved world later keys report_keys config report_config f f' going text e
        prepared c lt e' mode same =
      let (m, ended, read) = record_session-report pcm config p going c lt in
      (
        m,
        main-eq saved world keys f e
            ∙ dispatch-record saved world config f f' c.records
                (run_record_mode-eq world config f f' prepared ended),
        main-eq (record saved { csv = m.formatter.csv_file }) later report_keys f' e'
            ∙ dispatch-report (record saved { csv = m.formatter.csv_file }) later report_config f'
                mode (ap (λ dir. print_report dir m.formatter.csv_file) same ∙ read),
      )
