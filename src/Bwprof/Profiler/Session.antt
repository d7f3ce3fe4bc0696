-- ===== src/Bwprof/Profiler/Session.antt =====
-- A session of `record` with a command, up to the exit of the command.
use hmsdk.Base.{
  is_empty, ℕ, ◌≡◌, refl, ◌≢◌, ◌∙◌, ap, true, false, some, List, [], ◌∷◌, ◌++◌, arith, All, Bytes,
}
use hmsdk.Base.Int.{pos, is_pos}
use hmsdk.Bwprof.Result.{ok}
use hmsdk.Bwprof.Config.{Config, record_mode}
use hmsdk.Bwprof.Double.{Double}
use hmsdk.Bwprof.Stats.{zero_data}
use hmsdk.Bwprof.Pcm.{Pcm}
use hmsdk.Bwprof.Events.Tables.{length-fill_from}
use hmsdk.Bwprof.Output.{
  OutputFormatter, new_formatter, set_num_sockets, open_csv_file, write_csv_header, csv_header,
}
use hmsdk.Bwprof.Report.Recording.{Row, write_rows}
use hmsdk.Bwprof.Process.{
  ProcessExecutor, new_executor, in_parent, started, execute_command, exited, Blocked, silent,
  finish,
}
use hmsdk.Bwprof.Monitor.{Monitor, Round, stopped, begin_monitor, run_rounds}
use hmsdk.Bwprof.Monitor.Going.{GoesOn}
use hmsdk.Bwprof.Monitor.Rows.{IsRecording, rows_of, run_rounds-IsRecording, run_rounds-exited}
use hmsdk.Bwprof.Info.Collect.{collect_and_save}
use hmsdk.Bwprof.Profiler.{World, finished, full_cmdline, start_command, initialize, record_session}

start_command-in_parent :
    (args : List Bytes) (pid : ℕ)
    → is_empty args ≡ false
    → start_command args (in_parent pid)
      ≡ (ok (started (pos pid)), record { child_pid = pos pid; running = true })
unfolding execute_command
start_command-in_parent [] pid h = cc
start_command-in_parent (arg ∷ args) pid h = refl

ltb-pos : (n : ℕ) → n ≢ 0 → is_pos (pos n) ≡ true
ltb-pos n h = ground arith

finish-new_executor :
    (pid : ℕ) (blocked : Blocked)
    → finish (pos pid) blocked new_executor ≡ ok (new_executor, silent)
unfolding finish
finish-new_executor pid blocked = ground arith

module _ {S : Type 0} (pcm : Pcm S) (config : Config) where
  abbrev pub opened_file : OutputFormatter
  opened_file = record (set_num_sockets (new_formatter config) pcm.num_sockets) {
    csv_file = some [];
  }

  abbrev pub with_header : OutputFormatter
  with_header = record opened_file {
    csv_file = some (csv_header config.socket pcm.num_sockets ++ (b'\n' ∷ []));
    header_written = true;
  }

  open_csv_file-eq :
      (f : OutputFormatter)
      → config.command ≡ record_mode
      → open_csv_file config config.data_dir true f ≡ ok (record f { csv_file = some [] })
  unfolding open_csv_file
  open_csv_file-eq f e = rw e refl

  pub write_csv_header-eq :
      config.command ≡ record_mode
      → pcm.num_sockets ≢ 0
      → write_csv_header config opened_file ≡ ok with_header
  unfolding write_csv_header set_num_sockets new_formatter
  write_csv_header-eq e h = ground arith

module _ {S : Type 0} (pcm : Pcm S) {D : Type 0} ⦃d : Double D⦄ (config : Config) where
  -- The command exits while the loop waits behind the rounds `going`.
  pub record CommandRun (world : World S D) (going : List (Round S D)) (info : Bytes) : Type 0 where
    pub records : config.command ≡ record_mode
    pub command : is_empty config.command_args ≡ false
    pub programmed : world.programmed ≡ true
    pub metrics : world.metrics ≡ ok tt
    pub sockets : pcm.num_sockets ≢ 0
    pub opens : world.csv_opens ≡ true
    pub pid : ℕ
    pub pid_pos : pid ≢ 0
    pub forked : world.forked ≡ in_parent pid
    pub saved :
        collect_and_save d world.machine config.data_dir
          (full_cmdline config.command_args)
          world.info_opens
        ≡ ok info
    pub last : Round S D
    pub more : List (Round S D)
    pub rounds : world.rounds ≡ going ++ (last ∷ more)
    pub going-GoesOn : All (GoesOn config) going
    pub status : ℕ
    pub exits : last.waited ≡ exited status

  -- The lines that the rounds write.
  abbrev pub session_rows : World S D → List (Round S D) → List (Row D)
  session_rows world going =
      rows_of pcm config world.first_time world.first_states (λ _. zero_data) going

  module _ {world : World S D} {going : List (Round S D)} {info : Bytes}
      (run : CommandRun world going info) where
    initialize-eq :
        (f : OutputFormatter)
        → initialize pcm config world f ≡ ok (set_num_sockets f pcm.num_sockets)
    unfolding initialize
    initialize-eq f = rw (run.programmed, run.metrics) refl

    -- The state before the loop.
    abbrev started_monitor : Monitor S
    started_monitor =
        begin_monitor pcm world.first_time world.first_states (with_header pcm config)
          (record { child_pid = pos run.pid; running = true })

    started_monitor-IsRecording :
        IsRecording pcm config world.first_time world.first_states
          (λ _. zero_data)
          (record { child_pid = pos run.pid; running = true })
          (with_header pcm config)
          started_monitor
    unfolding begin_monitor set_num_sockets
    started_monitor-IsRecording = record {
      time_kept = refl;
      states_kept = refl;
      table_size = length-fill_from _ _ 0;
      totals = refl;
      sockets_set = refl;
      executor_kept = refl;
      lines_written = refl;
    }

    run_rounds-stopped :
        (m : Monitor S) × (run_rounds pcm config world.rounds started_monitor []
          ≡ ok (stopped (record m { executor = new_executor })))
        × (m.formatter ≡ write_rows config (session_rows world going) (with_header pcm config))
    run_rounds-stopped =
        let (m, shown, ran, ex, fo) =
          run_rounds-IsRecording pcm config world.first_time world.first_states (λ _. zero_data)
            (record { child_pid = pos run.pid; running = true }) (with_header pcm config) going
            (run.last ∷ run.more) started_monitor [] run.records run.going-GoesOn
            started_monitor-IsRecording in
        let child : is_pos (pos run.pid) ≡ true = ltb-pos run.pid run.pid_pos in
        let exited =
          run_rounds-exited pcm config run.last run.more m shown run.status run.command run.exits
            (ap (λ (e : ProcessExecutor). e.running) ex)
            (ap (λ (e : ProcessExecutor). is_pos e.child_pid) ex ∙ child) in
        (m, rw run.rounds (ran ∙ exited), fo)

    pub record_session-eq :
        (m : Monitor S) × (record_session pcm config world ≡ ok (finished (some info) m silent))
        × (m.formatter ≡ write_rows config (session_rows world going) (with_header pcm config))
    unfolding record_session
    record_session-eq =
        let (m, stops, fo) = run_rounds-stopped in
        (
          record m { executor = new_executor },
          rw
              (
                initialize-eq (new_formatter config),
                run.opens,
                open_csv_file-eq pcm config (set_num_sockets (new_formatter config) pcm.num_sockets)
                    run.records,
                write_csv_header-eq pcm config run.records run.sockets,
                run.forked,
                start_command-in_parent config.command_args run.pid run.command,
                run.saved,
                stops,
                finish-new_executor run.pid world.blocked,
              )
              refl,
          fo,
        )
