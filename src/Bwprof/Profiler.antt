-- ===== src/Bwprof/Profiler.antt =====
-- `class BandwidthProfiler`: a session of `record` or `top`, from the parts. What the machine answers
-- in a session is a record.
pub mod Session
pub mod Recorded
pub mod Main
pub mod Top
pub mod Sample
mod Tests
use hmsdk.Base.{
  ℕ, Bool, Option, none, some, List, [], ◌∷◌, ◌++◌, is_empty, Bytes, codes, if◌then◌else◌,
}
use hmsdk.Base.Int.{ℤ, negsuc}
use hmsdk.Bwprof.Result.{Result, ok, throw, undefined, ◌>>=◌, ◌>>◌}
use hmsdk.Bwprof.Config.{Config}
use hmsdk.Bwprof.Double.{Double}
use hmsdk.Bwprof.Pcm.{Pcm}
use hmsdk.Bwprof.Output.{
  OutputFormatter, Shown, new_formatter, set_num_sockets, open_csv_file, write_csv_header,
}
use hmsdk.Bwprof.Process.{
  ProcessExecutor, new_executor, Fork, Executed, execvp, started, execute_command, Blocked,
  ExitReport, finish,
}
use hmsdk.Bwprof.Monitor.{Monitor, Round, Progress, stopped, looped, begin_monitor, run_rounds}
use hmsdk.Bwprof.Info.Collect.{Machine, collect_and_save}
use hmsdk.Bwprof.Files.{FileSystem}
use hmsdk.Bwprof.Directory.{Action, prepare_data_directory}

-- What the machine answers, in the order in which it is asked.
pub record World (S D : Type 0) : Type 0 where
  -- `program()` gives `Success`
  pub programmed : Bool
  -- what `checkError` does about the status of `programServerUncoreMemoryMetrics`
  pub metrics : Result (Unit {0})
  pub csv_opens : Bool
  pub forked : Fork
  pub machine : Machine
  pub info_opens : Bool
  -- the tick count and the counters before the loop
  pub first_time : ℕ
  pub first_states : ℕ → S
  pub rounds : List (Round S D)
  -- the wait at the end of the session
  pub blocked : Blocked

-- How a session ends, with the text of info.txt if it is a recording.
pub data Ended (S D : Type 0) : Type 0 where
  -- in the child: the command
  becomes : List Bytes → Ended S D
  -- the loop still runs behind the rounds
  monitors : Option Bytes → Monitor S → List (Shown D) → Ended S D
  -- the command has exited
  finished : Option Bytes → Monitor S → ExitReport → Ended S D

-- `PCMManager::initialize`
abbrev pub pcm_initialize : Bool → Result (Unit {0})
pcm_initialize programmed = if programmed then ok tt else throw (codes "Failed to initialize PCM")

abbrev pub join_args : List Bytes → Bytes
join_args [] = []
join_args (arg ∷ args) = codes " " ++ (arg ++ join_args args)

pub full_cmdline : List Bytes → Bytes
full_cmdline args =
    codes "bwprof record" ++ ((if is_empty args then [] else codes " --") ++ join_args args)

-- The optional command: there is no child without one.
abbrev pub start_command : List Bytes → Fork → Result Executed × ProcessExecutor
start_command args forked =
    if is_empty args
    then (ok (started (negsuc 0)), new_executor)
    else execute_command args forked new_executor

module _ {S : Type 0} (pcm : Pcm S) {D : Type 0} ⦃d : Double D⦄ (config : Config)
    (world : World S D) where
  open world use {
    programmed, metrics, csv_opens, forked, machine, info_opens, first_time, first_states, rounds,
    blocked,
  }

  -- The tables are made in `begin_monitor`.
  pub initialize : OutputFormatter → Result OutputFormatter
  initialize f = do pcm_initialize programmed; metrics; ok (set_num_sockets f pcm.num_sockets)

  -- The end of `runRecordMode` and `runTopMode`, behind the loop.
  abbrev pub after_loop : Option Bytes → ℤ → Progress S D → Result (Ended S D)
  after_loop info child_pid (looped m shown) = ok (monitors info m shown)
  after_loop info child_pid (stopped m) = do
    (executor, report) ← finish child_pid blocked m.executor
    ok (finished info (record m { executor = executor }) report)

  abbrev pub monitoring : Option Bytes → OutputFormatter → ProcessExecutor → ℤ → Result (Ended S D)
  monitoring info f executor child_pid =
      run_rounds pcm config rounds (begin_monitor pcm first_time first_states f executor) []
      >>= after_loop info child_pid

  abbrev pub after_start : OutputFormatter → ProcessExecutor → Executed → Result (Ended S D)
  after_start f executor (execvp args) = ok (becomes args)
  after_start f executor (started child_pid) = do
    info ← collect_and_save d machine config.data_dir (full_cmdline config.command_args) info_opens
    monitoring (some info) f executor child_pid

  -- `runRecordMode` behind the data directory.
  pub record_session : Result (Ended S D)
  record_session = do
    initialized ← initialize (new_formatter config)
    opened ← open_csv_file config config.data_dir csv_opens initialized
    f ← write_csv_header config opened
    let (result, executor) = start_command config.command_args forked
    executed ← result
    after_start f executor executed

  abbrev pub after_top_start : OutputFormatter → ProcessExecutor → Executed → Result (Ended S D)
  after_top_start f executor (execvp args) = ok (becomes args)
  after_top_start f executor (started child_pid) = monitoring none f executor child_pid

  pub run_top_mode : Result (Ended S D)
  run_top_mode = do
    f ← initialize (new_formatter config)
    let (result, executor) = start_command config.command_args forked
    executed ← result
    after_top_start f executor executed

  abbrev pub behind_directory : {F : Type 0} → Result (Unit {0}) × F → Result (Ended S D) × F
  behind_directory (ok _, f) = (record_session, f)
  behind_directory (throw e, f) = (throw e, f)
  behind_directory (undefined, f) = (undefined, f)

  -- With the state of the file system behind the preparation of the data directory.
  pub run_record_mode : {F : Type 0} → FileSystem F → F → Result (Ended S D) × F
  run_record_mode files f = behind_directory (prepare_data_directory files config.data_dir f)
