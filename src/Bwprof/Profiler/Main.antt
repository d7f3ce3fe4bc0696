-- ===== src/Bwprof/Profiler/Main.antt =====
-- `BandwidthProfiler::run` and `main`: from the command line to the end of the process.
pub mod Ways
pub mod Kept
mod Tests
use hmsdk.Base.{ℕ, Option, none, some, List, Bytes}
use hmsdk.Bwprof.Result.{Result, ok, throw, undefined, ◌>>=◌}
use hmsdk.Bwprof.Config.{
  Config, CommandType, default_config, record_mode, top, dump, report, info, help, invalid,
}
use hmsdk.Bwprof.Double.{Double, Signed}
use hmsdk.Bwprof.Pcm.{Pcm}
use hmsdk.Bwprof.Report.{Report, print_report}
use hmsdk.Bwprof.Dump.{print_dump}
use hmsdk.Bwprof.Info.{InfoLine, print_info}
use hmsdk.Bwprof.Files.{FileSystem}
use hmsdk.Bwprof.Options.{Key, Parsing, goes_on, fails, shows_help, parse_keys}
use hmsdk.Bwprof.Profiler.{World, Ended, run_record_mode, run_top_mode}

-- The two files of a recording, if they can be opened, and what `getloadavg` gives.
pub record Saved : Type 0 where
  pub csv : Option Bytes
  pub info_file : Option Bytes
  pub load : Option Bytes

-- What a command has done.
pub data Outcome (S D : Type 0) : Type 0 where
  profiled : Ended S D → Outcome S D
  dumped : Bytes → Outcome S D
  reported : Report D → Outcome S D
  informed : List InfoLine → Outcome S D
  -- nothing
  idle : Outcome S D

-- How the process ends, or goes on.
pub data Exit (S D : Type 0) : Type 0 where
  -- by argp, while it parses: with an error and its message, or with the help
  rejects : Bytes → Exit S D
  helps : Exit S D
  -- with status 0
  succeeds : Outcome S D → Exit S D
  -- the help list on request, with status 0
  requested_help : Exit S D
  -- the help list for `invalid`, with status 1
  invalid_help : Exit S D
  -- "Error: " with the message, with status 1
  error : Bytes → Exit S D
  crashes : Exit S D

abbrev pub map_result {ℓ κ} : {A : Type ℓ} {B : Type κ} → (A → B) → Result A → Result B
map_result g r = r >>= λ a. ok (g a)

module _ {S : Type 0} (pcm : Pcm S) {D : Type 0} ⦃d : Double D⦄ (s : Signed D) {F : Type 0}
    (files : FileSystem F) (saved : Saved) (world : World S D) where
  -- The branches that `run` and `main` share.
  abbrev pub print_saved : CommandType → Bytes → Result (Outcome S D)
  print_saved dump data_dir = map_result dumped (print_dump s data_dir saved.csv)
  print_saved report data_dir = map_result reported (print_report data_dir saved.csv)
  print_saved info data_dir = map_result informed (print_info data_dir saved.info_file saved.load)
  print_saved _ data_dir = ok idle

  abbrev pub run_command : CommandType → Config → F → Result (Outcome S D) × F
  run_command record_mode config f =
      let (ended, f') = run_record_mode pcm config world files f in (map_result profiled ended, f')
  run_command top config f = (map_result profiled (run_top_mode pcm config world), f)
  run_command command config f = (print_saved command config.data_dir, f)

  -- `run`
  unfoldable pub run : Config → F → Result (Outcome S D) × F
  run config f = run_command config.command config f

  -- `catch (const std::exception &e)`
  abbrev pub caught : Result (Outcome S D) → Exit S D
  caught (ok outcome) = succeeds outcome
  caught (throw message) = error message
  caught undefined = crashes

  abbrev pub caught_at : Result (Outcome S D) × F → Exit S D × F
  caught_at (result, f) = (caught result, f)

  -- The `switch` of `main`.
  abbrev pub dispatch : CommandType → Config → F → Exit S D × F
  dispatch record_mode config f = caught_at (run config f)
  dispatch top config f = caught_at (run config f)
  dispatch help config f = (requested_help, f)
  dispatch invalid config f = (invalid_help, f)
  dispatch command config f = (caught (print_saved command config.data_dir), f)

  abbrev pub after_parsing : Parsing → F → Exit S D × F
  after_parsing (goes_on config) f = dispatch config.command config f
  after_parsing (fails message) f = (rejects message, f)
  after_parsing shows_help f = (helps, f)

  -- With the calls that argp makes for the command line.
  pub main : List Key → F → Exit S D × F
  main keys f = after_parsing (parse_keys keys default_config) f
