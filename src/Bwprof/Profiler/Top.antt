-- ===== src/Bwprof/Profiler/Top.antt =====
-- A session of `top`, and the files that it leaves.
use hmsdk.Base.{ℕ, Bool, ◌≡◌, refl, ap, ◌∙◌, subst, sym, none, List, []}
use hmsdk.Base.Int.{ℤ}
use hmsdk.Bwprof.Result.{
  Result, ok, throw, undefined, ◌>>=◌, ◌>>◌, Returns, Returns-bind, Returns-any,
}
use hmsdk.Bwprof.Config.{Config, default_config, top}
use hmsdk.Bwprof.Double.{Double, Signed}
use hmsdk.Bwprof.Pcm.{Pcm}
use hmsdk.Bwprof.Output.{OutputFormatter, new_formatter, set_num_sockets}
use hmsdk.Bwprof.Process.{ProcessExecutor, Executed, execvp, started, finish, ExitReport}
use hmsdk.Bwprof.Monitor.Closed.{Closed, ClosedProgress, run_rounds-Closed}
use hmsdk.Bwprof.Monitor.{Progress, stopped, looped, begin_monitor, run_rounds}
use hmsdk.Bwprof.Info.Collect.{Machine}
use hmsdk.Bwprof.Files.{FileSystem}
use hmsdk.Bwprof.Options.{Key, goes_on, parse_keys}
use hmsdk.Bwprof.Profiler.{
  World, Ended, becomes, monitors, finished, initialize, pcm_initialize, start_command, after_loop,
  monitoring, after_top_start, run_top_mode,
}
use hmsdk.Bwprof.Profiler.Main.{
  Saved, Exit, succeeds, error, crashes, profiled, map_result, caught, caught_at, run, run_command,
  dispatch, main,
}
use hmsdk.Bwprof.Profiler.Main.Ways.{main-eq}

-- A session that has no bwprof.csv and no info.txt.
abbrev pub Fileless : {S D : Type 0} → Ended S D → Type 0
Fileless (becomes args) = Unit
Fileless (monitors info m shown) = (info ≡ none) × Closed m.formatter
Fileless (finished info m report) = (info ≡ none) × Closed m.formatter

-- `main` has ended with such a session, or without a session.
pub FilelessExit : {S D : Type 0} → Exit S D → Type 0
FilelessExit (succeeds (profiled ended)) = Fileless ended
FilelessExit (error message) = Unit
FilelessExit crashes = Unit
FilelessExit _ = ⊥

module _ {S : Type 0} (pcm : Pcm S) {D : Type 0} ⦃d : Double D⦄ (config : Config)
    (mode : config.command ≡ top) (world : World S D) where
  set_num_sockets-Closed : (f : OutputFormatter) (n : ℕ) → Closed f → Closed (set_num_sockets f n)
  unfolding set_num_sockets
  set_num_sockets-Closed f n h = h

  new_formatter-Closed : Closed (new_formatter config)
  unfolding new_formatter
  new_formatter-Closed = refl

  initialize-Closed : Returns Closed (initialize pcm config world (new_formatter config))
  unfolding initialize
  initialize-Closed = go (pcm_initialize world.programmed) world.metrics
    where
      go :
          (p q : Result (Unit {0}))
          → Returns Closed (p >> (q >> ok (set_num_sockets (new_formatter config) pcm.num_sockets)))
      go (ok _) (ok _) =
          set_num_sockets-Closed (new_formatter config) pcm.num_sockets new_formatter-Closed
      go (ok _) (throw _) = tt
      go (ok _) undefined = tt
      go (throw _) q = tt
      go undefined q = tt

  after_loop-Fileless :
      (child_pid : ℤ) (p : Progress S D)
      → ClosedProgress pcm config mode p
      → Returns Fileless (after_loop pcm config world none child_pid p)
  after_loop-Fileless child_pid (looped m shown) h = (refl, h)
  after_loop-Fileless child_pid (stopped m) h = go (finish child_pid world.blocked m.executor)
    where
      go :
          (q : Result (ProcessExecutor × ExitReport))
          → Returns
              (Fileless {S = S} {D = D})
              (q >>= λ r. ok (finished none (record m { executor = r.0 }) r.1))
      go (ok r) = (refl, h)
      go (throw _) = tt
      go undefined = tt

  monitoring-Fileless :
      (f : OutputFormatter) (executor : ProcessExecutor) (child_pid : ℤ)
      → Closed f
      → Returns Fileless (monitoring pcm config world none f executor child_pid)
  unfolding begin_monitor
  monitoring-Fileless f executor child_pid h =
      let m = begin_monitor pcm world.first_time world.first_states f executor in
      Returns-bind (ClosedProgress pcm config mode) Fileless
        (run_rounds pcm config world.rounds m []) (after_loop pcm config world none child_pid)
        (run_rounds-Closed pcm config mode world.rounds m [] h) (after_loop-Fileless child_pid)

  after_top_start-Fileless :
      (f : OutputFormatter) (executor : ProcessExecutor) (e : Executed)
      → Closed f
      → Returns Fileless (after_top_start pcm config world f executor e)
  after_top_start-Fileless f executor (execvp args) h = tt
  after_top_start-Fileless f executor (started child_pid) h =
      monitoring-Fileless f executor child_pid h

  run_top_mode-Fileless : Returns Fileless (run_top_mode pcm config world)
  unfolding run_top_mode
  run_top_mode-Fileless =
      Returns-bind Closed Fileless (initialize pcm config world (new_formatter config)) _
        initialize-Closed
        (λ f h.
          let (result, executor) = start_command config.command_args world.forked in
          Returns-bind (λ _. Unit {0}) Fileless result (after_top_start pcm config world f executor)
            (Returns-any result) (λ e _. after_top_start-Fileless f executor e h))

-- The same machine, where files and what is collected for info.txt answer otherwise.
abbrev pub with_files : {S D : Type 0} → Bool → Bool → Machine → World S D → World S D
with_files csv_opens info_opens machine world = record world {
  csv_opens = csv_opens;
  info_opens = info_opens;
  machine = machine;
}

run_top_mode-with_files :
    {S D : Type 0} ⦃d : Double D⦄ (pcm : Pcm S) (config : Config) (world : World S D)
    (csv_opens info_opens : Bool) (machine : Machine)
    → run_top_mode pcm config world
      ≡ run_top_mode pcm config (with_files csv_opens info_opens machine world)
unfolding run_top_mode initialize
run_top_mode-with_files pcm config world csv_opens info_opens machine = refl

module _ {S : Type 0} (pcm : Pcm S) {D : Type 0} ⦃d : Double D⦄ (s : Signed D) {F : Type 0}
    (files : FileSystem F) (saved : Saved) (world : World S D) where
  dispatch-top :
      (config : Config) (f : F)
      → config.command ≡ top
      → dispatch pcm s files saved world config.command config f
        ≡ (caught pcm s files saved world (map_result profiled (run_top_mode pcm config world)), f)
  unfolding run
  dispatch-top config f mode =
      ap (λ c. dispatch pcm s files saved world c config f) mode
      ∙ ap (λ c. caught_at pcm s files saved world (run_command pcm s files saved world c config f))
          mode

  caught-FilelessExit :
      (r : Result (Ended S D))
      → Returns Fileless r
      → FilelessExit (caught pcm s files saved world (map_result profiled r))
  unfolding FilelessExit
  caught-FilelessExit (ok ended) h = h
  caught-FilelessExit (throw message) h = tt
  caught-FilelessExit undefined h = tt

  main-top :
      (keys : List Key) (config : Config) (f : F)
      → parse_keys keys default_config ≡ goes_on config
      → config.command ≡ top
      → main pcm s files saved world keys f
        ≡ (caught pcm s files saved world (map_result profiled (run_top_mode pcm config world)), f)
  main-top keys config f e mode =
      main-eq pcm s files saved world keys f e ∙ dispatch-top config f mode

module _ {S : Type 0} (pcm : Pcm S) {D : Type 0} ⦃d : Double D⦄ (s : Signed D) {F : Type 0} where
  -- `top` uses no file. A run of `main` comes to the same end, an error and its message included, and
  -- to the same state, whatever calls on files would answer: whether bwprof.csv and info.txt can be
  -- opened, what the calls on directories do, what the files of a recording hold, and what would be
  -- collected for info.txt. The state of the file system is as before, and where a session goes on
  -- or finishes, it has no bwprof.csv and no info.txt. This is for command lines that argp accepts.
  pub main-FilelessExit :
      (files files' : FileSystem F) (saved saved' : Saved) (world : World S D)
      (csv_opens info_opens : Bool) (machine : Machine) (keys : List Key) (config : Config) (f : F)
      → parse_keys keys default_config ≡ goes_on config
      → config.command ≡ top
      → (main pcm s files saved world keys f
          ≡ main pcm s files' saved' (with_files csv_opens info_opens machine world) keys f)
        × ((main pcm s files saved world keys f).1 ≡ f)
        × FilelessExit (main pcm s files saved world keys f).0
  main-FilelessExit files files' saved saved' world csv_opens info_opens machine keys config f e
        mode =
      let world' = with_files csv_opens info_opens machine world in
      let ended = main-top pcm s files saved world keys config f e mode in
      let session = run_top_mode-with_files pcm config world csv_opens info_opens machine in
      (
        ended
            ∙ ap (λ r. (caught pcm s files saved world (map_result profiled r), f)) session
            ∙ sym (main-top pcm s files' saved' world' keys config f e mode),
        ap (λ (r : Exit S D × F). r.1) ended,
        subst FilelessExit (sym (ap (λ (r : Exit S D × F). r.0) ended)) (
            caught-FilelessExit pcm s files saved world (run_top_mode pcm config world)
              (run_top_mode-Fileless pcm config mode world)),
      )
