-- ===== src/Bwprof/Profiler/Main/Kept.antt =====
-- What a run of `main` leaves of an earlier recording.
use hmsdk.Base.{◌≡◌, refl, sym, subst, ap, ◌∙◌, ◌⊎◌, inl, inr, false, Bytes, List}
use hmsdk.Bwprof.Result.{Result, ok, throw, undefined}
use hmsdk.Bwprof.Config.{Config, default_config, record_mode}
use hmsdk.Bwprof.Double.{Double, Signed}
use hmsdk.Bwprof.Pcm.{Pcm}
use hmsdk.Bwprof.Files.{FileSystem, IsFileSystem, ends_with_slash}
use hmsdk.Bwprof.Directory.{prepare_data_directory}
use hmsdk.Bwprof.Directory.Kept.{Ends, IsPrepared, IsKept, prepare_data_directory-Ends}
use hmsdk.Bwprof.Options.{Key, goes_on, parse_keys}
use hmsdk.Bwprof.Profiler.{World, behind_directory, run_record_mode}
use hmsdk.Bwprof.Profiler.Main.{
  Saved, Exit, error, profiled, map_result, caught_at, run, run_command, dispatch, main,
}
use hmsdk.Bwprof.Profiler.Main.Ways.{main-eq}

module _ {S : Type 0} (pcm : Pcm S) {D : Type 0} ⦃d : Double D⦄ (s : Signed D) {F Entry : Type 0}
    (files : FileSystem F) (l : IsFileSystem files Entry) (saved : Saved) (world : World S D) where
  -- Behind the data directory, or an error.
  abbrev pub Keeps : (F → Type 0) → (F → Type 0) → Exit S D × F → Type 0
  Keeps P Q r = P r.1 ⊎ ((message : Bytes) × (r.0 ≡ error message) × Q r.1)

  -- The exit of `main` for `record`, from the preparation of the data directory.
  abbrev exit_of : Config → Result (Unit {0}) × F → Exit S D × F
  exit_of config r =
      let (ended, f) = behind_directory pcm config world r in
      caught_at pcm s files saved world (map_result profiled ended, f)

  exit_of-Keeps :
      (config : Config) (P Q : F → Type 0) (r : Result (Unit {0}) × F)
      → Ends P Q r
      → Keeps P Q (exit_of config r)
  unfolding Ends
  exit_of-Keeps config P Q (ok _, f) h = inl h
  exit_of-Keeps config P Q (throw message, f) h = inr (message, refl, h)
  exit_of-Keeps config P Q (undefined, f) h = elim h [ ]

  dispatch-exit_of :
      (config : Config) (f : F)
      → config.command ≡ record_mode
      → dispatch pcm s files saved world config.command config f
        ≡ exit_of config (prepare_data_directory files config.data_dir f)
  unfolding run run_record_mode
  dispatch-exit_of config f mode =
      ap (λ c. dispatch pcm s files saved world c config f) mode
      ∙ ap (λ c. caught_at pcm s files saved world (run_command pcm s files saved world c config f))
          mode

  -- `record` never loses an earlier recording, however the run of `main` ends: either the data
  -- directory is new and what was the data directory is the backup (which is as before if there was
  -- none), or `main` ends with an error, and what was the data directory is still in its place or is
  -- the backup. This is for command lines that argp accepts, and for a name that does not end in a
  -- slash. The state is that behind the preparation: the files that a session writes into the data
  -- directory stand beside it.
  pub main-Keeps :
      (keys : List Key) (config : Config) (f : F) (plain : ends_with_slash config.data_dir ≡ false)
      → parse_keys keys default_config ≡ goes_on config
      → config.command ≡ record_mode
      → Keeps
          (IsPrepared files l config.data_dir plain f)
          (IsKept files l config.data_dir plain f)
          (main pcm s files saved world keys f)
  main-Keeps keys config f plain e mode =
      let P = IsPrepared files l config.data_dir plain f in
      let Q = IsKept files l config.data_dir plain f in
      subst (Keeps P Q)
        (sym (main-eq pcm s files saved world keys f e ∙ dispatch-exit_of config f mode))
        (exit_of-Keeps config P Q (prepare_data_directory files config.data_dir f)
          (prepare_data_directory-Ends files l config.data_dir plain f))
