-- ===== src/Bwprof/Profiler/Main/Tests.antt =====
-- Runs of bwprof on the small machine and the small file system.
use hmsdk.Base.{true, false, ℕ, ◌≡◌, refl, ◌≢◌, none, same_text, some, List, [], ◌∷◌, arith, codes}
use hmsdk.Bwprof.Config.{Config, default_config, report, top}
use hmsdk.Bwprof.Process.{silent}
use hmsdk.Bwprof.Monitor.{Monitor}
use hmsdk.Bwprof.Sample.{whole_double, word_signed, whole-IsPrinted, small_pcm}
use hmsdk.Bwprof.Profiler.{finished}
use hmsdk.Bwprof.Files.Sample.{Disk, update, disk, disk-IsFileSystem}
use hmsdk.Base.Decimal.{stoi}
use hmsdk.Bwprof.Files.{dir_exists, create_dir}
use hmsdk.Bwprof.Directory.{prepare_data_directory}
use hmsdk.Bwprof.Options.{Key, key_arg, key_socket, key_end, parse_option, parse_keys}
use hmsdk.Bwprof.Profiler.Main.{Saved, succeeds, profiled, reported, invalid_help, main}
use hmsdk.Bwprof.Directory.Kept.{IsPrepared, IsKept}
use hmsdk.Bwprof.Profiler.Main.Kept.{Keeps, main-Keeps}
use hmsdk.Bwprof.Profiler.Top.{FilelessExit, with_files, main-FilelessExit}
use hmsdk.Bwprof.Files.{FileSystem}
use hmsdk.Bwprof.Profiler.Main.Ways.{main-ne-invalid_help, main-recording}
use hmsdk.Bwprof.Profiler.Recorded.{report_of}
use hmsdk.Bwprof.Profiler.Sample.{machine, true_config, measurement, exit_round, world, info, later}

abbrev record_keys : List Key
record_keys =
    key_socket (codes "1")
    ∷ key_arg 0 (some (codes "record"))
    ∷ key_arg 1 (some (codes "true"))
    ∷ key_end
    ∷ []

abbrev report_keys : List Key
report_keys = key_arg 0 (some (codes "report")) ∷ key_end ∷ []

abbrev report_config : Config
report_config = record default_config { command = report }

abbrev no_files : Saved
no_files = record { csv = none; info_file = none; load = none }

abbrev no_disk : Disk
no_disk _ = none

abbrev new_disk : Disk
new_disk = (prepare_data_directory disk (codes "bwprof.data") no_disk).1

main-ne-invalid_help_example :
    (main small_pcm word_signed disk no_files
      (world [])
      (key_arg 0 (some (codes "invalid")) ∷ [])
      no_disk).0
    ≢ invalid_help
main-ne-invalid_help_example =
    main-ne-invalid_help small_pcm word_signed disk no_files (world [])
      (key_arg 0 (some (codes "invalid")) ∷ []) no_disk

main-recording_example :
    (m : Monitor ℕ) × (main small_pcm word_signed disk no_files
        (world (measurement ∷ exit_round ∷ []))
        record_keys
        no_disk
      ≡ (succeeds (profiled (finished (some info) m silent)), new_disk))
    × (main small_pcm word_signed disk
          (record no_files { csv = m.formatter.csv_file })
          (world [])
          report_keys
          new_disk
        ≡ (
          succeeds (
              reported (
                report_of small_pcm true_config whole-IsPrinted
                  (world (measurement ∷ exit_round ∷ []))
                  (measurement ∷ []))),
          new_disk,
        ))
unfolding parse_keys parse_option stoi same_text prepare_data_directory dir_exists create_dir
main-recording_example =
    main-recording small_pcm word_signed disk whole-IsPrinted no_files
      (world (measurement ∷ exit_round ∷ [])) (world []) record_keys report_keys true_config
      report_config no_disk new_disk (measurement ∷ []) info refl refl later (omega arith) refl refl
      refl

-- A directory from an earlier session.
abbrev earlier : Disk
earlier = update no_disk (codes "bwprof.data") (some 7)

main-Keeps_example :
    Keeps small_pcm word_signed disk disk-IsFileSystem no_files
      (world [])
      (IsPrepared disk disk-IsFileSystem (codes "bwprof.data") refl earlier)
      (IsKept disk disk-IsFileSystem (codes "bwprof.data") refl earlier)
      (main small_pcm word_signed disk no_files (world []) record_keys earlier)
unfolding parse_keys parse_option stoi same_text
main-Keeps_example =
    main-Keeps small_pcm word_signed disk disk-IsFileSystem no_files (world []) record_keys
      true_config earlier refl refl refl

-- `bwprof top`
abbrev top_keys : List Key
top_keys = key_arg 0 (some (codes "top")) ∷ key_end ∷ []

abbrev top_config : Config
top_config = record default_config { command = top }

-- A disk on which nothing can be opened or made.
abbrev broken_disk : FileSystem Disk
broken_disk = record disk { create_directories = λ p f. ((false, true), f) }

main-FilelessExit_example :
    (main small_pcm word_signed disk no_files (world (measurement ∷ [])) top_keys earlier
      ≡ main small_pcm word_signed broken_disk no_files
          (with_files false false machine (world (measurement ∷ [])))
          top_keys
          earlier)
    × ((main small_pcm word_signed disk no_files (world (measurement ∷ [])) top_keys earlier).1
        ≡ earlier)
    × FilelessExit
        (main small_pcm word_signed disk no_files (world (measurement ∷ [])) top_keys earlier).0
unfolding parse_keys parse_option same_text
main-FilelessExit_example =
    main-FilelessExit small_pcm word_signed disk broken_disk no_files no_files
      (world (measurement ∷ [])) false false machine top_keys top_config earlier refl refl
