-- ===== src/Bwprof/Directory/Tests.antt =====
-- An earlier recording in the small file system.
use hmsdk.Base.{◌≡◌, refl, none, some, codes, same_text}
use hmsdk.Bwprof.Files.{dir_exists, create_dir, rename_path, remove_path_recursive}
use hmsdk.Bwprof.Files.Sample.{Disk, update, disk, disk-IsFileSystem}
use hmsdk.Bwprof.Directory.{prepare_data_directory}
use hmsdk.Bwprof.Directory.Kept.{Ends, IsPrepared, IsKept, prepare_data_directory-Ends}

-- A recording 7 with a backup 3.
abbrev recorded : Disk
recorded = update (update (λ _. none) (codes "data") (some 7)) (codes "data.old") (some 3)

prepares : (prepare_data_directory disk (codes "data") recorded).1 (codes "data.old") ≡ some 7
unfolding prepare_data_directory dir_exists create_dir rename_path remove_path_recursive same_text
prepares = refl

prepare_data_directory-Ends_example :
    Ends
      (IsPrepared disk disk-IsFileSystem (codes "data") refl recorded)
      (IsKept disk disk-IsFileSystem (codes "data") refl recorded)
      (prepare_data_directory disk (codes "data") recorded)
prepare_data_directory-Ends_example =
    prepare_data_directory-Ends disk disk-IsFileSystem (codes "data") refl recorded
