-- ===== src/Bwprof/Directory.antt =====
-- `BandwidthProfiler::prepareDataDirectory`. A call gives its result with the state of the file system
-- that it leaves, also where it throws.
pub mod Kept
mod Tests
use hmsdk.Base.{Bool, true, false, ◌++◌, Bytes, codes, if◌then◌else◌}
use hmsdk.Bwprof.Result.{Result, ok, throw, undefined}
use hmsdk.Bwprof.Files.{FileSystem, dir_exists, create_dir, rename_path, remove_path_recursive}

-- A method with no result, on a state.
abbrev pub Action : Type 0 → Type 0
Action F = F → Result (Unit {0}) × F

abbrev pub done : {F : Type 0} → Action F
done f = (ok tt, f)

abbrev goes_on : {F : Type 0} → Result (Unit {0}) × F → Action F → Result (Unit {0}) × F
goes_on (ok _, f) next = next f
goes_on (throw e, f) next = (throw e, f)
goes_on (undefined, f) next = (undefined, f)

infixl 5 ◌>>◌
abbrev pub ◌>>◌ : {F : Type 0} → Action F → Action F → Action F
◌>>◌ m next f = goes_on (m f) next

-- `if (!success) throw …`
abbrev pub or_throw : {F : Type 0} → Bytes → Bool × F → Result (Unit {0}) × F
or_throw message (true, f) = (ok tt, f)
or_throw message (false, f) = (throw message, f)

abbrev pub backup_of : Bytes → Bytes
backup_of data_dir = data_dir ++ codes ".old"

module _ {F : Type 0} (c : FileSystem F) (data_dir : Bytes) where
  abbrev pub remove_backup : Action F
  remove_backup f =
      if dir_exists c (backup_of data_dir) f
      then or_throw (codes "Failed to remove existing backup directory: " ++ backup_of data_dir)
          (remove_path_recursive c (backup_of data_dir) f)
      else done f

  abbrev pub rename_to_backup : Action F
  rename_to_backup f =
      or_throw (codes "Failed to rename existing data directory to backup: " ++ data_dir)
        (rename_path c data_dir (backup_of data_dir) f)

  abbrev pub move_existing : Action F
  move_existing f =
      if dir_exists c data_dir f then (remove_backup >> rename_to_backup) f else done f

  abbrev pub create_new : Action F
  create_new f =
      or_throw (codes "Failed to create data directory: " ++ data_dir) (create_dir c data_dir f)

  unfoldable pub prepare_data_directory : Action F
  prepare_data_directory = move_existing >> create_new
