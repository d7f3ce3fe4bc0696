-- ===== src/Bwprof/Directory/Kept.antt =====
-- What `prepareDataDirectory` leaves of an earlier recording.
use hmsdk.Base.{
  ◌≡◌, refl, ◌⊎◌, inl, inr, ap, ◌∙◌, if◌then◌else◌, Bool, true, false, Bool-cases, some, Bytes,
  codes,
}
use hmsdk.Bwprof.Result.{Result, ok, throw, undefined}
use hmsdk.Bwprof.Files.{
  FileSystem, IsFileSystem, ends_with_slash, dir_exists, create_dir, rename_path,
  remove_path_recursive,
}
use hmsdk.Bwprof.Files.Laws.{
  entry-create_dir, create_dir_fails, create_dir_beside, entry-rename_path, rename_path_fails,
  remove_path_recursive_beside,
}
use hmsdk.Bwprof.Directory.{
  Action, or_throw, goes_on, backup_of, remove_backup, rename_to_backup, move_existing, create_new,
  prepare_data_directory,
}

-- What holds of the state that an action leaves, where it returns and where it throws.
unfoldable pub Ends : {F : Type 0} → (F → Type 0) → (F → Type 0) → Result (Unit {0}) × F → Type 0
Ends P Q (ok _, f) = P f
Ends P Q (throw _, f) = Q f
Ends P Q (undefined, f) = ⊥

if_true : {A : Type 0} {b : Bool} (x y : A) → b ≡ true → (if b then x else y) ≡ x
if_true x y e = rw e refl

if_false : {A : Type 0} {b : Bool} (x y : A) → b ≡ false → (if b then x else y) ≡ y
if_false x y e = rw e refl

Ends-goes_on :
    {F : Type 0} (P P' Q : F → Type 0) (r : Result (Unit {0}) × F) (next : Action F)
    → Ends P Q r
    → ((f : F) → P f → Ends P' Q (next f))
    → Ends P' Q (goes_on r next)
unfolding Ends
Ends-goes_on P P' Q (ok _, f) next h k = k f h
Ends-goes_on P P' Q (throw _, f) next h k = h
Ends-goes_on P P' Q (undefined, f) next h k = elim h [ ]

Ends-or_throw :
    {F : Type 0} (P Q : F → Type 0) (message : Bytes) (r : Bool × F)
    → (r.0 ≡ true → P r.1)
    → (r.0 ≡ false → Q r.1)
    → Ends P Q (or_throw message r)
unfolding Ends
Ends-or_throw P Q message (true, f) h k = h refl
Ends-or_throw P Q message (false, f) h k = k refl

module _ {F Entry : Type 0} (c : FileSystem F) (l : IsFileSystem c Entry) (data_dir : Bytes)
    (plain : ends_with_slash data_dir ≡ false) (before : F) where
  -- The entry of the data directory is still in its place, or in that of the backup.
  abbrev pub InPlace : F → Type 0
  InPlace f = l.entry data_dir f ≡ l.entry data_dir before

  abbrev pub InBackup : F → Type 0
  InBackup f = l.entry (backup_of data_dir) f ≡ l.entry data_dir before

  abbrev pub IsKept : F → Type 0
  IsKept f = InPlace f ⊎ InBackup f

  remove_backup-InPlace : (f : F) → InPlace f → Ends InPlace IsKept (remove_backup c data_dir f)
  unfolding Ends
  remove_backup-InPlace f h = elim (Bool-cases (dir_exists c (backup_of data_dir) f)) [
    | inl there ↦
        let same =
          remove_path_recursive_beside c l data_dir (codes ".old") f plain refl (λ e. cc) in
        rw there (
          Ends-or_throw InPlace IsKept _ (remove_path_recursive c (backup_of data_dir) f)
            (λ _. same ∙ h) (λ _. inl (same ∙ h)))
    | inr absent ↦ rw absent h
  ]

  -- An existing directory has become the backup, and otherwise nothing has happened.
  abbrev Moved : F → Type 0
  Moved f = if dir_exists c data_dir before then InBackup f else f ≡ before

  rename_to_backup-Moved :
      (f : F)
      → dir_exists c data_dir before ≡ true
      → InPlace f
      → Ends Moved IsKept (rename_to_backup c data_dir f)
  rename_to_backup-Moved f there h =
      Ends-or_throw Moved IsKept _ (rename_path c data_dir (backup_of data_dir) f)
        (λ e. rw there (entry-rename_path c l data_dir (backup_of data_dir) f e ∙ h))
        (λ e. inl (rename_path_fails c l data_dir (backup_of data_dir) data_dir f e ∙ h))

  move_existing-Moved : Ends Moved IsKept (move_existing c data_dir before)
  unfolding Ends
  move_existing-Moved = elim (Bool-cases (dir_exists c data_dir before)) [
    | inl there ↦ rw (if_true _ _ there) (
        Ends-goes_on InPlace Moved IsKept (remove_backup c data_dir before)
          (rename_to_backup c data_dir) (remove_backup-InPlace before refl)
          (λ f h. rename_to_backup-Moved f there h))
    | inr absent ↦ rw (if_false _ _ absent) (rw absent refl)
  ]

  -- The data directory is new, and the backup is what the data directory was, or as before if there
  -- was none.
  abbrev pub IsPrepared : F → Type 0
  IsPrepared f =
      (l.entry data_dir f ≡ some l.new_directory)
      × (if dir_exists c data_dir before
          then InBackup f
          else l.entry (backup_of data_dir) f ≡ l.entry (backup_of data_dir) before)

  create_new-IsPrepared : (f : F) → Moved f → Ends IsPrepared IsKept (create_new c data_dir f)
  create_new-IsPrepared f h =
      let same = create_dir_beside c l data_dir (codes ".old") f plain refl (λ e. cc) in
      elim (Bool-cases (dir_exists c data_dir before)) [
        | inl there ↦
            Ends-or_throw IsPrepared IsKept _ (create_dir c data_dir f)
              (λ e. (entry-create_dir c l data_dir f e, rw there (same ∙ (rw there at h))))
              (λ _. inr (same ∙ (rw there at h)))
        | inr absent ↦
            Ends-or_throw IsPrepared IsKept _ (create_dir c data_dir f)
              (λ e. (
                entry-create_dir c l data_dir f e,
                rw absent (same ∙ ap (l.entry (backup_of data_dir)) (rw absent at h)),
              ))
              (λ e.
                inl (create_dir_fails c l data_dir f e ∙ ap (l.entry data_dir) (rw absent at h)))
      ]

  -- An earlier recording is not lost: if `prepareDataDirectory` returns, then the data directory is
  -- new, and what was the data directory is the backup (which is as before if there was none); if
  -- it throws, wherever that is, then what was the data directory is still in its place or is the
  -- backup. This is for a name that does not end in a slash.
  pub prepare_data_directory-Ends :
      Ends IsPrepared IsKept (prepare_data_directory c data_dir before)
  unfolding prepare_data_directory
  prepare_data_directory-Ends =
      Ends-goes_on Moved IsPrepared IsKept (move_existing c data_dir before) (create_new c data_dir)
        move_existing-Moved create_new-IsPrepared
