-- ===== src/Bwprof/Files.antt =====
-- The functions of `utils` on files and directories. std::filesystem is a parameter: each of its calls gives a result
-- and whether the `std::error_code` is set.
pub mod Laws
pub mod Sample
use hmsdk.Base.{
  ℕ, ◌-◌, Bool, true, false, not, ◌&&◌, ◌≡◌, ◌≢◌, Option, none, some, List, [], ◌∷◌, ◌++◌, Bytes,
  ◌==◌, if◌then◌else◌,
}
use hmsdk.Base.Words.{u64_mod}

abbrev pub Coded : Type 0 → Type 0
Coded A = A × Bool

-- `F` is a state of the file system.
pub record FileSystem (F : Type 0) : Type 0 where
  pub exists : Bytes → F → Coded Bool
  pub is_regular_file : Bytes → F → Coded Bool
  pub is_directory : Bytes → F → Coded Bool
  pub create_directories : Bytes → F → Coded Bool × F
  -- the old and the new name; only the error code
  pub rename : Bytes → Bytes → F → Bool × F
  pub remove_all : Bytes → F → Coded ℕ × F

-- A path that ends in a slash.
abbrev pub ends_with_slash : Bytes → Bool
ends_with_slash [] = false
ends_with_slash (c ∷ []) = c == b'/'
ends_with_slash (c ∷ d ∷ s) = ends_with_slash (d ∷ s)

abbrev pub starts_with_slash : Bytes → Bool
starts_with_slash [] = false
starts_with_slash (c ∷ s) = c == b'/'

-- What the C++ library documents of the calls, where no two paths are links to the same place. An
-- entry is what a path leads to, a directory with all that it contains.
pub record IsFileSystem {F : Type 0} (c : FileSystem F) (Entry : Type 0) : Type 0 where
  pub new_directory : Entry
  pub entry : Bytes → F → Option Entry
  -- a directory that was created is empty, and what stands beside it is unchanged
  pub entry-create_directories :
      (p : Bytes) (f : F)
      → (c.create_directories p f).0 ≡ (true, false)
      → entry p (c.create_directories p f).1 ≡ some new_directory
  pub create_directories_beside :
      (p s : Bytes) (f : F)
      → ends_with_slash p ≡ false
      → starts_with_slash s ≡ false
      → s ≢ []
      → entry (p ++ s) (c.create_directories p f).1 ≡ entry (p ++ s) f
  pub create_directories_fails :
      (p : Bytes) (f : F)
      → (c.create_directories p f).0 ≢ (true, false)
      → entry p (c.create_directories p f).1 ≡ entry p f
  pub entry-rename :
      (p q : Bytes) (f : F) → (c.rename p q f).0 ≡ false → entry q (c.rename p q f).1 ≡ entry p f
  pub rename_fails :
      (p q r : Bytes) (f : F) → (c.rename p q f).0 ≡ true → entry r (c.rename p q f).1 ≡ entry r f
  pub remove_all_beside :
      (p s : Bytes) (f : F)
      → ends_with_slash p ≡ false
      → starts_with_slash s ≡ false
      → s ≢ []
      → entry p (c.remove_all (p ++ s) f).1 ≡ entry p f

module _ {F : Type 0} (c : FileSystem F) where
  -- The second call sets the error code anew.
  abbrev pub is_kind : Coded Bool → Coded Bool → Bool
  is_kind (exists, _) (is, ec) = exists && (is && not ec)

  pub file_exists : Bytes → F → Bool
  file_exists filename f = is_kind (c.exists filename f) (c.is_regular_file filename f)

  unfoldable pub dir_exists : Bytes → F → Bool
  dir_exists dirname f = is_kind (c.exists dirname f) (c.is_directory dirname f)

  abbrev pub created : Coded Bool × F → Bool × F
  created ((result, ec), f) = (result && not ec, f)

  unfoldable pub create_dir : Bytes → F → Bool × F
  create_dir dirname f = created (c.create_directories dirname f)

  abbrev pub renamed : Bool × F → Bool × F
  renamed (ec, f) = (not ec, f)

  unfoldable pub rename_path : Bytes → Bytes → F → Bool × F
  rename_path oldname newname f = renamed (c.rename oldname newname f)

  abbrev pub removed : Coded ℕ × F → Bool × F
  removed ((result, ec), f) = (not ec && not (result == u64_mod - 1), f)

  unfoldable pub remove_path_recursive : Bytes → F → Bool × F
  remove_path_recursive path f = removed (c.remove_all path f)
