-- ===== src/Bwprof/Files/Laws.antt =====
-- What `createDir`, `renamePath` and `removePathRecursive` do to the entries.
use hmsdk.Base.{◌≡◌, ◌≢◌, Bool, true, false, not, ◌&&◌, some, [], ◌++◌, Bytes, arith}
use hmsdk.Bwprof.Files.{
  Coded, FileSystem, IsFileSystem, ends_with_slash, starts_with_slash, create_dir, rename_path,
  remove_path_recursive,
}

both : (r : Coded Bool) → r.0 && not r.1 ≡ true → r ≡ (true, false)
both (r, ec) e = ground arith

module _ {F Entry : Type 0} (c : FileSystem F) (l : IsFileSystem c Entry) where
  pub entry-create_dir :
      (p : Bytes) (f : F)
      → (create_dir c p f).0 ≡ true
      → l.entry p (create_dir c p f).1 ≡ some l.new_directory
  unfolding create_dir
  entry-create_dir p f e = l.entry-create_directories p f (both (c.create_directories p f).0 e)

  pub create_dir_fails :
      (p : Bytes) (f : F)
      → (create_dir c p f).0 ≡ false
      → l.entry p (create_dir c p f).1 ≡ l.entry p f
  unfolding create_dir
  create_dir_fails p f e = l.create_directories_fails p f (λ h. ground arith)

  pub create_dir_beside :
      (p s : Bytes) (f : F)
      → ends_with_slash p ≡ false
      → starts_with_slash s ≡ false
      → s ≢ []
      → l.entry (p ++ s) (create_dir c p f).1 ≡ l.entry (p ++ s) f
  unfolding create_dir
  create_dir_beside = l.create_directories_beside

  pub entry-rename_path :
      (p q : Bytes) (f : F)
      → (rename_path c p q f).0 ≡ true
      → l.entry q (rename_path c p q f).1 ≡ l.entry p f
  unfolding rename_path
  entry-rename_path p q f e = l.entry-rename p q f (ground arith)

  pub rename_path_fails :
      (p q r : Bytes) (f : F)
      → (rename_path c p q f).0 ≡ false
      → l.entry r (rename_path c p q f).1 ≡ l.entry r f
  unfolding rename_path
  rename_path_fails p q r f e = l.rename_fails p q r f (ground arith)

  pub remove_path_recursive_beside :
      (p s : Bytes) (f : F)
      → ends_with_slash p ≡ false
      → starts_with_slash s ≡ false
      → s ≢ []
      → l.entry p (remove_path_recursive c (p ++ s) f).1 ≡ l.entry p f
  unfolding remove_path_recursive
  remove_path_recursive_beside = l.remove_all_beside
