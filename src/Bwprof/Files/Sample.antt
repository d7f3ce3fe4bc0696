-- ===== src/Bwprof/Files/Sample.antt =====
-- A small file system, which holds a number for each directory, to run the code on, and what is
-- documented of it.
use hmsdk.Base.{
  ℕ, ◌≡◌, refl, sym, ap, ◌∙◌, ◌≢◌, Bool, true, false, inl, inr, Bool-cases, Option, none, some, [],
  ◌∷◌, ◌++◌, Bytes, same_text, same_text_iff, same_text_refl, length, length-append, if◌then◌else◌,
  arith,
}
use hmsdk.Bwprof.Files.{Coded, FileSystem, IsFileSystem}

abbrev pub Disk : Type 0
Disk = Bytes → Option ℕ

abbrev pub update : Disk → Bytes → Option ℕ → Disk
update f p e q = if same_text p q then e else f q

abbrev pub is_some : Option ℕ → Bool
is_some none = false
is_some (some _) = true

abbrev pub disk_create : Option ℕ → Bytes → Disk → Coded Bool × Disk
disk_create none p f = ((true, false), update f p (some 0))
disk_create (some _) p f = ((false, false), f)

abbrev pub disk_rename : Option ℕ → Bytes → Bytes → Disk → Bool × Disk
disk_rename none p q f = (true, f)
disk_rename (some n) p q f = (false, update (update f p none) q (some n))

abbrev pub disk : FileSystem Disk
disk = record {
  exists = λ p f. (is_some (f p), false);
  is_regular_file = λ p f. (false, false);
  is_directory = λ p f. (is_some (f p), false);
  create_directories = λ p f. disk_create (f p) p f;
  rename = λ p q f. disk_rename (f p) p q f;
  remove_all = λ p f. ((1, false), update f p none);
}

pub update_self : (f : Disk) (p : Bytes) (e : Option ℕ) → update f p e p ≡ e
update_self f p e = rw (same_text_refl p) refl

pub append_ne : (p s : Bytes) → s ≢ [] → same_text (p ++ s) p ≡ false
append_ne p s h = elim (Bool-cases (same_text (p ++ s) p)) [
  | inl same ↦ absurd (h (nil s (ap length ((same_text_iff (p ++ s) p).0 same))))
  | inr other ↦ other
]
  where
    nil : (s : Bytes) → length (p ++ s) ≡ length p → s ≡ []
    nil [] e = refl
    nil (c ∷ s) e = absurd (omega (arith, length-append {0} p (c ∷ s)))

pub same_text_comm : (p q : Bytes) → same_text p q ≡ false → same_text q p ≡ false
same_text_comm p q h = elim (Bool-cases (same_text q p)) [
  | inl same ↦ cc (h, (same_text_iff p q).1 (sym ((same_text_iff q p).0 same)))
  | inr other ↦ other
]

pub create_lem :
    (o : Option ℕ) (p : Bytes) (f : Disk)
    → (disk_create o p f).0 ≡ (true, false)
    → (disk_create o p f).1 p ≡ some 0
create_lem none p f e = update_self f p (some 0)
create_lem (some n) p f e = cc (ap (λ (r : Coded Bool). r.0) e)

pub create_beside :
    (o : Option ℕ) (p s : Bytes) (f : Disk) → s ≢ [] → (disk_create o p f).1 (p ++ s) ≡ f (p ++ s)
create_beside none p s f h = rw (same_text_comm (p ++ s) p (append_ne p s h)) refl
create_beside (some n) p s f h = refl

pub create_fails :
    (o : Option ℕ) (p : Bytes) (f : Disk)
    → (disk_create o p f).0 ≢ (true, false)
    → (disk_create o p f).1 p ≡ f p
create_fails none p f h = absurd (h refl)
create_fails (some n) p f h = refl

pub rename_lem :
    (o : Option ℕ) (p q : Bytes) (f : Disk)
    → f p ≡ o
    → (disk_rename o p q f).0 ≡ false
    → (disk_rename o p q f).1 q ≡ f p
rename_lem none p q f o e = cc
rename_lem (some n) p q f o e = update_self (update f p none) q (some n) ∙ sym o

pub rename_fails :
    (o : Option ℕ) (p q r : Bytes) (f : Disk)
    → (disk_rename o p q f).0 ≡ true
    → (disk_rename o p q f).1 r ≡ f r
rename_fails none p q r f e = refl
rename_fails (some n) p q r f e = cc

pub remove_beside : (p s : Bytes) (f : Disk) → s ≢ [] → update f (p ++ s) none p ≡ f p
remove_beside p s f h = rw (append_ne p s h) refl

abbrev pub disk-IsFileSystem : IsFileSystem disk ℕ
disk-IsFileSystem = record {
  new_directory = 0;
  entry = λ p f. f p;
  entry-create_directories = λ p f e. create_lem (f p) p f e;
  create_directories_beside = λ p s f _ _ h. create_beside (f p) p s f h;
  create_directories_fails = λ p f h. create_fails (f p) p f h;
  entry-rename = λ p q f e. rename_lem (f p) p q f refl e;
  rename_fails = λ p q r f e. rename_fails (f p) p q r f e;
  remove_all_beside = λ p s f _ _ h. remove_beside p s f h;
}
