-- ===== src/Bwprof/Info/Collect.antt =====
-- `SystemInfoCollector::collectAndSave`. What the machine answers is a record.
use hmsdk.Base.{
  ℕ, suc, ◌^◌, Bool, true, false, Option, none, some, List, [], ◌∷◌, ◌++◌, Bytes, codes, concat,
  ◌==◌, if◌then◌else◌,
}
use hmsdk.Base.Int.{ℤ, pos, negsuc}
use hmsdk.Base.Decimal.{to_decimal}
use hmsdk.Bwprof.Result.{Result, ok, throw, ◌>>=◌}
use hmsdk.Bwprof.Double.{Double}
use hmsdk.Bwprof.Split.{split_string}
use hmsdk.Bwprof.Info.{split_at_colon, after_prefix, contains_text}

pub record Machine : Type 0 where
  -- the text of `std::ctime`, which ends in a newline
  pub ctime : Bytes
  pub online_cpus : ℤ
  pub conf_cpus : ℤ
  -- the texts of /proc/cpuinfo and /etc/os-release, empty where a file cannot be opened
  pub cpuinfo : Bytes
  pub os_release : Bytes
  pub page_size : ℕ
  pub free_pages : ℕ
  pub total_pages : ℕ
  -- the name and the release of `uname`, and `gethostname`, if they succeed
  pub uname : Option (Bytes × Bytes)
  pub nodename : Option Bytes

-- `<<` of a `long`.
unfoldable pub print_long : ℤ → Bytes
print_long (pos n) = to_decimal n
print_long (negsuc n) = b'-' ∷ to_decimal (suc n)

-- `line.substr(colon_pos + 2)`, from the text behind the colon; `std::out_of_range` if that is empty.
abbrev pub skip_blank : Bytes → Result Bytes
skip_blank [] = throw (codes "basic_string::substr")
skip_blank (_ ∷ s) = ok s

-- The loop over the lines of /proc/cpuinfo, up to the first model name.
unfoldable pub cpu_model : List Bytes → Result Bytes
cpu_model [] = ok (codes "Unknown CPU")
cpu_model (line ∷ lines) =
    let rest = cpu_model lines in
    if contains_text (codes "model name") line
    then elim (split_at_colon line) [ none ↦ rest | some (_, behind) ↦ skip_blank behind ]
    else rest

-- What stands before the last character, and whether that is a quotation mark.
unfoldable pub before_quote : Bytes → Option Bytes
before_quote [] = none
before_quote (c ∷ []) = if c == b'"' then some [] else none
before_quote (c ∷ d ∷ s) = elim (before_quote (d ∷ s)) [ none ↦ none | some t ↦ some (c ∷ t) ]

-- A text in quotation marks without them; a single mark is both the first and the last character.
unfoldable pub remove_quotes : Bytes → Bytes
remove_quotes [] = []
remove_quotes (c ∷ []) = if c == b'"' then [] else c ∷ []
remove_quotes (c ∷ d ∷ s) =
    if c == b'"' then elim (before_quote (d ∷ s)) [ none ↦ c ∷ d ∷ s | some t ↦ t ] else c ∷ d ∷ s

-- The loop over the lines of /etc/os-release.
unfoldable pub distribution : List Bytes → Bytes
distribution [] = codes "Unknown distribution"
distribution (line ∷ lines) = elim (after_prefix (codes "PRETTY_NAME=") line) [
  | none ↦ distribution lines
  | some name ↦ remove_quotes name
]

abbrev pub kernel_line : Option (Bytes × Bytes) → Bytes
kernel_line none = codes "Unknown"
kernel_line (some (sysname, release)) = sysname ++ (codes " " ++ release)

abbrev pub hostname_line : Option Bytes → Bytes
hostname_line none = codes "Unknown"
hostname_line (some name) = name

abbrev pub cpus_value : Machine → Bytes
cpus_value machine =
    print_long machine.online_cpus
    ++ (codes " / " ++ (print_long machine.conf_cpus ++ codes " (online/possible)"))

module _ {D : Type 0} (d : Double D) (machine : Machine) where
  open d use {of_nat, mul, div, fixed}
  open machine use {ctime, cpuinfo, os_release, page_size, free_pages, total_pages, uname, nodename}

  abbrev pub terabytes : ℕ → D
  terabytes pages = div (mul (of_nat pages) (of_nat page_size)) (of_nat (2 ^ 40))

  abbrev pub meminfo_value : Bytes
  meminfo_value =
      fixed 1 (terabytes free_pages)
      ++ (codes " / " ++ (fixed 1 (terabytes total_pages) ++ codes " TB (free / total)"))

  -- The text of the file, from the command line and the CPU model.
  unfoldable pub info_text : Bytes → Bytes → Bytes
  info_text cmdline model = concat (
      codes "data_version:1\n"
      ∷ codes "cmdline:"
      ∷ cmdline
      ∷ codes "\nrecorded_time:"
      ∷ ctime
      ∷ codes "cpuinfo:lines=2\nnr_cpus:"
      ∷ cpus_value machine
      ∷ codes "\ndesc:"
      ∷ model
      ∷ codes "\nmeminfo:"
      ∷ meminfo_value
      ∷ codes "\nosinfo:lines=3\nkernel:"
      ∷ kernel_line uname
      ∷ codes "\nhostname:"
      ∷ hostname_line nodename
      ∷ codes "\ndistro:"
      ∷ distribution (split_string os_release b'\n')
      ∷ codes "\n"
      ∷ [])

  -- The text that is saved in `data_dir`; the last argument says whether the
  -- file can be opened. What a file holds that an exception leaves half written is not modelled.
  unfoldable pub collect_and_save : Bytes → Bytes → Bool → Result Bytes
  collect_and_save data_dir cmdline false =
      throw (codes "Failed to open " ++ (data_dir ++ codes "/info.txt for writing"))
  collect_and_save data_dir cmdline true = do
    model ← cpu_model (split_string cpuinfo b'\n')
    ok (info_text cmdline model)
