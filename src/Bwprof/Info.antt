-- ===== src/Bwprof/Info.antt =====
-- info.txt: `SystemInfoCollector::collectAndSave`, which writes it, and `printInfo`, which reads it.
pub mod Collect
pub mod OneLine
pub mod RoundTrip
mod Tests
use hmsdk.Base.{
  ℕ, zero, suc, Bool, true, false, ◌&&◌, Option, none, some, List, [], ◌∷◌, ◌++◌, Bytes, codes,
  same_text, is_empty, ◌==◌, if◌then◌else◌,
}
use hmsdk.Base.Int.{ℤ, pos, negsuc}
use hmsdk.Base.Decimal.{to_decimal, stoi}
use hmsdk.Bwprof.Result.{Result, ok, throw, ◌>>=◌}
use hmsdk.Bwprof.Double.{Double}
use hmsdk.Bwprof.Split.{split_string}

-- The text before and behind the first colon.
unfoldable pub split_at_colon : Bytes → Option (Bytes × Bytes)
split_at_colon [] = none
split_at_colon (c ∷ s) = elim (c == b':') [
  | true ↦ some ([], s)
  | false ↦ elim (split_at_colon s) [ none ↦ none | some (key, value) ↦ some (c ∷ key, value) ]
]

-- What follows the prefix, if the text starts with it (`find(prefix) == 0` and `substr`).
unfoldable pub after_prefix : Bytes → Bytes → Option Bytes
after_prefix [] s = some s
after_prefix (p ∷ ps) [] = none
after_prefix (p ∷ ps) (c ∷ s) = let rest = after_prefix ps s in if p == c then rest else none

-- `find(pattern) != npos`
unfoldable pub contains_text : Bytes → Bytes → Bool
unfolding after_prefix
contains_text pattern [] = is_empty pattern
contains_text pattern (c ∷ s) =
    let rest = contains_text pattern s in
    elim (after_prefix pattern (c ∷ s)) [ none ↦ rest | some _ ↦ true ]

-- `std::map<std::string, std::string>`: the last entry of a key counts.
abbrev pub InfoMap : Type 0
InfoMap = List (Bytes × Bytes)

unfoldable pub find_info : Bytes → InfoMap → Option Bytes
find_info key [] = none
find_info key ((k, v) ∷ m) = let rest = find_info key m in if same_text key k then some v else rest

-- `value.pop_back()` if it ends in a newline.
unfoldable pub pop_newline : Bytes → Bytes
pop_newline [] = []
pop_newline (c ∷ []) = if c == b'\n' then [] else c ∷ []
pop_newline (c ∷ d ∷ s) = c ∷ pop_newline (d ∷ s)

-- A line that a "lines=" header announced.
inner_line : Bytes → InfoMap → InfoMap
inner_line line m = elim (split_at_colon line) [ none ↦ m | some entry ↦ entry ∷ m ]

abbrev as_count : ℤ → ℕ
as_count (pos n) = n
as_count (negsuc _) = 0

-- The value of "cpuinfo" and "osinfo": how many lines follow, or an entry.
header_or_entry : Bytes → Bytes → InfoMap → ℕ × InfoMap
header_or_entry key value m = elim (after_prefix (codes "lines=") value) [
  | none ↦ (0, (key, value) ∷ m)
  | some lines_str ↦ elim (stoi lines_str) [ none ↦ (0, m) | some n ↦ (as_count n, m) ]
]

-- A line of the outer loop: how many of the lines behind it belong to it, and the new map.
outer_line : Bytes → InfoMap → ℕ × InfoMap
unfolding header_or_entry
outer_line line m = elim (split_at_colon line) [
  | none ↦ (0, m)
  | some (key, value) ↦
      if same_text key (codes "data_version")
      then (0, (key, value) ∷ m)
      else if same_text key (codes "cmdline")
      then (0, (key, value) ∷ m)
      else if same_text key (codes "recorded_time")
      then (0, (key, pop_newline value) ∷ m)
      else if same_text key (codes "cpuinfo")
      then header_or_entry key value m
      else if same_text key (codes "osinfo")
      then header_or_entry key value m
      else if same_text key (codes "meminfo")
      then (0, (key, value) ∷ m)
      else (0, m)
]

-- The two nested loops over the lines: `inner` lines are still to be read by the inner one.
unfoldable pub info_from : ℕ → List Bytes → InfoMap → InfoMap
unfolding inner_line outer_line same_text stoi split_at_colon after_prefix
info_from inner [] m = m
info_from (suc inner) (line ∷ lines) m = info_from inner lines (inner_line line m)
info_from zero (line ∷ lines) m = let (inner, m') = outer_line line m in info_from inner lines m'

unfoldable pub parse_info : Bytes → InfoMap
parse_info text = info_from 0 (split_string text b'\n') []

-- The lines that are shown, each with its label.
pub data InfoLine : Type 0 where
  recorded_on : Bytes → InfoLine
  cmdline : Bytes → InfoLine
  cpu_info : Bytes → InfoLine
  number_of_cpus : Bytes → InfoLine
  memory_info : Bytes → InfoLine
  -- the three load averages, or "N/A"
  system_load : Option Bytes → InfoLine
  kernel_version : Bytes → InfoLine
  hostname : Bytes → InfoLine
  distro : Bytes → InfoLine

show_if : Bytes → (Bytes → InfoLine) → InfoMap → List InfoLine → List InfoLine
show_if key label m rest = elim (find_info key m) [ none ↦ rest | some v ↦ label v ∷ rest ]

unfoldable pub show_info : Option Bytes → InfoMap → List InfoLine
unfolding show_if find_info same_text
show_info load m = show_if (codes "recorded_time") recorded_on m (
    show_if (codes "cmdline") cmdline m (
      show_if (codes "desc") cpu_info m (
        show_if (codes "nr_cpus") number_of_cpus m (
          show_if (codes "meminfo") memory_info m (
            system_load load
            ∷ show_if (codes "kernel") kernel_version m
                (show_if (codes "hostname") hostname m (show_if (codes "distro") distro m [])))))))

-- `file` is the text of info.txt, if it can be opened; `load` is what `getloadavg` gives.
unfoldable pub print_info : Bytes → Option Bytes → Option Bytes → Result (List InfoLine)
print_info data_dir none load =
    throw (codes "Failed to open " ++ (data_dir ++ codes "/info.txt for reading"))
print_info data_dir (some text) load = ok (show_info load (parse_info text))
