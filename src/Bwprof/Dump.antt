-- ===== src/Bwprof/Dump.antt =====
-- `printDump`: the text that it prints of a recording, from the text of its bwprof.csv. A cell holds
-- no null character.
pub mod Recording
mod Tests
use hmsdk.Base.{
  ℕ, ◌-◌, Option, none, some, List, [], ◌∷◌, ◌++◌, Bytes, codes, length, replicate, if◌then◌else◌,
}
use hmsdk.Bwprof.Result.{Result, ok, throw, undefined, ◌>>=◌}
use hmsdk.Bwprof.Double.{Double, Signed}
use hmsdk.Bwprof.Split.{split_string}

-- `%11s`, for any width.
unfoldable pub pad_left : ℕ → Bytes → Bytes
pad_left width s = replicate (width - length s) b' ' ++ s

-- The loop over the cells behind the first, each with what is printed of it.
abbrev pub print_cells : (Bytes → Bytes) → List Bytes → Bytes
print_cells shown [] = codes "\n"
print_cells shown (value ∷ values) =
    codes "  " ++ (pad_left 11 (shown value) ++ print_cells shown values)

abbrev pub behind_first : List Bytes → List Bytes
behind_first [] = []
behind_first (_ ∷ values) = values

abbrev pub as_it_is : Bytes → Bytes
as_it_is value = value

pub dump_header : List Bytes → Bytes
dump_header values = pad_left 11 (codes "Time(s)") ++ print_cells as_it_is (behind_first values)

module _ {D : Type 0} ⦃d : Double D⦄ (s : Signed D) where
  open d use {of_nat, fixed, stod}
  open s use {sub, is_negative, minus_one}

  abbrev pub as_number : Bytes → Bytes
  as_number value = elim (stod value) [ none ↦ value | some x ↦ fixed 2 x ]

  -- `first_timestamp` behind a row with this timestamp.
  abbrev pub first_of : D → D → D
  first_of first_timestamp timestamp =
      if is_negative first_timestamp then timestamp else first_timestamp

  -- The new `first_timestamp`, and the time that is printed.
  abbrev pub elapsed_time : D → Option D → D × D
  elapsed_time first_timestamp none = (first_of first_timestamp (of_nat 0), of_nat 0)
  elapsed_time first_timestamp (some timestamp) =
      (first_of first_timestamp timestamp, sub timestamp (first_of first_timestamp timestamp))

  -- A line of data. `values[0]` is out of range where the line is empty.
  pub dump_row : D → List Bytes → Result (D × Bytes)
  dump_row first_timestamp [] = undefined
  dump_row first_timestamp (value ∷ values) =
      let (first, elapsed) = elapsed_time first_timestamp (stod value) in
      ok (first, pad_left 11 (fixed 2 elapsed) ++ print_cells as_number values)

  -- The loop over the lines behind the header.
  pub dump_rows : D → List Bytes → Result Bytes
  dump_rows first_timestamp [] = ok []
  dump_rows first_timestamp (line ∷ lines) =
      dump_row first_timestamp (split_string line b',') >>= λ r.
      dump_rows r.0 lines >>= λ later. ok (r.1 ++ later)

  pub dump_lines : List Bytes → Result Bytes
  dump_lines [] = ok []
  dump_lines (header ∷ lines) =
      dump_rows minus_one lines >>= λ later. ok (dump_header (split_string header b',') ++ later)

  -- `file` is the text of the file, if it can be opened.
  pub print_dump : Bytes → Option Bytes → Result Bytes
  print_dump data_dir none =
      throw (codes "Failed to open " ++ (data_dir ++ codes "/bwprof.csv for reading"))
  print_dump data_dir (some text) = dump_lines (split_string text b'\n')
