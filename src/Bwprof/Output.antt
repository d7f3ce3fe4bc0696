-- ===== src/Bwprof/Output.antt =====
-- `class OutputFormatter`: the CSV file of a recording and the screen of `top`. An open file is the
-- text written to it so far.
pub mod Columns
pub mod Results
pub mod Selected
use hmsdk.Base.{
  ℕ, zero, suc, ◌+◌, Bool, true, false, ◌&&◌, ◌||◌, Option, none, some, List, [], ◌∷◌, ◌++◌, Bytes,
  codes, ◌==◌, if◌then◌else◌,
}
use hmsdk.Base.Int.{ℤ}
use hmsdk.Base.Decimal.{to_decimal}
use hmsdk.Bwprof.Result.{Result, ok, throw, at, ◌>>=◌}
use hmsdk.Bwprof.Config.{Config, is_record, is_top, skips}
use hmsdk.Bwprof.Double.{Double}
use hmsdk.Bwprof.Stats.{SocketMemoryData, BwStats, calculate}
use hmsdk.Bwprof.Split.{cells}

pub record OutputFormatter : Type 0 where
  pub num_sockets : ℕ
  pub csv_file : Option Bytes
  pub header_written : Bool
  pub show_realtime_output : Bool

-- What appears on the screen.
pub data Shown (D : Type 0) : Type 0 where
  clear_screen : Shown D
  formatted_output : ℕ → BwStats D → Shown D

unfoldable pub new_formatter : Config → OutputFormatter
new_formatter config = record {
  num_sockets = 0;
  csv_file = none;
  header_written = false;
  show_realtime_output = is_top config.command || is_record config.command && config.show_realtime;
}

unfoldable pub set_num_sockets : OutputFormatter → ℕ → OutputFormatter
set_num_sockets f n = record f { num_sockets = n }

-- `opens` says whether the file can be opened; it is truncated then.
unfoldable pub open_csv_file : Config → Bytes → Bool → OutputFormatter → Result OutputFormatter
open_csv_file config data_dir opens f =
    if is_record config.command
    then if opens
      then ok (record f { csv_file = some [] })
      else throw (codes "Failed to open " ++ (data_dir ++ codes "/bwprof.csv for writing"))
    else ok f

pub column : ℕ → Bytes → Bytes
column skt suffix = codes "SKT" ++ (to_decimal skt ++ suffix)

abbrev pub socket_columns : ℕ → List Bytes
socket_columns skt =
    column skt (codes "-RD")
    ∷ column skt (codes "-WR")
    ∷ column skt (codes "-SUM")
    ∷ column skt (codes "-CXLRD")
    ∷ column skt (codes "-CXLWR")
    ∷ column skt (codes "-CXLSUM")
    ∷ []

-- The loop over the sockets `skt`, `skt + 1`, … with `left` to go.
pub header_columns : ℤ → ℕ → ℕ → List Bytes
unfolding column
header_columns target zero skt = []
header_columns target (suc left) skt =
    let rest = header_columns target left (skt + 1) in
    if skips target skt then rest else socket_columns skt ++ rest

pub csv_header : ℤ → ℕ → Bytes
unfolding header_columns
csv_header target n = codes "Timestamp" ++ cells b',' (header_columns target n 0)

unfoldable pub write_csv_header : Config → OutputFormatter → Result OutputFormatter
unfolding csv_header
write_csv_header config f =
    if is_record config.command
    then if f.num_sockets == 0
      then throw (codes "Number of sockets not set before writing CSV header")
      else if f.header_written
      then ok f
      else ok (elim f.csv_file [
        | none ↦ f
        | some text ↦ record f {
          csv_file = some (text ++ (csv_header config.socket f.num_sockets ++ (b'\n' ∷ [])));
          header_written = true;
        }
      ])
    else ok f

module _ {D : Type 0} ⦃d : Double D⦄ where
  open d use {fixed}

  abbrev pub stats_cells : BwStats D → List Bytes
  stats_cells s =
      fixed 2 s.dram_read_bw
      ∷ fixed 2 s.dram_write_bw
      ∷ fixed 2 s.dram_total_bw
      ∷ fixed 2 s.cxl_read_bw
      ∷ fixed 2 s.cxl_write_bw
      ∷ fixed 2 s.cxl_total_bw
      ∷ []

  abbrev pub line_cells : List (BwStats D) → List Bytes
  line_cells [] = []
  line_cells (s ∷ stats) = stats_cells s ++ line_cells stats

  pub csv_line : D → List (BwStats D) → Bytes
  csv_line timestamp stats = fixed 9 timestamp ++ cells b',' (line_cells stats)

  unfoldable pub write_csv_line : Config → D → List (BwStats D) → OutputFormatter → OutputFormatter
  unfolding csv_line
  write_csv_line config timestamp stats f =
      if is_record config.command
      then elim f.csv_file [
        | none ↦ f
        | some text ↦ record f {
          csv_file = some (text ++ (csv_line timestamp stats ++ (b'\n' ∷ [])));
        }
      ]
      else f

  -- The loop of `printResults` over the sockets `skt`, `skt + 1`, … with `left` to go: each socket
  -- with its statistics.
  unfoldable pub results_from :
      List SocketMemoryData → List SocketMemoryData → ℕ → ℤ → ℕ → ℕ → Result (List (ℕ × BwStats D))
  results_from now acc elapsed target zero skt = ok []
  results_from now acc elapsed target (suc left) skt =
      let rest = results_from now acc elapsed target left (skt + 1) in
      if skips target skt then rest else do
        current ← at now skt
        total ← at acc skt
        later ← rest
        ok ((skt, calculate current total elapsed) ∷ later)

  abbrev pub statistics : List (ℕ × BwStats D) → List (BwStats D)
  statistics [] = []
  statistics ((_, s) ∷ results) = s ∷ statistics results

  abbrev pub screens : List (ℕ × BwStats D) → List (Shown D)
  screens [] = []
  screens ((skt, s) ∷ results) = formatted_output skt s ∷ screens results

  -- `timestamp` is the clock when the line is written.
  unfoldable pub print_results :
      Config
      → List SocketMemoryData
      → List SocketMemoryData
      → ℕ
      → ℤ
      → D
      → OutputFormatter
      → Result (OutputFormatter × List (Shown D))
  unfolding results_from write_csv_line
  print_results config now acc elapsed target timestamp f = do
    results ← results_from now acc elapsed target f.num_sockets 0
    ok (
      if is_record config.command
          then write_csv_line config timestamp (statistics results) f
          else f,
      if f.show_realtime_output then clear_screen ∷ screens results else [],
    )
