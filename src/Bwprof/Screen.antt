-- ===== src/Bwprof/Screen.antt =====
-- `printFormattedOutput`: the text that is shown of a socket.
pub mod Alignment
mod Tests
use hmsdk.Base.{ℕ, List, [], ◌∷◌, ◌++◌, Bytes, codes}
use hmsdk.Base.Decimal.{to_decimal}
use hmsdk.Bwprof.Double.{Double}
use hmsdk.Bwprof.Stats.{BwStats}
use hmsdk.Bwprof.Dump.{pad_left}

-- Every line ends in a newline.
abbrev pub print_lines : List Bytes → Bytes
print_lines [] = []
print_lines (line ∷ lines) = line ++ (b'\n' ∷ print_lines lines)

abbrev pub socket_line : ℕ → Bytes
socket_line socket_id =
    codes "    Socket"
    ++ (to_decimal socket_id ++ codes "        Throughput   AccessTotal    MemAccess  MediaAccess")

abbrev pub unit_line : Bytes
unit_line = codes "                         MB/s            GB        Ratio        Ratio"

module _ {D : Type 0} ⦃d : Double D⦄ where
  open d use {fixed}

  -- `%11.2f  %12.2f       %5.1f%%            -` behind the label
  abbrev pub access_line : Bytes → D → D → D → Bytes
  access_line label bw sz ratio =
      label
      ++ (pad_left 11 (fixed 2 bw)
          ++ (codes "  "
              ++ (pad_left 12 (fixed 2 sz)
                  ++ (codes "       " ++ (pad_left 5 (fixed 1 ratio) ++ codes "%            -")))))

  -- `%11.2f  %12.2f            -       %5.1f%%` behind the label
  abbrev pub total_line : Bytes → D → D → D → Bytes
  total_line label bw sz ratio =
      label
      ++ (pad_left 11 (fixed 2 bw)
          ++ (codes "  "
              ++ (pad_left 12 (fixed 2 sz)
                  ++ (codes "            -       " ++ (pad_left 5 (fixed 1 ratio) ++ codes "%")))))

  pub formatted_lines : ℕ → BwStats D → List Bytes
  formatted_lines socket_id stats =
      socket_line socket_id
      ∷ unit_line
      ∷ access_line (codes "    DRAM   Read   ") stats.dram_read_bw stats.dram_read_sz
          stats.dram_read_ratio
      ∷ access_line (codes "           Write  ") stats.dram_write_bw stats.dram_write_sz
          stats.dram_write_ratio
      ∷ total_line (codes "           Total  ") stats.dram_total_bw stats.dram_total_sz
          stats.dram_ratio
      ∷ access_line (codes "    CXL    Read   ") stats.cxl_read_bw stats.cxl_read_sz
          stats.cxl_read_ratio
      ∷ access_line (codes "           Write  ") stats.cxl_write_bw stats.cxl_write_sz
          stats.cxl_write_ratio
      ∷ total_line (codes "           Total  ") stats.cxl_total_bw stats.cxl_total_sz
          stats.cxl_ratio
      ∷ []

  -- An empty line stands behind the last one.
  pub print_formatted_output : ℕ → BwStats D → Bytes
  print_formatted_output socket_id stats =
      print_lines (formatted_lines socket_id stats ++ ([] ∷ []))
