-- ===== src/Bwprof/Output/Columns.antt =====
-- The columns of bwprof.csv, in the header and in a line.
use hmsdk.Base.{
  ℕ, zero, suc, ◌+◌, ◌*◌, ◌≡◌, refl, ◌≢◌, inl, inr, false, List, [], ◌∷◌, ◌++◌, arith, Bytes, codes,
  Lacks, All, All-append, length, length-append, if◌then◌else◌, Bool-cases,
}
use hmsdk.Base.Int.{ℤ}
use hmsdk.Base.Decimal.{to_decimal, is_digit}
use hmsdk.Base.Decimal.RoundTrip.{Lacks-to_decimal}
use hmsdk.Bwprof.Config.{skips}
use hmsdk.Bwprof.Double.{Double, IsPrinted}
use hmsdk.Bwprof.Stats.{BwStats}
use hmsdk.Bwprof.Split.{split_string, cells}
use hmsdk.Bwprof.Split.RoundTrip.{split_string-cells, get_last-ne-nil}
use hmsdk.Bwprof.Output.{
  column, socket_columns, header_columns, csv_header, stats_cells, line_cells, csv_line,
}

-- The sockets `skt`, `skt + 1`, … that the loops do not skip.
abbrev pub selected : ℤ → ℕ → ℕ → List ℕ
selected target zero skt = []
selected target (suc left) skt =
    let rest = selected target left (skt + 1) in if skips target skt then rest else skt ∷ rest

abbrev IsCell : Bytes → Type 0
IsCell c = Lacks b',' c × Lacks b'\n' c × (c ≢ [])

column-Lacks :
    (c skt : ℕ) (suffix : Bytes)
    → is_digit c ≡ false
    → Lacks c (codes "SKT")
    → Lacks c suffix
    → Lacks c (column skt suffix)
unfolding column
column-Lacks c skt suffix digit l ls =
    All-append _ (codes "SKT") (to_decimal skt ++ suffix) l
      (All-append _ (to_decimal skt) suffix (Lacks-to_decimal c skt digit) ls)

column-IsCell :
    (skt : ℕ) (suffix : Bytes) → Lacks b',' suffix → Lacks b'\n' suffix → IsCell (column skt suffix)
column-IsCell skt suffix l l' = (
  column-Lacks b',' skt suffix refl (omega arith) l,
  column-Lacks b'\n' skt suffix refl (omega arith) l',
  unfold column in λ e. cc,
)

socket_columns-IsCell : (skt : ℕ) → All IsCell (socket_columns skt)
socket_columns-IsCell skt = (
  column-IsCell skt (codes "-RD") (omega arith) (omega arith),
  (
    column-IsCell skt (codes "-WR") (omega arith) (omega arith),
    (
      column-IsCell skt (codes "-SUM") (omega arith) (omega arith),
      (
        column-IsCell skt (codes "-CXLRD") (omega arith) (omega arith),
        (
          column-IsCell skt (codes "-CXLWR") (omega arith) (omega arith),
          (column-IsCell skt (codes "-CXLSUM") (omega arith) (omega arith), tt),
        ),
      ),
    ),
  ),
)

header_columns-IsCell : (target : ℤ) (left skt : ℕ) → All IsCell (header_columns target left skt)
unfolding header_columns
header_columns-IsCell target zero skt = tt
header_columns-IsCell target (suc left) skt = elim (Bool-cases (skips target skt)) [
  | inl skip ↦ rw skip (header_columns-IsCell target left (skt + 1))
  | inr keep ↦ rw keep (
      All-append IsCell (socket_columns skt) _ (socket_columns-IsCell skt)
        (header_columns-IsCell target left (skt + 1)))
]

-- A line of cells is one line.
cells_no_newline :
    (p : Bytes) (ps : List Bytes) → IsCell p → All IsCell ps → Lacks b'\n' (p ++ cells b',' ps)
cells_no_newline p [] c _ = All-append _ p [] c.1 tt
cells_no_newline p (q ∷ qs) c (d, ds) =
    All-append _ p _ c.1 (omega arith, cells_no_newline q qs d ds)

-- A line of cells splits into them.
split_string-IsCell :
    (p : Bytes) (ps : List Bytes)
    → IsCell p
    → All IsCell ps
    → split_string (p ++ cells b',' ps) b',' ≡ p ∷ ps
split_string-IsCell p ps c cs =
    split_string-cells b',' p ps c.0 (lacks ps cs) (get_last-ne-nil p ps c.2 (filled ps cs))
  where
    lacks : (ps : List Bytes) → All IsCell ps → All (Lacks b',') ps
    lacks [] _ = tt
    lacks (p ∷ ps) (c, cs) = (c.0, lacks ps cs)

    filled : (ps : List Bytes) → All IsCell ps → All (λ q. q ≢ []) ps
    filled [] _ = tt
    filled (p ∷ ps) (c, cs) = (c.2, filled ps cs)

pub split_string-csv_header :
    (target : ℤ) (n : ℕ)
    → split_string (csv_header target n) b',' ≡ codes "Timestamp" ∷ header_columns target n 0
unfolding csv_header
split_string-csv_header target n =
    split_string-IsCell (codes "Timestamp") _ (omega arith, omega arith, λ e. cc)
      (header_columns-IsCell target n 0)

pub csv_header_no_newline : (target : ℤ) (n : ℕ) → Lacks b'\n' (csv_header target n)
unfolding csv_header
csv_header_no_newline target n =
    cells_no_newline (codes "Timestamp") _ (omega arith, omega arith, λ e. cc)
      (header_columns-IsCell target n 0)

pub length-header_columns :
    (target : ℤ) (left skt : ℕ)
    → length (header_columns target left skt) ≡ 6 * length (selected target left skt)
unfolding header_columns
length-header_columns target zero skt = refl
length-header_columns target (suc left) skt = ground (
  arith,
  length-header_columns target left (skt + 1),
  length-append {0} (socket_columns skt) (header_columns target left (skt + 1)),
)

module _ {D : Type 0} ⦃d : Double D⦄ (p : IsPrinted D) where
  open d use {fixed}

  fixed-IsCell : (n : ℕ) (x : D) → IsCell (fixed n x)
  fixed-IsCell n x = (p.fixed_no_comma n x, p.fixed_no_newline n x, p.fixed-ne-nil n x)

  line_cells-IsCell : (stats : List (BwStats D)) → All IsCell (line_cells stats)
  line_cells-IsCell [] = tt
  line_cells-IsCell (s ∷ stats) = (
    fixed-IsCell 2 _,
    (
      fixed-IsCell 2 _,
      (
        fixed-IsCell 2 _,
        (fixed-IsCell 2 _, (fixed-IsCell 2 _, (fixed-IsCell 2 _, line_cells-IsCell stats))),
      ),
    ),
  )

  pub split_string-csv_line :
      (timestamp : D) (stats : List (BwStats D))
      → split_string (csv_line timestamp stats) b',' ≡ fixed 9 timestamp ∷ line_cells stats
  unfolding csv_line
  split_string-csv_line timestamp stats =
      split_string-IsCell _ _ (fixed-IsCell 9 timestamp) (line_cells-IsCell stats)

  pub csv_line_no_newline :
      (timestamp : D) (stats : List (BwStats D)) → Lacks b'\n' (csv_line timestamp stats)
  unfolding csv_line
  csv_line_no_newline timestamp stats =
      cells_no_newline _ _ (fixed-IsCell 9 timestamp) (line_cells-IsCell stats)

  pub length-line_cells : (stats : List (BwStats D)) → length (line_cells stats) ≡ 6 * length stats
  length-line_cells [] = refl
  length-line_cells (s ∷ stats) =
      omega (arith, length-append {0} (stats_cells s) (line_cells stats), length-line_cells stats)
