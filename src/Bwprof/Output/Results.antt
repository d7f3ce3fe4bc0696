-- ===== src/Bwprof/Output/Results.antt =====
-- What `printResults` computes for each socket, and how many cells it writes.
use hmsdk.Base.{
  ℕ, zero, suc, ◌+◌, ◌*◌, ◌≤◌, ◌≡◌, refl, ap, inl, inr, some, List, [], ◌∷◌, arith, All, length,
  get_elem?, get_elem?-some, Bool-cases,
}
use hmsdk.Base.Int.{ℤ}
use hmsdk.Bwprof.Result.{ok}
use hmsdk.Bwprof.Config.{skips}
use hmsdk.Bwprof.Double.{Double, IsPrinted}
use hmsdk.Bwprof.Stats.{SocketMemoryData, BwStats, calculate}
use hmsdk.Bwprof.Split.{split_string}
use hmsdk.Bwprof.Output.{csv_header, csv_line, results_from, statistics}
use hmsdk.Bwprof.Output.Columns.{
  selected, split_string-csv_header, split_string-csv_line, length-header_columns,
  length-line_cells,
}

abbrev pub numbers {ℓ} : {A : Type ℓ} → List (ℕ × A) → List ℕ
numbers [] = []
numbers ((skt, _) ∷ results) = skt ∷ numbers results

module _ {D : Type 0} ⦃d : Double D⦄ where
  -- The statistics of a socket are those of its entries in both tables.
  abbrev pub IsResult : List SocketMemoryData → List SocketMemoryData → ℕ → ℕ × BwStats D → Type 0
  IsResult now acc elapsed (skt, stats) =
      (current : SocketMemoryData) × (total : SocketMemoryData) × (get_elem? now skt ≡ some current)
      × (get_elem? acc skt ≡ some total)
      × (stats ≡ calculate current total elapsed)

  -- If both tables have an entry for every socket, the loop of `printResults` reads nothing out of
  -- range, and its results are those of the selected sockets, in order, each from its two entries.
  pub results_from-IsResult :
      (now acc : List SocketMemoryData) (elapsed : ℕ) (target : ℤ) (left skt : ℕ)
      → skt + left ≤ length now
      → skt + left ≤ length acc
      → (results : List (ℕ × BwStats D)) × (results_from now acc elapsed target left skt
          ≡ ok results)
        × (numbers results ≡ selected target left skt)
        × All (IsResult now acc elapsed) results
  unfolding results_from
  results_from-IsResult now acc elapsed target zero skt hn ha = ([], refl, refl, tt)
  results_from-IsResult now acc elapsed target (suc left) skt hn ha =
      let (rest, e, ns, rs) =
        results_from-IsResult now acc elapsed target left (skt + 1) (omega arith) (omega arith) in
      elim (Bool-cases (skips target skt)) [
        | inl skip ↦ (rest, rw skip e, rw skip ns, rs)
        | inr keep ↦
            let (current, c) = get_elem?-some now skt (omega arith) in
            let (total, t) = get_elem?-some acc skt (omega arith) in
            (
              (skt, calculate current total elapsed) ∷ rest,
              rw (keep, c, t, e),
              rw keep (ap (◌∷◌ skt) ns),
              ((current, total, c, t, refl), rs),
            )
      ]

  length-statistics :
      (results : List (ℕ × BwStats D)) → length (statistics results) ≡ length (numbers results)
  length-statistics [] = refl
  length-statistics (r ∷ results) = ap suc (length-statistics results)

  -- Read back with `splitString`, a line of a recording has the timestamp and six cells for each
  -- selected socket, and so has the header.
  pub columns_agree :
      IsPrinted D
      → (target : ℤ) (n : ℕ) (timestamp : D) (results : List (ℕ × BwStats D))
      → numbers results ≡ selected target n 0
      → (length (split_string (csv_header target n) b',') ≡ 1 + 6 * length (selected target n 0))
        × (length (split_string (csv_line timestamp (statistics results)) b',')
            ≡ 1 + 6 * length (selected target n 0))
  columns_agree p target n timestamp results e = (
    rw (split_string-csv_header target n) (omega (arith, length-header_columns target n 0)),
    rw (split_string-csv_line p timestamp (statistics results)) (
        omega (
          arith,
          length-line_cells p (statistics results),
          length-statistics results,
          ap length e,
        )),
  )
