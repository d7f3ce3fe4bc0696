-- ===== src/Bwprof/Report/Totals.antt =====
-- The report against the columns of the table.
use hmsdk.Base.{
  ℕ, zero, suc, ◌+◌, ◌-◌, ◌*◌, ◌/◌, ◌<◌, ◌≡◌, refl, ◌≢◌, Option, none, some, List, [], ◌∷◌, arith,
  ◌++◌, Bytes, codes, length, get_elem?, replicate, get_elem?-replicate, get_elem?-map,
}
use hmsdk.Base.Words.{u64_mod, sub_u64}
use hmsdk.Bwprof.Result.{ok, undefined}
use hmsdk.Bwprof.Double.{Double}
use hmsdk.Bwprof.Stats.{BwStats, from_sizes}
use hmsdk.Bwprof.Report.{
  no_data, sockets, all_values, add_row, sum_rows, average_values, report_socket, report_sockets,
  summarize, report_rows, print_report,
}

module _ {D : Type 0} ⦃d : Double D⦄ where
  open d use {of_nat, add, div}

  abbrev pub add_cell : D → Option D → D
  add_cell acc none = acc
  add_cell acc (some x) = add acc x

  -- The sum of column `c`, from the first row on. A row that is too short adds nothing.
  abbrev pub column_sum : ℕ → D → List (List D) → D
  column_sum c acc [] = acc
  column_sum c acc (row ∷ rows) = column_sum c (add_cell acc (get_elem? row c)) rows

  -- What is to be reported of socket `skt`: averages of its six columns, and sizes in GB from the
  -- sums of the four that are not totals.
  pub socket_report : List (List D) → ℕ → BwStats D
  socket_report rows skt =
      let sum = λ (c : ℕ). column_sum (1 + skt * 6 + c) (of_nat 0) rows in
      let average = λ (c : ℕ). div (sum c) (of_nat (length rows)) in
      let gigabytes = λ (c : ℕ). div (sum c) (of_nat 1000) in
      from_sizes (average 0) (average 1) (average 2) (average 3) (average 4) (average 5)
        (gigabytes 0) (gigabytes 1) (gigabytes 3) (gigabytes 4)

  abbrev pub socket_reports : List (List D) → ℕ → ℕ → List (ℕ × BwStats D)
  socket_reports rows zero skt = []
  socket_reports rows (suc left) skt =
      (skt, socket_report rows skt) ∷ socket_reports rows left (skt + 1)

  get_elem?-add_row :
      (sums row : List D) (c : ℕ) {s : D}
      → get_elem? sums c ≡ some s
      → get_elem? (add_row sums row) c ≡ some (add_cell s (get_elem? row c))
  unfolding add_row
  get_elem?-add_row [] row c e = cc
  get_elem?-add_row (t ∷ sums) [] c e = e
  get_elem?-add_row (t ∷ sums) (x ∷ row) zero e = cc
  get_elem?-add_row (t ∷ sums) (x ∷ row) (suc c) e = get_elem?-add_row sums row c e

  get_elem?-sum_rows :
      (sums : List D) (rows : List (List D)) (c : ℕ) {s : D}
      → get_elem? sums c ≡ some s
      → get_elem? (sum_rows sums rows) c ≡ some (column_sum c s rows)
  unfolding sum_rows
  get_elem?-sum_rows sums [] c e = e
  get_elem?-sum_rows sums (row ∷ rows) c e =
      get_elem?-sum_rows (add_row sums row) rows c (get_elem?-add_row sums row c e)

  -- The tables of `summarize`.
  abbrev sum_values : ℕ → List (List D) → List D
  sum_values n rows = sum_rows (replicate n (of_nat 0)) rows

  get_elem?-sum_values :
      (n c : ℕ) (rows : List (List D))
      → c < n
      → get_elem? (sum_values n rows) c ≡ some (column_sum c (of_nat 0) rows)
  get_elem?-sum_values n c rows h =
      get_elem?-sum_rows _ rows c (get_elem?-replicate n c (of_nat 0) h)

  get_elem?-average_values :
      (n c : ℕ) (rows : List (List D))
      → c < n
      → get_elem? (average_values (sum_values n rows) (length rows)) c
        ≡ some (div (column_sum c (of_nat 0) rows) (of_nat (length rows)))
  unfolding average_values
  get_elem?-average_values n c rows h =
      get_elem?-map (λ s. div s (of_nat (length rows))) _ c (get_elem?-sum_values n c rows h)

  report_socket-eq :
      (n skt : ℕ) (rows : List (List D))
      → 1 + skt * 6 + 5 < n
      → report_socket (average_values (sum_values n rows) (length rows)) (sum_values n rows) skt
        ≡ ok (socket_report rows skt)
  unfolding report_socket socket_report
  report_socket-eq n skt rows h =
      let base = 1 + skt * 6 in
      rw (
        get_elem?-average_values n (base + 0) rows (omega arith),
        get_elem?-average_values n (base + 1) rows (omega arith),
        get_elem?-average_values n (base + 2) rows (omega arith),
        get_elem?-average_values n (base + 3) rows (omega arith),
        get_elem?-average_values n (base + 4) rows (omega arith),
        get_elem?-average_values n (base + 5) rows (omega arith),
        get_elem?-sum_values n (base + 0) rows (omega arith),
        get_elem?-sum_values n (base + 1) rows (omega arith),
        get_elem?-sum_values n (base + 3) rows (omega arith),
        get_elem?-sum_values n (base + 4) rows (omega arith),
      )

  report_sockets-eq :
      (n left skt : ℕ) (rows : List (List D))
      → (skt + left) * 6 < n
      → report_sockets
          (average_values (sum_values n rows) (length rows))
          (sum_values n rows)
          left
          skt
        ≡ ok (socket_reports rows left skt)
  unfolding report_sockets
  report_sockets-eq n zero skt rows h = refl
  report_sockets-eq n (suc left) skt rows h = rw (
    report_socket-eq n skt rows (omega arith),
    report_sockets-eq n left (skt + 1) rows (omega arith),
  )

  -- If the first row of the recording has a column, `printReport` reads nothing out of range and
  -- reports one socket for each six columns behind the timestamp, numbered from 0: the throughputs
  -- are the averages of the socket's columns over all rows, and the sizes are their sums in GB.
  pub print_report-totals :
      (data_dir text : Bytes) (first : List D) (more : List (List D))
      → all_values text ≡ first ∷ more
      → first ≢ []
      → length first < u64_mod
      → print_report data_dir (some text)
        ≡ ok (sockets (socket_reports (first ∷ more) ((length first - 1) / 6) 0))
  unfolding print_report summarize report_rows
  print_report-totals data_dir text [] more e h lt = absurd (h refl)
  print_report-totals data_dir text (x ∷ xs) more e h lt =
      let columns : sub_u64 (suc (length xs)) 1 / 6 ≡ (suc (length xs) - 1) / 6 = omega arith in
      let n = (suc (length xs) - 1) / 6 in
      rw e (rw (columns, report_sockets-eq (suc (length xs)) n 0 ((x ∷ xs) ∷ more) (omega arith)))

  -- A file without a row behind the header.
  pub print_report-no_data :
      (data_dir text : Bytes)
      → all_values {D = D} text ≡ []
      → print_report {D = D} data_dir (some text) ≡ ok (no_data (data_dir ++ codes "/bwprof.csv"))
  unfolding print_report report_rows
  print_report-no_data data_dir text e = rw e refl

  sum_rows-nil : (rows : List (List D)) → sum_rows [] rows ≡ []
  unfolding sum_rows
  sum_rows-nil [] = refl
  sum_rows-nil (row ∷ rows) = sum_rows-nil rows

  average_values-nil : (n : ℕ) → average_values {D = D} [] n ≡ []
  unfolding average_values
  average_values-nil n = refl

  report_sockets-nil :
      (left skt : ℕ) (avg sums : List D)
      → avg ≡ []
      → left ≢ 0
      → report_sockets avg sums left skt ≡ undefined
  unfolding report_sockets report_socket
  report_sockets-nil zero skt avg sums e h = absurd (h refl)
  report_sockets-nil (suc left) skt avg sums e h = rw e

  summarize-nil : (more : List (List D)) → summarize [] more ≡ undefined
  unfolding summarize
  summarize-nil more =
      report_sockets-nil (sub_u64 0 1 / 6) 0 _ _
        (rw (sum_rows-nil ([] ∷ more)) (average_values-nil (suc (length more)))) (omega arith)

  -- If the first row has no column (its line is empty), `printReport` reads a vector out of range,
  -- whatever the other rows hold.
  pub print_report_empty_row :
      (data_dir text : Bytes) (more : List (List D))
      → all_values {D = D} text ≡ [] ∷ more
      → print_report {D = D} data_dir (some text) ≡ undefined
  unfolding print_report report_rows
  print_report_empty_row data_dir text more e = rw (e, report_rows, summarize-nil more)
