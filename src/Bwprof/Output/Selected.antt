-- ===== src/Bwprof/Output/Selected.antt =====
-- What `printResults` writes of tables that are functions of the socket.
use hmsdk.Base.{
  ℕ, zero, suc, ◌+◌, ◌≤◌, ◌≡◌, refl, ap, inl, inr, List, [], ◌∷◌, arith, if◌then◌else◌, Bool-cases,
}
use hmsdk.Bwprof.Result.{ok}
use hmsdk.Bwprof.Config.{Config, record_mode, skips, is_record}
use hmsdk.Bwprof.Double.{Double}
use hmsdk.Bwprof.Stats.{SocketMemoryData, BwStats, calculate}
use hmsdk.Bwprof.Events.{fill_from}
use hmsdk.Bwprof.Events.Tables.{get_elem?-fill_from}
use hmsdk.Bwprof.Output.{
  OutputFormatter, Shown, clear_screen, print_results, write_csv_line, results_from, statistics,
  screens,
}

module _ {D : Type 0} ⦃d : Double D⦄ where
  -- The statistics of the selected sockets `skt`, `skt + 1`, …, each from its bytes in the interval
  -- and since the start.
  abbrev pub stats_of :
      Config → (ℕ → SocketMemoryData) → (ℕ → SocketMemoryData) → ℕ → ℕ → ℕ → List (ℕ × BwStats D)
  stats_of config now total elapsed zero skt = []
  stats_of config now total elapsed (suc left) skt =
      let rest = stats_of config now total elapsed left (skt + 1) in
      if skips config.socket skt
      then rest
      else (skt, calculate (now skt) (total skt) elapsed) ∷ rest

  results_from-fill_from :
      (config : Config) (now total : ℕ → SocketMemoryData) (elapsed n left skt : ℕ)
      → skt + left ≤ n
      → results_from {D = D}
          (fill_from now n 0)
          (fill_from total n 0)
          elapsed
          config.socket
          left
          skt
        ≡ ok (stats_of config now total elapsed left skt)
  unfolding results_from
  results_from-fill_from config now total elapsed n zero skt h = refl
  results_from-fill_from config now total elapsed n (suc left) skt h =
      let rest = results_from-fill_from config now total elapsed n left (skt + 1) (omega arith) in
      elim (Bool-cases (skips config.socket skt)) [
        | inl skip ↦ rw skip rest
        | inr keep ↦
            rw
              (
                keep,
                get_elem?-fill_from now n skt (omega arith),
                get_elem?-fill_from total n skt (omega arith),
                rest,
              )
              refl
      ]

  pub print_results-fill_from :
      (config : Config) (now total : ℕ → SocketMemoryData) (elapsed n : ℕ) (timestamp : D)
      (f : OutputFormatter)
      → config.command ≡ record_mode
      → f.num_sockets ≡ n
      → (shown : List (Shown D)) × (print_results config
            (fill_from now n 0)
            (fill_from total n 0)
            elapsed
            config.socket
            timestamp
            f
          ≡ ok (
            write_csv_line config timestamp (statistics (stats_of config now total elapsed n 0)) f,
            shown,
          ))
  unfolding print_results
  print_results-fill_from config now total elapsed n timestamp f mode e =
      let results = results_from-fill_from config now total elapsed n n 0 (omega arith) in
      (
        if f.show_realtime_output
            then clear_screen ∷ screens (stats_of config now total elapsed n 0)
            else [],
        rw (e, results, ap is_record mode) refl,
      )

  pub num_sockets-write_csv_line :
      (config : Config) (timestamp : D) (stats : List (BwStats D)) (f : OutputFormatter)
      → (write_csv_line config timestamp stats f).num_sockets ≡ f.num_sockets
  unfolding write_csv_line
  num_sockets-write_csv_line config timestamp stats f = ground arith
