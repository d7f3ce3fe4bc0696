-- ===== src/Bwprof/Monitor/Totals.antt =====
-- One round of the monitoring loop.
use hmsdk.Base.{
  ℕ, ◌<◌, ◌≡◌, some, get_elem?, refl, sym, subst, ◌∙◌, inl, inr, List, [], ◌∷◌, ◌++◌, arith, All,
  length, if◌then◌else◌, Bool-cases,
}
use hmsdk.Base.Words.{sub_u64}
use hmsdk.Bwprof.Result.{ok}
use hmsdk.Bwprof.Config.{Config, skips, is_record}
use hmsdk.Bwprof.Double.{Double}
use hmsdk.Bwprof.Stats.{SocketMemoryData, zero_data, accumulate}
use hmsdk.Bwprof.Pcm.{Pcm, IsCounting}
use hmsdk.Bwprof.Events.{fill_from, calculate_events, accumulate_all}
use hmsdk.Bwprof.Events.Counters.{Leads, counters, accumulate-Leads, socket_events-Leads}
use hmsdk.Bwprof.Events.Tables.{
  events_at, calculate_events-eq, accumulate_all-fill_from, length-fill_from, get_elem?-fill_from,
}
use hmsdk.Bwprof.Output.{
  OutputFormatter, Shown, clear_screen, print_results, write_csv_line, statistics, screens,
}
use hmsdk.Bwprof.Output.Results.{results_from-IsResult}
use hmsdk.Bwprof.Process.{ProcessExecutor}
use hmsdk.Bwprof.Monitor.Going.{GoesOn, round-eq-measure}
use hmsdk.Bwprof.Monitor.{Monitor, Round, looped, measure, run_rounds, begin_monitor}

module _ {S : Type 0} (pcm : Pcm S) (counts : IsCounting pcm) (config : Config) where
  -- What has been accumulated for a socket since the counters were in the state `first`.
  abbrev pub IsTotal : (ℕ → S) → (ℕ → S) → ℕ → SocketMemoryData → Type 0
  IsTotal first last skt d =
      if skips config.socket skt
      then d ≡ zero_data
      else Leads (counters pcm counts (pcm.num_cxl_ports skt) (first skt)) d
          (counters pcm counts (pcm.num_cxl_ports skt) (last skt))

  -- The state between two rounds, `first` being the states before the loop and `last` those that
  -- were read last.
  pub record IsMonitor (first last : ℕ → S) (m : Monitor S) : Type 0 where
    pub total : ℕ → SocketMemoryData
    pub states_kept : m.prev_states ≡ fill_from last pcm.num_sockets 0
    pub table_size : length m.current_socket_data ≡ pcm.num_sockets
    pub totals : m.accumulated_socket_data ≡ fill_from total pcm.num_sockets 0
    pub total-IsTotal : (skt : ℕ) → IsTotal first last skt (total skt)
    pub sockets_set : m.formatter.num_sockets ≡ pcm.num_sockets

  accumulate-IsTotal :
      (first last next : ℕ → S) (skt : ℕ) (d : SocketMemoryData)
      → IsTotal first last skt d
      → IsTotal first next skt (accumulate d (events_at pcm config.socket last next skt))
  accumulate-IsTotal first last next skt d h = elim (Bool-cases (skips config.socket skt)) [
    | inl skip ↦ rw skip (rw (rw skip at h) (unfold accumulate in refl))
    | inr keep ↦ rw keep (
        accumulate-Leads d _ (rw keep at h)
          (socket_events-Leads pcm counts (last skt) (next skt) (pcm.num_cxl_ports skt)))
  ]

  module _ {D : Type 0} ⦃d : Double D⦄ where
    print_results-ok :
        (now acc : List SocketMemoryData) (elapsed : ℕ) (timestamp : D) (f : OutputFormatter)
        → f.num_sockets ≡ length now
        → length now ≡ length acc
        → (f' : OutputFormatter) × (shown : List (Shown D)) × (print_results config now acc elapsed
              config.socket timestamp f
            ≡ ok (f', shown))
          × (f'.num_sockets ≡ f.num_sockets)
    unfolding print_results write_csv_line
    print_results-ok now acc elapsed timestamp f hn ha =
        let (results, e, _, _) =
          results_from-IsResult {D = D} now acc elapsed config.socket f.num_sockets 0 (omega arith)
            (omega arith) in
        (
          if is_record config.command
              then write_csv_line config timestamp (statistics results) f
              else f,
          if f.show_realtime_output then clear_screen ∷ screens results else [],
          rw e,
          ground arith,
        )

    measure-IsMonitor :
        {first last : ℕ → S} (m : Monitor S) (r : Round S D)
        → IsMonitor first last m
        → (m' : Monitor S) × (shown : List (Shown D)) × (measure pcm config r m
            ≡ ok (looped m' shown))
          × IsMonitor first r.states m'
    unfolding measure
    measure-IsMonitor {first} {last} m r v =
        let n = pcm.num_sockets in
        let ports = fill_from pcm.num_cxl_ports n 0 in
        let curr = fill_from r.states n 0 in
        let now = events_at pcm config.socket last r.states in
        let total = λ (s : ℕ). accumulate (v.total s) (now s) in
        let elapsed = sub_u64 r.current_time m.prev_time in
        let events =
          subst
            (λ st.
              calculate_events pcm config.socket n ports st curr m.current_socket_data
              ≡ ok (fill_from now n 0))
            (sym v.states_kept)
            (calculate_events-eq pcm config.socket last r.states n m.current_socket_data
              v.table_size) in
        let sums =
          subst (λ acc. accumulate_all acc (fill_from now n 0) ≡ ok (fill_from total n 0))
            (sym v.totals) (accumulate_all-fill_from v.total now n 0) in
        let (f, shown, printed, same) =
          print_results-ok (fill_from now n 0) (fill_from total n 0) elapsed r.timestamp m.formatter
            (v.sockets_set ∙ sym (length-fill_from now n 0))
            (length-fill_from now n 0 ∙ sym (length-fill_from total n 0)) in
        (
          record m {
            prev_time = r.current_time;
            prev_states = curr;
            curr_states = m.prev_states;
            current_socket_data = fill_from now n 0;
            accumulated_socket_data = fill_from total n 0;
            formatter = f;
          },
          shown,
          rw (events, sums, printed),
          record {
            total = total;
            states_kept = refl;
            table_size = length-fill_from now n 0;
            totals = refl;
            total-IsTotal =
                λ s. accumulate-IsTotal first last r.states s (v.total s) (v.total-IsTotal s);
            sockets_set = same ∙ v.sockets_set;
          },
        )

    -- The states that the last round read, or those before the loop.
    abbrev pub last_states : (ℕ → S) → List (Round S D) → ℕ → S
    last_states states [] = states
    last_states states (r ∷ rs) = last_states r.states rs

    run_rounds-IsMonitor :
        {first last : ℕ → S} (rs : List (Round S D)) (m : Monitor S) (shown : List (Shown D))
        → All (GoesOn config) rs
        → IsMonitor first last m
        → (m' : Monitor S) × (shown' : List (Shown D)) × (run_rounds pcm config rs m shown
            ≡ ok (looped m' shown'))
          × IsMonitor first (last_states last rs) m'
    unfolding run_rounds
    run_rounds-IsMonitor [] m shown g v = (m, shown, refl, v)
    run_rounds-IsMonitor {first} {last} (r ∷ rs) m shown (g, gs) v =
        let (m₁, more, e, v₁) = measure-IsMonitor m r v in
        let (m', shown', e', v') =
          run_rounds-IsMonitor {first = first} {last = r.states} rs m₁ (shown ++ more) gs v₁ in
        (m', shown', rw (round-eq-measure pcm config m r g, e) e', v')

-- The state before the loop, if the formatter has been given the number of sockets.
pub begin_monitor-IsMonitor :
    {S : Type 0} (pcm : Pcm S) (counts : IsCounting pcm) (config : Config) (time : ℕ)
    (states : ℕ → S) (f : OutputFormatter) (e : ProcessExecutor)
    → f.num_sockets ≡ pcm.num_sockets
    → IsMonitor pcm counts config states states (begin_monitor pcm time states f e)
unfolding begin_monitor
begin_monitor-IsMonitor pcm counts config time states f e h = record {
  total = λ _. zero_data;
  states_kept = refl;
  table_size = length-fill_from _ _ 0;
  totals = refl;
  total-IsTotal = λ s. elim (Bool-cases (skips config.socket s)) [
    | inl skip ↦ rw skip
    | inr keep ↦ rw keep (omega arith)
  ];
  sockets_set = h;
}

module _ {S : Type 0} (pcm : Pcm S) (counts : IsCounting pcm) (config : Config) {D : Type 0}
    ⦃d : Double D⦄ where
  -- A run of the monitoring loop while the command runs, or without one, throws nothing and reads
  -- no vector out of range in any round. Afterwards the entry of each selected socket in the
  -- accumulated table leads, modulo 2 ^ 64, from its counters before the loop to those that were
  -- read last, and the entry of each other socket is zero.
  pub monitoring-IsTotal :
      (time : ℕ) (states : ℕ → S) (f : OutputFormatter) (e : ProcessExecutor)
      (rs : List (Round S D))
      → f.num_sockets ≡ pcm.num_sockets
      → All (GoesOn config) rs
      → (m : Monitor S) × (shown : List (Shown D)) × (run_rounds pcm config rs
            (begin_monitor pcm time states f e)
            []
          ≡ ok (looped m shown))
        × ((skt : ℕ)
            → skt < pcm.num_sockets
            → (total : SocketMemoryData) × (get_elem? m.accumulated_socket_data skt ≡ some total)
              × IsTotal pcm counts config states
                  (last_states pcm counts config states rs)
                  skt
                  total)
  monitoring-IsTotal time states f e rs h g =
      let (m, shown, ran, v) =
        run_rounds-IsMonitor pcm counts config rs (begin_monitor pcm time states f e) [] g
          (begin_monitor-IsMonitor pcm counts config time states f e h) in
      (
        m,
        shown,
        ran,
        λ skt lt.
            (v.total skt, rw v.totals (get_elem?-fill_from v.total _ skt lt), v.total-IsTotal skt),
      )
