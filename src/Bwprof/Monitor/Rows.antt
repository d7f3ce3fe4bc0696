-- ===== src/Bwprof/Monitor/Rows.antt =====
-- The lines that the monitoring loop records, from the counters that its rounds read.
use hmsdk.Base.{
  is_empty, ℕ, ◌≡◌, refl, sym, subst, ◌∙◌, true, false, List, [], ◌∷◌, ◌++◌, All, length,
}
use hmsdk.Base.Int.{is_pos}
use hmsdk.Base.Words.{sub_u64}
use hmsdk.Bwprof.Result.{ok}
use hmsdk.Bwprof.Config.{Config, record_mode}
use hmsdk.Bwprof.Double.{Double}
use hmsdk.Bwprof.Stats.{SocketMemoryData, accumulate}
use hmsdk.Bwprof.Pcm.{Pcm}
use hmsdk.Bwprof.Events.{fill_from, calculate_events, accumulate_all}
use hmsdk.Bwprof.Events.Tables.{
  events_at, calculate_events-eq, accumulate_all-fill_from, length-fill_from,
}
use hmsdk.Bwprof.Output.{OutputFormatter, Shown, write_csv_line, statistics}
use hmsdk.Bwprof.Report.Recording.{Row, write_rows}
use hmsdk.Bwprof.Process.{ProcessExecutor, new_executor, exited, wait_for_child_non_blocking}
use hmsdk.Bwprof.Monitor.{Monitor, Round, looped, stopped, measure, round, after_wait, run_rounds}
use hmsdk.Bwprof.Monitor.Going.{GoesOn, round-eq-measure}
use hmsdk.Bwprof.Output.Selected.{stats_of, print_results-fill_from, num_sockets-write_csv_line}

module _ {S : Type 0} (pcm : Pcm S) (config : Config) where
  -- What has been accumulated behind the interval between two states.
  abbrev pub total_after : (ℕ → SocketMemoryData) → (ℕ → S) → (ℕ → S) → ℕ → SocketMemoryData
  total_after total last next skt =
      accumulate (total skt) (events_at pcm config.socket last next skt)

  -- The state between two rounds, with what has been read and written.
  pub record IsRecording (time : ℕ) (last : ℕ → S) (total : ℕ → SocketMemoryData)
      (e : ProcessExecutor) (f : OutputFormatter) (m : Monitor S) : Type 0 where
    pub time_kept : m.prev_time ≡ time
    pub states_kept : m.prev_states ≡ fill_from last pcm.num_sockets 0
    pub table_size : length m.current_socket_data ≡ pcm.num_sockets
    pub totals : m.accumulated_socket_data ≡ fill_from total pcm.num_sockets 0
    pub sockets_set : m.formatter.num_sockets ≡ pcm.num_sockets
    pub executor_kept : m.executor ≡ e
    pub lines_written : m.formatter ≡ f

  module _ {D : Type 0} ⦃d : Double D⦄ where
    -- The line of a round, from the time, the states and the totals before it.
    abbrev pub row_of : ℕ → (ℕ → S) → (ℕ → SocketMemoryData) → Round S D → Row D
    row_of time last total r = (
      r.timestamp,
      statistics (
          stats_of config (events_at pcm config.socket last r.states)
            (total_after total last r.states) (sub_u64 r.current_time time) pcm.num_sockets 0),
    )

    abbrev pub rows_of : ℕ → (ℕ → S) → (ℕ → SocketMemoryData) → List (Round S D) → List (Row D)
    rows_of time last total [] = []
    rows_of time last total (r ∷ rs) =
        row_of time last total r
        ∷ rows_of r.current_time r.states (total_after total last r.states) rs

    measure-IsRecording :
        (time : ℕ) (last : ℕ → S) (total : ℕ → SocketMemoryData) (e : ProcessExecutor)
        (f : OutputFormatter) (m : Monitor S) (r : Round S D)
        → config.command ≡ record_mode
        → IsRecording time last total e f m
        → (m' : Monitor S) × (shown : List (Shown D)) × (measure pcm config r m
            ≡ ok (looped m' shown))
          × IsRecording r.current_time r.states
              (total_after total last r.states)
              e
              (write_rows config (row_of time last total r ∷ []) f)
              m'
    unfolding measure
    measure-IsRecording time last total e f m r mode v =
        let n = pcm.num_sockets in
        let curr = fill_from r.states n 0 in
        let now = events_at pcm config.socket last r.states in
        let total' = total_after total last r.states in
        let events =
          subst
            (λ st.
              calculate_events pcm config.socket n (fill_from pcm.num_cxl_ports n 0) st curr
                m.current_socket_data
              ≡ ok (fill_from now n 0))
            (sym v.states_kept)
            (calculate_events-eq pcm config.socket last r.states n m.current_socket_data
              v.table_size) in
        let sums =
          subst (λ acc. accumulate_all acc (fill_from now n 0) ≡ ok (fill_from total' n 0))
            (sym v.totals) (accumulate_all-fill_from total now n 0) in
        let (shown, printed) =
          print_results-fill_from config now total' (sub_u64 r.current_time m.prev_time) n
            r.timestamp m.formatter mode v.sockets_set in
        let stats =
          statistics (stats_of config now total' (sub_u64 r.current_time m.prev_time) n 0) in
        let f' = write_csv_line config r.timestamp stats m.formatter in
        (
          record m {
            prev_time = r.current_time;
            prev_states = curr;
            curr_states = m.prev_states;
            current_socket_data = fill_from now n 0;
            accumulated_socket_data = fill_from total' n 0;
            formatter = f';
          },
          shown,
          rw (events, sums, printed) refl,
          record {
            time_kept = refl;
            states_kept = refl;
            table_size = length-fill_from now n 0;
            totals = refl;
            sockets_set =
                num_sockets-write_csv_line config r.timestamp stats m.formatter ∙ v.sockets_set;
            executor_kept = v.executor_kept;
            lines_written = λ i.
                write_csv_line config r.timestamp
                  (statistics
                    (stats_of config now total' (sub_u64 r.current_time (v.time_kept i)) n 0))
                  (v.lines_written i);
          },
        )

    -- The rounds that go on write their lines, and leave the loop to the rounds behind them.
    pub run_rounds-IsRecording :
        (time : ℕ) (last : ℕ → S) (total : ℕ → SocketMemoryData) (e : ProcessExecutor)
        (f : OutputFormatter) (rs qs : List (Round S D)) (m : Monitor S) (shown : List (Shown D))
        → config.command ≡ record_mode
        → All (GoesOn config) rs
        → IsRecording time last total e f m
        → (m' : Monitor S) × (shown' : List (Shown D)) × (run_rounds pcm config (rs ++ qs) m shown
            ≡ run_rounds pcm config qs m' shown')
          × (m'.executor ≡ e)
          × (m'.formatter ≡ write_rows config (rows_of time last total rs) f)
    unfolding run_rounds
    run_rounds-IsRecording time last total e f [] qs m shown mode g v =
        (m, shown, refl, v.executor_kept, v.lines_written)
    run_rounds-IsRecording time last total e f (r ∷ rs) qs m shown mode (g, gs) v =
        let (m₁, more, ran, v₁) = measure-IsRecording time last total e f m r mode v in
        let (m', shown', ran', ex, fo) =
          run_rounds-IsRecording r.current_time r.states (total_after total last r.states) e
            (write_rows config (row_of time last total r ∷ []) f) rs qs m₁ (shown ++ more) mode gs
            v₁ in
        (m', shown', rw (round-eq-measure pcm config m r g, ran) ran', ex, fo)

    -- A round that sees the exit of the command ends the loop.
    pub run_rounds-exited :
        (r : Round S D) (rs : List (Round S D)) (m : Monitor S) (shown : List (Shown D))
        (status : ℕ)
        → is_empty config.command_args ≡ false
        → r.waited ≡ exited status
        → m.executor.running ≡ true
        → is_pos m.executor.child_pid ≡ true
        → run_rounds pcm config (r ∷ rs) m shown
          ≡ ok (stopped (record m { executor = new_executor }))
    unfolding run_rounds round after_wait wait_for_child_non_blocking
    run_rounds-exited r rs m shown status args w running child = rw (args, w, running, child) refl
