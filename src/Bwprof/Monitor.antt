-- ===== src/Bwprof/Monitor.antt =====
-- `BandwidthProfiler::runMonitoringLoop`. Each round is given what the world answers in it; a run is a
-- list of rounds, and the loop itself ends only by an exit of the command or by an exception.
pub mod Going
pub mod Totals
pub mod Ending
pub mod Rows
pub mod Closed
pub mod Screens
mod Tests
use hmsdk.Base.{is_empty, ℕ, List, [], ◌∷◌, ◌++◌, Bool, true, false, if◌then◌else◌}
use hmsdk.Base.Int.{ℤ, is_minus_one}
use hmsdk.Base.Words.{sub_u64}
use hmsdk.Bwprof.Result.{Result, ok, throw, undefined, ◌>>=◌}
use hmsdk.Bwprof.Config.{Config}
use hmsdk.Bwprof.Double.{Double}
use hmsdk.Bwprof.Stats.{SocketMemoryData, zero_data}
use hmsdk.Bwprof.Pcm.{Pcm}
use hmsdk.Bwprof.Events.{calculate_events, fill_from, accumulate_all}
use hmsdk.Bwprof.Output.{OutputFormatter, Shown, print_results}
use hmsdk.Bwprof.Process.{ProcessExecutor, Waited, wait_for_child_non_blocking}

-- The fields of `BandwidthProfiler` that the loop changes, and `prev_time`.
pub record Monitor (S : Type 0) : Type 0 where
  pub prev_time : ℕ
  pub prev_states : List S
  pub curr_states : List S
  pub current_socket_data : List SocketMemoryData
  pub accumulated_socket_data : List SocketMemoryData
  pub formatter : OutputFormatter
  pub executor : ProcessExecutor

-- What a round reads: the wait for the command, the tick count, the counters of each socket, and
-- the clock for the line that is written.
pub record Round (S D : Type 0) : Type 0 where
  pub waited : Waited
  pub current_time : ℕ
  pub states : ℕ → S
  pub timestamp : D

pub data Progress (S D : Type 0) : Type 0 where
  -- `break`
  stopped : Monitor S → Progress S D
  looped : Monitor S → List (Shown D) → Progress S D

module _ {S : Type 0} (pcm : Pcm S) where
  open pcm use {num_sockets, num_cxl_ports}

  -- The state before the loop: the tables after `initialize`, and the first states.
  unfoldable pub begin_monitor : ℕ → (ℕ → S) → OutputFormatter → ProcessExecutor → Monitor S
  begin_monitor time states formatter executor = record {
    prev_time = time;
    prev_states = fill_from states num_sockets 0;
    curr_states = [];
    current_socket_data = fill_from (λ _. zero_data) num_sockets 0;
    accumulated_socket_data = fill_from (λ _. zero_data) num_sockets 0;
    formatter = formatter;
    executor = executor;
  }

  module _ {D : Type 0} ⦃d : Double D⦄ (config : Config) where
    -- The round behind the test for the command.
    pub measure : Round S D → Monitor S → Result (Progress S D)
    measure r m = do
      let elapsed_time = sub_u64 r.current_time m.prev_time
      let curr_states = fill_from r.states num_sockets 0
      let ports = fill_from num_cxl_ports num_sockets 0
      now ←
          calculate_events pcm config.socket num_sockets ports m.prev_states curr_states
            m.current_socket_data
      acc ← accumulate_all m.accumulated_socket_data now
      (formatter, shown) ←
          print_results config now acc elapsed_time config.socket r.timestamp m.formatter
      ok (
          looped
            (record m {
              prev_time = r.current_time;
              prev_states = curr_states;
              curr_states = m.prev_states;
              current_socket_data = now;
              accumulated_socket_data = acc;
              formatter = formatter;
            })
            shown)

    pub after_wait : Round S D → Monitor S → ProcessExecutor × ℤ → Result (Progress S D)
    after_wait r m (executor, status) =
        if is_minus_one status
        then measure r (record m { executor = executor })
        else ok (stopped (record m { executor = executor }))

    pub round : Round S D → Monitor S → Result (Progress S D)
    unfolding after_wait
    round r m =
        if is_empty config.command_args
        then measure r m
        else wait_for_child_non_blocking r.waited m.executor >>= after_wait r m

    pub run_rounds : List (Round S D) → Monitor S → List (Shown D) → Result (Progress S D)
    run_rounds [] m shown = ok (looped m shown)
    run_rounds (r ∷ rs) m shown = round r m >>= λ p. elim p [
      | stopped m' ↦ ok (stopped m')
      | looped m' more ↦ run_rounds rs m' (shown ++ more)
    ]
