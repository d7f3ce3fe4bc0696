-- ===== src/Bwprof/Tests/Monitoring.antt =====
-- The theorems on statistics, events, the monitoring loop and the command, at concrete inputs.
use hmsdk.Base.{
  ℕ, ◌+◌, ◌<◌, ◌≡◌, refl, inl, true, false, some, List, [], ◌∷◌, arith, codes, All, get_elem?,
}
use hmsdk.Base.Int.{pos, negsuc}
use hmsdk.Bwprof.Result.{ok}
use hmsdk.Bwprof.Config.{Config, default_config, top}
use hmsdk.Bwprof.Stats.{SocketMemoryData, BwStats, zero_data, calculate}
use hmsdk.Bwprof.Stats.Division.{with_division, calculate_division}
use hmsdk.Bwprof.Output.{Shown, new_formatter, set_num_sockets, results_from}
use hmsdk.Bwprof.Output.Columns.{selected}
use hmsdk.Bwprof.Output.Results.{numbers, IsResult, results_from-IsResult}
use hmsdk.Bwprof.Events.{socket_events, calculate_events, fill_from}
use hmsdk.Bwprof.Events.Counters.{Leads, counters, socket_events-Leads}
use hmsdk.Bwprof.Events.Tables.{events_at, calculate_events-eq}
use hmsdk.Bwprof.Process.{
  ProcessExecutor, new_executor, execute_command, fork_failed, exited, still_running, block_exited,
  wait_for_child_non_blocking, wait_for_child,
}
use hmsdk.Bwprof.Process.Protocol.{IsConsistent, executor-IsConsistent}
use hmsdk.Bwprof.Monitor.{Monitor, Round, looped, begin_monitor, run_rounds}
use hmsdk.Bwprof.Monitor.Totals.{IsTotal, last_states, monitoring-IsTotal}
use hmsdk.Bwprof.Sample.{
  whole_double, fraction_double, other_division, small_pcm, small_pcm-IsCounting,
}

abbrev some_data : SocketMemoryData
some_data = record { reads = 5; writes = 7; cxl_reads = 11; cxl_writes = 13 }

other_division_agrees :
    (x y : ℕ × ℕ)
    → fraction_double.eq y (0, 1) ≡ false
    → other_division x y ≡ fraction_double.div x y
other_division_agrees x y e = rw e

calculate_division_example :
    calculate ⦃d = with_division fraction_double other_division⦄ some_data some_data 2000
    ≡ calculate ⦃d = fraction_double⦄ some_data some_data 2000
calculate_division_example =
    calculate_division fraction_double other_division other_division_agrees (λ n h. ground arith)
      (λ n h. ground arith) some_data some_data 2000

socket_events-Leads_example :
    Leads
      (counters small_pcm small_pcm-IsCounting 6 10)
      (socket_events small_pcm 10 25 6)
      (counters small_pcm small_pcm-IsCounting 6 25)
socket_events-Leads_example = socket_events-Leads small_pcm small_pcm-IsCounting 10 25 6

abbrev before : ℕ → ℕ
before _ = 10

abbrev after : ℕ → ℕ
after skt = 25 + skt

calculate_events-eq_example :
    calculate_events small_pcm
      (negsuc 0)
      2
      (fill_from (λ _. 6) 2 0)
      (fill_from before 2 0)
      (fill_from after 2 0)
      (zero_data ∷ some_data ∷ [])
    ≡ ok (fill_from (events_at small_pcm (negsuc 0) before after) 2 0)
calculate_events-eq_example =
    calculate_events-eq small_pcm (negsuc 0) before after 2 (zero_data ∷ some_data ∷ []) refl

results_from-IsResult_example :
    (results : List (ℕ × BwStats ℕ)) × (results_from
        (some_data ∷ zero_data ∷ [])
        (some_data ∷ some_data ∷ [])
        1000
        (negsuc 0)
        2
        0
      ≡ ok results)
    × (numbers results ≡ selected (negsuc 0) 2 0)
    × All (IsResult (some_data ∷ zero_data ∷ []) (some_data ∷ some_data ∷ []) 1000) results
results_from-IsResult_example =
    results_from-IsResult (some_data ∷ zero_data ∷ []) (some_data ∷ some_data ∷ []) 1000 (negsuc 0)
      2 0 (omega arith) (omega arith)

abbrev busy : ProcessExecutor
busy = record { child_pid = pos 42; running = true }

-- A `fork` that fails.
executor-IsConsistent_example :
    (new_executor.running ≡ false
      → IsConsistent
          (execute_command (codes "ls" ∷ []) (fork_failed (codes "No memory")) new_executor).1)
    × (wait_for_child_non_blocking still_running new_executor ≡ ok (busy, pos 42)
        → IsConsistent busy)
    × (wait_for_child (block_exited 0) new_executor ≡ ok (busy, pos 42) → IsConsistent busy)
executor-IsConsistent_example =
    executor-IsConsistent (codes "ls" ∷ []) (fork_failed (codes "No memory")) still_running
      (block_exited 0) new_executor busy (pos 42) tt refl

abbrev first_round : Round ℕ ℕ
first_round = record { waited = still_running; current_time = 2100; states = after; timestamp = 7 }

abbrev last_round : Round ℕ ℕ
last_round = record { waited = exited 256; current_time = 4100; states = before; timestamp = 9 }

abbrev start : Monitor ℕ
start =
    begin_monitor small_pcm 100 before (set_num_sockets (new_formatter default_config) 2)
      new_executor

monitoring-IsTotal_example :
    (m : Monitor ℕ) × (shown : List (Shown ℕ)) × (run_rounds small_pcm default_config
        (first_round ∷ [])
        start
        []
      ≡ ok (looped m shown))
    × ((skt : ℕ)
        → skt < 2
        → (total : SocketMemoryData) × (get_elem? m.accumulated_socket_data skt ≡ some total)
          × IsTotal small_pcm small_pcm-IsCounting default_config before
              (last_states small_pcm small_pcm-IsCounting default_config before (first_round ∷ []))
              skt
              total)
unfolding set_num_sockets
monitoring-IsTotal_example =
    monitoring-IsTotal small_pcm small_pcm-IsCounting default_config 100 before
      (set_num_sockets (new_formatter default_config) 2) new_executor (first_round ∷ []) refl
      (inl refl, tt)

-- `bwprof top`, for two rounds.
abbrev top_config : Config
top_config = record default_config { command = top }
