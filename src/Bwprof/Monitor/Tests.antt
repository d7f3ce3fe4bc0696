-- ===== src/Bwprof/Monitor/Tests.antt =====
-- A run of the loop that the exit of the command ends.
use hmsdk.Base.{ℕ, ◌≡◌, refl, true, [], ◌∷◌, ◌+◌, codes}
use hmsdk.Base.Int.{pos}
use hmsdk.Bwprof.Result.{ok}
use hmsdk.Bwprof.Config.{Config}
use hmsdk.Bwprof.Output.{new_formatter, set_num_sockets}
use hmsdk.Bwprof.Process.{
  ProcessExecutor, new_executor, exited, block_exited, finish, silent, wait_for_child_non_blocking,
}
use hmsdk.Bwprof.Monitor.{Monitor, Round, begin_monitor, round, run_rounds}
use hmsdk.Bwprof.Monitor.Ending.{finish_after_run}
use hmsdk.Bwprof.Sample.{whole_double, small_pcm, record_config}

-- `bwprof record -s 1 -- false`
abbrev command_config : Config
command_config = record record_config { command_args = codes "false" ∷ [] }

abbrev started_with : ProcessExecutor → Monitor ℕ
started_with executor =
    begin_monitor small_pcm 100 (λ _. 10) (set_num_sockets (new_formatter command_config) 2)
      executor

abbrev exit_round : Round ℕ ℕ
exit_round = record {
  waited = exited 256;
  current_time = 2100;
  states = λ skt. 25 + skt;
  timestamp = 7;
}

-- `false` exits with 1, and nothing is printed about it.
finish_after_run_example : finish (pos 42) (block_exited 0) new_executor ≡ ok (new_executor, silent)
unfolding round run_rounds wait_for_child_non_blocking begin_monitor
finish_after_run_example =
    finish_after_run small_pcm command_config (exit_round ∷ [])
      (started_with (record { child_pid = pos 42; running = true })) (started_with new_executor) []
      (pos 42) (block_exited 0) refl
