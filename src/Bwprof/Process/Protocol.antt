-- ===== src/Bwprof/Process/Protocol.antt =====
-- The fields of the executor.
use hmsdk.Base.{◌≡◌, ◌≢◌, false, List, Bytes, [], ◌∷◌, arith}
use hmsdk.Base.Int.{ℤ, negsuc, is_pos}
use hmsdk.Bwprof.Result.{ok}
use hmsdk.Bwprof.Process.{
  ProcessExecutor, Fork, fork_failed, in_child, in_parent, Waited, still_running, Blocked,
  execute_command, wait_for_child_non_blocking, wait_for_child, finish, silent,
}

-- The executor has a child exactly if it is running.
abbrev pub IsConsistent : ProcessExecutor → Type 0
IsConsistent e = e.running ≡ is_pos e.child_pid

-- `fork` gives its parent a positive pid.
abbrev pub IsForked : Fork → Type 0
IsForked (fork_failed error) = Unit
IsForked in_child = Unit
IsForked (in_parent pid) = pid ≢ 0

execute_command-IsConsistent :
    (command : List Bytes) (forked : Fork) (e : ProcessExecutor)
    → IsForked forked
    → e.running ≡ false
    → IsConsistent e
    → IsConsistent (execute_command command forked e).1
unfolding execute_command
execute_command-IsConsistent [] forked e h stopped c = c
execute_command-IsConsistent (arg ∷ args) (fork_failed error) e h stopped c = stopped
execute_command-IsConsistent (arg ∷ args) in_child e h stopped c = ground arith
execute_command-IsConsistent (arg ∷ args) (in_parent pid) e h stopped c = ground arith

-- `executeCommand` and both waits keep the two fields of the executor in step, whatever `fork` and
-- `waitpid` return: an executor with no child in it still is in step behind a call of
-- `executeCommand`, in the parent, in the child and where the call throws, and a wait that returns
-- keeps any executor in step. `fork` gives its parent a positive pid.
pub executor-IsConsistent :
    (command : List Bytes) (forked : Fork) (waited : Waited) (blocked : Blocked)
    (e : ProcessExecutor) (e' : ProcessExecutor) (status : ℤ)
    → IsForked forked
    → IsConsistent e
    → (e.running ≡ false → IsConsistent (execute_command command forked e).1)
      × (wait_for_child_non_blocking waited e ≡ ok (e', status) → IsConsistent e')
      × (wait_for_child blocked e ≡ ok (e', status) → IsConsistent e')
unfolding wait_for_child_non_blocking wait_for_child
executor-IsConsistent command forked waited blocked e e' status h c = (
  λ stopped. execute_command-IsConsistent command forked e h stopped c,
  ground arith,
  ground arith,
)

-- After the non-blocking wait has reported an exit, the wait at the end of the run returns at once
-- with -1, and nothing is printed about the command: neither its exit status nor its signal.
pub finish_after_exit :
    (waited : Waited) (e e' : ProcessExecutor) (status : ℤ) (child_pid : ℤ) (blocked : Blocked)
    → wait_for_child_non_blocking waited e ≡ ok (e', status)
    → status ≢ negsuc 0
    → finish child_pid blocked e' ≡ ok (e', silent)
unfolding wait_for_child_non_blocking finish
finish_after_exit waited e e' status child_pid blocked p h = ground arith

pub wait_for_child_still :
    (waited : Waited) (e : ProcessExecutor)
    → waited ≡ still_running
    → wait_for_child_non_blocking waited e ≡ ok (e, negsuc 0)
unfolding wait_for_child_non_blocking
wait_for_child_still waited e h = ground arith
