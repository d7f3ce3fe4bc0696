-- ===== src/Bwprof/Process.antt =====
-- `class ProcessExecutor`, and the report on the exit of the command at the end of a run. What
-- `fork` and `waitpid` return is an argument.
pub mod Protocol
use hmsdk.Base.{
  ℕ, zero, suc, ◌+◌, ◌-◌, ◌/◌, ◌%◌, ◌^◌, Bool, true, false, not, ◌&&◌, ◌||◌, List, [], ◌∷◌, ◌++◌,
  Bytes, codes, ltb, leb, ◌==◌, if◌then◌else◌,
}
use hmsdk.Base.Int.{ℤ, pos, negsuc, is_pos}
use hmsdk.Bwprof.Result.{Result, ok, throw, undefined}

pub record ProcessExecutor : Type 0 where
  pub child_pid : ℤ
  pub running : Bool

abbrev pub new_executor : ProcessExecutor
new_executor = record { child_pid = negsuc 0; running = false }

-- `fork` fails with the text of its error, or returns in the child or in the parent.
pub data Fork : Type 0 where
  fork_failed : Bytes → Fork
  in_child : Fork
  in_parent : ℕ → Fork

-- A call of `executeCommand` goes on in the parent, with the pid, or becomes the command.
pub data Executed : Type 0 where
  execvp : List Bytes → Executed
  started : ℤ → Executed

-- With the executor that the call leaves, also where it throws. The result of `fork` is stored before
-- it is tested.
unfoldable pub execute_command :
    List Bytes → Fork → ProcessExecutor → Result Executed × ProcessExecutor
execute_command [] forked e = (throw (codes "No command specified"), e)
execute_command (arg ∷ args) (fork_failed error) e =
    (throw (codes "Failed to fork: " ++ error), record e { child_pid = negsuc 0 })
execute_command (arg ∷ args) in_child e = (ok (execvp (arg ∷ args)), record e { child_pid = pos 0 })
execute_command (arg ∷ args) (in_parent pid) e =
    (ok (started (pos pid)), record e { child_pid = pos pid; running = true })

-- `waitpid` fails with the text of its error, returns 0, or returns the pid with a status.
pub data Waited : Type 0 where
  wait_failed : Bytes → Waited
  still_running : Waited
  exited : ℕ → Waited

unfoldable pub wait_for_child_non_blocking : Waited → ProcessExecutor → Result (ProcessExecutor × ℤ)
wait_for_child_non_blocking waited e =
    if not e.running || not (is_pos e.child_pid) then ok (e, negsuc 0) else elim waited [
      | wait_failed error ↦ throw (codes "waitpid failed: " ++ error)
      | still_running ↦ ok (e, negsuc 0)
      | exited status ↦ ok (record { child_pid = negsuc 0; running = false }, pos status)
    ]

-- Without `WNOHANG` the call does not return 0: the status is that of an exit, or it failed.
pub data Blocked : Type 0 where
  block_failed : Bytes → Blocked
  block_exited : ℕ → Blocked

unfoldable pub wait_for_child : Blocked → ProcessExecutor → Result (ProcessExecutor × ℤ)
wait_for_child blocked e =
    if not e.running || not (is_pos e.child_pid) then ok (e, negsuc 0) else elim blocked [
      | block_failed error ↦ throw (codes "waitpid failed: " ++ error)
      | block_exited status ↦ ok (record { child_pid = negsuc 0; running = false }, pos status)
    ]

pub data Signal : Type 0 where
  sigterm sigkill : Signal

-- The signals that `terminateChild` sends, in order, to the pid.
unfoldable pub terminate_child : ProcessExecutor → List (ℤ × Signal)
terminate_child e =
    if e.running && is_pos e.child_pid
    then (e.child_pid, sigterm) ∷ (e.child_pid, sigkill) ∷ []
    else []

-- The low bits of a status, as the macros of <sys/wait.h> read an `int`.
abbrev pub status_word : ℤ → ℕ
status_word (pos n) = n % 2 ^ 32
status_word (negsuc n) = 2 ^ 32 - 1 - n % 2 ^ 32

abbrev pub wtermsig : ℤ → ℕ
wtermsig s = status_word s % 128

abbrev pub wifexited : ℤ → Bool
wifexited s = wtermsig s == 0

abbrev pub wexitstatus : ℤ → ℕ
wexitstatus s = (status_word s / 256) % 256

-- `((signed char)((s & 0x7f) + 1) >> 1) > 0`
abbrev pub wifsignaled : ℤ → Bool
wifsignaled s = ltb 0 (wtermsig s) && ltb (wtermsig s) 127

-- What is printed of the end of the command.
pub data ExitReport : Type 0 where
  exited_with : ℕ → ExitReport
  terminated_by : ℕ → ExitReport
  silent : ExitReport

report_status : ℤ → ExitReport
report_status status =
    if wifexited status
    then exited_with (wexitstatus status)
    else if wifsignaled status
    then terminated_by (wtermsig status)
    else silent

-- The end of `runRecordMode` and `runTopMode`, behind the monitoring loop.
unfoldable pub finish : ℤ → Blocked → ProcessExecutor → Result (ProcessExecutor × ExitReport)
unfolding report_status wait_for_child
finish child_pid blocked e =
    if is_pos child_pid
    then elim (wait_for_child blocked e) [
      | ok (e', status) ↦ ok (e', report_status status)
      | throw error ↦ throw error
      | undefined ↦ undefined
    ]
    else ok (e, silent)
