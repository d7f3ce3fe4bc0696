-- ===== src/Bwprof/Monitor/Ending.antt =====
-- What is left to report when the loop has ended.
use hmsdk.Base.{is_empty, ◌≡◌, ◌≢◌, refl, subst, inl, inr, List, [], ◌∷◌, ◌++◌, arith, Bool-cases}
use hmsdk.Base.Int.{ℤ, is_minus_one}
use hmsdk.Bwprof.Result.{Result, ok, throw, undefined, ◌>>=◌}
use hmsdk.Bwprof.Config.{Config}
use hmsdk.Bwprof.Double.{Double}
use hmsdk.Bwprof.Pcm.{Pcm}
use hmsdk.Bwprof.Output.{Shown}
use hmsdk.Bwprof.Process.{ProcessExecutor, Blocked, finish, silent, wait_for_child_non_blocking}
use hmsdk.Bwprof.Process.Protocol.{finish_after_exit}
use hmsdk.Bwprof.Monitor.{
  Monitor, Round, Progress, stopped, looped, measure, after_wait, round, run_rounds,
}

module _ {S : Type 0} (pcm : Pcm S) (config : Config) {D : Type 0} ⦃d : Double D⦄ where
  measure_loops :
      (r : Round S D) (m : Monitor S) {m' : Monitor S} → measure pcm config r m ≢ ok (stopped m')
  unfolding measure
  measure_loops r m = ground arith

  stopped-injective :
      (a b : Monitor S) → ◌≡◌ {A = Result (Progress S D)} (ok (stopped a)) (ok (stopped b)) → a ≡ b
  stopped-injective a b e = cc

  finish-after_wait :
      (r : Round S D) (m m' : Monitor S) (child_pid : ℤ) (blocked : Blocked)
      (waited : Result (ProcessExecutor × ℤ))
      → wait_for_child_non_blocking r.waited m.executor ≡ waited
      → (waited >>= after_wait pcm config r m) ≡ ok (stopped m')
      → finish child_pid blocked m'.executor ≡ ok (m'.executor, silent)
  unfolding after_wait
  finish-after_wait r m m' child_pid blocked (throw error) w e = cc
  finish-after_wait r m m' child_pid blocked undefined w e = cc
  finish-after_wait r m m' child_pid blocked (ok (x, status)) w e =
      elim (Bool-cases (is_minus_one status)) [
        | inl none_yet ↦ absurd (measure_loops r _ (rw none_yet at e))
        | inr some_status ↦
            subst (λ k. finish child_pid blocked k.executor ≡ ok (k.executor, silent))
              (stopped-injective (record m { executor = x }) m' (rw some_status at e))
              (finish_after_exit r.waited m.executor x status child_pid blocked w
                (λ p. ground arith))
      ]

  finish_after_round :
      (r : Round S D) (m m' : Monitor S) (child_pid : ℤ) (blocked : Blocked)
      → round pcm config r m ≡ ok (stopped m')
      → finish child_pid blocked m'.executor ≡ ok (m'.executor, silent)
  unfolding round
  finish_after_round r m m' child_pid blocked e = elim (Bool-cases (is_empty config.command_args)) [
    | inl alone ↦ absurd (measure_loops r m (rw alone at e))
    | inr command ↦ finish-after_wait r m m' child_pid blocked _ refl (rw command at e)
  ]

  -- When the loop has ended because the command exited, the rest of `runRecordMode` and `runTopMode`
  -- prints nothing about it, whatever its exit status was.
  pub finish_after_run :
      (rs : List (Round S D)) (m m' : Monitor S) (shown : List (Shown D)) (child_pid : ℤ)
      (blocked : Blocked)
      → run_rounds pcm config rs m shown ≡ ok (stopped m')
      → finish child_pid blocked m'.executor ≡ ok (m'.executor, silent)
  unfolding run_rounds
  finish_after_run [] m m' shown child_pid blocked e = cc
  finish_after_run (r ∷ rs) m m' shown child_pid blocked e =
      go (round pcm config r m) refl (λ n seen. finish_after_run rs n m' seen child_pid blocked) e
    where
      go :
          (p : Result (Progress S D))
          → round pcm config r m ≡ p
          → ((n : Monitor S) (seen : List (Shown D))
              → run_rounds pcm config rs n seen ≡ ok (stopped m')
              → finish child_pid blocked m'.executor ≡ ok (m'.executor, silent))
          → (p >>= λ q. elim q [
            | stopped n ↦ ok (stopped n)
            | looped n more ↦ run_rounds pcm config rs n (shown ++ more)
          ])
            ≡ ok (stopped m')
          → finish child_pid blocked m'.executor ≡ ok (m'.executor, silent)
      go (throw error) w later h = cc
      go undefined w later h = cc
      go (ok (looped n more)) w later h = later n (shown ++ more) h
      go (ok (stopped n)) w later h =
          subst (λ k. finish child_pid blocked k.executor ≡ ok (k.executor, silent))
            (stopped-injective n m' h) (finish_after_round r m n child_pid blocked w)
