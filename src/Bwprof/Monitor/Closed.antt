-- ===== src/Bwprof/Monitor/Closed.antt =====
-- The loop where no bwprof.csv is open, as in `top`.
use hmsdk.Base.{◌≡◌, refl, none, List, [], ◌∷◌, ◌++◌, is_empty, Bool-cases, inl, inr, arith}
use hmsdk.Base.Int.{ℤ, is_minus_one}
use hmsdk.Bwprof.Result.{Result, ok, throw, undefined, Returns, Returns-bind, Returns-any}
use hmsdk.Bwprof.Config.{Config, top}
use hmsdk.Bwprof.Double.{Double}
use hmsdk.Bwprof.Pcm.{Pcm}
use hmsdk.Bwprof.Output.{OutputFormatter, Shown, print_results}
use hmsdk.Bwprof.Process.{ProcessExecutor, wait_for_child_non_blocking}
use hmsdk.Bwprof.Monitor.{
  Monitor, Round, Progress, stopped, looped, measure, after_wait, round, run_rounds,
}

-- No bwprof.csv is open.
abbrev pub Closed : OutputFormatter → Type 0
Closed f = f.csv_file ≡ none

module _ {S : Type 0} (pcm : Pcm S) {D : Type 0} ⦃d : Double D⦄ (config : Config)
    (mode : config.command ≡ top) where
  -- The formatter of the loop.
  abbrev pub ClosedProgress : Progress S D → Type 0
  ClosedProgress (stopped m) = Closed m.formatter
  ClosedProgress (looped m shown) = Closed m.formatter

  measured-Closed :
      (r : Round S D) (m : Monitor S) (p : Progress S D)
      → Closed m.formatter
      → measure pcm config r m ≡ ok p
      → ClosedProgress p
  unfolding measure print_results
  measured-Closed r m p h e = ground (arith, mode)

  measure-Closed :
      (r : Round S D) (m : Monitor S)
      → Closed m.formatter
      → Returns ClosedProgress (measure pcm config r m)
  measure-Closed r m h = go (measure pcm config r m) (λ p e. measured-Closed r m p h e)
    where
      go :
          (q : Result (Progress S D))
          → ((p : Progress S D) → q ≡ ok p → ClosedProgress p)
          → Returns ClosedProgress q
      go (ok p) k = k p refl
      go (throw _) k = tt
      go undefined k = tt

  after_wait-Closed :
      (r : Round S D) (m : Monitor S) (w : ProcessExecutor × ℤ)
      → Closed m.formatter
      → Returns ClosedProgress (after_wait pcm config r m w)
  unfolding after_wait
  after_wait-Closed r m (executor, status) h = elim (Bool-cases (is_minus_one status)) [
    | inl runs ↦ rw runs (measure-Closed r (record m { executor = executor }) h)
    | inr over ↦ rw over h
  ]

  round-Closed :
      (r : Round S D) (m : Monitor S)
      → Closed m.formatter
      → Returns ClosedProgress (round pcm config r m)
  unfolding round
  round-Closed r m h = elim (Bool-cases (is_empty config.command_args)) [
    | inl alone ↦ rw alone (measure-Closed r m h)
    | inr command ↦ rw command (
        Returns-bind (λ _. Unit {0}) ClosedProgress
          (wait_for_child_non_blocking r.waited m.executor) (after_wait pcm config r m)
          (Returns-any (wait_for_child_non_blocking r.waited m.executor))
          (λ w _. after_wait-Closed r m w h))
  ]

  pub run_rounds-Closed :
      (rs : List (Round S D)) (m : Monitor S) (shown : List (Shown D))
      → Closed m.formatter
      → Returns ClosedProgress (run_rounds pcm config rs m shown)
  unfolding run_rounds
  run_rounds-Closed [] m shown h = h
  run_rounds-Closed (r ∷ rs) m shown h =
      Returns-bind ClosedProgress ClosedProgress (round pcm config r m) _ (round-Closed r m h)
        (λ p c. go p c (λ m' more c'. run_rounds-Closed rs m' (shown ++ more) c'))
    where
      go :
          (p : Progress S D)
          → ClosedProgress p
          → ((m' : Monitor S) (more : List (Shown D))
              → Closed m'.formatter
              → Returns ClosedProgress (run_rounds pcm config rs m' (shown ++ more)))
          → Returns ClosedProgress (elim p [
            | stopped m' ↦ ok (stopped m')
            | looped m' more ↦ run_rounds pcm config rs m' (shown ++ more)
          ])
      go (stopped m') c later = c
      go (looped m' more) c later = later m' more c
