-- ===== src/Bwprof/Monitor/Going.antt =====
-- The rounds that do not end the loop.
use hmsdk.Base.{is_empty, ◌≡◌, ◌⊎◌, inl, inr, true, Bool-cases}
use hmsdk.Bwprof.Config.{Config}
use hmsdk.Bwprof.Double.{Double}
use hmsdk.Bwprof.Pcm.{Pcm}
use hmsdk.Bwprof.Process.{still_running}
use hmsdk.Bwprof.Process.Protocol.{wait_for_child_still}
use hmsdk.Bwprof.Monitor.{Monitor, Round, measure, round}

-- There is no command, or it is still running.
abbrev pub GoesOn : {S D : Type 0} → Config → Round S D → Type 0
GoesOn config r = (is_empty config.command_args ≡ true) ⊎ (r.waited ≡ still_running)

pub round-eq-measure :
    {S D : Type 0} ⦃d : Double D⦄ (pcm : Pcm S) (config : Config) (m : Monitor S) (r : Round S D)
    → GoesOn config r
    → round pcm config r m ≡ measure pcm config r m
unfolding round
round-eq-measure pcm config m r (inl alone) = rw alone
round-eq-measure pcm config m r (inr still) = elim (Bool-cases (is_empty config.command_args)) [
  | inl alone ↦ rw alone
  | inr command ↦ rw (command, wait_for_child_still r.waited m.executor still)
]
