-- ===== src/Bwprof/Monitor/Screens.antt =====
-- What the loop shows on the screen.
use hmsdk.Base.{ℕ, zero, suc, ◌≡◌, none, some, List, [], ◌∷◌, ◌++◌, map, Option, if◌then◌else◌}
use hmsdk.Base.Int.{ℤ}
use hmsdk.Bwprof.Result.{Result}
use hmsdk.Bwprof.Config.{Config}
use hmsdk.Bwprof.Double.{Double}
use hmsdk.Bwprof.Pcm.{Pcm}
use hmsdk.Bwprof.Output.{OutputFormatter, Shown, clear_screen, formatted_output}
use hmsdk.Bwprof.Output.Columns.{selected}
use hmsdk.Bwprof.Monitor.{Monitor, Progress, stopped, looped}

-- Which socket a part of the screen is about, `none` where the screen is cleared.
abbrev label : {D : Type 0} → Shown D → Option ℕ
label clear_screen = none
label (formatted_output skt stats) = some skt

abbrev pub labels : {D : Type 0} → List (Shown D) → List (Option ℕ)
labels shown = map label shown

-- The screen of a round under `top`: it is cleared, and each selected socket is shown.
abbrev pub full_screen : ℤ → ℕ → List (Option ℕ)
full_screen target num_sockets = none ∷ map some (selected target num_sockets 0)

-- The same screen in each of the rounds.
abbrev pub in_rounds : ℕ → List (Option ℕ) → List (Option ℕ)
in_rounds zero block = []
in_rounds (suc k) block = block ++ in_rounds k block

-- What is shown in a round, by the flag of the formatter.
abbrev pub shown_in_round : Config → OutputFormatter → List (Option ℕ)
shown_in_round config f =
    if f.show_realtime_output then full_screen config.socket f.num_sockets else []

-- The flag and the number of sockets are kept.
abbrev IsLike : OutputFormatter → OutputFormatter → Type 0
IsLike f g = (g.show_realtime_output ≡ f.show_realtime_output) × (g.num_sockets ≡ f.num_sockets)

module _ {D : Type 0} ⦃d : Double D⦄ where
  -- Behind `printResults`: the formatter, and how much is shown.
  abbrev Shows : Config → OutputFormatter → OutputFormatter × List (Shown D) → Type 0
  Shows config f (g, shown) = IsLike f g × (labels shown ≡ shown_in_round config f)

-- Behind a round, from the formatter before it.
abbrev ShowsRound : {S D : Type 0} → Config → OutputFormatter → Progress S D → Type 0
ShowsRound config f (stopped m) = Unit
ShowsRound config f (looped m shown) =
    IsLike f m.formatter × (labels shown ≡ shown_in_round config f)

-- Behind rounds.
abbrev ShowsRounds : {S D : Type 0} → List (Option ℕ) → Progress S D → Type 0
ShowsRounds n (stopped m) = Unit
ShowsRounds n (looped m shown) = labels shown ≡ n
