-- ===== src/Bwprof/Split.antt =====
-- `splitString`, and the lines of a file: a loop of `std::getline`, which gives no token for an
-- empty rest, so that a delimiter at the end adds none.
pub mod RoundTrip
use hmsdk.Base.{ℕ, true, false, List, [], ◌∷◌, ◌++◌, Bytes, ◌==◌, ◌≡◌, refl, codes}

-- Cells as `<<` writes them, each behind a delimiter.
abbrev pub cells : ℕ → List Bytes → Bytes
cells d [] = []
cells d (p ∷ ps) = (d ∷ p) ++ cells d ps

-- What is left over at the end of the input.
abbrev last_token : Bytes → List Bytes
last_token [] = []
last_token (c ∷ s) = (c ∷ s) ∷ []

split_from : ℕ → Bytes → Bytes → List Bytes
split_from delimiter token [] = last_token token
split_from delimiter token (c ∷ s) = elim (c == delimiter) [
  | true ↦ token ∷ split_from delimiter [] s
  | false ↦ split_from delimiter (token ++ (c ∷ [])) s
]

unfoldable pub split_string : Bytes → ℕ → List Bytes
unfolding split_from
split_string s delimiter = split_from delimiter [] s

drops_last : split_string (codes "a,,b,") b',' ≡ codes "a" ∷ [] ∷ codes "b" ∷ []
unfolding split_string
drops_last = refl
