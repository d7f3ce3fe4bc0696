-- ===== src/Bwprof/Info/OneLine.antt =====
-- Newlines in the values that `collectAndSave` finds.
use hmsdk.Base.{
  ℕ, suc, ◌≡◌, refl, Bool, true, false, if◌then◌else◌, Option, none, some, List, [], ◌∷◌, subst,
  arith, Bytes, codes, Lacks, All, ◌==◌,
}
use hmsdk.Base.Int.{ℤ, pos, negsuc}
use hmsdk.Base.Decimal.RoundTrip.{Lacks-to_decimal}
use hmsdk.Bwprof.Result.{ok}
use hmsdk.Bwprof.Info.{split_at_colon, after_prefix, contains_text}
use hmsdk.Bwprof.Info.Collect.{
  print_long, skip_blank, cpu_model, before_quote, remove_quotes, distribution,
}

abbrev pub newline : ℕ
newline = b'\n'

pub ok-injective : {a b : Bytes} → ok a ≡ ok b → a ≡ b
ok-injective e = cc

pub Lacks-print_long : (z : ℤ) → Lacks newline (print_long z)
unfolding print_long
Lacks-print_long (pos n) = Lacks-to_decimal newline n refl
Lacks-print_long (negsuc n) = (omega arith, Lacks-to_decimal newline (suc n) refl)

module _ (c : ℕ) where
  abbrev LacksIn : Option Bytes → Type 0
  LacksIn none = Unit
  LacksIn (some t) = Lacks c t

  abbrev ValueLacks : Option (Bytes × Bytes) → Type 0
  ValueLacks none = Unit
  ValueLacks (some (key, value)) = Lacks c value

  if-LacksIn : (b : Bool) (o : Option Bytes) → LacksIn o → LacksIn (if b then o else none)
  if-LacksIn true o l = l
  if-LacksIn false o l = tt

  -- What stands behind a prefix or a colon lacks what the whole text lacks.
  after_prefix-LacksIn : (p s : Bytes) → Lacks c s → LacksIn (after_prefix p s)
  unfolding after_prefix
  after_prefix-LacksIn [] s l = l
  after_prefix-LacksIn (p ∷ ps) [] l = tt
  after_prefix-LacksIn (p ∷ ps) (b ∷ s) l =
      if-LacksIn (p == b) (after_prefix ps s) (after_prefix-LacksIn ps s l.1)

  split_at_colon-ValueLacks : (s : Bytes) → Lacks c s → ValueLacks (split_at_colon s)
  unfolding split_at_colon
  split_at_colon-ValueLacks [] l = tt
  split_at_colon-ValueLacks (b ∷ s) l =
      go (b == b':') (split_at_colon s) (split_at_colon-ValueLacks s l.1)
    where
      go :
          (at_colon : Bool) (o : Option (Bytes × Bytes))
          → ValueLacks o
          → ValueLacks (elim at_colon [
            | true ↦ some ([], s)
            | false ↦ elim o [ none ↦ none | some (key, value) ↦ some (b ∷ key, value) ]
          ])
      go true o h = l.1
      go false none h = tt
      go false (some (key, value)) h = h

  before_quote-LacksIn : (s : Bytes) → Lacks c s → LacksIn (before_quote s)
  unfolding before_quote
  before_quote-LacksIn [] l = tt
  before_quote-LacksIn (b ∷ []) l = if-LacksIn (b == b'"') (some []) tt
  before_quote-LacksIn (b ∷ d ∷ s) l = go (before_quote (d ∷ s)) (before_quote-LacksIn (d ∷ s) l.1)
    where
      go : (o : Option Bytes) → LacksIn o → LacksIn (elim o [ none ↦ none | some t ↦ some (b ∷ t) ])
      go none h = tt
      go (some t) h = (l.0, h)

  Lacks-remove_quotes : (s : Bytes) → Lacks c s → Lacks c (remove_quotes s)
  unfolding remove_quotes
  Lacks-remove_quotes [] l = tt
  Lacks-remove_quotes (b ∷ []) l = go (b == b'"')
    where
      go : (quoted : Bool) → Lacks c (if quoted then [] else b ∷ [])
      go true = tt
      go false = l
  Lacks-remove_quotes (b ∷ d ∷ s) l =
      go (b == b'"') (before_quote (d ∷ s)) (before_quote-LacksIn (d ∷ s) l.1)
    where
      go :
          (quoted : Bool) (o : Option Bytes)
          → LacksIn o
          → Lacks c (if quoted then elim o [ none ↦ b ∷ d ∷ s | some t ↦ t ] else b ∷ d ∷ s)
      go true none h = l
      go true (some t) h = h
      go false o h = l

pub Lacks-distribution :
    (ls : List Bytes) → All (Lacks newline) ls → Lacks newline (distribution ls)
unfolding distribution
Lacks-distribution [] l = omega arith
Lacks-distribution (line ∷ ls) (l, rest) =
    go (after_prefix (codes "PRETTY_NAME=") line)
      (after_prefix-LacksIn newline (codes "PRETTY_NAME=") line l) (Lacks-distribution ls rest)
  where
    go :
        (o : Option Bytes)
        → LacksIn newline o
        → Lacks newline (distribution ls)
        → Lacks newline (elim o [ none ↦ distribution ls | some name ↦ remove_quotes name ])
    go none h later = later
    go (some name) h later = Lacks-remove_quotes newline name h

pub Lacks-cpu_model :
    (ls : List Bytes) (model : Bytes)
    → All (Lacks newline) ls
    → cpu_model ls ≡ ok model
    → Lacks newline model
unfolding cpu_model
Lacks-cpu_model [] model l e = subst (Lacks newline) (ok-injective e) (omega arith)
Lacks-cpu_model (line ∷ ls) model (l, rest) e =
    go (contains_text (codes "model name") line) (split_at_colon line)
      (split_at_colon-ValueLacks newline line l) (Lacks-cpu_model ls model rest) e
  where
    go :
        (named : Bool) (o : Option (Bytes × Bytes))
        → ValueLacks newline o
        → (cpu_model ls ≡ ok model → Lacks newline model)
        → (if named
            then elim o [ none ↦ cpu_model ls | some (_, behind) ↦ skip_blank behind ]
            else cpu_model ls)
          ≡ ok model
        → Lacks newline model
    go false o h later p = later p
    go true none h later p = later p
    go true (some (key, [])) h later p = cc
    go true (some (key, b ∷ behind)) h later p = subst (Lacks newline) (ok-injective p) h.1
