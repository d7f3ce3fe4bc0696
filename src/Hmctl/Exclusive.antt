-- ===== src/Hmctl/Exclusive.antt =====
-- Policies that the command line of hmctl refuses together.
use hmsdk.Base.{◌≡◌, refl, subst, ◌⊎◌, inl, false, none, List, [], ◌∷◌, arith}
use hmsdk.Base.Int.{is_pos}
use hmsdk.Hmctl.{
  Opts, default_opts, Key, Parsing, handled, unknown, conflict, usage, parse_option, parse_keys,
  and_then,
}

-- Not both nodes to bind to and a preferred node that is above 0.
abbrev pub IsExclusive : Opts → Type 0
IsExclusive opts = (opts.membind ≡ none) ⊎ (is_pos opts.preferred ≡ false)

-- The options with which the parsing goes on, if it does.
abbrev pub Goes : (Opts → Type 0) → Parsing → Type 0
Goes P (handled opts) = P opts
Goes P (unknown opts) = P opts
Goes P (conflict _) = Unit
Goes P usage = Unit

parse_option-IsExclusive :
    (key : Key) (opts : Opts) → IsExclusive opts → Goes IsExclusive (parse_option key opts)
unfolding parse_option
parse_option-IsExclusive key opts h = ground arith

pub and_then-Goes :
    (P : Opts → Type 0) (p : Parsing) (next : Opts → Parsing)
    → Goes P p
    → ((o : Opts) → P o → Goes P (next o))
    → Goes P (and_then p next)
and_then-Goes P (handled o) next l h = h o l
and_then-Goes P (unknown o) next l h = h o l
and_then-Goes P (conflict _) next l h = tt
and_then-Goes P usage next l h = tt

parse_keys-IsExclusive_from :
    (keys : List Key) (opts : Opts) → IsExclusive opts → Goes IsExclusive (parse_keys keys opts)
unfolding parse_keys
parse_keys-IsExclusive_from [] opts h = h
parse_keys-IsExclusive_from (key ∷ keys) opts h =
    and_then-Goes IsExclusive (parse_option key opts) (λ o. parse_keys keys o)
      (parse_option-IsExclusive key opts h) (λ o l. parse_keys-IsExclusive_from keys o l)

-- Whatever the command line is, in whatever order its options stand, the options with which hmctl
-- executes the program do not hold both nodes for membind and a preferred node above 0.
pub parse_keys-IsExclusive :
    (keys : List Key) (opts : Opts) → parse_keys keys default_opts ≡ handled opts → IsExclusive opts
parse_keys-IsExclusive keys opts e =
    subst (Goes IsExclusive) e (parse_keys-IsExclusive_from keys default_opts (inl refl))
