-- ===== src/Hmctl.antt =====
-- hmctl.c: the command line and the environment that it sets for the program it executes.
pub mod Settings
pub mod Exclusive
pub mod Main
mod Tests
use hmsdk.Base.{
  ℕ, ◌^◌, Bool, true, false, ◌==◌, ltb, if◌then◌else◌, Option, none, some, ◌>>=◌, List, [], ◌∷◌,
  Bytes, codes,
}
use hmsdk.Base.Int.{ℤ, pos, negsuc, is_pos}
use hmsdk.Base.Decimal.{to_decimal}
use hmsdk.Base.Long.{atoi}
use hmsdk.Hmalloc.Env.{Environ, setenv}

-- `struct opts`: a null pointer is `none`.
pub record Opts : Type 0 where
  pub idx : ℕ
  pub exename : Option Bytes
  pub membind : Option Bytes
  pub preferred_many : Option Bytes
  pub interleave : Option Bytes
  pub weighted_interleave : Option Bytes
  pub preferred : ℤ

-- The global variable with what `main` sets.
abbrev pub default_opts : Opts
default_opts = record {
  idx = 0;
  exename = none;
  membind = none;
  preferred_many = none;
  interleave = none;
  weighted_interleave = none;
  preferred = negsuc 0;
}

-- The keys with their arguments and the fields of `argp_state` that are read: `arg_num`, and for
-- `ARGP_KEY_ARGS` the index and the text of the next argument.
pub data Key : Type 0 where
  key_membind : Bytes → Key
  key_preferred_many : Bytes → Key
  key_preferred : Bytes → Key
  key_interleave : Bytes → Key
  key_weighted_interleave : Bytes → Key
  key_arg : ℕ → Key
  key_args : ℕ → Bytes → Key
  key_no_args : ℕ → Key
  key_end : ℕ → Key
  other_key : Key

pub data Parsing : Type 0 where
  -- 0
  handled : Opts → Parsing
  -- `ARGP_ERR_UNKNOWN`
  unknown : Opts → Parsing
  -- `fail_mpol_conflict`, with its key
  conflict : ℕ → Parsing
  -- `argp_usage`
  usage : Parsing

abbrev is_some : Option Bytes → Bool
is_some none = false
is_some (some _) = true

abbrev is_given : ℕ → Opts → Parsing
is_given arg_num opts = if ltb arg_num 1 then usage else handled opts

pub parse_option : Key → Opts → Parsing
parse_option (key_membind arg) opts =
    if is_pos opts.preferred then conflict b'm' else handled (record opts { membind = some arg })
parse_option (key_preferred_many arg) opts =
    if is_some opts.membind
    then conflict b'P'
    else handled (record opts { preferred_many = some arg })
parse_option (key_preferred arg) opts =
    if is_some opts.membind then conflict b'p' else handled (record opts { preferred = atoi arg })
parse_option (key_interleave arg) opts = handled (record opts { interleave = some arg })
parse_option (key_weighted_interleave arg) opts =
    handled (record opts { weighted_interleave = some arg })
parse_option (key_arg arg_num) opts =
    if arg_num == 0
    then elim opts.exename [ none ↦ unknown opts | some _ ↦ handled opts ]
    else unknown opts
parse_option (key_args next program) opts =
    handled (record opts { exename = some program; idx = next })
parse_option (key_no_args arg_num) opts = is_given arg_num opts
parse_option (key_end arg_num) opts = is_given arg_num opts
parse_option other_key opts = unknown opts

abbrev pub and_then : Parsing → (Opts → Parsing) → Parsing
and_then (handled opts) next = next opts
and_then (unknown opts) next = next opts
and_then (conflict key) next = conflict key
and_then usage next = usage

-- `argp_parse`: the calls in turn, until one ends the process. What argp does about
-- `ARGP_ERR_UNKNOWN`, another call or an end, is in the list.
pub parse_keys : List Key → Opts → Parsing
parse_keys [] opts = handled opts
parse_keys (key ∷ keys) opts = and_then (parse_option key opts) (λ o. parse_keys keys o)

-- The constants of <numaif.h>, and `*bm->maskp` of what libnuma makes of a list of nodes.
pub record Numa : Type 0 where
  pub mpol_preferred : ℕ
  pub mpol_bind : ℕ
  pub mpol_interleave : ℕ
  pub numa_parse_nodestring : Bytes → Option ℕ

abbrev pub mpol_preferred_many : ℕ
mpol_preferred_many = 5

abbrev pub mpol_weighted_interleave : ℕ
mpol_weighted_interleave = 6

module _ (numa : Numa) where
  -- The branch of a policy with a list of nodes.
  abbrev pub set_nodes : ℕ → Bytes → Environ → Environ
  set_nodes mode nodes env =
      let env' = setenv (codes "HMALLOC_MPOL_MODE") (to_decimal mode) env in
      elim (numa.numa_parse_nodestring nodes) [
        | none ↦ env'
        | some mask ↦ setenv (codes "HMALLOC_NODEMASK") (to_decimal mask) env'
      ]

  -- `1 << node` of an `int`; `none`: undefined.
  abbrev pub shift_one : ℕ → Option ℕ
  shift_one node = if ltb node 31 then some (2 ^ node) else none

  abbrev pub set_preferred : ℕ → Environ → Option Environ
  set_preferred node env = do
    nodemask ← shift_one node
    some (
        setenv (codes "HMALLOC_NODEMASK") (to_decimal nodemask)
          (setenv (codes "HMALLOC_MPOL_MODE") (to_decimal numa.mpol_preferred) env))

  -- The chain of tests: membind, preferred-many, preferred, weighted-interleave, interleave.
  abbrev pub set_policy :
      Option Bytes → Option Bytes → ℤ → Option Bytes → Option Bytes → Environ → Option Environ
  set_policy (some nodes) _ _ _ _ env = some (set_nodes numa.mpol_bind nodes env)
  set_policy none (some nodes) _ _ _ env = some (set_nodes mpol_preferred_many nodes env)
  set_policy none none (pos node) _ _ env = set_preferred node env
  set_policy none none (negsuc _) (some nodes) _ env =
      some (set_nodes mpol_weighted_interleave nodes env)
  set_policy none none (negsuc _) none (some nodes) env =
      some (set_nodes numa.mpol_interleave nodes env)
  set_policy none none (negsuc _) none none env = some env

  -- `none`: a shift that C leaves undefined.
  unfoldable pub setup_child_environ : Opts → Environ → Option Environ
  setup_child_environ opts env = do
    env' ←
        set_policy opts.membind opts.preferred_many opts.preferred opts.weighted_interleave
          opts.interleave env
    some (setenv (codes "HMALLOC_JEMALLOC") (codes "1") env')
