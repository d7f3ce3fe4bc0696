-- ===== src/Hmctl/Main/Executed.antt =====
-- The program that hmctl executes, and the settings that the library has in it.
use hmsdk.Base.{
  ℕ, ◌+◌, ◌-◌, ◌<◌, ◌^◌, ◌≡◌, refl, ◌∙◌, ap, true, false, Bool, Option, none, some, List, [], ◌∷◌,
  ◌++◌, ltb, arith, Bytes, codes, All, drop, length, get_elem?, get_elem?-drop, get_elem?_lt, subst,
}
use hmsdk.Base.Int.{ℤ, pos, negsuc}
use hmsdk.Base.Decimal.{to_decimal}
use hmsdk.Hmalloc.Env.{Environ, setenv, update_env}
use hmsdk.Hmctl.{
  Opts, default_opts, Key, key_membind, key_preferred_many, key_preferred, key_interleave,
  key_weighted_interleave, key_arg, key_args, key_end, Parsing, handled, unknown, conflict, usage,
  parse_option, parse_keys, and_then, Numa, set_policy, setup_child_environ,
}
use hmsdk.Hmctl.Settings.{IsReadable, choice_of, applied, update_env-setup_child_environ}
use hmsdk.Hmctl.Exclusive.{Goes, and_then-Goes}
use hmsdk.Hmctl.Main.{executes, main}

-- The keys of the options.
abbrev pub IsOption : Key → Type 0
IsOption (key_membind _) = Unit
IsOption (key_preferred_many _) = Unit
IsOption (key_preferred _) = Unit
IsOption (key_interleave _) = Unit
IsOption (key_weighted_interleave _) = Unit
IsOption _ = ⊥

-- The calls that argp makes for options and a program with its arguments, where the program is the
-- argument `next` of `argc`: `ARGP_KEY_ARG` is refused, so `ARGP_KEY_ARGS` takes the rest.
abbrev pub argp_calls : List Key → ℕ → ℕ → Bytes → List Key
argp_calls options argc next program =
    options ++ (key_arg 0 ∷ key_args next program ∷ key_end (argc - next) ∷ [])

-- The shift by the preferred node is defined.
abbrev pub IsShift : ℤ → Type 0
IsShift (pos node) = node < 31
IsShift (negsuc _) = Unit

and_then_assoc :
    (p : Parsing) (f g : Opts → Parsing)
    → and_then p (λ o. and_then (f o) g) ≡ and_then (and_then p f) g
and_then_assoc (handled opts) f g = refl
and_then_assoc (unknown opts) f g = refl
and_then_assoc (conflict key) f g = refl
and_then_assoc usage f g = refl

parse_keys-append :
    (keys more : List Key) (opts : Opts)
    → parse_keys (keys ++ more) opts ≡ and_then (parse_keys keys opts) (λ o. parse_keys more o)
unfolding parse_keys
parse_keys-append [] more opts = refl
parse_keys-append (key ∷ keys) more opts =
    ap (and_then (parse_option key opts)) (λ i o. parse_keys-append keys more o i)
    ∙ and_then_assoc (parse_option key opts) (λ o. parse_keys keys o) (λ o. parse_keys more o)

-- No option names a program.
IsUnnamed : Opts → Type 0
IsUnnamed opts = opts.exename ≡ none

default_opts-IsUnnamed : IsUnnamed default_opts
unfolding IsUnnamed
default_opts-IsUnnamed = refl

parse_option-IsUnnamed :
    (key : Key) (opts : Opts)
    → IsOption key
    → IsUnnamed opts
    → Goes IsUnnamed (parse_option key opts)
unfolding parse_option IsUnnamed
parse_option-IsUnnamed key opts o h = ground arith

parse_keys-IsUnnamed :
    (keys : List Key) (opts : Opts)
    → All IsOption keys
    → IsUnnamed opts
    → Goes IsUnnamed (parse_keys keys opts)
unfolding parse_keys
parse_keys-IsUnnamed [] opts a h = h
parse_keys-IsUnnamed (key ∷ keys) opts (o, a) h =
    and_then-Goes IsUnnamed (parse_option key opts) (λ o'. parse_keys keys o')
      (parse_option-IsUnnamed key opts o h) (λ o' l. parse_keys-IsUnnamed keys o' a l)

abbrev named : Opts → ℕ → Bytes → Opts
named opts next program = record opts { exename = some program; idx = next }

parse_keys-program :
    (opts : Opts) (next argc : ℕ) (program : Bytes)
    → IsUnnamed opts
    → next < argc
    → parse_keys (key_arg 0 ∷ key_args next program ∷ key_end (argc - next) ∷ []) opts
      ≡ handled (named opts next program)
unfolding parse_keys parse_option IsUnnamed
parse_keys-program opts next argc program h lt =
    let given : ltb (argc - next) 1 ≡ false = ground arith in rw (h, given) refl

parse_keys-argp_calls :
    (options : List Key) (argc next : ℕ) (program : Bytes) {opts : Opts}
    → All IsOption options
    → next < argc
    → parse_keys options default_opts ≡ handled opts
    → parse_keys (argp_calls options argc next program) default_opts
      ≡ handled (named opts next program)
parse_keys-argp_calls options argc next program {opts} only lt accepted =
    let rest : List Key = key_arg 0 ∷ key_args next program ∷ key_end (argc - next) ∷ [] in
    let unnamed : IsUnnamed opts =
      subst (Goes IsUnnamed) accepted
        (parse_keys-IsUnnamed options default_opts only default_opts-IsUnnamed) in
    parse_keys-append options rest default_opts
    ∙ ap (λ q. and_then q (λ o. parse_keys rest o)) accepted
    ∙ parse_keys-program opts next argc program unnamed lt

set_policy_defined :
    (numa : Numa) (env : Environ) (m P : Option Bytes) (p : ℤ) (w i : Option Bytes)
    → IsShift p
    → (env' : Environ) × (set_policy numa m P p w i env ≡ some env')
set_policy_defined numa env (some nodes) P p w i h = (_, refl)
set_policy_defined numa env none (some nodes) p w i h = (_, refl)
set_policy_defined numa env none none (pos node) w i h =
    let fits : ltb node 31 ≡ true = ground arith in
    (
      setenv (codes "HMALLOC_NODEMASK") (to_decimal (2 ^ node))
          (setenv (codes "HMALLOC_MPOL_MODE") (to_decimal numa.mpol_preferred) env),
      rw fits refl,
    )
set_policy_defined numa env none none (negsuc _) (some nodes) i h = (_, refl)
set_policy_defined numa env none none (negsuc _) none (some nodes) h = (_, refl)
set_policy_defined numa env none none (negsuc _) none none h = (_, refl)

setup_child_environ_defined :
    (numa : Numa) (env : Environ) (opts : Opts)
    → IsShift opts.preferred
    → (env' : Environ) × (setup_child_environ numa opts env ≡ some env')
unfolding setup_child_environ
setup_child_environ_defined numa env opts h =
    let (env', e) =
      set_policy_defined numa env opts.membind opts.preferred_many opts.preferred
        opts.weighted_interleave opts.interleave h in
    (setenv (codes "HMALLOC_JEMALLOC") (codes "1") env', rw e refl)

module _ (numa : Numa) (mpol_default : ℕ) where
  -- For a command line of accepted options and a program with its arguments, hmctl executes that
  -- program, under its own name and with exactly the arguments that follow it, and the library in
  -- it has the settings that the options choose; what they do not choose is inherited, and jemalloc
  -- is used. This is where the file can be executed, a preferred node is below 31, the modes are
  -- an `int` and the nodes are below 63.
  pub main-executes :
      (options : List Key) (opts : Opts) (argv : List Bytes) (next : ℕ) (program : Bytes)
      (env : Environ) (execv : Option Bytes → Bool)
      → All IsOption options
      → parse_keys options default_opts ≡ handled opts
      → get_elem? argv next ≡ some program
      → IsShift opts.preferred
      → IsReadable (choice_of numa opts)
      → execv (some program) ≡ true
      → (env' : Environ) × (main numa argv env execv (argp_calls options (length argv) next program)
          ≡ executes (some program) (drop next argv) env')
        × (get_elem? (drop next argv) 0 ≡ some program)
        × (update_env mpol_default env'
            ≡ applied (choice_of numa opts) (update_env mpol_default env))
  unfolding main
  main-executes options opts argv next program env execv only accepted named_by shift readable can =
      let lt = get_elem?_lt argv next named_by in
      let parsed = parse_keys-argp_calls options (length argv) next program only lt accepted in
      let (env', e) = setup_child_environ_defined numa env (named opts next program) shift in
      let first : next + 0 ≡ next = omega arith in
      (
        env',
        rw (parsed, e, can) refl,
        get_elem?-drop next argv 0 ∙ ap (get_elem? argv) first ∙ named_by,
        update_env-setup_child_environ numa mpol_default (named opts next program) env readable e,
      )
