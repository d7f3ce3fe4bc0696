-- ===== src/Hmctl/Main.antt =====
-- `main` of hmctl.c: the program that is executed, with its arguments and its environment.
pub mod Executed
pub mod Bound
use hmsdk.Base.{ℕ, Option, none, some, List, Bytes, drop, Bool, true, false}
use hmsdk.Hmalloc.Env.{Environ}
use hmsdk.Hmctl.{
  Opts, default_opts, Key, Parsing, handled, unknown, conflict, usage, parse_keys, Numa,
  setup_child_environ,
}

pub data Ended : Type 0 where
  -- the file, the arguments and the environment of the new program
  executes : Option Bytes → List Bytes → Environ → Ended
  -- `execv` has failed for this file: status -1
  not_executed : Option Bytes → Ended
  -- by argp
  refuses : ℕ → Ended
  shows_usage : Ended
  -- the shift of `setup_child_environ`
  overflows : Ended

module _ (numa : Numa) (argv : List Bytes) (env : Environ) (execv : Option Bytes → Bool) where
  abbrev call_execv : Opts → Bool → Environ → Ended
  call_execv opts true env' = executes opts.exename (drop opts.idx argv) env'
  call_execv opts false env' = not_executed opts.exename

  abbrev with_environ : Opts → Option Environ → Ended
  with_environ opts none = overflows
  with_environ opts (some env') = call_execv opts (execv opts.exename) env'

  abbrev after_parsing : Parsing → Ended
  after_parsing (handled opts) = with_environ opts (setup_child_environ numa opts env)
  after_parsing (unknown opts) = with_environ opts (setup_child_environ numa opts env)
  after_parsing (conflict key) = refuses key
  after_parsing usage = shows_usage

  -- `execv` says whether the file can be executed; the keys are the calls that argp makes for `argv`.
  pub main : List Key → Ended
  main keys = after_parsing (parse_keys keys default_opts)
