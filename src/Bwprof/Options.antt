-- ===== src/Bwprof/Options.antt =====
-- `parse_option`, called by argp for each option and argument of the command line. `argp_error` and
-- `argp_state_help` end the process.
pub mod Accepted
mod Tests
use hmsdk.Base.{
  is_empty, ℕ, Bool, true, false, not, ◌&&◌, Option, none, some, List, [], ◌∷◌, ◌++◌, Bytes, codes,
  same_text, ◌==◌, if◌then◌else◌,
}
use hmsdk.Base.Int.{ℤ, is_neg, is_pos}
use hmsdk.Base.Decimal.{stoi}
use hmsdk.Bwprof.Config.{Config, CommandType, record_mode, top, dump, report, info, help, invalid}

-- The keys with their arguments. `key_arg` has the number of the argument. The option `--top` has no
-- key of its own: its key is 0, that of `ARGP_KEY_ARG`, and it comes with a null pointer.
pub data Key : Type 0 where
  key_help : Key
  key_interval : Bytes → Key
  key_socket : Bytes → Key
  key_data_dir : Bytes → Key
  key_arg : ℕ → Option Bytes → Key
  key_end : Key
  other_key : Key

pub data Parsing : Type 0 where
  -- the configuration so far
  goes_on : Config → Parsing
  -- `argp_error`, with its message
  fails : Bytes → Parsing
  -- the help list, and an exit
  shows_help : Parsing

-- The handler of `catch (const std::exception &)`.
abbrev invalid_argument : Parsing
invalid_argument = fails (codes "Invalid argument for option")

command_of : Bytes → Option CommandType
command_of cmd =
    if same_text cmd (codes "record")
    then some record_mode
    else if same_text cmd (codes "top")
    then some top
    else if same_text cmd (codes "dump")
    then some dump
    else if same_text cmd (codes "report")
    then some report
    else if same_text cmd (codes "info")
    then some info
    else if same_text cmd (codes "help")
    then some help
    else none

-- The commands that take no command to execute.
abbrev pub takes_no_command : CommandType → Bool
takes_no_command dump = true
takes_no_command report = true
takes_no_command info = true
takes_no_command help = true
takes_no_command _ = false

unfoldable pub parse_option : Key → Config → Parsing
unfolding command_of
parse_option key_help config = shows_help
parse_option (key_interval arg) config = elim (stoi arg) [
  | none ↦ invalid_argument
  | some n ↦
      if not (is_pos n)
      then fails (codes "Interval must be positive")
      else goes_on (record config { interval = n })
]
parse_option (key_socket arg) config = elim (stoi arg) [
  | none ↦ invalid_argument
  | some n ↦
      if is_neg n
      then fails (codes "Socket number must be non-negative")
      else goes_on (record config { socket = n })
]
parse_option (key_data_dir arg) config =
    if is_empty arg
    then fails (codes "Data directory name cannot be empty")
    else goes_on (record config { data_dir = arg })
parse_option (key_arg arg_num none) config = invalid_argument
parse_option (key_arg arg_num (some arg)) config =
    if arg_num == 0
    then elim (command_of arg) [
      | none ↦ fails (codes "Unknown command: " ++ arg)
      | some command ↦ goes_on (record config { command = command })
    ]
    else goes_on (record config { command_args = config.command_args ++ (arg ∷ []) })
parse_option key_end config =
    if takes_no_command config.command && not (is_empty config.command_args)
    then fails (codes "No command expected for dump/report/info/help mode")
    else goes_on config
parse_option other_key config = goes_on config

abbrev pub and_then : Parsing → (Config → Parsing) → Parsing
and_then (goes_on config) next = next config
and_then (fails message) next = fails message
and_then shows_help next = shows_help

-- `argp_parse`: the calls in turn, until one ends the process.
unfoldable pub parse_keys : List Key → Config → Parsing
parse_keys [] config = goes_on config
parse_keys (key ∷ keys) config = and_then (parse_option key config) (λ c. parse_keys keys c)

-- The call that argp makes for `--top`, as the argument `arg_num`.
abbrev pub key_top : ℕ → Key
key_top arg_num = key_arg arg_num none
