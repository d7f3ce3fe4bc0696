-- ===== src/Bwprof/Options/Accepted.antt =====
-- The configurations that the command line can give.
use hmsdk.Base.{ℕ, ◌≡◌, ◌≢◌, refl, ◌⊎◌, inl, inr, Bytes, true, false, List, [], ◌∷◌, ◌++◌, arith}
use hmsdk.Base.Int.{negsuc, is_pos, is_neg}
use hmsdk.Bwprof.Config.{
  Config, CommandType, default_config, record_mode, top, dump, report, info, help, invalid,
}
use hmsdk.Bwprof.Options.{
  Key, key_help, key_end, key_top, Parsing, goes_on, fails, shows_help, takes_no_command,
  parse_option, parse_keys, and_then,
}

pub record IsAccepted (config : Config) : Type 0 where
  pub interval_pos : is_pos config.interval ≡ true
  pub socket_or_all : (config.socket ≡ negsuc 0) ⊎ (is_neg config.socket ≡ false)
  pub data_dir-ne-nil : config.data_dir ≢ []
  pub never_realtime : config.show_realtime ≡ false
  pub never_invalid : config.command ≢ invalid

default_config-IsAccepted : IsAccepted default_config
default_config-IsAccepted = record {
  interval_pos = refl;
  socket_or_all = inl refl;
  data_dir-ne-nil = λ e. cc;
  never_realtime = refl;
  never_invalid = λ e. cc;
}

parse_option-IsAccepted :
    (key : Key) (config config' : Config)
    → IsAccepted config
    → parse_option key config ≡ goes_on config'
    → IsAccepted config'
unfolding parse_option
parse_option-IsAccepted key_help config config' v e = cc
parse_option-IsAccepted key config config' v e = ground arith

parse_keys-IsAccepted_from :
    (keys : List Key) (config config' : Config)
    → IsAccepted config
    → parse_keys keys config ≡ goes_on config'
    → IsAccepted config'
unfolding parse_keys
parse_keys-IsAccepted_from [] config config' v e = ground arith
parse_keys-IsAccepted_from (key ∷ keys) config config' v e =
    go (parse_option key config) refl (λ c w. parse_keys-IsAccepted_from keys c config' w) e
  where
    go :
        (p : Parsing)
        → parse_option key config ≡ p
        → ((c : Config) → IsAccepted c → parse_keys keys c ≡ goes_on config' → IsAccepted config')
        → and_then p (λ c. parse_keys keys c) ≡ goes_on config'
        → IsAccepted config'
    go (goes_on c) w later h = later c (parse_option-IsAccepted key config c v w) h
    go (fails message) w later h = cc
    go shows_help w later h = cc

-- Whatever the command line is, if it is accepted then the interval is positive, the socket is -1 or
-- not negative, the name of the data directory is not empty, `show_realtime` is not set, and the command
-- is not `invalid`.
pub parse_keys-IsAccepted :
    (keys : List Key) (config : Config)
    → parse_keys keys default_config ≡ goes_on config
    → IsAccepted config
parse_keys-IsAccepted keys config =
    parse_keys-IsAccepted_from keys default_config config default_config-IsAccepted

parse_keys-append :
    (keys more : List Key) (config : Config)
    → parse_keys (keys ++ more) config ≡ and_then (parse_keys keys config) (λ c. parse_keys more c)
unfolding parse_keys
parse_keys-append [] more config = refl
parse_keys-append (key ∷ keys) more config =
    go (parse_option key config) (λ c. parse_keys-append keys more c)
  where
    go :
        (p : Parsing)
        → ((c : Config)
            → parse_keys (keys ++ more) c ≡ and_then (parse_keys keys c) (λ c'. parse_keys more c'))
        → and_then p (λ c. parse_keys (keys ++ more) c)
          ≡ and_then (and_then p (λ c. parse_keys keys c)) (λ c'. parse_keys more c')
    go (goes_on c) later = later c
    go (fails message) later = refl
    go shows_help later = refl

and_then-goes_on :
    (p : Parsing) (next : Config → Parsing) {config' : Config}
    → and_then p next ≡ goes_on config'
    → (config : Config) × (next config ≡ goes_on config')
and_then-goes_on (goes_on config) next e = (config, e)
and_then-goes_on (fails message) next e = cc
and_then-goes_on shows_help next e = cc

-- A command line with the option `--top` is refused, wherever the option stands, also in record mode
-- for which it is documented.
pub parse_keys-key_top :
    (before after : List Key) (arg_num : ℕ) (config config' : Config)
    → parse_keys (before ++ (key_top arg_num ∷ after)) config ≢ goes_on config'
parse_keys-key_top before after arg_num config config' e =
    let (c, h) =
      and_then-goes_on (parse_keys before config) (λ c. parse_keys (key_top arg_num ∷ after) c)
        (rw parse_keys-append at e) in
    refused c h
  where
    refused : (c : Config) → parse_keys (key_top arg_num ∷ after) c ≢ goes_on config'
    refused c = unfold parse_keys parse_option in λ h. cc

-- The two commands that take a command to execute, from the test at the end.
args_of_command :
    (command : CommandType) (args : List Bytes)
    → (takes_no_command command ≡ true → args ≡ [])
    → command ≢ invalid
    → args ≢ []
    → (command ≡ record_mode) ⊎ (command ≡ top)
args_of_command record_mode args ended valid given = inl refl
args_of_command top args ended valid given = inr refl
args_of_command dump args ended valid given = absurd (given (ended refl))
args_of_command report args ended valid given = absurd (given (ended refl))
args_of_command info args ended valid given = absurd (given (ended refl))
args_of_command help args ended valid given = absurd (given (ended refl))
args_of_command invalid args ended valid given = absurd (valid refl)

-- If a command line that has ended is accepted with a command to execute, then it is one of `record`
-- or `top`.
pub parse_keys-key_end :
    (keys : List Key) (config : Config)
    → parse_keys (keys ++ (key_end ∷ [])) default_config ≡ goes_on config
    → config.command_args ≢ []
    → (config.command ≡ record_mode) ⊎ (config.command ≡ top)
parse_keys-key_end keys config e given =
    let (c, h) =
      and_then-goes_on (parse_keys keys default_config) (λ c. parse_keys (key_end ∷ []) c)
        (rw parse_keys-append at e) in
    args_of_command config.command config.command_args (ended c h)
      (parse_keys-IsAccepted (keys ++ (key_end ∷ [])) config e).never_invalid given
  where
    ended :
        (c : Config)
        → parse_keys (key_end ∷ []) c ≡ goes_on config
        → takes_no_command config.command ≡ true
        → config.command_args ≡ []
    ended c h none_taken = unfold parse_keys parse_option in ground arith
