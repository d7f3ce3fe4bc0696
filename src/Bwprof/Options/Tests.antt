-- ===== src/Bwprof/Options/Tests.antt =====
-- Command lines of bwprof.
use hmsdk.Base.{◌≡◌, ◌≢◌, ◌⊎◌, refl, some, [], ◌∷◌, codes, same_text}
use hmsdk.Base.Int.{pos}
use hmsdk.Base.Decimal.{stoi}
use hmsdk.Bwprof.Config.{Config, record_mode, top, default_config}
use hmsdk.Bwprof.Options.{
  key_interval, key_socket, key_arg, key_end, key_top, goes_on, parse_option, parse_keys,
}
use hmsdk.Bwprof.Options.Accepted.{
  IsAccepted, parse_keys-IsAccepted, parse_keys-key_top, parse_keys-key_end,
}

-- `bwprof -i 5 -s 1 record -- ls`
abbrev record_ls : Config
record_ls = record default_config {
  command = record_mode;
  interval = pos 5;
  socket = pos 1;
  command_args = codes "ls" ∷ [];
}

parse_keys-IsAccepted_example : IsAccepted record_ls
unfolding parse_keys parse_option stoi same_text
parse_keys-IsAccepted_example =
    parse_keys-IsAccepted
      (key_interval (codes "5")
        ∷ key_socket (codes "1")
        ∷ key_arg 0 (some (codes "record"))
        ∷ key_arg 1 (some (codes "ls"))
        ∷ key_end
        ∷ [])
      record_ls refl

-- `bwprof record --top`
parse_keys-key_top_example :
    parse_keys (key_arg 0 (some (codes "record")) ∷ key_top 1 ∷ key_end ∷ []) default_config
    ≢ goes_on (record default_config { command = record_mode })
parse_keys-key_top_example =
    parse_keys-key_top (key_arg 0 (some (codes "record")) ∷ []) (key_end ∷ []) 1 default_config
      (record default_config { command = record_mode })

-- `bwprof top ls`
abbrev top_ls : Config
top_ls = record default_config { command = top; command_args = codes "ls" ∷ [] }

parse_keys-key_end_example : (top_ls.command ≡ record_mode) ⊎ (top_ls.command ≡ top)
unfolding parse_keys parse_option same_text
parse_keys-key_end_example =
    parse_keys-key_end (key_arg 0 (some (codes "top")) ∷ key_arg 1 (some (codes "ls")) ∷ []) top_ls
      refl (λ e. cc)
