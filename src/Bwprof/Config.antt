-- ===== src/Bwprof/Config.antt =====
-- `CommandType`, `Config`, and the test by which every loop over sockets skips those not asked for.
use hmsdk.Base.{ℕ, ◌-◌, Bool, true, false, not, ◌&&◌, List, [], Bytes, codes, ◌==◌}
use hmsdk.Base.Int.{ℤ, pos, negsuc, is_minus_one}
use hmsdk.Base.Words.{u64_mod}

pub data CommandType : Type 0 where
  record_mode top dump report info help invalid : CommandType

pub record Config : Type 0 where
  pub command : CommandType
  pub interval : ℤ
  pub socket : ℤ
  pub data_dir : Bytes
  pub command_args : List Bytes
  pub show_realtime : Bool

abbrev pub default_config : Config
default_config = record {
  command = help;
  interval = pos 2;
  socket = negsuc 0;
  data_dir = codes "bwprof.data";
  command_args = [];
  show_realtime = false;
}

abbrev pub is_record : CommandType → Bool
is_record record_mode = true
is_record _ = false

abbrev pub is_top : CommandType → Bool
is_top top = true
is_top _ = false

-- `static_cast<size_t>` of an `int`.
abbrev pub as_size : ℤ → ℕ
as_size (pos n) = n
as_size (negsuc n) = u64_mod - 1 - n

-- `target != -1 && static_cast<size_t>(target) != skt`
unfoldable pub skips : ℤ → ℕ → Bool
skips target skt = not (is_minus_one target) && not (as_size target == skt)
