-- ===== src/Bwprof/Pcm.antt =====
-- What bwprof.cc takes from the PCM library: the uncore counters. `S` is a state of the counters of
-- one socket (`ServerUncoreCounterState`).
use hmsdk.Base.{ℕ, ◌+◌, ◌%◌, ◌≡◌}
use hmsdk.Base.Words.{u64_mod}

pub data EventPosition : Type 0 where
  read write read2 write2 : EventPosition

pub record Pcm (S : Type 0) : Type 0 where
  pub max_channels : ℕ
  -- the values of the enumerators `GNR`, `GNR_D`, `GRR` and `SRF`
  pub gnr : ℕ
  pub gnr_d : ℕ
  pub grr : ℕ
  pub srf : ℕ
  pub cpu_family_model : ℕ
  pub num_sockets : ℕ
  pub num_cxl_ports : ℕ → ℕ
  -- the events between two states: of a channel, and of a CXL port (received, sent)
  pub get_mc_counter : ℕ → EventPosition → S → S → ℕ
  pub get_cxlcm_counter : ℕ → S → S → ℕ
  pub get_cxldp_counter : ℕ → S → S → ℕ

-- PCM documents the calls as differences of free running 64-bit counters.
pub record IsCounting {S : Type 0} (pcm : Pcm S) : Type 0 where
  pub mc : ℕ → EventPosition → S → ℕ
  pub cxlcm : ℕ → S → ℕ
  pub cxldp : ℕ → S → ℕ
  pub mc_difference :
      (channel : ℕ) (p : EventPosition) (prev curr : S)
      → (pcm.get_mc_counter channel p prev curr + mc channel p prev) % u64_mod
        ≡ mc channel p curr % u64_mod
  pub cxlcm_difference :
      (port : ℕ) (prev curr : S)
      → (pcm.get_cxlcm_counter port prev curr + cxlcm port prev) % u64_mod
        ≡ cxlcm port curr % u64_mod
  pub cxldp_difference :
      (port : ℕ) (prev curr : S)
      → (pcm.get_cxldp_counter port prev curr + cxldp port prev) % u64_mod
        ≡ cxldp port curr % u64_mod
