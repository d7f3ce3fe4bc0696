-- ===== src/Bwprof/Events.antt =====
-- `class EventProcessor`, `PCMManager::readStates`, and the accumulation of the monitoring loop.
pub mod Counters
pub mod Tables
use hmsdk.Base.{ℕ, zero, suc, ◌+◌, ◌-◌, Bool, ◌||◌, List, [], ◌∷◌, ◌==◌, if◌then◌else◌, set}
use hmsdk.Base.Int.{ℤ}
use hmsdk.Base.Words.{add_u64}
use hmsdk.Bwprof.Result.{Result, ok, undefined, at, ◌>>=◌, ◌>>◌}
use hmsdk.Bwprof.Config.{skips}
use hmsdk.Bwprof.Stats.{SocketMemoryData, zero_data, accumulate}
use hmsdk.Bwprof.Pcm.{Pcm, EventPosition, read, write, read2, write2}

module _ {S : Type 0} (pcm : Pcm S) where
  open pcm use {get_mc_counter, get_cxlcm_counter, get_cxldp_counter, num_cxl_ports, max_channels}

  -- The cases of `switch (cpu_family_model)`.
  abbrev has_second_counters : Bool
  has_second_counters =
      pcm.cpu_family_model == pcm.gnr
      || pcm.cpu_family_model == pcm.gnr_d
      || pcm.cpu_family_model == pcm.grr
      || pcm.cpu_family_model == pcm.srf

  -- The body of the loop over channels.
  process_channel : S → S → ℕ → SocketMemoryData → SocketMemoryData
  process_channel prev curr channel d =
      let first = record d {
        reads = add_u64 d.reads (get_mc_counter channel read prev curr);
        writes = add_u64 d.writes (get_mc_counter channel write prev curr);
      } in
      if has_second_counters
      then record first {
        reads = add_u64 first.reads (get_mc_counter channel read2 prev curr);
        writes = add_u64 first.writes (get_mc_counter channel write2 prev curr);
      }
      else first

  -- The channels `channel`, `channel + 1`, … with `left` to go.
  process_memory_channels : S → S → ℕ → ℕ → SocketMemoryData → SocketMemoryData
  process_memory_channels prev curr zero channel d = d
  process_memory_channels prev curr (suc left) channel d =
      process_memory_channels prev curr left (channel + 1) (process_channel prev curr channel d)

  process_port : S → S → ℕ → SocketMemoryData → SocketMemoryData
  process_port prev curr p d = record d {
    cxl_reads = add_u64 d.cxl_reads (get_cxlcm_counter p prev curr);
    cxl_writes = add_u64 d.cxl_writes (get_cxldp_counter p prev curr);
  }

  -- The ports `p`, `p + 1`, … with `left` to go.
  process_cxl_ports : S → S → ℕ → ℕ → SocketMemoryData → SocketMemoryData
  process_cxl_ports prev curr zero p d = d
  process_cxl_ports prev curr (suc left) p d =
      process_cxl_ports prev curr left (p + 1) (process_port prev curr p d)

  -- What `calculateEvents` stores for a socket that it does not skip. The loop over the ports
  -- begins at 4.
  pub socket_events : S → S → ℕ → SocketMemoryData
  socket_events prev curr num_ports =
      process_cxl_ports prev curr (num_ports - 4) 4
        (process_memory_channels prev curr max_channels 0 zero_data)

  -- The sockets `skt`, `skt + 1`, … with `left` to go.
  calculate_events_from :
      ℤ → List ℕ → List S → List S → ℕ → ℕ → List SocketMemoryData → Result (List SocketMemoryData)
  calculate_events_from target ports prev_states curr_states zero skt table = ok table
  calculate_events_from target ports prev_states curr_states (suc left) skt table = do
    at table skt
    events ← if skips target skt then ok zero_data else do
      prev ← at prev_states skt
      curr ← at curr_states skt
      num_ports ← at ports skt
      ok (socket_events prev curr num_ports)
    calculate_events_from target ports prev_states curr_states left (skt + 1) (set table skt events)

  unfoldable pub calculate_events :
      ℤ → ℕ → List ℕ → List S → List S → List SocketMemoryData → Result (List SocketMemoryData)
  unfolding calculate_events_from socket_events process_memory_channels process_cxl_ports
      process_channel process_port
  calculate_events target num_sockets ports prev_states curr_states table =
      calculate_events_from target ports prev_states curr_states num_sockets 0 table

-- `v.resize(n)` and `v[i] = f(i)` for every `i < n`, from `i` on with `left` to go.
abbrev pub fill_from {ℓ} : {A : Type ℓ} → (ℕ → A) → ℕ → ℕ → List A
fill_from f zero i = []
fill_from f (suc left) i = f i ∷ fill_from f left (i + 1)

-- `accumulated_socket_data_[s].accumulate(current_socket_data_[s])` for every entry of the second.
unfoldable pub accumulate_all :
    List SocketMemoryData → List SocketMemoryData → Result (List SocketMemoryData)
accumulate_all acc [] = ok acc
accumulate_all [] (c ∷ now) = undefined
accumulate_all (a ∷ acc) (c ∷ now) = do rest ← accumulate_all acc now; ok (accumulate a c ∷ rest)
