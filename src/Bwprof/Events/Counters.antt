-- ===== src/Bwprof/Events/Counters.antt =====
-- The events of an interval against the counters at its two ends.
use hmsdk.Base.{ℕ, zero, suc, ◌+◌, ◌-◌, ◌%◌, ◌≡◌, refl, inl, inr, arith, if◌then◌else◌, Bool-cases}
use hmsdk.Base.Words.{u64_mod}
use hmsdk.Bwprof.Stats.{SocketMemoryData, zero_data, accumulate}
use hmsdk.Bwprof.Pcm.{Pcm, IsCounting, read, write, read2, write2}
use hmsdk.Bwprof.Events.{
  has_second_counters, process_channel, process_memory_channels, process_port, process_cxl_ports,
  socket_events,
}

-- `d` added to the counters `before` gives the counters `after`, in 64 bits.
pub record Leads (before d after : SocketMemoryData) : Type 0 where
  pub reads_lead : (d.reads + before.reads) % u64_mod ≡ after.reads % u64_mod
  pub writes_lead : (d.writes + before.writes) % u64_mod ≡ after.writes % u64_mod
  pub cxl_reads_lead : (d.cxl_reads + before.cxl_reads) % u64_mod ≡ after.cxl_reads % u64_mod
  pub cxl_writes_lead : (d.cxl_writes + before.cxl_writes) % u64_mod ≡ after.cxl_writes % u64_mod

pub accumulate-Leads :
    {before middle after : SocketMemoryData} (d e : SocketMemoryData)
    → Leads before d middle
    → Leads middle e after
    → Leads before (accumulate d e) after
unfolding accumulate
accumulate-Leads d e h k = omega arith

module _ {S : Type 0} (pcm : Pcm S) (counts : IsCounting pcm) where
  open counts use {mc, cxlcm, cxldp, mc_difference, cxlcm_difference, cxldp_difference}

  -- The counters of the channels `channel`, `channel + 1`, … with `left` to go.
  abbrev reads_of : S → ℕ → ℕ → ℕ
  reads_of st zero channel = 0
  reads_of st (suc left) channel =
      mc channel read st
      + (if has_second_counters pcm then mc channel read2 st else 0)
      + reads_of st left (channel + 1)

  abbrev writes_of : S → ℕ → ℕ → ℕ
  writes_of st zero channel = 0
  writes_of st (suc left) channel =
      mc channel write st
      + (if has_second_counters pcm then mc channel write2 st else 0)
      + writes_of st left (channel + 1)

  abbrev cxl_reads_of : S → ℕ → ℕ → ℕ
  cxl_reads_of st zero p = 0
  cxl_reads_of st (suc left) p = cxlcm p st + cxl_reads_of st left (p + 1)

  abbrev cxl_writes_of : S → ℕ → ℕ → ℕ
  cxl_writes_of st zero p = 0
  cxl_writes_of st (suc left) p = cxldp p st + cxl_writes_of st left (p + 1)

  -- The sums of the counters that the tool reads of a socket with `num_ports` CXL ports: those of
  -- every channel, and those of the ports from 4 on.
  pub counters : ℕ → S → SocketMemoryData
  counters num_ports st = record {
    reads = reads_of st pcm.max_channels 0;
    writes = writes_of st pcm.max_channels 0;
    cxl_reads = cxl_reads_of st (num_ports - 4) 4;
    cxl_writes = cxl_writes_of st (num_ports - 4) 4;
  }

  abbrev reads_at : S → ℕ → ℕ
  reads_at st channel =
      mc channel read st + (if has_second_counters pcm then mc channel read2 st else 0)

  abbrev writes_at : S → ℕ → ℕ
  writes_at st channel =
      mc channel write st + (if has_second_counters pcm then mc channel write2 st else 0)

  channel_leads :
      (prev curr : S) (channel : ℕ) (d : SocketMemoryData)
      → let e = process_channel pcm prev curr channel d in
        ((e.reads + reads_at prev channel) % u64_mod ≡ (d.reads + reads_at curr channel) % u64_mod)
        × ((e.writes + writes_at prev channel) % u64_mod
            ≡ (d.writes + writes_at curr channel) % u64_mod)
        × (e.cxl_reads ≡ d.cxl_reads)
        × (e.cxl_writes ≡ d.cxl_writes)
  unfolding process_channel
  channel_leads prev curr channel d =
      let r = mc_difference channel read prev curr in
      let w = mc_difference channel write prev curr in
      let r' = mc_difference channel read2 prev curr in
      let w' = mc_difference channel write2 prev curr in
      elim (Bool-cases (has_second_counters pcm)) [
        | inl two ↦ rw two (omega (arith, r, w, r', w'))
        | inr one ↦ rw one (omega (arith, r, w))
      ]

  channels_lead :
      (prev curr : S) (left channel : ℕ) (d : SocketMemoryData)
      → let e = process_memory_channels pcm prev curr left channel d in
        ((e.reads + reads_of prev left channel) % u64_mod
          ≡ (d.reads + reads_of curr left channel) % u64_mod)
        × ((e.writes + writes_of prev left channel) % u64_mod
            ≡ (d.writes + writes_of curr left channel) % u64_mod)
        × (e.cxl_reads ≡ d.cxl_reads)
        × (e.cxl_writes ≡ d.cxl_writes)
  unfolding process_memory_channels
  channels_lead prev curr zero channel d = (refl, refl, refl, refl)
  channels_lead prev curr (suc left) channel d = omega (
    arith,
    channel_leads prev curr channel d,
    channels_lead prev curr left (channel + 1) (process_channel pcm prev curr channel d),
  )

  ports_lead :
      (prev curr : S) (left p : ℕ) (d : SocketMemoryData)
      → let e = process_cxl_ports pcm prev curr left p d in
        ((e.cxl_reads + cxl_reads_of prev left p) % u64_mod
          ≡ (d.cxl_reads + cxl_reads_of curr left p) % u64_mod)
        × ((e.cxl_writes + cxl_writes_of prev left p) % u64_mod
            ≡ (d.cxl_writes + cxl_writes_of curr left p) % u64_mod)
        × (e.reads ≡ d.reads)
        × (e.writes ≡ d.writes)
  unfolding process_cxl_ports process_port
  ports_lead prev curr zero p d = (refl, refl, refl, refl)
  ports_lead prev curr (suc left) p d = omega (
    arith,
    ports_lead prev curr left (p + 1) (process_port pcm prev curr p d),
    cxlcm_difference p prev curr,
    cxldp_difference p prev curr,
  )

  -- The events that are computed for a socket lead from the counters of the state before to those
  -- of the state after.
  pub socket_events-Leads :
      (prev curr : S) (num_ports : ℕ)
      → Leads
          (counters num_ports prev)
          (socket_events pcm prev curr num_ports)
          (counters num_ports curr)
  unfolding socket_events counters
  socket_events-Leads prev curr num_ports =
      let d = process_memory_channels pcm prev curr pcm.max_channels 0 zero_data in
      omega (
        arith,
        channels_lead prev curr pcm.max_channels 0 zero_data,
        ports_lead prev curr (num_ports - 4) 4 d,
      )
