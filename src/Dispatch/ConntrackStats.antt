-- ===== src/Dispatch/ConntrackStats.antt =====
-- `updateStatsAndRates` of services/dispatch/conntrack.go. Counters are `uint64` words, so that a
-- difference wraps; a rate keeps the operands of its `float32` quotient.
pub mod Differences
use packetd.Base.{ℕ, ◌+◌, ◌-◌, ◌%◌, ◌^◌, Bool, ◌||◌, ltb, if◌then◌else◌}
use packetd.Dispatch.State.{Conntrack, Rate}

-- `a + b` and `a - b` of `uint64` words
abbrev pub add64 : ℕ → ℕ → ℕ
add64 a b = (a + b) % 2 ^ 64

abbrev pub sub64 : ℕ → ℕ → ℕ
sub64 a b = (a + 2 ^ 64 - b) % 2 ^ 64

-- `diffClientBytes < 0` and so on, on words that have no sign.
unfoldable pub went_down : ℕ → ℕ → ℕ → ℕ → Bool
went_down client_bytes server_bytes client_packets server_packets =
    ltb client_bytes 0 || (ltb server_bytes 0 || (ltb client_packets 0 || ltb server_packets 0))

-- The assignments at the end, from the chosen differences.
unfoldable pub store_stats :
    Conntrack → (cb sb cp sp : ℕ) → (dcb dsb dtb dcp dsp dtp : ℕ) → ℕ → Conntrack
store_stats c cb sb cp sp dcb dsb dtb dcp dsp dtp nanos = record c {
  client_bytes = cb;
  server_bytes = sb;
  total_bytes = add64 cb sb;
  client_packets = cp;
  server_packets = sp;
  total_packets = add64 cp sp;
  client_bytes_diff = dcb;
  server_bytes_diff = dsb;
  total_bytes_diff = dtb;
  client_packets_diff = dcp;
  server_packets_diff = dsp;
  total_packets_diff = dtp;
  client_byte_rate = record { amount = dcb; nanoseconds = nanos };
  server_byte_rate = record { amount = dsb; nanoseconds = nanos };
  total_byte_rate = record { amount = dtb; nanoseconds = nanos };
  client_packet_rate = record { amount = dcp; nanoseconds = nanos };
  server_packet_rate = record { amount = dsp; nanoseconds = nanos };
  total_packet_rate = record { amount = dtp; nanoseconds = nanos };
}

-- `updateStatsAndRates`
unfoldable pub update_stats_and_rates : Conntrack → (cb sb cp sp nanos : ℕ) → Conntrack
unfolding went_down store_stats
update_stats_and_rates c cb sb cp sp nanos =
    if went_down (sub64 cb c.client_bytes) (sub64 sb c.server_bytes) (sub64 cp c.client_packets)
      (sub64 sp c.server_packets)
    then store_stats c cb sb cp sp cb sb (add64 cb sb) cp sp (add64 cp sp) nanos
    else store_stats c cb sb cp sp (sub64 cb c.client_bytes) (sub64 sb c.server_bytes)
        (sub64 (add64 cb sb) c.total_bytes) (sub64 cp c.client_packets) (sub64 sp c.server_packets)
        (sub64 (add64 cp sp) c.total_packets) nanos
