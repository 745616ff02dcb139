-- ===== src/Dispatch/ConntrackStats/Differences.antt =====
-- What `updateStatsAndRates` records, and that its test for counters that went down never holds.
use packetd.Base.{ℕ, ◌+◌, ◌-◌, ◌%◌, ◌^◌, ◌<◌, ◌≡◌, ◌≢◌, arith}
use packetd.Dispatch.State.{Conntrack}
use packetd.Dispatch.ConntrackStats.{add64, update_stats_and_rates}

-- The totals of an entry are the sums of its two directions, as words.
pub record HasTotals (c : Conntrack) : Type 0 where
  pub bytes : c.total_bytes ≡ (c.client_bytes + c.server_bytes) % 2 ^ 64
  pub packets : c.total_packets ≡ (c.client_packets + c.server_packets) % 2 ^ 64

-- The counters of an entry are words.
pub record AreWords (c : Conntrack) : Type 0 where
  pub client_bytes : c.client_bytes < 2 ^ 64
  pub server_bytes : c.server_bytes < 2 ^ 64
  pub client_packets : c.client_packets < 2 ^ 64
  pub server_packets : c.server_packets < 2 ^ 64

-- For counters that are words and an entry whose totals are the sums, updateStatsAndRates stores
-- the four new counters, keeps the totals the sums, and records differences of bytes and of packets
-- that lead from the old counters to the new ones modulo 2^64, the total differences being the sums
-- of the two directions.
pub update_stats_lem :
    (c : Conntrack) (cb sb cp sp nanos : ℕ)
    → AreWords c
    → HasTotals c
    → cb < 2 ^ 64
    → sb < 2 ^ 64
    → cp < 2 ^ 64
    → sp < 2 ^ 64
    → let u = update_stats_and_rates c cb sb cp sp nanos in
      (u.client_bytes ≡ cb)
      × (u.server_bytes ≡ sb)
      × (u.client_packets ≡ cp)
      × (u.server_packets ≡ sp)
      × HasTotals u
      × (add64 c.client_bytes u.client_bytes_diff ≡ cb)
      × (add64 c.server_bytes u.server_bytes_diff ≡ sb)
      × (u.total_bytes_diff ≡ add64 u.client_bytes_diff u.server_bytes_diff)
      × (add64 c.client_packets u.client_packets_diff ≡ cp)
      × (add64 c.server_packets u.server_packets_diff ≡ sp)
      × (u.total_packets_diff ≡ add64 u.client_packets_diff u.server_packets_diff)
unfolding update_stats_and_rates
update_stats_lem c cb sb cp sp nanos words totals hc hs kc ks = ground arith

-- When the client's byte count of an entry goes down, the recorded difference is the wrapped word
-- 2^64 less the drop and not the new count: the case that the source has for it is never taken.
pub drop_wraps :
    (c : Conntrack) (cb sb cp sp nanos : ℕ)
    → AreWords c
    → cb < c.client_bytes
    → ((update_stats_and_rates c cb sb cp sp nanos).client_bytes_diff
        ≡ 2 ^ 64 - (c.client_bytes - cb))
      × ((update_stats_and_rates c cb sb cp sp nanos).client_bytes_diff ≢ cb)
unfolding update_stats_and_rates
drop_wraps c cb sb cp sp nanos words h = ground arith
