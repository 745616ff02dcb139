-- ===== src/Dispatch/Examples/Tables.antt =====
-- The theorems on the tables, the counters and the values, on small inputs.
use packetd.Base.{ℕ, ◌-◌, ◌^◌, ◌||◌, none, [], ◌∷◌, ◌≡◌, ◌≢◌, refl, arith, if◌then◌else◌}
use packetd.Base.Keys.{nat_key, string_key}
use packetd.Dispatch.State.{World, Conntrack, second, new_session, new_conntrack}
use packetd.Dispatch.SessionTable.{find_session, clean_session_table}
use packetd.Dispatch.SessionTable.Cleaning.{has_stale, asked_delete, clean_session_table_lem}
use packetd.Dispatch.ConntrackStats.{update_stats_and_rates, add64}
use packetd.Dispatch.ConntrackStats.Differences.{AreWords, HasTotals, update_stats_lem, drop_wraps}
use packetd.Dispatch.Examples.Handlers.{two_world}

-- Two sessions of an old connection 5, of which the table has the second, and a conntrack entry.
abbrev filed_world : World
filed_world = record two_world {
  session_table = (5, 1) ∷ [];
  sessions = record {
    next = 2;
    cell = λ q. record new_session { conntrack_id = 5; last_activity_time = 1000 };
  };
  conntrack_table = (5, 0) ∷ [];
  conntracks = record {
    next = 1;
    cell = λ q. record new_conntrack { conntrack_id = 5; last_activity_time = 1000 };
  };
}

abbrev late : ℕ
late = 10000000000000

clean_session_table_lem_example :
    (find_session (clean_session_table filed_world late) 5
      ≡ (if has_stale filed_world late 5 then none else find_session filed_world 5))
    × (asked_delete 5 (clean_session_table filed_world late).dict
        ≡ (asked_delete 5 filed_world.dict || has_stale filed_world late 5))
    × ((clean_session_table filed_world late).sessions ≡ filed_world.sessions)
clean_session_table_lem_example = clean_session_table_lem filed_world late 5

-- An entry that has counted something.
abbrev counted_entry : Conntrack
counted_entry = record new_conntrack {
  client_bytes = 700;
  server_bytes = 9000;
  total_bytes = 9700;
  client_packets = 7;
  server_packets = 9;
  total_packets = 16;
}

counted_entry-AreWords : AreWords counted_entry
counted_entry-AreWords = record {
  client_bytes = omega arith;
  server_bytes = omega arith;
  client_packets = omega arith;
  server_packets = omega arith;
}

update_stats_lem_example :
    let u = update_stats_and_rates counted_entry 900 9500 9 12 second in
    (u.client_bytes ≡ 900)
    × (u.server_bytes ≡ 9500)
    × (u.client_packets ≡ 9)
    × (u.server_packets ≡ 12)
    × HasTotals u
    × (add64 counted_entry.client_bytes u.client_bytes_diff ≡ 900)
    × (add64 counted_entry.server_bytes u.server_bytes_diff ≡ 9500)
    × (u.total_bytes_diff ≡ add64 u.client_bytes_diff u.server_bytes_diff)
    × (add64 counted_entry.client_packets u.client_packets_diff ≡ 9)
    × (add64 counted_entry.server_packets u.server_packets_diff ≡ 12)
    × (u.total_packets_diff ≡ add64 u.client_packets_diff u.server_packets_diff)
update_stats_lem_example =
    update_stats_lem counted_entry 900 9500 9 12 second counted_entry-AreWords
      (record { bytes = refl; packets = refl }) (omega arith) (omega arith) (omega arith)
      (omega arith)

drop_wraps_example :
    ((update_stats_and_rates counted_entry 50 9500 1 12 second).client_bytes_diff
      ≡ 2 ^ 64 - (700 - 50))
    × ((update_stats_and_rates counted_entry 50 9500 1 12 second).client_bytes_diff ≢ 50)
drop_wraps_example =
    drop_wraps counted_entry 50 9500 1 12 second counted_entry-AreWords (omega arith)
