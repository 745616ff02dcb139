-- ===== src/Dispatch/ConntrackTable.antt =====
-- services/dispatch/conntrack.go: the table of conntrack entries, and how entries are created,
-- removed and cleaned. An entry is its address in the heap of conntrack objects.
pub mod Cleaning
use packetd.Base.{
  ℕ, ◌+◌, ◌-◌, ◌*◌, ◌%◌, ◌^◌, Bool, true, false, Option, none, some, List, [], ◌∷◌, ◌==◌, ltb,
  if◌then◌else◌,
}
use packetd.Base.Keys.{nat_key}
use packetd.Base.Table.{Table, get, put, remove, keys}
use packetd.Base.Heap.{Heap}
use packetd.Dispatch.Ip.{Ip, dup_ip}
use packetd.Dispatch.State.{Conntrack, World, second, new_conntrack}
use packetd.Dispatch.SessionTable.{dict_delete, flush_dict, remove_from_session_table}

-- The arguments of `conntrackCallback`.
pub record ConntrackEvent : Type 0 where
  pub ctid : ℕ
  pub connmark : ℕ
  pub family : ℕ
  pub event_type : ℕ
  pub protocol : ℕ
  pub client : Ip
  pub server : Ip
  pub client_port : ℕ
  pub server_port : ℕ
  pub client_new : Ip
  pub server_new : Ip
  pub client_port_new : ℕ
  pub server_port_new : ℕ
  pub client_bytes : ℕ
  pub server_bytes : ℕ
  pub client_packets : ℕ
  pub server_packets : ℕ
  pub timestamp_start : ℕ
  pub timestamp_stop : ℕ
  pub timeout : ℕ
  pub tcp_state : ℕ

-- `findConntrack`
unfoldable pub find_conntrack : World → ℕ → Option ℕ
find_conntrack w ctid = get w.conntrack_table ctid

-- `insertConntrack`. The `delete` of an older entry before the write is part of `put`.
unfoldable pub insert_conntrack : World → ℕ → ℕ → World
insert_conntrack w ctid entry = record w { conntrack_table = put w.conntrack_table ctid entry }

-- `removeConntrack`
unfoldable pub remove_conntrack : World → ℕ → World
remove_conntrack w ctid = record w { conntrack_table = remove w.conntrack_table ctid }

-- The last step of `removeConntrackStale`: the session of the entry, unless it is nil.
abbrev pub remove_session_of : World → Option ℕ → World
remove_session_of w none = w
remove_session_of w (some sess) = remove_from_session_table w sess

-- `removeConntrackStale`
unfoldable pub remove_conntrack_stale : World → ℕ → ℕ → World
unfolding remove_conntrack
remove_conntrack_stale w ctid conntrack =
    remove_session_of (dict_delete (remove_conntrack w ctid) ctid)
      (w.conntracks.cell conntrack).session

-- The test of `cleanConntrackTable`.
unfoldable pub is_stale_conntrack : Conntrack → ℕ → Bool
is_stale_conntrack c now = ltb (10000 * second) (now - c.last_activity_time)

abbrev pub flush_session_of : World → Option ℕ → World
flush_session_of w none = w
flush_session_of w (some sess) = remove_from_session_table (flush_dict w sess) sess

-- The body of the loop of `cleanConntrackTable`, for a key that is still in the table.
unfoldable pub clean_conntrack : ℕ → World → ℕ → World
unfolding is_stale_conntrack remove_conntrack
clean_conntrack now w ctid = elim (get w.conntrack_table ctid) [
  | none ↦ w
  | some entry ↦
      if is_stale_conntrack (w.conntracks.cell entry) now
      then remove_conntrack (flush_session_of w (w.conntracks.cell entry).session) ctid
      else w
]

unfoldable pub clean_conntracks : ℕ → World → List ℕ → World
unfolding clean_conntrack
clean_conntracks now w [] = w
clean_conntracks now w (ctid ∷ order) = clean_conntracks now (clean_conntrack now w ctid) order

-- `cleanConntrackTable`, which visits the keys in the order of the table.
unfoldable pub clean_conntrack_table : World → ℕ → World
unfolding clean_conntracks
clean_conntrack_table w now = clean_conntracks now w (keys w.conntrack_table)

-- `createConntrack`
unfoldable pub create_conntrack : ConntrackEvent → ℕ → Conntrack
unfolding dup_ip
create_conntrack e now = record new_conntrack {
  conntrack_id = e.ctid;
  conn_mark = e.connmark;
  creation_time = now;
  family = e.family;
  last_activity_time = now;
  event_count = 1;
  client_side_tuple = record {
    protocol = e.protocol;
    client_address = dup_ip e.client;
    client_port = e.client_port;
    server_address = dup_ip e.server;
    server_port = e.server_port;
  };
  server_side_tuple = record {
    protocol = e.protocol;
    client_address = dup_ip e.client_new;
    client_port = e.client_port_new;
    server_address = dup_ip e.server_new;
    server_port = e.server_port_new;
  };
  client_bytes = e.client_bytes;
  server_bytes = e.server_bytes;
  total_bytes = (e.server_bytes + e.client_bytes) % 2 ^ 64;
  client_packets = e.client_packets;
  server_packets = e.server_packets;
  total_packets = (e.server_packets + e.client_packets) % 2 ^ 64;
  timeout_seconds = e.timeout;
  timestamp_start = e.timestamp_start;
  timestamp_stop = e.timestamp_stop;
  tcp_state = e.tcp_state;
}

-- The copy that `GetConntrackTable` makes, entry by entry.
unfoldable pub copy_entries : Table ℕ ℕ → Table ℕ ℕ
copy_entries [] = []
copy_entries ((ctid, entry) ∷ table) = put (copy_entries table) ctid entry

-- `GetConntrackTable`
unfoldable pub get_conntrack_table : World → Table ℕ ℕ
unfolding copy_entries
get_conntrack_table w = copy_entries w.conntrack_table
