-- ===== src/Dispatch/State.antt =====
-- The objects of services/dispatch and the package's global variables.
use packetd.Base.{ℕ, String, Bool, Option, none, List, []}
use packetd.Base.Integer.{ℤ}
use packetd.Base.Table.{Table}
use packetd.Base.Heap.{Heap}
use packetd.Overseer.{Counters}
use packetd.Dispatch.Tuple.{Tuple}

-- The values that plugins attach to a session (`interface{}`).
pub data Value : Type 0 where
  nil : Value
  text : String → Value
  number : ℕ → Value
  flag : Bool → Value

-- `SubscriptionHolder`; a handler function stands for itself by a number, and `none` is nil.
pub record SubscriptionHolder : Type 0 where
  pub owner : String
  pub priority : ℤ
  pub nfqueue_func : Option ℕ
  pub conntrack_func : Option ℕ
  pub netlogger_func : Option ℕ

abbrev pub Subscriptions : Type 0
Subscriptions = Table String SubscriptionHolder

-- `Session`, without its locks. Times are nanoseconds since the zero time.
pub record Session : Type 0 where
  pub session_id : ℕ
  pub packet_count : ℕ
  pub byte_count : ℕ
  pub event_count : ℕ
  pub navl_count : ℕ
  pub conntrack_id : ℕ
  pub creation_time : ℕ
  pub client_side_tuple : Tuple
  pub server_side_tuple : Tuple
  pub client_interface_id : ℕ
  pub client_interface_type : ℕ
  pub server_interface_id : ℕ
  pub server_interface_type : ℕ
  pub family : ℕ
  pub conntrack_confirmed : ℕ
  pub conntrack_pointer : Option ℕ
  pub subscriptions : Subscriptions
  pub attachments : Table String Value
  pub last_activity_time : ℕ

-- A rate is a `float32` quotient: the model keeps its two operands, a count and nanoseconds.
pub record Rate : Type 0 where
  pub amount : ℕ
  pub nanoseconds : ℕ

-- `Conntrack`, without its lock. `session` is a pointer that may be nil.
pub record Conntrack : Type 0 where
  pub conntrack_id : ℕ
  pub conn_mark : ℕ
  pub session : Option ℕ
  pub session_id : ℕ
  pub family : ℕ
  pub creation_time : ℕ
  pub last_update_time : ℕ
  pub last_activity_time : ℕ
  pub client_side_tuple : Tuple
  pub server_side_tuple : Tuple
  pub timeout_seconds : ℕ
  pub timestamp_start : ℕ
  pub timestamp_stop : ℕ
  pub tcp_state : ℕ
  pub event_count : ℕ
  pub client_bytes : ℕ
  pub server_bytes : ℕ
  pub total_bytes : ℕ
  pub client_packets : ℕ
  pub server_packets : ℕ
  pub total_packets : ℕ
  pub client_bytes_diff : ℕ
  pub server_bytes_diff : ℕ
  pub total_bytes_diff : ℕ
  pub client_packets_diff : ℕ
  pub server_packets_diff : ℕ
  pub total_packets_diff : ℕ
  pub client_byte_rate : Rate
  pub server_byte_rate : Rate
  pub total_byte_rate : Rate
  pub client_packet_rate : Rate
  pub server_packet_rate : Rate
  pub total_packet_rate : Rate

-- What the package asks of services/dict: `dict.AddSessionEntry` and `dict.DeleteSession`.
pub data DictCall : Type 0 where
  add_session_entry : ℕ → String → Value → DictCall
  delete_session : ℕ → DictCall

-- The package's variables, the two heaps, the calls of the dictionary (the latest first), and the
-- counters of services/overseer.
pub record World : Type 0 where
  pub session_table : Table ℕ ℕ
  pub session_index : ℕ
  pub conntrack_table : Table ℕ ℕ
  pub sessions : Heap Session
  pub conntracks : Heap Conntrack
  pub nfqueue_sub_list : Subscriptions
  pub conntrack_sub_list : Subscriptions
  pub netlogger_sub_list : Subscriptions
  pub nf_cleanup_list : Option (Table ℕ Bool)
  pub ct_cleanup_list : Option (Table ℕ Bool)
  pub conntrack_interval_seconds : ℕ
  pub dict : List DictCall
  pub counters : Counters

abbrev pub second : ℕ
second = 1000000000

abbrev pub empty_tuple : Tuple
empty_tuple = record {
  protocol = 0;
  client_address = [];
  client_port = 0;
  server_address = [];
  server_port = 0;
}

-- `new(Session)`: every field has the zero value of its type.
abbrev pub new_session : Session
new_session = record {
  session_id = 0;
  packet_count = 0;
  byte_count = 0;
  event_count = 0;
  navl_count = 0;
  conntrack_id = 0;
  creation_time = 0;
  client_side_tuple = empty_tuple;
  server_side_tuple = empty_tuple;
  client_interface_id = 0;
  client_interface_type = 0;
  server_interface_id = 0;
  server_interface_type = 0;
  family = 0;
  conntrack_confirmed = 0;
  conntrack_pointer = none;
  subscriptions = [];
  attachments = [];
  last_activity_time = 0;
}

abbrev pub no_rate : Rate
no_rate = record { amount = 0; nanoseconds = 0 }

-- `new(Conntrack)`
abbrev pub new_conntrack : Conntrack
new_conntrack = record {
  conntrack_id = 0;
  conn_mark = 0;
  session = none;
  session_id = 0;
  family = 0;
  creation_time = 0;
  last_update_time = 0;
  last_activity_time = 0;
  client_side_tuple = empty_tuple;
  server_side_tuple = empty_tuple;
  timeout_seconds = 0;
  timestamp_start = 0;
  timestamp_stop = 0;
  tcp_state = 0;
  event_count = 0;
  client_bytes = 0;
  server_bytes = 0;
  total_bytes = 0;
  client_packets = 0;
  server_packets = 0;
  total_packets = 0;
  client_bytes_diff = 0;
  server_bytes_diff = 0;
  total_bytes_diff = 0;
  client_packets_diff = 0;
  server_packets_diff = 0;
  total_packets_diff = 0;
  client_byte_rate = no_rate;
  server_byte_rate = no_rate;
  total_byte_rate = no_rate;
  client_packet_rate = no_rate;
  server_packet_rate = no_rate;
  total_packet_rate = no_rate;
}
