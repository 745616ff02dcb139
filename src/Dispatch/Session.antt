-- ===== src/Dispatch/Session.antt =====
-- services/dispatch/session.go: the methods of a session. The counters are `uint64` words, and the
-- getters of interfaces and family cut a `uint32` word to a byte.
pub mod Fields
use packetd.Base.{
  ℕ, ◌+◌, ◌%◌, ◌^◌, String, Bool, true, false, Option, none, some, ◌==◌, if◌then◌else◌,
}
use packetd.Base.Keys.{string_key}
use packetd.Base.Table.{Table, get, put, remove}
use packetd.Dispatch.Tuple.{Tuple}
use packetd.Dispatch.State.{Session, Value, nil}

-- `PutAttachment`
unfoldable pub put_attachment : Session → String → Value → Session
put_attachment s name value = record s { attachments = put s.attachments name value }

-- `GetAttachment`: a name that is not there reads as nil.
unfoldable pub get_attachment : Session → String → Value
get_attachment s name = elim (get s.attachments name) [ none ↦ nil | some value ↦ value ]

abbrev pub is_nil : Value → Bool
is_nil nil = true
is_nil _ = false

-- `DeleteAttachment`: whether there was a value other than nil.
unfoldable pub delete_attachment : Session → String → Session × Bool
unfolding get_attachment
delete_attachment s name =
    let value = get_attachment s name in
    let s' : Session = record s { attachments = remove s.attachments name } in
    if is_nil value then (s', false) else (s', true)

-- `GetSessionID`, `SetSessionID`
unfoldable pub get_session_id : Session → ℕ
get_session_id s = s.session_id

unfoldable pub set_session_id : Session → ℕ → Session
set_session_id s value = record s { session_id = value }

-- `GetConntrackID`, `SetConntrackID`
unfoldable pub get_conntrack_id : Session → ℕ
get_conntrack_id s = s.conntrack_id

unfoldable pub set_conntrack_id : Session → ℕ → Session
set_conntrack_id s value = record s { conntrack_id = value }

-- `GetClientSideTuple`, `SetClientSideTuple`
unfoldable pub get_client_side_tuple : Session → Tuple
get_client_side_tuple s = s.client_side_tuple

unfoldable pub set_client_side_tuple : Session → Tuple → Session
set_client_side_tuple s tuple = record s { client_side_tuple = tuple }

-- `GetServerSideTuple`, `SetServerSideTuple`
unfoldable pub get_server_side_tuple : Session → Tuple
get_server_side_tuple s = s.server_side_tuple

unfoldable pub set_server_side_tuple : Session → Tuple → Session
set_server_side_tuple s tuple = record s { server_side_tuple = tuple }

-- `GetServerInterfaceID`, `SetServerInterfaceID`, and the three pairs that follow them
unfoldable pub get_server_interface_id : Session → ℕ
get_server_interface_id s = s.server_interface_id % 2 ^ 8

unfoldable pub set_server_interface_id : Session → ℕ → Session
set_server_interface_id s value = record s { server_interface_id = value }

unfoldable pub get_server_interface_type : Session → ℕ
get_server_interface_type s = s.server_interface_type % 2 ^ 8

unfoldable pub set_server_interface_type : Session → ℕ → Session
set_server_interface_type s value = record s { server_interface_type = value }

unfoldable pub get_client_interface_id : Session → ℕ
get_client_interface_id s = s.client_interface_id % 2 ^ 8

unfoldable pub set_client_interface_id : Session → ℕ → Session
set_client_interface_id s value = record s { client_interface_id = value }

unfoldable pub get_client_interface_type : Session → ℕ
get_client_interface_type s = s.client_interface_type % 2 ^ 8

unfoldable pub set_client_interface_type : Session → ℕ → Session
set_client_interface_type s value = record s { client_interface_type = value }

-- `GetPacketCount`, `SetPacketCount`, `AddPacketCount`, and the same for bytes, events and navl
unfoldable pub get_packet_count : Session → ℕ
get_packet_count s = s.packet_count

unfoldable pub set_packet_count : Session → ℕ → Session
set_packet_count s value = record s { packet_count = value }

unfoldable pub add_packet_count : Session → ℕ → Session
add_packet_count s value = record s { packet_count = (s.packet_count + value) % 2 ^ 64 }

unfoldable pub get_byte_count : Session → ℕ
get_byte_count s = s.byte_count

unfoldable pub set_byte_count : Session → ℕ → Session
set_byte_count s value = record s { byte_count = value }

unfoldable pub add_byte_count : Session → ℕ → Session
add_byte_count s value = record s { byte_count = (s.byte_count + value) % 2 ^ 64 }

unfoldable pub get_event_count : Session → ℕ
get_event_count s = s.event_count

unfoldable pub set_event_count : Session → ℕ → Session
set_event_count s value = record s { event_count = value }

unfoldable pub add_event_count : Session → ℕ → Session
add_event_count s value = record s { event_count = (s.event_count + value) % 2 ^ 64 }

unfoldable pub get_navl_count : Session → ℕ
get_navl_count s = s.navl_count

unfoldable pub set_navl_count : Session → ℕ → Session
set_navl_count s value = record s { navl_count = value }

unfoldable pub add_navl_count : Session → ℕ → Session
add_navl_count s value = record s { navl_count = (s.navl_count + value) % 2 ^ 64 }

-- `GetCreationTime`, `SetCreationTime`
unfoldable pub get_creation_time : Session → ℕ
get_creation_time s = s.creation_time

unfoldable pub set_creation_time : Session → ℕ → Session
set_creation_time s value = record s { creation_time = value }

-- `GetLastActivity`, `SetLastActivity`
unfoldable pub get_last_activity : Session → ℕ
get_last_activity s = s.last_activity_time

unfoldable pub set_last_activity : Session → ℕ → Session
set_last_activity s value = record s { last_activity_time = value }

-- `GetConntrackConfirmed`, `SetConntrackConfirmed`
unfoldable pub get_conntrack_confirmed : Session → Bool
get_conntrack_confirmed s = if s.conntrack_confirmed == 0 then false else true

unfoldable pub set_conntrack_confirmed : Session → Bool → Session
set_conntrack_confirmed s argument =
    if argument then record s { conntrack_confirmed = 1 } else record s { conntrack_confirmed = 0 }

-- `GetConntrackPointer`, `SetConntrackPointer`
unfoldable pub get_conntrack_pointer : Session → Option ℕ
get_conntrack_pointer s = s.conntrack_pointer

unfoldable pub set_conntrack_pointer : Session → Option ℕ → Session
set_conntrack_pointer s pointer = record s { conntrack_pointer = pointer }

-- `GetFamily`, `SetFamily`
unfoldable pub get_family : Session → ℕ
get_family s = s.family % 2 ^ 8

unfoldable pub set_family : Session → ℕ → Session
set_family s value = record s { family = value }
