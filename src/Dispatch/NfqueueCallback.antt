-- ===== src/Dispatch/NfqueueCallback.antt =====
-- `nfqueueCallback` of services/dispatch/nfqueue.go, one function for each of its parts.
pub mod Sessions
pub mod Accounting
use packetd.Base.{
  ℕ, ◌+◌, ◌/◌, ◌%◌, ◌^◌, bit_and, String, Bool, true, false, not, ◌&&◌, ◌||◌, Option, none, some,
  List, [], ◌∷◌, ◌==◌, if◌then◌else◌,
}
use packetd.Base.Heap.{Heap, modify}
use packetd.Dispatch.Ip.{Ip, dup_ip, ip_equal, is_loopback}
use packetd.Dispatch.Tuple.{Tuple, equal}
use packetd.Dispatch.State.{World, Session}
use packetd.Dispatch.Session.{
  get_client_side_tuple, get_server_interface_id, set_server_interface_id,
  set_server_interface_type, set_client_interface_id, set_client_interface_type, set_last_activity,
  add_packet_count, add_byte_count, add_event_count,
}
use packetd.Dispatch.SessionTable.{find_session, remove_from_session_table}
use packetd.Dispatch.ConntrackTable.{remove_conntrack}
use packetd.Dispatch.Subscriptions.{bypass}
use packetd.Dispatch.PriorityLoop.{LoopResult, done}
use packetd.Dispatch.Nfqueue.{
  IpLayer, TcpLayer, UdpLayer, Packet, NfqueueMessage, Handlers, Answer, create_session,
}
use packetd.Dispatch.CallSubscribers.{call_subscribers}

-- The part of the tuple that the IP layer gives.
unfoldable pub ip_tuple : IpLayer → Tuple
ip_tuple layer = record {
  protocol = layer.protocol % 2 ^ 8;
  client_address = dup_ip layer.src_ip;
  client_port = 0;
  server_address = dup_ip layer.dst_ip;
  server_port = 0;
}

-- The IPv4 layer comes first; `none` where the packet has no IP layer.
unfoldable pub packet_tuple : Packet → Option Tuple
unfolding ip_tuple
packet_tuple p = elim p.ip4_layer [
  | some layer ↦ some (ip_tuple layer)
  | none ↦ elim p.ip6_layer [ some layer ↦ some (ip_tuple layer) | none ↦ none ]
]

abbrev tcp_ports : Option TcpLayer → Tuple → Tuple
tcp_ports none t = t
tcp_ports (some l) t = record t { client_port = l.src_port; server_port = l.dst_port }

abbrev udp_ports : Option UdpLayer → Tuple → Tuple
udp_ports none t = t
udp_ports (some l) t = record t { client_port = l.src_port; server_port = l.dst_port }

-- The ports, from the TCP layer and then from the UDP layer.
unfoldable pub with_ports : Packet → Tuple → Tuple
with_ports p t = udp_ports p.udp_layer (tcp_ports p.tcp_layer t)

-- The bit of the mark that says that netfilter holds the session for new.
unfoldable pub is_new : ℕ → Bool
is_new pmark = not (bit_and pmark 0x10000000 == 0)

-- How the packet's session was found: the world, the session and whether it counts as new.
pub record Found : Type 0 where
  pub world : World
  pub session : ℕ
  pub new_session : Bool

abbrev pub created : World × ℕ → Found
created (w, sess) = record { world = w; session = sess; new_session = true }

-- The choice of the session. `none` is the early return for a packet in the middle of an unknown
-- session.
unfoldable pub choose_session : World → NfqueueMessage → ℕ → ℕ → Bool → Option ℕ → Option Found
unfolding get_client_side_tuple
choose_session w mess ctid now new_session none =
    if not new_session then none else some (created (create_session w mess ctid now))
choose_session w mess ctid now new_session (some sess) =
    if new_session
    then (if equal mess.msg_tuple (get_client_side_tuple (w.sessions.cell sess))
        then some (record { world = w; session = sess; new_session = false })
        else some (created (create_session (remove_from_session_table w sess) mess ctid now)))
    else some (record { world = w; session = sess; new_session = false })

-- The interface of the client, from the mark of a new session's packet.
unfoldable pub mark_client : Bool → ℕ → Session → Session
unfolding set_client_interface_id set_client_interface_type
mark_client new_session pmark s =
    if new_session
    then set_client_interface_type (set_client_interface_id s (bit_and pmark 0x000000FF % 2 ^ 8))
        ((bit_and pmark 0x03000000 / 2 ^ 24) % 2 ^ 8)
    else s

-- The interface of the server, from the mark of a packet to the client, if it is not known yet.
unfoldable pub mark_server : Bool → ℕ → Session → Session
unfolding get_server_interface_id set_server_interface_id set_server_interface_type
mark_server client_to_server pmark s =
    if not client_to_server && get_server_interface_id s == 0
    then set_server_interface_type (set_server_interface_id s (bit_and pmark 0x000000FF % 2 ^ 8))
        ((bit_and pmark 0x03000000 / 2 ^ 24) % 2 ^ 8)
    else s

-- The accounting of one packet.
unfoldable pub account : ℕ → ℕ → Session → Session
unfolding set_last_activity add_packet_count add_byte_count add_event_count
account now length s =
    add_event_count
      (add_byte_count (add_packet_count (set_last_activity s now) 1) (length % 2 ^ 64)) 1

-- The writes to the chosen session.
unfoldable pub touch : NfqueueMessage → ℕ → Bool → Session → Session
unfolding mark_client mark_server account
touch mess now new_session s = account now mess.length (
    mark_server mess.client_to_server mess.packet_mark (mark_client new_session mess.packet_mark s))

-- What the callback does with the chosen session before the handlers are called.
unfoldable pub prepare : NfqueueMessage → ℕ → ℕ → Found → World × NfqueueMessage
unfolding touch get_client_side_tuple
prepare mess ctid now f =
    let s = f.world.sessions.cell f.session in
    let client = (get_client_side_tuple s).client_address in
    let mess' : NfqueueMessage = record mess {
      session = some f.session;
      client_to_server = ip_equal mess.msg_tuple.client_address client;
    } in
    let w = if f.new_session then remove_conntrack f.world ctid else f.world in
    (record w { sessions = modify w.sessions f.session (touch mess' now f.new_session) }, mess')

unfoldable pub dispatch_packet : Handlers → NfqueueMessage → ℕ → ℕ → Found → LoopResult World
unfolding prepare
dispatch_packet handlers mess ctid now f =
    let (w, mess') = prepare mess ctid now f in
    call_subscribers (handlers mess' ctid f.new_session) f.session w

-- The message of a packet with its tuple.
unfoldable pub message_of : ℕ → Packet → ℕ → ℕ → Tuple → NfqueueMessage
unfolding with_ports
message_of family packet packet_length pmark t = record {
  session = none;
  msg_tuple = with_ports packet t;
  family = family;
  packet = packet;
  packet_mark = pmark;
  length = packet_length;
  client_to_server = false;
  payload = elim packet.application_payload [ none ↦ [] | some bytes ↦ bytes ];
}

-- The callback from the lookup of the session on.
unfoldable pub handle_message : Handlers → NfqueueMessage → ℕ → ℕ → World → LoopResult World
unfolding choose_session dispatch_packet is_new find_session
handle_message handlers mess ctid now w =
    elim (choose_session w mess ctid now (is_new mess.packet_mark) (find_session w ctid)) [
      | none ↦ done (bypass w ctid)
      | some f ↦ dispatch_packet handlers mess ctid now f
    ]

-- `nfqueueCallback`: `done` is the return of `NfAccept`, the only verdict of the function.
unfoldable pub nfqueue_callback :
    Handlers → (ctid family : ℕ) → Packet → (packet_length pmark now : ℕ) → World → LoopResult World
unfolding message_of handle_message
nfqueue_callback handlers ctid family packet packet_length pmark now w =
    elim (packet_tuple packet) [
      | none ↦ done w
      | some t ↦
          if is_loopback t.client_address || is_loopback t.server_address
          then done w
          else handle_message handlers (message_of family packet packet_length pmark t) ctid now w
    ]
