-- ===== src/Dispatch/Examples/Data.antt =====
-- A client, a server, a packet and the events of one connection of services/dispatch.
use packetd.Base.{ℕ, true, false, none, some, [], ◌∷◌, refl}
use packetd.Base.Integer.{pos}
use packetd.Dispatch.Ip.{Ip}
use packetd.Dispatch.Tuple.{Tuple}
use packetd.Dispatch.State.{World}
use packetd.Dispatch.PriorityLoop.{state_of}
use packetd.Dispatch.ConntrackTable.{ConntrackEvent}
use packetd.Dispatch.ConntrackCallback.{conntrack_callback}
use packetd.Dispatch.Subscriptions.{insert_nfqueue_subscription}
use packetd.Dispatch.Nfqueue.{Packet, Handlers, finished, timed_out}
use packetd.Dispatch.NfqueueCallback.{nfqueue_callback, packet_tuple}
use packetd.Dispatch.Service.{startup, Step, Reachable}
use packetd.Dispatch.Service.Safety.{Reachable-IsWellFormed}
use packetd.Dispatch.Ip.{is_loopback, to4, dup_ip}
use packetd.Dispatch.SessionTable.{find_session}
use packetd.Dispatch.NfqueueCallback.{is_new}
use packetd.Base.Table.{get}
use packetd.Dispatch.NfqueueCallback.Sessions.{IsFirst}
use packetd.Dispatch.WellFormed.{IsWellFormed}

abbrev pub client_ip : Ip
client_ip = 192 ∷ 168 ∷ 1 ∷ 2 ∷ []

abbrev pub server_ip : Ip
server_ip = 10 ∷ 0 ∷ 0 ∷ 1 ∷ []

abbrev pub ip_part : Tuple
ip_part = record {
  protocol = 6;
  client_address = client_ip;
  client_port = 0;
  server_address = server_ip;
  server_port = 0;
}

abbrev pub syn : Packet
syn = record {
  ip4_layer = some (record { protocol = 6; src_ip = client_ip; dst_ip = server_ip });
  ip6_layer = none;
  tcp_layer = some (record { src_port = 4000; dst_port = 80; rst = false; fin = false });
  udp_layer = none;
  application_payload = none;
}

abbrev pub connection : Tuple
connection = record ip_part { client_port = 4000; server_port = 80 }

-- The mark of a packet that netfilter holds for new, from interface 3 of type 1.
abbrev pub new_mark : ℕ
new_mark = 0x11000003

abbrev pub all_release : Handlers
all_release mess ctid new owner = finished true

abbrev pub never_return : Handlers
never_return mess ctid new owner = timed_out

abbrev pub event_of : ℕ → ℕ → ConntrackEvent
event_of type port = record {
  ctid = 5;
  connmark = 0x04000200;
  family = 2;
  event_type = type;
  protocol = 6;
  client = client_ip;
  server = server_ip;
  client_port = port;
  server_port = 80;
  client_new = server_ip;
  server_new = client_ip;
  client_port_new = port;
  server_port_new = 80;
  client_bytes = 700;
  server_bytes = 9000;
  client_packets = 7;
  server_packets = 9;
  timestamp_start = 0;
  timestamp_stop = 0;
  timeout = 60;
  tcp_state = 3;
}

-- A service with two subscribers, the packet that starts a session, and the events after it.
abbrev pub empty_world : World
empty_world = startup 10 1700000000

abbrev pub one_subscriber : World
one_subscriber = (insert_nfqueue_subscription empty_world "sni" (pos 2) 1).0

abbrev pub subscribed_world : World
subscribed_world = (insert_nfqueue_subscription one_subscriber "geoip" (pos 1) 2).0

abbrev pub session_world : World
session_world = state_of (nfqueue_callback all_release 5 2 syn 60 new_mark 1000 subscribed_world)

abbrev pub confirmed_world : World
confirmed_world = (conntrack_callback (event_of b'N' 4000) 2000 session_world).world

pub subscribed_world-Reachable : Reachable 10 1700000000 subscribed_world
subscribed_world-Reachable =
    Reachable.next
      (Reachable.next (Reachable.started empty_world refl)
        (Step.subscribe_nfqueue empty_world "sni" (pos 2) 1))
      (Step.subscribe_nfqueue one_subscriber "geoip" (pos 1) 2)

pub session_world-Reachable : Reachable 10 1700000000 session_world
session_world-Reachable =
    Reachable.next subscribed_world-Reachable
      (Step.packet subscribed_world all_release 5 2 syn 60 new_mark 1000)

pub confirmed_world-Reachable : Reachable 10 1700000000 confirmed_world
confirmed_world-Reachable =
    Reachable.next session_world-Reachable (Step.conntrack session_world (event_of b'N' 4000) 2000)

pub session_world-IsWellFormed : IsWellFormed session_world
session_world-IsWellFormed = Reachable-IsWellFormed 10 1700000000 session_world-Reachable

pub confirmed_world-IsWellFormed : IsWellFormed confirmed_world
confirmed_world-IsWellFormed = Reachable-IsWellFormed 10 1700000000 confirmed_world-Reachable

pub syn-IsFirst : IsFirst syn new_mark 5 subscribed_world ip_part
unfolding packet_tuple is_loopback to4 dup_ip is_new find_session get startup
    insert_nfqueue_subscription
syn-IsFirst = record { has_tuple = refl; not_loopback = refl; marked_new = refl; no_session = refl }

pub subscribed_world-IsWellFormed : IsWellFormed subscribed_world
subscribed_world-IsWellFormed = Reachable-IsWellFormed 10 1700000000 subscribed_world-Reachable
