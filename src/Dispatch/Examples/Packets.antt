-- ===== src/Dispatch/Examples/Packets.antt =====
-- The theorems on packets, on the packet that starts a connection.
use packetd.Base.{◌≡◌, refl}
use packetd.Dispatch.ConntrackCallback.{conntrack_callback, returned}
use packetd.Dispatch.Nfqueue.{NfqueueMessage, create_session}
use packetd.Dispatch.NfqueueCallback.{message_of, created, prepare, with_ports}
use packetd.Dispatch.NfqueueCallback.Sessions.{
  IsStarted, first_packet_starts, first_packet_then_delete,
}
use packetd.Dispatch.NfqueueCallback.Accounting.{counts, first_packet_twice}
use packetd.Dispatch.Examples.Data.{
  all_release, ip_part, syn, new_mark, event_of, subscribed_world, session_world, syn-IsFirst,
}
use packetd.Dispatch.Examples.Events.{delete_event}

abbrev first_message : NfqueueMessage
first_message = message_of 2 syn 60 new_mark ip_part

first_packet_starts_example : IsStarted subscribed_world session_world 5 (with_ports syn ip_part)
first_packet_starts_example =
    first_packet_starts all_release 5 2 syn 60 new_mark 1000 subscribed_world ip_part syn-IsFirst

first_packet_then_delete_example :
    conntrack_callback (event_of b'D' 4000) 1500 session_world ≡ returned session_world
first_packet_then_delete_example =
    first_packet_then_delete all_release 5 2 syn 60 new_mark 1000 subscribed_world ip_part
      (event_of b'D' 4000) 1500 syn-IsFirst delete_event refl

first_packet_twice_example :
    let f = created (create_session subscribed_world first_message 5 1000) in
    counts ((prepare first_message 5 1000 f).0.sessions.cell f.session)
    ≡ record { packets = 2; bytes = 120; events = 2 }
unfolding message_of
first_packet_twice_example = first_packet_twice subscribed_world first_message 5 1000
