-- ===== src/Dispatch/Examples/Events.antt =====
-- The theorems on conntrack events, on one connection.
use mathlib.Core.List.{Perm}
use packetd.Base.{
  ℕ, Bool, true, false, ◌&&◌, ◌||◌, none, some, [], ◌∷◌, ◌≡◌, refl, ap, ◌==◌, if◌then◌else◌, arith,
  bytes_equal, keep,
}
use packetd.Base.Keys.{nat_key}
use packetd.Base.Table.{Table, get, has, keys}
use packetd.Dispatch.Ip.{is_loopback, to4, dup_ip, ip_equal}
use packetd.Dispatch.State.{World, Subscriptions, delete_session, new_conntrack}
use packetd.Dispatch.Tuple.{equal}
use packetd.Dispatch.SessionTable.{find_session}
use packetd.Dispatch.ConntrackTable.{find_conntrack}
use packetd.Dispatch.PriorityLoop.{done}
use packetd.Dispatch.PriorityLoop.Order.{all_in_range, below}
use packetd.Dispatch.PriorityLoop.Calls.{Ordered}
use packetd.Dispatch.Examples.Handlers.{two_subscriptions}
use packetd.Dispatch.Service.{Step, handle_warehouse_playback, handle_warehouse_cleanup}
use packetd.Dispatch.Service.Playback.{handle_warehouse_cleanup_lem}
use packetd.Dispatch.Service.Safety.{Reachable-IsWellFormed, Step-IsWellFormed}
use packetd.Dispatch.WellFormed.{IsWellFormed}
use packetd.Dispatch.ConntrackCallback.{conntrack_callback, returned, event_tuple}
use packetd.Dispatch.ConntrackCallback.Creation.{
  IsNewEvent, IsConfirmed, new_event_confirms, new_event_replaces,
}
use packetd.Dispatch.ConntrackCallback.Deletion.{
  IsDeleteEvent, delete_unknown, delete_known, same_session,
}
use packetd.Dispatch.ConntrackCallback.Update.{IsUpdateEvent, IsUpdated, update_known}
use packetd.Dispatch.NfqueueCallback.{with_ports}
use packetd.Dispatch.NfqueueCallback.Sessions.{IsStarted, first_packet_starts}
use packetd.Dispatch.Examples.Data.{
  all_release, connection, ip_part, syn, new_mark, event_of, empty_world, subscribed_world,
  session_world, confirmed_world, session_world-IsWellFormed, confirmed_world-IsWellFormed,
  confirmed_world-Reachable, syn-IsFirst,
}

event_not_loopback :
    (type port : ℕ)
    → (is_loopback (event_of type port).client || is_loopback (event_of type port).server) ≡ false
unfolding is_loopback to4
event_not_loopback type port = refl

new_event : (port : ℕ) → IsNewEvent (event_of b'N' port)
new_event port = record { new = refl; not_loopback = event_not_loopback b'N' port }

pub delete_event : IsDeleteEvent (event_of b'D' 4000)
delete_event = record { delete = refl; not_loopback = event_not_loopback b'D' 4000 }

update_event : IsUpdateEvent (event_of b'U' 4000)
update_event = record { update = refl; not_loopback = event_not_loopback b'U' 4000 }

session-IsStarted : IsStarted subscribed_world session_world 5 (with_ports syn ip_part)
session-IsStarted =
    first_packet_starts all_release 5 2 syn 60 new_mark 1000 subscribed_world ip_part syn-IsFirst

abbrev sess : ℕ
sess = subscribed_world.sessions.next

abbrev entry : ℕ
entry = session_world.conntracks.next

same_connection :
    equal (session_world.sessions.cell sess).client_side_tuple (event_tuple (event_of b'N' 4000))
    ≡ true
unfolding equal event_tuple with_ports dup_ip ip_equal bytes_equal
same_connection = ap (λ t. equal t (event_tuple (event_of b'N' 4000))) session-IsStarted.tuple

other_connection :
    equal (session_world.sessions.cell sess).client_side_tuple (event_tuple (event_of b'N' 4001))
    ≡ false
unfolding equal event_tuple with_ports dup_ip ip_equal bytes_equal
other_connection = ap (λ t. equal t (event_tuple (event_of b'N' 4001))) session-IsStarted.tuple

new_event_confirms_example :
    (find_conntrack confirmed_world 5 ≡ some entry)
    × ((confirmed_world.conntracks.cell entry).session ≡ some sess)
    × IsConfirmed (event_of b'N' 4000) 2000 entry (confirmed_world.sessions.cell sess)
    × (find_session confirmed_world 5 ≡ some sess)
    × (confirmed_world.dict ≡ session_world.dict)
new_event_confirms_example =
    new_event_confirms (event_of b'N' 4000) 2000 session_world sess session_world-IsWellFormed
      (new_event 4000) session-IsStarted.forgotten session-IsStarted.filed same_connection

new_event_replaces_example :
    let v = (conntrack_callback (event_of b'N' 4001) 2000 session_world).world in
    (find_conntrack v 5 ≡ some entry)
    × ((v.conntracks.cell entry).session ≡ none)
    × ((v.conntracks.cell entry).session_id ≡ session_world.session_index)
    × (find_session v 5 ≡ none)
    × (v.dict ≡ delete_session 5 ∷ session_world.dict)
new_event_replaces_example =
    new_event_replaces (event_of b'N' 4001) 2000 session_world sess session_world-IsWellFormed
      (new_event 4001) session-IsStarted.forgotten session-IsStarted.filed other_connection

entry_filed : find_conntrack confirmed_world 5 ≡ some entry
entry_filed =
    (new_event_confirms (event_of b'N' 4000) 2000 session_world sess session_world-IsWellFormed
      (new_event 4000) session-IsStarted.forgotten session-IsStarted.filed same_connection).0

delete_known_example :
    let o = conntrack_callback (event_of b'D' 4000) 3000 confirmed_world in
    (o.calls ≡ done [])
    × (find_conntrack o.world 5 ≡ (if 5 == 5 then none else find_conntrack confirmed_world 5))
    × (o.world.dict ≡ delete_session 5 ∷ confirmed_world.dict)
    × (find_session o.world 5 ≡ (
        if (5 == 5)
          && same_session
              (confirmed_world.conntracks.cell entry).session
              (find_session confirmed_world 5)
        then none
        else find_session confirmed_world 5))
delete_known_example =
    delete_known (event_of b'D' 4000) 3000 confirmed_world entry 5 confirmed_world-IsWellFormed
      delete_event entry_filed

delete_unknown_example :
    conntrack_callback (event_of b'D' 4000) 3000 session_world ≡ returned session_world
delete_unknown_example =
    delete_unknown (event_of b'D' 4000) 3000 session_world delete_event session-IsStarted.forgotten

-- A service with two subscriptions and one conntrack entry, for the connection.
abbrev known_world : World
known_world = record empty_world {
  conntrack_sub_list = two_subscriptions;
  conntrack_table = (5, 0) ∷ [];
  conntracks = record {
    next = 1;
    cell = λ q. record new_conntrack { conntrack_id = 5; client_side_tuple = connection };
  };
}

known_found : find_conntrack known_world 5 ≡ some 0
unfolding find_conntrack get
known_found = refl

known_same :
    equal (event_tuple (event_of b'U' 4000)) (known_world.conntracks.cell 0).client_side_tuple
    ≡ true
unfolding equal event_tuple dup_ip ip_equal bytes_equal
known_same = refl

update_known_example :
    let o = conntrack_callback (event_of b'U' 4000) 3000 known_world in
    IsUpdated (event_of b'U' 4000) 3000 (known_world.conntracks.cell 0) (o.world.conntracks.cell 0)
    × (o.world.conntracks.cell 1 ≡ known_world.conntracks.cell 1)
    × (o.world.conntrack_table ≡ known_world.conntrack_table)
    × (o.conntrack ≡ some 0)
    × ((calls : Subscriptions) × (o.calls ≡ done calls)
        × Perm calls known_world.conntrack_sub_list
        × Ordered 0 calls)
unfolding all_in_range below keep
update_known_example =
    update_known (event_of b'U' 4000) 3000 known_world 0 1 update_event known_found known_same
      (omega arith) refl

Reachable-IsWellFormed_example : IsWellFormed confirmed_world
Reachable-IsWellFormed_example = Reachable-IsWellFormed 10 1700000000 confirmed_world-Reachable

-- A playback of one packet and one event of connection 5.
abbrev played_list : Table ℕ Bool
played_list = (5, true) ∷ []

abbrev played_world : World
played_world = handle_warehouse_playback confirmed_world played_list played_list

played_world-IsWellFormed : IsWellFormed played_world
played_world-IsWellFormed =
    Step-IsWellFormed (Step.playback confirmed_world played_list played_list)
      confirmed_world-IsWellFormed

handle_warehouse_cleanup_lem_example :
    let v = handle_warehouse_cleanup played_world in
    (find_session v 5 ≡ (if has (keys played_list) 5 then none else find_session played_world 5))
    × (find_conntrack v 5
        ≡ (if has (keys played_list) 5 then none else find_conntrack played_world 5))
unfolding handle_warehouse_playback
handle_warehouse_cleanup_lem_example =
    handle_warehouse_cleanup_lem played_world played_list played_list 5 played_world-IsWellFormed
      refl refl
