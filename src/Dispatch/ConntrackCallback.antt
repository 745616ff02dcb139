-- ===== src/Dispatch/ConntrackCallback.antt =====
-- `conntrackCallback` of services/dispatch/conntrack.go, one function for each of its parts. All
-- calls of `time.Now` in one event give the same instant `now`.
pub mod Deletion
pub mod Creation
pub mod Update
use packetd.Base.{
  ℕ, ◌+◌, ◌-◌, ◌*◌, ◌/◌, ◌%◌, ◌^◌, bit_and, Bool, true, false, not, ◌&&◌, ◌||◌, Option, none, some,
  List, [], ◌==◌, if◌then◌else◌,
}
use packetd.Base.Heap.{Heap, allocate, modify}
use packetd.Dispatch.Ip.{dup_ip, is_loopback}
use packetd.Dispatch.Tuple.{Tuple, equal}
use packetd.Dispatch.State.{World, Session, Conntrack, Subscriptions, second}
use packetd.Dispatch.Session.{
  get_conntrack_id, get_client_side_tuple, get_session_id, set_server_side_tuple,
  set_server_interface_id, set_server_interface_type, set_conntrack_confirmed,
  set_conntrack_pointer, set_last_activity, add_event_count,
}
use packetd.Dispatch.SessionTable.{
  find_session, flush_dict, remove_from_session_table, next_session_id,
}
use packetd.Dispatch.ConntrackTable.{
  ConntrackEvent, find_conntrack, insert_conntrack, remove_conntrack_stale, create_conntrack,
}
use packetd.Dispatch.ConntrackStats.{update_stats_and_rates}
use packetd.Dispatch.PriorityLoop.{LoopResult, done, call_all}

-- What a run of the callback leaves: the variables, the entry that the handlers got, and the calls
-- of the handlers. An early return makes no calls.
pub record Outcome : Type 0 where
  pub world : World
  pub conntrack : Option ℕ
  pub calls : LoopResult Subscriptions

abbrev pub returned : World → Outcome
returned w = record { world = w; conntrack = none; calls = done [] }

-- The tuple that an event shows for the client side.
unfoldable pub event_tuple : ConntrackEvent → Tuple
event_tuple e = record {
  protocol = e.protocol;
  client_address = dup_ip e.client;
  client_port = e.client_port;
  server_address = dup_ip e.server;
  server_port = e.server_port;
}

-- The server side tuple that a NEW event gives its session.
unfoldable pub translated_tuple : ConntrackEvent → Tuple
translated_tuple e = record {
  protocol = e.protocol;
  client_address = dup_ip e.client_new;
  client_port = e.client_port_new;
  server_address = dup_ip e.server_new;
  server_port = e.server_port_new;
}

-- The check of the found entry: an entry that a NEW event finds, or whose tuple is not the event's,
-- is removed and forgotten.
unfoldable pub check_found : ConntrackEvent → World → Option ℕ → World × Option ℕ
unfolding event_tuple
check_found e w none = (w, none)
check_found e w (some entry) =
    if e.event_type == b'N'
    then (remove_conntrack_stale w e.ctid entry, none)
    else if not (equal (event_tuple e) (w.conntracks.cell entry).client_side_tuple)
    then (remove_conntrack_stale w e.ctid entry, none)
    else (w, some entry)

-- The DELETE event.
unfoldable pub handle_delete : ConntrackEvent → World → Option ℕ → World
handle_delete e w none = w
handle_delete e w (some entry) = remove_conntrack_stale w e.ctid entry

-- The session that a NEW event may keep: none if the table has none, or has one with another tuple.
unfoldable pub check_session : World → Option ℕ → Conntrack → World × Option ℕ
unfolding get_client_side_tuple
check_session w none c = (w, none)
check_session w (some sess) c =
    if not (equal (get_client_side_tuple (w.sessions.cell sess)) c.client_side_tuple)
    then (remove_from_session_table (flush_dict w sess) sess, none)
    else (w, some sess)

-- The writes to the session of a NEW event.
unfoldable pub confirm_session : ConntrackEvent → ℕ → ℕ → Session → Session
unfolding translated_tuple add_event_count set_last_activity set_conntrack_pointer
    set_conntrack_confirmed set_server_interface_type set_server_interface_id set_server_side_tuple
confirm_session e now entry s =
    add_event_count
      (set_last_activity
        (set_conntrack_pointer
          (set_conntrack_confirmed
            (set_server_interface_type
              (set_server_interface_id (set_server_side_tuple s (translated_tuple e))
                ((bit_and e.connmark 0x0000FF00 / 2 ^ 8) % 2 ^ 8))
              ((bit_and e.connmark 0x0C000000 / 2 ^ 26) % 2 ^ 8))
            true)
          (some entry))
        now)
      1

-- The two branches that give the new entry its session id.
unfoldable pub link_session : ConntrackEvent → ℕ → World → Option ℕ → ℕ → World
unfolding confirm_session get_session_id next_session_id
link_session e now w (some sess) entry =
    let id = get_session_id (w.sessions.cell sess) in
    record w {
      sessions = modify w.sessions sess (confirm_session e now entry);
      conntracks =
          modify w.conntracks entry (λ c. record c { session = some sess; session_id = id });
    }
link_session e now w none entry =
    let (w', id) = next_session_id w in
    record w' { conntracks = modify w'.conntracks entry (λ c. record c { session_id = id }) }

-- The rest of the NEW event, once the session was found to have the id of the event.
unfoldable pub finish_new : ConntrackEvent → ℕ → World → Option ℕ → ℕ → World
unfolding check_session link_session
finish_new e now w session entry =
    let (w', kept) = check_session w session (w.conntracks.cell entry) in
    insert_conntrack (link_session e now w' kept entry) e.ctid entry

-- The session's own conntrack id differs from the one that it was found by.
unfoldable pub id_mismatch : World → Option ℕ → ℕ → Bool
unfolding get_conntrack_id
id_mismatch w none ctid = false
id_mismatch w (some sess) ctid = not (get_conntrack_id (w.sessions.cell sess) == ctid)

-- The NEW event: the entry, unless the mismatch of the ids makes the callback return.
unfoldable pub handle_new : ConntrackEvent → ℕ → World → World × Option ℕ
unfolding create_conntrack find_session id_mismatch finish_new
handle_new e now w =
    let entry = w.conntracks.next in
    let w' : World = record w { conntracks = allocate w.conntracks (create_conntrack e now) } in
    let session = find_session w' e.ctid in
    if id_mismatch w' session e.ctid
    then (w', none)
    else (finish_new e now w' session entry, some entry)

-- The creation of an entry that an UPDATE event did not find.
unfoldable pub ensure_entry : ConntrackEvent → ℕ → World → Option ℕ → World × ℕ
unfolding create_conntrack insert_conntrack
ensure_entry e now w (some entry) = (w, entry)
ensure_entry e now w none =
    let w' : World = record w { conntracks = allocate w.conntracks (create_conntrack e now) } in
    (insert_conntrack w' e.ctid w.conntracks.next, w.conntracks.next)

-- The writes of an UPDATE event to its entry.
unfoldable pub update_conntrack : ConntrackEvent → ℕ → ℕ → Conntrack → Conntrack
update_conntrack e now interval c =
    let elapsed = if c.last_update_time == 0 then interval * second else now - c.last_update_time in
    let mark =
      if not (bit_and e.connmark 0x0fffffff == bit_and c.conn_mark 0x0fffffff)
      then e.connmark
      else c.conn_mark in
    let c' : Conntrack = record c {
      last_activity_time = now;
      last_update_time = now;
      event_count = (c.event_count + 1) % 2 ^ 64;
      conn_mark = mark;
      timeout_seconds = e.timeout;
      tcp_state = e.tcp_state;
      timestamp_start = e.timestamp_start;
      timestamp_stop = e.timestamp_stop;
    } in
    update_stats_and_rates c' e.client_bytes e.server_bytes e.client_packets e.server_packets
      elapsed

abbrev pub touch_session : World → Option ℕ → ℕ → World
touch_session w none now = w
touch_session w (some sess) now = record w {
  sessions = modify w.sessions sess (λ s. add_event_count (set_last_activity s now) 1);
}

-- The UPDATE event.
unfoldable pub handle_update : ConntrackEvent → ℕ → World → Option ℕ → World × ℕ
unfolding ensure_entry update_conntrack set_last_activity add_event_count
handle_update e now w found =
    let (w', entry) = ensure_entry e now w found in
    let touched = touch_session w' (w'.conntracks.cell entry).session now in
    (
      record touched {
        conntracks =
            modify touched.conntracks entry (update_conntrack e now w.conntrack_interval_seconds);
      },
      entry,
    )

-- The handlers are called with the entry of the event.
abbrev pub call_handlers : World × Option ℕ → Outcome
call_handlers (w, conntrack) = record {
  world = w;
  conntrack = conntrack;
  calls = call_all w.conntrack_sub_list;
}

abbrev pub after_new : World × Option ℕ → Outcome
after_new (w, none) = returned w
after_new (w, some entry) = call_handlers (w, some entry)

abbrev pub after_update : World × ℕ → Outcome
after_update (w, entry) = call_handlers (w, some entry)

-- The event types, on the world that the check of the found entry left.
unfoldable pub handle_event : ConntrackEvent → ℕ → World × Option ℕ → Outcome
unfolding handle_delete handle_new handle_update
handle_event e now (w, found) =
    if e.event_type == b'D'
    then returned (handle_delete e w found)
    else if e.event_type == b'N'
    then after_new (handle_new e now w)
    else if e.event_type == b'U'
    then after_update (handle_update e now w found)
    else call_handlers (w, found)

-- `conntrackCallback`
unfoldable pub conntrack_callback : ConntrackEvent → ℕ → World → Outcome
unfolding check_found handle_event
conntrack_callback e now w =
    if is_loopback e.client || is_loopback e.server
    then returned w
    else handle_event e now (check_found e w (find_conntrack w e.ctid))
