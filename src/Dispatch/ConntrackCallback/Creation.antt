-- ===== src/Dispatch/ConntrackCallback/Creation.antt =====
-- What a NEW event does on a well-formed world.
use packetd.Base.{ℕ, ◌≡◌, ap, ◌∙◌, true, false, ◌||◌, Option, none, some, ◌∷◌, ◌==◌, arith}
use packetd.Base.Keys.{nat_key}
use packetd.Base.Table.{get-put, get-remove}
use packetd.Base.Heap.{modify, allocate}
use packetd.Dispatch.Ip.{is_loopback}
use packetd.Dispatch.Tuple.{equal}
use packetd.Dispatch.State.{World, Session, delete_session}
use packetd.Dispatch.SessionTable.{find_session, flush_dict, remove_from_session_table}
use packetd.Dispatch.ConntrackTable.{
  ConntrackEvent, find_conntrack, insert_conntrack, create_conntrack,
}
use packetd.Dispatch.PriorityLoop.{call_all}
use packetd.Dispatch.ConntrackCallback.{
  Outcome, event_tuple, translated_tuple, check_found, finish_new, handle_new, after_new,
  handle_event, conntrack_callback,
}
use packetd.Dispatch.WellFormed.{IsWellFormed}
use packetd.Dispatch.WellFormed.ConntrackEvents.{handle_new-returns, with_entry}

-- A NEW event between addresses that are not loopback addresses.
pub record IsNewEvent (e : ConntrackEvent) : Type 0 where
  pub new : e.event_type ≡ b'N'
  pub not_loopback : (is_loopback e.client || is_loopback e.server) ≡ false

is_D-false : (t : ℕ) → t ≡ b'N' → (t == b'D') ≡ false
is_D-false t h = ground arith

is_N-true : (t : ℕ) → t ≡ b'N' → (t == b'N') ≡ true
is_N-true t h = ground arith

callback-new :
    (e : ConntrackEvent) (now : ℕ) (w : World)
    → IsNewEvent e
    → conntrack_callback e now w
      ≡ after_new (handle_new e now (check_found e w (find_conntrack w e.ctid)).0)
unfolding conntrack_callback handle_event
callback-new e now w n = rw (n.not_loopback, is_D-false _ n.new, is_N-true _ n.new)

-- The world of a NEW event that finds no entry under its id.
fresh_world :
    (e : ConntrackEvent) (now : ℕ) (w : World)
    → IsWellFormed w
    → IsNewEvent e
    → find_conntrack w e.ctid ≡ none
    → let w' = with_entry e now w in
      let v = finish_new e now w' (find_session w' e.ctid) w.conntracks.next in
      conntrack_callback e now w ≡ record {
        world = v;
        conntrack = some w.conntracks.next;
        calls = call_all v.conntrack_sub_list;
      }
unfolding check_found
fresh_world e now w h n missing =
    callback-new e now w n ∙ rw (missing, check_found, handle_new-returns e now w h)

-- The session of a NEW event once it is confirmed.
pub record IsConfirmed (e : ConntrackEvent) (now entry : ℕ) (s : Session) : Type 0 where
  pub confirmed : s.conntrack_confirmed ≡ 1
  pub pointer : s.conntrack_pointer ≡ some entry
  pub server_side : s.server_side_tuple ≡ translated_tuple e
  pub active : s.last_activity_time ≡ now

finish_new-matching :
    (e : ConntrackEvent) (now : ℕ) (w : World) (sess entry : ℕ)
    → equal (w.sessions.cell sess).client_side_tuple (w.conntracks.cell entry).client_side_tuple
      ≡ true
    → let v = finish_new e now w (some sess) entry in
      (find_conntrack v e.ctid ≡ some entry)
      × ((v.conntracks.cell entry).session ≡ some sess)
      × IsConfirmed e now entry (v.sessions.cell sess)
      × (find_session v e.ctid ≡ find_session w e.ctid)
      × (v.dict ≡ w.dict)
unfolding finish_new modify insert_conntrack find_conntrack find_session
finish_new-matching e now w sess entry same =
    ground (arith, get-put w.conntrack_table e.ctid e.ctid entry)

finish_new-stale :
    (e : ConntrackEvent) (now : ℕ) (w : World) (sess entry : ℕ)
    → find_session w e.ctid ≡ some sess
    → (w.sessions.cell sess).conntrack_id ≡ e.ctid
    → equal (w.sessions.cell sess).client_side_tuple (w.conntracks.cell entry).client_side_tuple
      ≡ false
    → let v = finish_new e now w (some sess) entry in
      (find_conntrack v e.ctid ≡ some entry)
      × ((v.conntracks.cell entry).session ≡ (w.conntracks.cell entry).session)
      × ((v.conntracks.cell entry).session_id ≡ w.session_index)
      × (find_session v e.ctid ≡ none)
      × (v.dict ≡ delete_session e.ctid ∷ w.dict)
unfolding finish_new modify insert_conntrack find_conntrack flush_dict remove_from_session_table
    find_session
finish_new-stale e now w sess entry found filed other = ground (
  arith,
  get-put w.conntrack_table e.ctid e.ctid entry,
  get-remove w.session_table (w.sessions.cell sess).conntrack_id e.ctid,
)

filed_before :
    (e : ConntrackEvent) (now : ℕ) (w : World) (o : Option ℕ)
    → find_session w e.ctid ≡ o
    → find_session (with_entry e now w) e.ctid ≡ o
unfolding find_session
filed_before e now w o h = h

fresh_found :
    (e : ConntrackEvent) (now : ℕ) (w : World) (o : Option ℕ)
    → IsWellFormed w
    → IsNewEvent e
    → find_conntrack w e.ctid ≡ none
    → find_session w e.ctid ≡ o
    → (conntrack_callback e now w).world ≡ finish_new e now (with_entry e now w) o w.conntracks.next
fresh_found e now w o h n missing found =
    ap (λ (r : Outcome). r.world) (fresh_world e now w h n missing)
    ∙ ap (λ s. finish_new e now (with_entry e now w) s w.conntracks.next)
        (filed_before e now w o found)

entry_tuple :
    (e : ConntrackEvent) (now : ℕ) (w : World)
    → (((with_entry e now w).conntracks.cell w.conntracks.next).client_side_tuple ≡ event_tuple e)
      × (((with_entry e now w).conntracks.cell w.conntracks.next).session ≡ none)
unfolding allocate create_conntrack event_tuple
entry_tuple e now w = ground arith

-- On a well-formed world, a NEW event between addresses that are not loopback addresses, which
-- finds no conntrack entry and finds a session with the event's client side tuple, files the new
-- entry under its id, links entry and session to each other, and confirms the session with the
-- translated tuple of the event and the current time; it keeps the session in the table and asks
-- the dictionary nothing.
pub new_event_confirms :
    (e : ConntrackEvent) (now : ℕ) (w : World) (sess : ℕ)
    → IsWellFormed w
    → IsNewEvent e
    → find_conntrack w e.ctid ≡ none
    → find_session w e.ctid ≡ some sess
    → equal (w.sessions.cell sess).client_side_tuple (event_tuple e) ≡ true
    → let v = (conntrack_callback e now w).world in
      let entry = w.conntracks.next in
      (find_conntrack v e.ctid ≡ some entry)
      × ((v.conntracks.cell entry).session ≡ some sess)
      × IsConfirmed e now entry (v.sessions.cell sess)
      × (find_session v e.ctid ≡ some sess)
      × (v.dict ≡ w.dict)
new_event_confirms e now w sess h n missing found same =
    let p =
      finish_new-matching e now (with_entry e now w) sess w.conntracks.next
        (rw (entry_tuple e now w).0 same) in
    rw (fresh_found e now w (some sess) h n missing found)
      (p.0, p.1, p.2, p.3 ∙ filed_before e now w (some sess) found, p.4)

-- On a well-formed world, a NEW event between addresses that are not loopback addresses, which
-- finds no conntrack entry, but finds a session with another client side tuple, takes that session
-- out of the table, asks the dictionary to delete the entries of its id, and files an entry with no
-- session and with a session id of its own.
pub new_event_replaces :
    (e : ConntrackEvent) (now : ℕ) (w : World) (sess : ℕ)
    → IsWellFormed w
    → IsNewEvent e
    → find_conntrack w e.ctid ≡ none
    → find_session w e.ctid ≡ some sess
    → equal (w.sessions.cell sess).client_side_tuple (event_tuple e) ≡ false
    → let v = (conntrack_callback e now w).world in
      let entry = w.conntracks.next in
      (find_conntrack v e.ctid ≡ some entry)
      × ((v.conntracks.cell entry).session ≡ none)
      × ((v.conntracks.cell entry).session_id ≡ w.session_index)
      × (find_session v e.ctid ≡ none)
      × (v.dict ≡ delete_session e.ctid ∷ w.dict)
new_event_replaces e now w sess h n missing found other =
    let p =
      finish_new-stale e now (with_entry e now w) sess w.conntracks.next
        (filed_before e now w (some sess) found) (h.session_filed e.ctid sess found)
        (rw (entry_tuple e now w).0 other) in
    rw (fresh_found e now w (some sess) h n missing found)
      (p.0, p.1 ∙ (entry_tuple e now w).1, p.2, p.3, p.4)
