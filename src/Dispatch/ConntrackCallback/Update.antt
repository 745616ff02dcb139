-- ===== src/Dispatch/ConntrackCallback/Update.antt =====
-- What an UPDATE event does.
use mathlib.Core.List.{Perm}
use packetd.Base.{
  ℕ, ◌+◌, ◌%◌, ◌^◌, ◌≡◌, ◌≢◌, refl, ap, ◌∙◌, bit_and, true, false, ◌||◌, Option, none, some, ◌==◌,
  if◌then◌else◌, arith, ==_iff,
}
use packetd.Base.Keys.{nat_key}
use packetd.Base.Heap.{modify}
use packetd.Dispatch.Ip.{is_loopback}
use packetd.Dispatch.Tuple.{equal}
use packetd.Dispatch.State.{World, Conntrack, Subscriptions}
use packetd.Dispatch.ConntrackTable.{ConntrackEvent, find_conntrack}
use packetd.Dispatch.ConntrackStats.{update_stats_and_rates}
use packetd.Dispatch.PriorityLoop.{done, call_all}
use packetd.Dispatch.PriorityLoop.Order.{==_ne, all_in_range}
use packetd.Dispatch.PriorityLoop.Calls.{batches, Ordered, call_all-in_range}
use packetd.Dispatch.ConntrackCallback.{
  event_tuple, check_found, ensure_entry, update_conntrack, touch_session, handle_update,
  after_update, handle_event, conntrack_callback,
}

-- An UPDATE event between addresses that are not loopback addresses.
pub record IsUpdateEvent (e : ConntrackEvent) : Type 0 where
  pub update : e.event_type ≡ b'U'
  pub not_loopback : (is_loopback e.client || is_loopback e.server) ≡ false

is_U : (t : ℕ) → t ≡ b'U' → ((t == b'D') ≡ false) × ((t == b'N') ≡ false) × ((t == b'U') ≡ true)
is_U t h = ground arith

callback-update :
    (e : ConntrackEvent) (now : ℕ) (w : World)
    → IsUpdateEvent e
    → conntrack_callback e now w
      ≡ after_update (
          handle_update e now
            (check_found e w (find_conntrack w e.ctid)).0
            (check_found e w (find_conntrack w e.ctid)).1)
unfolding conntrack_callback handle_event
callback-update e now w u = rw (
  u.not_loopback,
  (is_U e.event_type u.update).0,
  (is_U e.event_type u.update).1,
  (is_U e.event_type u.update).2,
)

-- What an UPDATE event has written to its entry.
pub record IsUpdated (e : ConntrackEvent) (now : ℕ) (old c : Conntrack) : Type 0 where
  pub mark : bit_and c.conn_mark 0x0fffffff ≡ bit_and e.connmark 0x0fffffff
  pub activity : c.last_activity_time ≡ now
  pub updated : c.last_update_time ≡ now
  pub events : c.event_count ≡ (old.event_count + 1) % 2 ^ 64
  pub client_bytes : c.client_bytes ≡ e.client_bytes
  pub server_bytes : c.server_bytes ≡ e.server_bytes
  pub timeout : c.timeout_seconds ≡ e.timeout
  pub tuple : c.client_side_tuple ≡ old.client_side_tuple
  pub session : c.session ≡ old.session

update_conntrack-IsUpdated :
    (e : ConntrackEvent) (now interval : ℕ) (c : Conntrack)
    → IsUpdated e now c (update_conntrack e now interval c)
unfolding update_conntrack update_stats_and_rates
update_conntrack-IsUpdated e now interval c = ground arith

conntracks-touch_session :
    (w : World) (o : Option ℕ) (now : ℕ)
    → ((touch_session w o now).conntracks ≡ w.conntracks)
      × ((touch_session w o now).conntrack_table ≡ w.conntrack_table)
      × ((touch_session w o now).conntrack_sub_list ≡ w.conntrack_sub_list)
conntracks-touch_session w none now = (refl, refl, refl)
conntracks-touch_session w (some sess) now = (refl, refl, refl)

-- The writes reach the entry of the event, whichever it is, and no other entry.
handle_update-cell :
    (e : ConntrackEvent) (now : ℕ) (w : World) (found : Option ℕ) (q : ℕ)
    → let (w', entry) = ensure_entry e now w found in
      ((handle_update e now w found).0.conntracks.cell q ≡ (
        if entry == q
        then update_conntrack e now w.conntrack_interval_seconds (w'.conntracks.cell q)
        else w'.conntracks.cell q))
      × ((handle_update e now w found).0.conntrack_table ≡ w'.conntrack_table)
      × ((handle_update e now w found).0.conntrack_sub_list ≡ w'.conntrack_sub_list)
      × ((handle_update e now w found).1 ≡ entry)
unfolding handle_update modify
handle_update-cell e now w found q =
    let (w', entry) = ensure_entry e now w found in
    let same = conntracks-touch_session w' (w'.conntracks.cell entry).session now in
    rw (same.0, same.1, same.2) (refl, refl, refl, refl)

known_cells :
    (e : ConntrackEvent) (now : ℕ) (w : World) (entry q : ℕ)
    → entry ≢ q
    → let v = (handle_update e now w (some entry)).0 in
      (v.conntracks.cell entry
        ≡ update_conntrack e now w.conntrack_interval_seconds (w.conntracks.cell entry))
      × (v.conntracks.cell q ≡ w.conntracks.cell q)
      × (v.conntrack_table ≡ w.conntrack_table)
      × (v.conntrack_sub_list ≡ w.conntrack_sub_list)
      × ((handle_update e now w (some entry)).1 ≡ entry)
unfolding ensure_entry
known_cells e now w entry q n =
    let here = handle_update-cell e now w (some entry) entry in
    let there = handle_update-cell e now w (some entry) q in
    (
      here.0 ∙ rw ((==_iff entry entry).1 refl),
      there.0 ∙ rw (==_ne entry q n),
      here.1,
      here.2,
      here.3,
    )

checked_same :
    (e : ConntrackEvent) (w : World) (entry : ℕ)
    → e.event_type ≡ b'U'
    → equal (event_tuple e) (w.conntracks.cell entry).client_side_tuple ≡ true
    → check_found e w (some entry) ≡ (w, some entry)
unfolding check_found
checked_same e w entry u same = rw ((is_U e.event_type u).1, same)

-- If every conntrack subscription has a priority from 0 to 99, an UPDATE event between addresses
-- that are not loopback addresses, which finds an entry with the event's client side tuple, writes
-- to that entry the event's byte counters and timeout, the current time, one more event, and a mark
-- that agrees with the event's in its low 28 bits; it keeps the entry's tuple and session, changes no
-- other entry and not the table, and calls each subscribed handler with the entry, once, in the
-- order of the priorities.
pub update_known :
    (e : ConntrackEvent) (now : ℕ) (w : World) (entry q : ℕ)
    → IsUpdateEvent e
    → find_conntrack w e.ctid ≡ some entry
    → equal (event_tuple e) (w.conntracks.cell entry).client_side_tuple ≡ true
    → entry ≢ q
    → all_in_range w.conntrack_sub_list ≡ true
    → let o = conntrack_callback e now w in
      IsUpdated e now (w.conntracks.cell entry) (o.world.conntracks.cell entry)
      × (o.world.conntracks.cell q ≡ w.conntracks.cell q)
      × (o.world.conntrack_table ≡ w.conntrack_table)
      × (o.conntrack ≡ some entry)
      × ((calls : Subscriptions) × (o.calls ≡ done calls)
          × Perm calls w.conntrack_sub_list
          × Ordered 0 calls)
update_known e now w entry q u found same n r = rw outcome (
  rw (known_cells e now w entry q n).0
      (update_conntrack-IsUpdated e now w.conntrack_interval_seconds (w.conntracks.cell entry)),
  (known_cells e now w entry q n).1,
  (known_cells e now w entry q n).2,
  ap some (known_cells e now w entry q n).4,
  (
    batches 0 100 w.conntrack_sub_list,
    ap call_all (known_cells e now w entry q n).3 ∙ (call_all-in_range w.conntrack_sub_list r).0,
    (call_all-in_range w.conntrack_sub_list r).1,
    (call_all-in_range w.conntrack_sub_list r).2,
  ),
)
  where
    outcome : conntrack_callback e now w ≡ after_update (handle_update e now w (some entry))
    outcome = callback-update e now w u ∙ rw (found, checked_same e w entry u.update same)
