-- ===== src/Dispatch/WellFormed/ConntrackEvents.antt =====
-- A whole conntrack event keeps the world well formed.
use packetd.Base.{ℕ, ◌<◌, ◌≡◌, refl, ◌||◌, Option, none, some, ◌==◌, arith, Bool-cases, inl, inr}
use packetd.Base.Heap.{allocate}
use packetd.Dispatch.Ip.{is_loopback}
use packetd.Dispatch.State.{World, Conntrack}
use packetd.Dispatch.Session.{add_event_count, set_last_activity}
use packetd.Dispatch.SessionTable.{find_session}
use packetd.Dispatch.ConntrackTable.{ConntrackEvent, find_conntrack, create_conntrack}
use packetd.Dispatch.ConntrackStats.{update_stats_and_rates}
use packetd.Dispatch.ConntrackCallback.{
  check_found, finish_new, handle_new, ensure_entry, update_conntrack, touch_session, handle_update,
  after_new, handle_event, conntrack_callback,
}
use packetd.Dispatch.WellFormed.{IsWellFormed}
use packetd.Dispatch.WellFormed.Sessions.{Shrinks-IsWellFormed, modify_session-IsWellFormed}
use packetd.Dispatch.WellFormed.Conntracks.{
  modify_conntrack-IsWellFormed, allocate_conntrack-IsWellFormed, insert_conntrack-IsWellFormed,
}
use packetd.Dispatch.WellFormed.Callbacks.{
  check_found-Shrinks, handle_delete-Shrinks, finish_new-IsWellFormed, id_mismatch-false,
}

-- The world in which the entry of an event was made, and that entry's fields.
abbrev pub with_entry : ConntrackEvent → ℕ → World → World
with_entry e now w = record w { conntracks = allocate w.conntracks (create_conntrack e now) }

created_fields :
    (e : ConntrackEvent) (now : ℕ) (w : World)
    → (w.conntracks.next < (with_entry e now w).conntracks.next)
      × (((with_entry e now w).conntracks.cell w.conntracks.next).conntrack_id ≡ e.ctid)
unfolding allocate create_conntrack
created_fields e now w = ground arith

with_entry-IsWellFormed :
    (e : ConntrackEvent) (now : ℕ) (w : World) → IsWellFormed w → IsWellFormed (with_entry e now w)
with_entry-IsWellFormed e now w h =
    allocate_conntrack-IsWellFormed w (create_conntrack e now) (unfold create_conntrack in refl) h

-- A NEW event on a well-formed world always makes an entry: the return for a session whose conntrack id is
-- not that of the event is never taken.
pub handle_new-returns :
    (e : ConntrackEvent) (now : ℕ) (w : World)
    → IsWellFormed w
    → handle_new e now w ≡ (
      finish_new e now
          (with_entry e now w)
          (find_session (with_entry e now w) e.ctid)
          w.conntracks.next,
      some w.conntracks.next,
    )
unfolding handle_new
handle_new-returns e now w h =
    rw (
      id_mismatch-false (with_entry e now w) e.ctid (with_entry-IsWellFormed e now w h),
      handle_new,
    )

handle_new-IsWellFormed :
    (e : ConntrackEvent) (now : ℕ) (w : World)
    → IsWellFormed w
    → IsWellFormed (handle_new e now w).0
handle_new-IsWellFormed e now w h = rw (handle_new-returns e now w h) (
    finish_new-IsWellFormed e now (with_entry e now w) w.conntracks.next (created_fields e now w).0
      (created_fields e now w).1 (with_entry-IsWellFormed e now w h))

ensure_entry-IsWellFormed :
    (e : ConntrackEvent) (now : ℕ) (w : World) (found : Option ℕ)
    → IsWellFormed w
    → IsWellFormed (ensure_entry e now w found).0
unfolding ensure_entry
ensure_entry-IsWellFormed e now w (some entry) h = h
ensure_entry-IsWellFormed e now w none h =
    insert_conntrack-IsWellFormed (with_entry e now w) e.ctid w.conntracks.next
      (created_fields e now w).0 (created_fields e now w).1 (with_entry-IsWellFormed e now w h)

touch_session-IsWellFormed :
    (w : World) (o : Option ℕ) (now : ℕ) → IsWellFormed w → IsWellFormed (touch_session w o now)
unfolding add_event_count set_last_activity
touch_session-IsWellFormed w none now h = h
touch_session-IsWellFormed w (some sess) now h = modify_session-IsWellFormed w sess _ (λ s. refl) h

update_conntrack-keeps :
    (e : ConntrackEvent) (now interval : ℕ) (c : Conntrack)
    → ((update_conntrack e now interval c).conntrack_id ≡ c.conntrack_id)
      × ((update_conntrack e now interval c).session ≡ c.session)
unfolding update_conntrack update_stats_and_rates
update_conntrack-keeps e now interval c = ground arith

handle_update-IsWellFormed :
    (e : ConntrackEvent) (now : ℕ) (w : World) (found : Option ℕ)
    → IsWellFormed w
    → IsWellFormed (handle_update e now w found).0
unfolding handle_update
handle_update-IsWellFormed e now w found h =
    modify_conntrack-IsWellFormed _ (ensure_entry e now w found).1 _
      (λ c. (update_conntrack-keeps e now w.conntrack_interval_seconds c).0)
      (λ c. (update_conntrack-keeps e now w.conntrack_interval_seconds c).1)
      (touch_session-IsWellFormed _ _ now (ensure_entry-IsWellFormed e now w found h))

after_new-world : (r : World × Option ℕ) → (after_new r).world ≡ r.0
after_new-world (w, none) = refl
after_new-world (w, some entry) = refl

handle_event-IsWellFormed :
    (e : ConntrackEvent) (now : ℕ) (w : World) (found : Option ℕ)
    → IsWellFormed w
    → IsWellFormed (handle_event e now (w, found)).world
unfolding handle_event
handle_event-IsWellFormed e now w found h = elim (Bool-cases (e.event_type == b'D')) [
  | inl d ↦ rw d (Shrinks-IsWellFormed (handle_delete-Shrinks e w found) h)
  | inr nd ↦ elim (Bool-cases (e.event_type == b'N')) [
    | inl n ↦ rw (nd, n, after_new-world (handle_new e now w)) (handle_new-IsWellFormed e now w h)
    | inr nn ↦ elim (Bool-cases (e.event_type == b'U')) [
      | inl u ↦ rw (nd, nn, u) (handle_update-IsWellFormed e now w found h)
      | inr nu ↦ rw (nd, nn, nu) h
    ]
  ]
]

-- Every conntrack event, of any type, keeps the world well formed.
pub conntrack_callback-IsWellFormed :
    (e : ConntrackEvent) (now : ℕ) (w : World)
    → IsWellFormed w
    → IsWellFormed (conntrack_callback e now w).world
unfolding conntrack_callback
conntrack_callback-IsWellFormed e now w h =
    elim (Bool-cases (is_loopback e.client || is_loopback e.server)) [
      | inl l ↦ rw l h
      | inr l ↦ rw l (
          handle_event-IsWellFormed e now _ (check_found e w (find_conntrack w e.ctid)).1
            (Shrinks-IsWellFormed (check_found-Shrinks e w (find_conntrack w e.ctid)) h))
    ]
