-- ===== src/Dispatch/ConntrackCallback/Deletion.antt =====
-- What a DELETE event does.
use packetd.Base.{
  ℕ, ◌≡◌, refl, ap, ◌∙◌, Bool, true, false, ◌&&◌, ◌||◌, Option, none, some, [], ◌∷◌, ◌==◌,
  if◌then◌else◌, arith,
}
use packetd.Base.Keys.{nat_key}
use packetd.Base.Table.{get-remove}
use packetd.Dispatch.Ip.{is_loopback}
use packetd.Dispatch.Tuple.{equal}
use packetd.Dispatch.State.{World, delete_session}
use packetd.Dispatch.SessionTable.{dict_delete, find_session, remove_from_session_table}
use packetd.Dispatch.SessionTable.Removal.{points_at, remove_flush_own}
use packetd.Dispatch.ConntrackTable.{
  ConntrackEvent, find_conntrack, remove_conntrack, remove_conntrack_stale, remove_session_of,
}
use packetd.Dispatch.PriorityLoop.{done}
use packetd.Dispatch.ConntrackCallback.{
  returned, event_tuple, check_found, handle_delete, handle_event, conntrack_callback,
}
use packetd.Dispatch.WellFormed.{IsWellFormed}

-- A DELETE event between addresses that are not loopback addresses.
pub record IsDeleteEvent (e : ConntrackEvent) : Type 0 where
  pub delete : e.event_type ≡ b'D'
  pub not_loopback : (is_loopback e.client || is_loopback e.server) ≡ false

is_D-true : (t : ℕ) → t ≡ b'D' → ((t == b'D') ≡ true) × ((t == b'N') ≡ false)
is_D-true t h = ground arith

-- Whether or not the entry's tuple is the event's, the entry is removed once.
delete_found :
    (e : ConntrackEvent) (w : World) (entry : ℕ)
    → e.event_type ≡ b'D'
    → handle_delete e (check_found e w (some entry)).0 (check_found e w (some entry)).1
      ≡ remove_conntrack_stale w e.ctid entry
unfolding check_found handle_delete
delete_found e w entry d =
    by_tuple (equal (event_tuple e) (w.conntracks.cell entry).client_side_tuple) refl
  where
    by_tuple :
        (b : Bool)
        → equal (event_tuple e) (w.conntracks.cell entry).client_side_tuple ≡ b
        → handle_delete e (check_found e w (some entry)).0 (check_found e w (some entry)).1
          ≡ remove_conntrack_stale w e.ctid entry
    by_tuple true q = rw ((is_D-true e.event_type d).1, q)
    by_tuple false q = rw ((is_D-true e.event_type d).1, q)

pub callback-delete :
    (e : ConntrackEvent) (now : ℕ) (w : World)
    → IsDeleteEvent e
    → conntrack_callback e now w
      ≡ returned (
          handle_delete e
            (check_found e w (find_conntrack w e.ctid)).0
            (check_found e w (find_conntrack w e.ctid)).1)
unfolding conntrack_callback handle_event
callback-delete e now w d = rw (d.not_loopback, (is_D-true e.event_type d.delete).0)

-- A DELETE event between addresses that are not loopback addresses, for an id that the conntrack
-- table does not have, changes nothing and calls no handler.
pub delete_unknown :
    (e : ConntrackEvent) (now : ℕ) (w : World)
    → IsDeleteEvent e
    → find_conntrack w e.ctid ≡ none
    → conntrack_callback e now w ≡ returned w
delete_unknown e now w d missing =
    callback-delete e now w d ∙ unfold check_found handle_delete in rw (missing, check_found)

remove_session_part :
    (w : World) (c entry ctid : ℕ)
    → find_conntrack (remove_conntrack_stale w c entry) ctid
      ≡ (if c == ctid then none else find_conntrack w ctid)
unfolding remove_conntrack_stale find_conntrack remove_from_session_table
remove_session_part w c entry ctid = ground (arith, get-remove w.conntrack_table c ctid)

-- A pointer of an entry and the pointer in the session table are the same session.
abbrev pub same_session : Option ℕ → Option ℕ → Bool
same_session none filed = false
same_session (some sess) filed = points_at filed sess

session_part :
    (w : World) (o : Option ℕ) (id c : ℕ)
    → ((sess : ℕ) → o ≡ some sess → (w.sessions.cell sess).conntrack_id ≡ id)
    → (find_session (remove_session_of w o) c
        ≡ (if (id == c) && same_session o (find_session w c) then none else find_session w c))
      × ((remove_session_of w o).dict ≡ w.dict)
unfolding remove_from_session_table
session_part w none id c h = ground arith
session_part w (some sess) id c h = ground (arith, remove_flush_own w sess c, h sess refl)

stale_session_part :
    (w : World) (id entry c : ℕ)
    → ((sess : ℕ)
        → (w.conntracks.cell entry).session ≡ some sess
        → (w.sessions.cell sess).conntrack_id ≡ id)
    → (find_session (remove_conntrack_stale w id entry) c ≡ (
        if (id == c) && same_session (w.conntracks.cell entry).session (find_session w c)
        then none
        else find_session w c))
      × ((remove_conntrack_stale w id entry).dict ≡ delete_session id ∷ w.dict)
unfolding remove_conntrack_stale remove_conntrack find_session
stale_session_part w id entry c h =
    session_part (dict_delete (remove_conntrack w id) id) (w.conntracks.cell entry).session id c h

-- On a well-formed world, a DELETE event between addresses that are not loopback addresses, for an
-- id that the conntrack table has, calls no handler, removes that entry and no other, and asks the dictionary to delete the entries of the id. It
-- takes the session that is filed under the id out of the session table exactly when it is the
-- session object that the removed entry is linked to, and no session of another id.
pub delete_known :
    (e : ConntrackEvent) (now : ℕ) (w : World) (entry c : ℕ)
    → IsWellFormed w
    → IsDeleteEvent e
    → find_conntrack w e.ctid ≡ some entry
    → let o = conntrack_callback e now w in
      (o.calls ≡ done [])
      × (find_conntrack o.world c ≡ (if e.ctid == c then none else find_conntrack w c))
      × (o.world.dict ≡ delete_session e.ctid ∷ w.dict)
      × (find_session o.world c ≡ (
          if (e.ctid == c) && same_session (w.conntracks.cell entry).session (find_session w c)
          then none
          else find_session w c))
delete_known e now w entry c h d found = rw outcome (
  refl,
  remove_session_part w e.ctid entry c,
  (stale_session_part w e.ctid entry c agrees).1,
  (stale_session_part w e.ctid entry c agrees).0,
)
  where
    outcome : conntrack_callback e now w ≡ returned (remove_conntrack_stale w e.ctid entry)
    outcome = callback-delete e now w d ∙ rw found (ap returned (delete_found e w entry d.delete))

    agrees :
        (sess : ℕ)
        → (w.conntracks.cell entry).session ≡ some sess
        → (w.sessions.cell sess).conntrack_id ≡ e.ctid
    agrees sess q = h.link_agrees entry sess q ∙ h.conntrack_filed e.ctid entry found
