-- ===== src/Dispatch/SessionTable/Removal.antt =====
-- `removeFromSessionTable` and `flushDict` touch an entry only for the session that it points at.
use packetd.Base.{ℕ, ◌≡◌, Bool, false, ◌&&◌, Option, none, some, ◌∷◌, ◌==◌, if◌then◌else◌, arith}
use packetd.Base.Keys.{nat_key}
use packetd.Base.Table.{get-put, get-remove}
use packetd.Dispatch.State.{World, delete_session}
use packetd.Dispatch.SessionTable.{
  remove_from_session_table, flush_dict, find_session, insert_session_table,
}

-- A pointer that may be nil is the given address.
abbrev pub points_at : Option ℕ → ℕ → Bool
points_at none sess = false
points_at (some a) sess = sess == a

-- The table has this very session under its own conntrack id.
abbrev pub is_current : World → ℕ → ℕ → Bool
is_current w sess ctid =
    (w.sessions.cell sess).conntrack_id == ctid && points_at (find_session w ctid) sess

-- removeFromSessionTable deletes the entry of a conntrack id exactly when that is the session's own
-- id and the entry points at this session object; every other entry stays, also an entry for the
-- same id that points at another session. flushDict asks the dictionary to delete the session's id
-- under the same condition and otherwise asks nothing, and it leaves the table as it was.
pub remove_flush_own :
    (w : World) (sess ctid : ℕ)
    → (find_session (remove_from_session_table w sess) ctid
        ≡ (if is_current w sess ctid then none else find_session w ctid))
      × ((flush_dict w sess).dict ≡ (
          if is_current w sess (w.sessions.cell sess).conntrack_id
          then delete_session (w.sessions.cell sess).conntrack_id ∷ w.dict
          else w.dict))
      × (find_session (flush_dict w sess) ctid ≡ find_session w ctid)
unfolding remove_from_session_table flush_dict find_session
remove_flush_own w sess ctid =
    ground (arith, get-remove w.session_table (w.sessions.cell sess).conntrack_id ctid)

pub find-insert :
    (w : World) (ctid sess c : ℕ)
    → find_session (insert_session_table w ctid sess) c
      ≡ (if ctid == c then some sess else find_session w c)
unfolding insert_session_table find_session
find-insert w ctid sess c = get-put w.session_table ctid c sess
