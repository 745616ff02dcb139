-- ===== src/Dispatch/WellFormed/Callbacks.antt =====
-- Every conntrack event keeps the world well formed.
use packetd.Base.{
  ℕ, ◌<◌, ◌≡◌, refl, sym, ◌∙◌, Bool, true, false, not, Option, none, some, ◌==◌, if◌then◌else◌,
  arith, Option-cases, inl, inr,
}
use packetd.Base.Heap.{Heap, modify}
use packetd.Dispatch.Tuple.{equal}
use packetd.Dispatch.State.{World, Session, Conntrack}
use packetd.Dispatch.Session.{get_client_side_tuple}
use packetd.Dispatch.SessionTable.{
  next_session_id, find_session, flush_dict, remove_from_session_table,
}
use packetd.Dispatch.ConntrackTable.{ConntrackEvent, find_conntrack, remove_conntrack_stale}
use packetd.Dispatch.ConntrackCallback.{
  check_found, handle_delete, check_session, confirm_session, link_session, finish_new, id_mismatch,
  event_tuple,
}
use packetd.Dispatch.WellFormed.{IsWellFormed}
use packetd.Dispatch.WellFormed.Sessions.{
  Shrinks, Shrinks-refl, Shrinks-trans, Shrinks-IsWellFormed, remove_from_session_table-Shrinks,
  flush_dict-Shrinks, modify_session-IsWellFormed,
}
use packetd.Dispatch.WellFormed.Conntracks.{
  remove_conntrack_stale-Shrinks, modify_conntrack-IsWellFormed, link-IsWellFormed,
  insert_conntrack-IsWellFormed,
}

Shrinks-if {ℓ} :
    {A : Type ℓ} {w : World} (b : Bool) (u v : World × A)
    → Shrinks w u.0
    → Shrinks w v.0
    → Shrinks w (if b then u else v).0
Shrinks-if true u v su sv = su
Shrinks-if false u v su sv = sv

pub check_found-Shrinks :
    (e : ConntrackEvent) (w : World) (found : Option ℕ) → Shrinks w (check_found e w found).0
unfolding check_found
check_found-Shrinks e w none = Shrinks-refl w
check_found-Shrinks e w (some entry) =
    Shrinks-if (e.event_type == b'N') _ _ (remove_conntrack_stale-Shrinks w e.ctid entry) (
      Shrinks-if (not (equal (event_tuple e) (w.conntracks.cell entry).client_side_tuple))
        (remove_conntrack_stale w e.ctid entry, none) (w, some entry)
        (remove_conntrack_stale-Shrinks w e.ctid entry) (Shrinks-refl w))

pub handle_delete-Shrinks :
    (e : ConntrackEvent) (w : World) (found : Option ℕ) → Shrinks w (handle_delete e w found)
unfolding handle_delete
handle_delete-Shrinks e w none = Shrinks-refl w
handle_delete-Shrinks e w (some entry) = remove_conntrack_stale-Shrinks w e.ctid entry

check_session-Shrinks :
    (w : World) (found : Option ℕ) (c : Conntrack) → Shrinks w (check_session w found c).0
unfolding check_session
check_session-Shrinks w none c = Shrinks-refl w
check_session-Shrinks w (some sess) c =
    Shrinks-if (not (equal (get_client_side_tuple (w.sessions.cell sess)) c.client_side_tuple))
      (remove_from_session_table (flush_dict w sess) sess, none) (w, some sess)
      (Shrinks-trans (flush_dict-Shrinks w sess)
        (remove_from_session_table-Shrinks (flush_dict w sess) sess))
      (Shrinks-refl w)

-- A session that is kept is the one that was found.
kept_found :
    (w : World) (found : Option ℕ) (c : Conntrack) (sess : ℕ)
    → (check_session w found c).1 ≡ some sess
    → found ≡ some sess
unfolding check_session
kept_found w none c sess h = h
kept_found w (some a) c sess h = ground arith

pub session_id-IsWellFormed :
    (w : World) (index : ℕ) → IsWellFormed w → IsWellFormed (record w { session_index = index })
unfolding find_session find_conntrack
session_id-IsWellFormed w index h = record {
  session_exists = h.session_exists;
  session_filed = h.session_filed;
  conntrack_exists = h.conntrack_exists;
  conntrack_filed = h.conntrack_filed;
  link_exists = h.link_exists;
  link_agrees = h.link_agrees;
}

conntrack_id-confirm :
    (e : ConntrackEvent) (now entry : ℕ) (s : Session)
    → (confirm_session e now entry s).conntrack_id ≡ s.conntrack_id
unfolding confirm_session
conntrack_id-confirm e now entry s = refl

conntrack_id-modify :
    (h : Heap Session) (a q : ℕ) (f : Session → Session)
    → ((s : Session) → (f s).conntrack_id ≡ s.conntrack_id)
    → ((modify h a f).cell q).conntrack_id ≡ (h.cell q).conntrack_id
unfolding modify
conntrack_id-modify h a q f keeps = ground (arith, keeps (h.cell q))

link_session-IsWellFormed :
    (e : ConntrackEvent) (now : ℕ) (w : World) (kept : Option ℕ) (entry : ℕ)
    → ((sess : ℕ)
        → kept ≡ some sess
        → (sess < w.sessions.next)
          × ((w.sessions.cell sess).conntrack_id ≡ (w.conntracks.cell entry).conntrack_id))
    → IsWellFormed w
    → IsWellFormed (link_session e now w kept entry)
unfolding link_session
link_session-IsWellFormed e now w none entry ok h =
    modify_conntrack-IsWellFormed (next_session_id w).0 entry _ (λ c. refl) (λ c. refl)
      (session_id-IsWellFormed w _ h)
link_session-IsWellFormed e now w (some sess) entry ok h =
    link-IsWellFormed (record w { sessions = modify w.sessions sess (confirm_session e now entry) })
      entry sess _ (unfold modify in (ok sess refl).0)
      (conntrack_id-modify w.sessions sess sess _ (conntrack_id-confirm e now entry)
        ∙ (ok sess refl).1)
      (modify_session-IsWellFormed w sess _ (conntrack_id-confirm e now entry) h)

-- The entry that `handle_new` makes is still there, with its id, when it is filed.
entry-link :
    (e : ConntrackEvent) (now : ℕ) (w : World) (kept : Option ℕ) (entry : ℕ)
    → ((link_session e now w kept entry).conntracks.next ≡ w.conntracks.next)
      × (((link_session e now w kept entry).conntracks.cell entry).conntrack_id
          ≡ (w.conntracks.cell entry).conntrack_id)
unfolding link_session modify
entry-link e now w none entry = ground arith
entry-link e now w (some sess) entry = ground arith

pub finish_new-IsWellFormed :
    (e : ConntrackEvent) (now : ℕ) (w : World) (entry : ℕ)
    → entry < w.conntracks.next
    → (w.conntracks.cell entry).conntrack_id ≡ e.ctid
    → IsWellFormed w
    → IsWellFormed (finish_new e now w (find_session w e.ctid) entry)
unfolding finish_new
finish_new-IsWellFormed e now w entry lt id h =
    insert_conntrack-IsWellFormed (link_session e now checked.0 checked.1 entry) e.ctid entry
      (rw ((entry-link e now checked.0 checked.1 entry).0, shrinks.conntracks) lt)
      ((entry-link e now checked.0 checked.1 entry).1 ∙ here)
      (link_session-IsWellFormed e now checked.0 checked.1 entry linkable
        (Shrinks-IsWellFormed shrinks h))
  where
    checked : World × Option ℕ
    checked = check_session w (find_session w e.ctid) (w.conntracks.cell entry)

    shrinks : Shrinks w checked.0
    shrinks = check_session-Shrinks w (find_session w e.ctid) (w.conntracks.cell entry)

    here : (checked.0.conntracks.cell entry).conntrack_id ≡ e.ctid
    here = rw shrinks.conntracks id

    linkable :
        (sess : ℕ)
        → checked.1 ≡ some sess
        → (sess < checked.0.sessions.next)
          × ((checked.0.sessions.cell sess).conntrack_id
              ≡ (checked.0.conntracks.cell entry).conntrack_id)
    linkable sess k =
        let found = kept_found w (find_session w e.ctid) (w.conntracks.cell entry) sess k in
        (
          rw shrinks.sessions (h.session_exists e.ctid sess found),
          rw shrinks.sessions (h.session_filed e.ctid sess found) ∙ sym here,
        )

-- The check of the session's id cannot fail where sessions are filed under their own ids.
pub id_mismatch-false :
    (w : World) (ctid : ℕ) → IsWellFormed w → id_mismatch w (find_session w ctid) ctid ≡ false
unfolding id_mismatch
id_mismatch-false w ctid h = elim (Option-cases (find_session w ctid)) [
  | inl e ↦ rw (e, id_mismatch)
  | inr (sess, e) ↦ rw (e, id_mismatch) (ground (arith, h.session_filed ctid sess e))
]
