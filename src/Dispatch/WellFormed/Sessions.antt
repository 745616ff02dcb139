-- ===== src/Dispatch/WellFormed/Sessions.antt =====
-- Operations on the table and the objects of sessions keep the world well formed.
use packetd.Base.{ℕ, ◌≡◌, refl, ◌∙◌, some, arith}
use packetd.Base.Keys.{nat_key}
use packetd.Base.Table.{get-put}
use packetd.Base.Heap.{modify, allocate}
use packetd.Dispatch.State.{World, Session}
use packetd.Dispatch.SessionTable.{
  find_session, remove_from_session_table, flush_dict, insert_session_table,
}
use packetd.Dispatch.SessionTable.Removal.{remove_flush_own}
use packetd.Dispatch.ConntrackTable.{find_conntrack}
use packetd.Dispatch.WellFormed.{IsWellFormed}

-- Two worlds agree on all that well-formedness speaks of, but the first may file fewer sessions.
pub record Shrinks (w v : World) : Type 0 where
  pub sessions : v.sessions ≡ w.sessions
  pub conntracks : v.conntracks ≡ w.conntracks
  pub filed : (ctid sess : ℕ) → find_session v ctid ≡ some sess → find_session w ctid ≡ some sess
  pub entries :
      (ctid entry : ℕ) → find_conntrack v ctid ≡ some entry → find_conntrack w ctid ≡ some entry

pub Shrinks-IsWellFormed : {w v : World} → Shrinks w v → IsWellFormed w → IsWellFormed v
Shrinks-IsWellFormed {w} {v} s f = record {
  session_exists = λ ctid sess h. rw s.sessions (f.session_exists ctid sess (s.filed ctid sess h));
  session_filed = λ ctid sess h. rw s.sessions (f.session_filed ctid sess (s.filed ctid sess h));
  conntrack_exists =
      λ ctid entry h. rw s.conntracks (f.conntrack_exists ctid entry (s.entries ctid entry h));
  conntrack_filed =
      λ ctid entry h. rw s.conntracks (f.conntrack_filed ctid entry (s.entries ctid entry h));
  link_exists = λ entry sess h. rw s.sessions (f.link_exists entry sess (rw s.conntracks at h));
  link_agrees = λ entry sess h.
      rw (s.sessions, s.conntracks) (f.link_agrees entry sess (rw s.conntracks at h));
}

pub Shrinks-trans : {w v u : World} → Shrinks w v → Shrinks v u → Shrinks w u
Shrinks-trans a b = record {
  sessions = b.sessions ∙ a.sessions;
  conntracks = b.conntracks ∙ a.conntracks;
  filed = λ ctid sess h. a.filed ctid sess (b.filed ctid sess h);
  entries = λ ctid entry h. a.entries ctid entry (b.entries ctid entry h);
}

pub Shrinks-refl : (w : World) → Shrinks w w
Shrinks-refl w = record {
  sessions = refl;
  conntracks = refl;
  filed = λ ctid sess h. h;
  entries = λ ctid entry h. h;
}

filed-remove :
    (w : World) (a ctid sess : ℕ)
    → find_session (remove_from_session_table w a) ctid ≡ some sess
    → find_session w ctid ≡ some sess
filed-remove w a ctid sess h = ground (arith, remove_flush_own w a ctid)

pub remove_from_session_table-Shrinks :
    (w : World) (a : ℕ) → Shrinks w (remove_from_session_table w a)
remove_from_session_table-Shrinks w a = record {
  sessions = unfold remove_from_session_table in ground arith;
  conntracks = unfold remove_from_session_table in ground arith;
  filed = filed-remove w a;
  entries = λ ctid entry h. unfold remove_from_session_table find_conntrack in ground arith;
}

pub flush_dict-Shrinks : (w : World) (a : ℕ) → Shrinks w (flush_dict w a)
flush_dict-Shrinks w a = record {
  sessions = unfold flush_dict in ground arith;
  conntracks = unfold flush_dict in ground arith;
  filed = λ ctid sess h. ground (arith, remove_flush_own w a ctid);
  entries = λ ctid entry h. unfold flush_dict find_conntrack in ground arith;
}

-- A write to a session that keeps its conntrack id.
pub modify_session-IsWellFormed :
    (w : World) (a : ℕ) (f : Session → Session)
    → ((s : Session) → (f s).conntrack_id ≡ s.conntrack_id)
    → IsWellFormed w
    → IsWellFormed (record w { sessions = modify w.sessions a f })
unfolding modify find_session find_conntrack
modify_session-IsWellFormed w a f keeps h = record {
  session_exists = h.session_exists;
  session_filed =
      λ ctid sess e. ground (arith, keeps (w.sessions.cell sess), h.session_filed ctid sess);
  conntrack_exists = h.conntrack_exists;
  conntrack_filed = h.conntrack_filed;
  link_exists = h.link_exists;
  link_agrees =
      λ entry sess e. ground (arith, keeps (w.sessions.cell sess), h.link_agrees entry sess);
}

-- A new session, filed under its own conntrack id.
pub insert_session-IsWellFormed :
    (w : World) (s : Session)
    → IsWellFormed w
    → IsWellFormed (
        insert_session_table
          (record w { sessions = allocate w.sessions s })
          s.conntrack_id
          w.sessions.next)
unfolding insert_session_table allocate find_session find_conntrack
insert_session-IsWellFormed w s h = record {
  session_exists = λ ctid sess e. ground (
    arith,
    get-put w.session_table s.conntrack_id ctid w.sessions.next,
    h.session_exists ctid sess,
  );
  session_filed = λ ctid sess e. ground (
    arith,
    get-put w.session_table s.conntrack_id ctid w.sessions.next,
    h.session_exists ctid sess,
    h.session_filed ctid sess,
  );
  conntrack_exists = h.conntrack_exists;
  conntrack_filed = h.conntrack_filed;
  link_exists = λ entry sess e. ground (arith, h.link_exists entry sess);
  link_agrees = λ entry sess e. ground (arith, h.link_exists entry sess, h.link_agrees entry sess);
}
