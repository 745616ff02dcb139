-- ===== src/Dispatch/WellFormed/Conntracks.antt =====
-- Operations on the table and the objects of conntrack entries keep the world well formed.
use packetd.Base.{
  ℕ, ◌<◌, ◌≡◌, refl, Option, none, some, List, [], ◌∷◌, arith, Option-cases, Bool-cases, inl, inr,
}
use packetd.Base.Keys.{nat_key}
use packetd.Base.Table.{get, get-put, get-remove, keys}
use packetd.Base.Heap.{modify, allocate}
use packetd.Dispatch.State.{World, Conntrack}
use packetd.Dispatch.SessionTable.{
  find_session, dict_delete, flush_dict, clean_session, clean_sessions, clean_session_table,
}
use packetd.Dispatch.ConntrackTable.{
  find_conntrack, insert_conntrack, remove_conntrack, remove_conntrack_stale, clean_conntrack,
  clean_conntracks, clean_conntrack_table, is_stale_conntrack, remove_session_of, flush_session_of,
}
use packetd.Dispatch.WellFormed.{IsWellFormed}
use packetd.Dispatch.WellFormed.Sessions.{
  Shrinks, Shrinks-refl, Shrinks-trans, remove_from_session_table-Shrinks, flush_dict-Shrinks,
}

pub remove_conntrack-Shrinks : (w : World) (c : ℕ) → Shrinks w (remove_conntrack w c)
unfolding remove_conntrack find_session find_conntrack
remove_conntrack-Shrinks w c = record {
  sessions = refl;
  conntracks = refl;
  filed = λ ctid sess h. h;
  entries = λ ctid entry h. ground (arith, get-remove w.conntrack_table c ctid);
}

dict_delete-Shrinks : (w : World) (c : ℕ) → Shrinks w (dict_delete w c)
unfolding find_session find_conntrack
dict_delete-Shrinks w c = record {
  sessions = refl;
  conntracks = refl;
  filed = λ ctid sess h. h;
  entries = λ ctid entry h. h;
}

remove_session_of-Shrinks : (w : World) (o : Option ℕ) → Shrinks w (remove_session_of w o)
remove_session_of-Shrinks w none = Shrinks-refl w
remove_session_of-Shrinks w (some sess) = remove_from_session_table-Shrinks w sess

pub remove_conntrack_stale-Shrinks :
    (w : World) (c entry : ℕ) → Shrinks w (remove_conntrack_stale w c entry)
unfolding remove_conntrack_stale
remove_conntrack_stale-Shrinks w c entry = Shrinks-trans (remove_conntrack-Shrinks w c) (
    Shrinks-trans (dict_delete-Shrinks (remove_conntrack w c) c)
      (remove_session_of-Shrinks _ (w.conntracks.cell entry).session))

pub flush_session_of-Shrinks : (w : World) (o : Option ℕ) → Shrinks w (flush_session_of w o)
flush_session_of-Shrinks w none = Shrinks-refl w
flush_session_of-Shrinks w (some sess) =
    Shrinks-trans (flush_dict-Shrinks w sess)
      (remove_from_session_table-Shrinks (flush_dict w sess) sess)

clean_conntrack-Shrinks : (now : ℕ) (w : World) (c : ℕ) → Shrinks w (clean_conntrack now w c)
unfolding clean_conntrack
clean_conntrack-Shrinks now w c = elim (Option-cases (get w.conntrack_table c)) [
  | inl e ↦ rw (e, clean_conntrack) (Shrinks-refl w)
  | inr (entry, e) ↦ elim (Bool-cases (is_stale_conntrack (w.conntracks.cell entry) now)) [
    | inl old ↦
        rw (e, clean_conntrack, old)
          (Shrinks-trans (flush_session_of-Shrinks w (w.conntracks.cell entry).session)
            (remove_conntrack-Shrinks _ c))
    | inr young ↦ rw (e, clean_conntrack, young) (Shrinks-refl w)
  ]
]

clean_conntracks-Shrinks :
    (now : ℕ) (w : World) (order : List ℕ) → Shrinks w (clean_conntracks now w order)
unfolding clean_conntracks
clean_conntracks-Shrinks now w [] = Shrinks-refl w
clean_conntracks-Shrinks now w (c ∷ order) =
    Shrinks-trans (clean_conntrack-Shrinks now w c)
      (clean_conntracks-Shrinks now (clean_conntrack now w c) order)

clean_session-Shrinks : (now : ℕ) (w : World) (c : ℕ) → Shrinks w (clean_session now w c)
unfolding clean_session find_session find_conntrack
clean_session-Shrinks now w c = record {
  sessions = ground arith;
  conntracks = ground arith;
  filed = λ ctid sess h. ground (arith, get-remove w.session_table c ctid);
  entries = λ ctid entry h. ground arith;
}

clean_sessions-Shrinks :
    (now : ℕ) (w : World) (order : List ℕ) → Shrinks w (clean_sessions now w order)
unfolding clean_sessions
clean_sessions-Shrinks now w [] = Shrinks-refl w
clean_sessions-Shrinks now w (c ∷ order) =
    Shrinks-trans (clean_session-Shrinks now w c)
      (clean_sessions-Shrinks now (clean_session now w c) order)

-- A run of the cleaner drops entries of the two tables and changes no object.
pub clean_tables-Shrinks :
    (w : World) (now : ℕ) → Shrinks w (clean_conntrack_table (clean_session_table w now) now)
unfolding clean_conntrack_table clean_session_table
clean_tables-Shrinks w now =
    Shrinks-trans (clean_sessions-Shrinks now w (keys w.session_table))
      (clean_conntracks-Shrinks now _ (keys (clean_session_table w now).conntrack_table))

-- A write to an entry that keeps its id and its session.
pub modify_conntrack-IsWellFormed :
    (w : World) (a : ℕ) (f : Conntrack → Conntrack)
    → ((c : Conntrack) → (f c).conntrack_id ≡ c.conntrack_id)
    → ((c : Conntrack) → (f c).session ≡ c.session)
    → IsWellFormed w
    → IsWellFormed (record w { conntracks = modify w.conntracks a f })
unfolding modify find_session find_conntrack
modify_conntrack-IsWellFormed w a f id sess h = record {
  session_exists = h.session_exists;
  session_filed = h.session_filed;
  conntrack_exists = h.conntrack_exists;
  conntrack_filed =
      λ ctid entry e. ground (arith, id (w.conntracks.cell entry), h.conntrack_filed ctid entry);
  link_exists = λ entry s e. ground (arith, sess (w.conntracks.cell entry), h.link_exists entry s);
  link_agrees = λ entry s e.
      ground (
        arith,
        id (w.conntracks.cell entry),
        sess (w.conntracks.cell entry),
        h.link_agrees entry s,
      );
}

-- The link of an entry with a session of its id.
pub link-IsWellFormed :
    (w : World) (a s id : ℕ)
    → s < w.sessions.next
    → (w.sessions.cell s).conntrack_id ≡ (w.conntracks.cell a).conntrack_id
    → IsWellFormed w
    → IsWellFormed (record w {
      conntracks = modify w.conntracks a (λ c. record c { session = some s; session_id = id });
    })
unfolding modify find_session find_conntrack
link-IsWellFormed w a s id lt agrees h = record {
  session_exists = h.session_exists;
  session_filed = h.session_filed;
  conntrack_exists = h.conntrack_exists;
  conntrack_filed = λ ctid entry e. ground (arith, h.conntrack_filed ctid entry);
  link_exists = λ entry q e. ground (arith, h.link_exists entry q);
  link_agrees = λ entry q e. ground (arith, h.link_agrees entry q);
}

-- A new entry that no table holds yet and that has no session.
pub allocate_conntrack-IsWellFormed :
    (w : World) (c : Conntrack)
    → c.session ≡ none
    → IsWellFormed w
    → IsWellFormed (record w { conntracks = allocate w.conntracks c })
unfolding allocate find_session find_conntrack
allocate_conntrack-IsWellFormed w c e h = record {
  session_exists = h.session_exists;
  session_filed = h.session_filed;
  conntrack_exists = λ ctid entry q. ground (arith, h.conntrack_exists ctid entry);
  conntrack_filed =
      λ ctid entry q. ground (arith, h.conntrack_exists ctid entry, h.conntrack_filed ctid entry);
  link_exists = λ entry s q. ground (arith, h.link_exists entry s);
  link_agrees = λ entry s q. ground (arith, h.link_agrees entry s);
}

-- An entry that is filed under its own id.
pub insert_conntrack-IsWellFormed :
    (w : World) (ctid entry : ℕ)
    → entry < w.conntracks.next
    → (w.conntracks.cell entry).conntrack_id ≡ ctid
    → IsWellFormed w
    → IsWellFormed (insert_conntrack w ctid entry)
unfolding insert_conntrack find_session find_conntrack
insert_conntrack-IsWellFormed w ctid entry lt id h = record {
  session_exists = h.session_exists;
  session_filed = h.session_filed;
  conntrack_exists =
      λ c q e. ground (arith, get-put w.conntrack_table ctid c entry, h.conntrack_exists c q);
  conntrack_filed =
      λ c q e. ground (arith, get-put w.conntrack_table ctid c entry, h.conntrack_filed c q);
  link_exists = h.link_exists;
  link_agrees = h.link_agrees;
}
