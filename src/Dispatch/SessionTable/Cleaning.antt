-- ===== src/Dispatch/SessionTable/Cleaning.antt =====
-- What `cleanSessionTable` keeps, and its loop in any order of visits.
use packetd.Base.{
  ℕ, zero, suc, ◌+◌, ltb, ◌≡◌, refl, ◌∙◌, Bool, true, false, ◌&&◌, ◌||◌, none, some, List, [], ◌∷◌,
  ◌==◌, if◌then◌else◌, arith, Option-cases, inl, inr,
}
use packetd.Base.Keys.{nat_key}
use packetd.Base.Table.{get, keys, has, get-remove, has-keys}
use packetd.Dispatch.State.{World, Session, DictCall, add_session_entry, delete_session}
use packetd.Dispatch.Session.{get_conntrack_confirmed, get_last_activity}
use packetd.Dispatch.SessionTable.{
  find_session, is_stale_session, clean_session, clean_sessions, clean_session_table,
}

-- The dictionary was asked to delete the entries of a conntrack id.
unfoldable pub asked_delete : ℕ → List DictCall → Bool
asked_delete ctid [] = false
asked_delete ctid (add_session_entry c field value ∷ calls) = asked_delete ctid calls
asked_delete ctid (delete_session c ∷ calls) = c == ctid || asked_delete ctid calls

-- A session whose last activity is more than its time ago: 10000 seconds of nanoseconds if it is
-- confirmed, and 60 if it is not.
abbrev pub is_idle : Session → ℕ → Bool
is_idle s now = elim s.conntrack_confirmed [
  | zero ↦ ltb (s.last_activity_time + 60000000000) now
  | suc n ↦ ltb (s.last_activity_time + 10000000000000) now
]

is_stale_session_lem : (s : Session) (now : ℕ) → is_stale_session s now ≡ is_idle s now
unfolding is_stale_session get_conntrack_confirmed get_last_activity
is_stale_session_lem s now = ground arith

-- The entry of a conntrack id points at such a session.
abbrev pub has_stale : World → ℕ → ℕ → Bool
has_stale w now ctid = elim (find_session w ctid) [
  | none ↦ false
  | some sess ↦ is_idle (w.sessions.cell sess) now
]

sessions-clean_session :
    (now : ℕ) (w : World) (c : ℕ) → (clean_session now w c).sessions ≡ w.sessions
unfolding clean_session
sessions-clean_session now w c = ground arith

find-clean_session :
    (now : ℕ) (w : World) (c ctid : ℕ)
    → find_session (clean_session now w c) ctid
      ≡ (if c == ctid && has_stale w now ctid then none else find_session w ctid)
unfolding clean_session find_session
find-clean_session now w c ctid = elim (Option-cases (get w.session_table c)) [
  | inl e ↦ ground (arith, e)
  | inr (sess, e) ↦
      ground (
        arith,
        e,
        get-remove w.session_table c ctid,
        is_stale_session_lem (w.sessions.cell sess) now,
      )
]

asked-clean_session :
    (now : ℕ) (w : World) (c ctid : ℕ)
    → asked_delete ctid (clean_session now w c).dict
      ≡ (asked_delete ctid w.dict || (c == ctid && has_stale w now ctid))
unfolding clean_session find_session asked_delete
asked-clean_session now w c ctid = elim (Option-cases (get w.session_table c)) [
  | inl e ↦ ground (arith, e)
  | inr (sess, e) ↦ ground (arith, e, is_stale_session_lem (w.sessions.cell sess) now)
]

pub sessions-clean_sessions :
    (now : ℕ) (w : World) (order : List ℕ) → (clean_sessions now w order).sessions ≡ w.sessions
unfolding clean_sessions
sessions-clean_sessions now w [] = refl
sessions-clean_sessions now w (c ∷ order) =
    sessions-clean_sessions now (clean_session now w c) order ∙ sessions-clean_session now w c

-- For any order of visits, an entry goes exactly when it is visited and stale; and the dictionary
-- is asked to delete the entries of the ids that go, and of no others.
pub clean_sessions_lem :
    (now : ℕ) (w : World) (order : List ℕ) (ctid : ℕ)
    → (find_session (clean_sessions now w order) ctid
        ≡ (if has order ctid && has_stale w now ctid then none else find_session w ctid))
      × (asked_delete ctid (clean_sessions now w order).dict
          ≡ (asked_delete ctid w.dict || (has order ctid && has_stale w now ctid)))
unfolding clean_sessions has
clean_sessions_lem now w [] ctid = (refl, ground arith)
clean_sessions_lem now w (c ∷ order) ctid = ground (
  arith,
  clean_sessions_lem now (clean_session now w c) order ctid,
  find-clean_session now w c ctid,
  asked-clean_session now w c ctid,
  sessions-clean_session now w c,
)

stale-has-keys :
    (w : World) (now ctid : ℕ)
    → has_stale w now ctid ≡ true
    → has (keys w.session_table) ctid ≡ true
unfolding find_session
stale-has-keys w now ctid h = elim (Option-cases (get w.session_table ctid)) [
  | inl e ↦ ground arith
  | inr (sess, e) ↦ has-keys w.session_table ctid sess e
]

-- cleanSessionTable removes the entry of a conntrack id exactly when it points at a session
-- whose last activity is more than 10000 seconds ago if it is confirmed, and more than 60 seconds
-- ago if it is not. It asks the dictionary to delete the entries of these ids and of no others, and changes no
-- session object.
pub clean_session_table_lem :
    (w : World) (now ctid : ℕ)
    → (find_session (clean_session_table w now) ctid
        ≡ (if has_stale w now ctid then none else find_session w ctid))
      × (asked_delete ctid (clean_session_table w now).dict
          ≡ (asked_delete ctid w.dict || has_stale w now ctid))
      × ((clean_session_table w now).sessions ≡ w.sessions)
unfolding clean_session_table find_session
clean_session_table_lem w now ctid = ground (
  arith,
  clean_sessions_lem now w (keys w.session_table) ctid,
  sessions-clean_sessions now w (keys w.session_table),
  stale-has-keys w now ctid,
)
