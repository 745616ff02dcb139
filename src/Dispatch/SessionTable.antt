-- ===== src/Dispatch/SessionTable.antt =====
-- services/dispatch/session.go: the table of sessions by conntrack id. A session is its address in
-- the heap of sessions, so two sessions are the same object when their addresses are equal.
pub mod Removal
pub mod Cleaning
pub mod Index
use packetd.Base.{
  ℕ, ◌+◌, ◌-◌, ◌*◌, ◌%◌, ◌^◌, String, Bool, true, false, Option, none, some, List, [], ◌∷◌, ◌==◌,
  leb, ltb, if◌then◌else◌,
}
use packetd.Base.Keys.{nat_key}
use packetd.Base.Table.{Table, get, put, remove, keys}
use packetd.Base.Heap.{Heap}
use packetd.Overseer.{add_counter}
use packetd.Dispatch.State.{
  Session, World, Value, number, DictCall, add_session_entry, delete_session, second,
}
use packetd.Dispatch.Session.{
  get_conntrack_id, get_session_id, get_conntrack_confirmed, get_last_activity,
}

-- `dict.AddSessionEntry` and `dict.DeleteSession`
abbrev pub dict_add : World → ℕ → String → Value → World
dict_add w ctid field value = record w { dict = add_session_entry ctid field value ∷ w.dict }

abbrev pub dict_delete : World → ℕ → World
dict_delete w ctid = record w { dict = delete_session ctid ∷ w.dict }

-- The test `found && sess == sessInTable`.
unfoldable pub owns_entry : World → ℕ → Bool
unfolding get_conntrack_id
owns_entry w sess = elim (get w.session_table (get_conntrack_id (w.sessions.cell sess))) [
  | none ↦ false
  | some in_table ↦ sess == in_table
]

-- `removeFromSessionTable`
unfoldable pub remove_from_session_table : World → ℕ → World
unfolding owns_entry
remove_from_session_table w sess =
    if owns_entry w sess
    then record w {
      session_table = remove w.session_table (get_conntrack_id (w.sessions.cell sess));
    }
    else w

-- `flushDict`
unfoldable pub flush_dict : World → ℕ → World
unfolding owns_entry
flush_dict w sess =
    if owns_entry w sess then dict_delete w (get_conntrack_id (w.sessions.cell sess)) else w

-- `sessionIndex++` on an `int64`, and the reset of a value below zero.
unfoldable pub next_index : ℕ → ℕ
next_index index = let bumped = (index + 1) % 2 ^ 64 in if leb (2 ^ 63) bumped then 1 else bumped

-- `nextSessionID`
unfoldable pub next_session_id : World → World × ℕ
unfolding next_index
next_session_id w = (record w { session_index = next_index w.session_index }, w.session_index)

-- `findSession`: `none` is nil.
unfoldable pub find_session : World → ℕ → Option ℕ
find_session w ctid = get w.session_table ctid

-- `insertSessionTable`. The `delete` of an older entry before the write is part of `put`.
unfoldable pub insert_session_table : World → ℕ → ℕ → World
unfolding get_conntrack_id get_session_id
insert_session_table w ctid sess =
    let s = w.sessions.cell sess in
    dict_add (record w { session_table = put w.session_table ctid sess }) (get_conntrack_id s)
      "session_id" (number (get_session_id s))

-- The age at which `cleanSessionTable` drops a session, in nanoseconds.
unfoldable pub is_stale_session : Session → ℕ → Bool
unfolding get_conntrack_confirmed get_last_activity
is_stale_session s now =
    if get_conntrack_confirmed s
    then ltb (10000 * second) (now - get_last_activity s)
    else ltb (60 * second) (now - get_last_activity s)

-- The body of the loop of `cleanSessionTable`, for a key that is still in the table.
unfoldable pub drop_session : World → ℕ → ℕ → World
unfolding get_conntrack_confirmed
drop_session w ctid sess =
    let counted =
      if get_conntrack_confirmed (w.sessions.cell sess)
      then w
      else record w { counters = (add_counter w.counters "unconfirmed_session_removed" 1).0 } in
    record (dict_delete counted ctid) { session_table = remove w.session_table ctid }

unfoldable pub clean_session : ℕ → World → ℕ → World
unfolding is_stale_session drop_session
clean_session now w ctid = elim (get w.session_table ctid) [
  | none ↦ w
  | some sess ↦ if is_stale_session (w.sessions.cell sess) now then drop_session w ctid sess else w
]

unfoldable pub clean_sessions : ℕ → World → List ℕ → World
unfolding clean_session
clean_sessions now w [] = w
clean_sessions now w (ctid ∷ order) = clean_sessions now (clean_session now w ctid) order

-- `cleanSessionTable`, which visits the keys in the order of the table.
unfoldable pub clean_session_table : World → ℕ → World
unfolding clean_sessions
clean_session_table w now = clean_sessions now w (keys w.session_table)
