-- ===== src/Dispatch/ConntrackTable/Cleaning.antt =====
-- What `cleanConntrackTable` and the copy of the table hold.
use packetd.Base.{
  ℕ, ◌≡◌, refl, Bool, true, false, ◌&&◌, Option, none, some, List, [], ◌∷◌, ◌==◌, if◌then◌else◌,
  arith, Option-cases, inl, inr,
}
use packetd.Base.Keys.{nat_key}
use packetd.Base.Table.{get, keys, has, get-remove, get-put, has-keys, Table}
use packetd.Dispatch.State.{World}
use packetd.Dispatch.SessionTable.{flush_dict, remove_from_session_table}
use packetd.Dispatch.ConntrackTable.{
  find_conntrack, is_stale_conntrack, flush_session_of, clean_conntrack, clean_conntracks,
  clean_conntrack_table, copy_entries, get_conntrack_table,
}

-- The entry of a conntrack id had no activity for more than 10000 seconds.
abbrev pub has_stale_entry : World → ℕ → ℕ → Bool
has_stale_entry w now ctid = elim (find_conntrack w ctid) [
  | none ↦ false
  | some entry ↦ is_stale_conntrack (w.conntracks.cell entry) now
]

-- Session work leaves the conntrack side alone.
pub conntracks-flush_session_of :
    (w : World) (sess : Option ℕ)
    → ((flush_session_of w sess).conntrack_table ≡ w.conntrack_table)
      × ((flush_session_of w sess).conntracks ≡ w.conntracks)
      × ((flush_session_of w sess).sessions ≡ w.sessions)
unfolding flush_dict remove_from_session_table
conntracks-flush_session_of w none = (refl, refl, refl)
conntracks-flush_session_of w (some sess) = ground arith

heaps-clean_conntrack :
    (now : ℕ) (w : World) (c : ℕ)
    → ((clean_conntrack now w c).conntracks ≡ w.conntracks)
      × ((clean_conntrack now w c).sessions ≡ w.sessions)
unfolding clean_conntrack flush_dict remove_from_session_table
heaps-clean_conntrack now w c = ground arith

find-clean_conntrack :
    (now : ℕ) (w : World) (c ctid : ℕ)
    → find_conntrack (clean_conntrack now w c) ctid
      ≡ (if c == ctid && has_stale_entry w now ctid then none else find_conntrack w ctid)
unfolding clean_conntrack find_conntrack flush_dict remove_from_session_table
find-clean_conntrack now w c ctid = ground (arith, get-remove w.conntrack_table c ctid)

pub clean_conntracks_lem :
    (now : ℕ) (w : World) (order : List ℕ) (ctid : ℕ)
    → (find_conntrack (clean_conntracks now w order) ctid
        ≡ (if has order ctid && has_stale_entry w now ctid then none else find_conntrack w ctid))
      × ((clean_conntracks now w order).conntracks ≡ w.conntracks)
      × ((clean_conntracks now w order).sessions ≡ w.sessions)
unfolding clean_conntracks has
clean_conntracks_lem now w [] ctid = (refl, refl, refl)
clean_conntracks_lem now w (c ∷ order) ctid = ground (
  arith,
  clean_conntracks_lem now (clean_conntrack now w c) order ctid,
  find-clean_conntrack now w c ctid,
  heaps-clean_conntrack now w c,
)

stale-has-keys :
    (w : World) (now ctid : ℕ)
    → has_stale_entry w now ctid ≡ true
    → has (keys w.conntrack_table) ctid ≡ true
unfolding find_conntrack
stale-has-keys w now ctid h = elim (Option-cases (get w.conntrack_table ctid)) [
  | inl e ↦ ground arith
  | inr (entry, e) ↦ has-keys w.conntrack_table ctid entry e
]

-- cleanConntrackTable removes the entry of a conntrack id exactly when it had no activity for more
-- than 10000 seconds, and changes no conntrack object and no session object.
pub clean_conntrack_table_lem :
    (w : World) (now ctid : ℕ)
    → (find_conntrack (clean_conntrack_table w now) ctid
        ≡ (if has_stale_entry w now ctid then none else find_conntrack w ctid))
      × ((clean_conntrack_table w now).conntracks ≡ w.conntracks)
      × ((clean_conntrack_table w now).sessions ≡ w.sessions)
unfolding clean_conntrack_table
clean_conntrack_table_lem w now ctid =
    ground
      (arith, clean_conntracks_lem now w (keys w.conntrack_table) ctid, stale-has-keys w now ctid)

get-copy_entries : (table : Table ℕ ℕ) (ctid : ℕ) → get (copy_entries table) ctid ≡ get table ctid
unfolding copy_entries get
get-copy_entries [] ctid = refl
get-copy_entries ((c, entry) ∷ table) ctid =
    ground (arith, get-put (copy_entries table) c ctid entry, get-copy_entries table ctid)

-- The copy returned by GetConntrackTable has for every conntrack id the entry that findConntrack
-- returns.
pub get-get_conntrack_table :
    (w : World) (ctid : ℕ) → get (get_conntrack_table w) ctid ≡ find_conntrack w ctid
unfolding get_conntrack_table find_conntrack
get-get_conntrack_table w ctid = get-copy_entries w.conntrack_table ctid
