-- ===== src/Dict/Cleanup/Ageing.antt =====
-- How the cleanup table ages, and that a session that stays in the dictionary is removed in time.
use packetd.Base.{
  ℕ, ◌+◌, ◌≤◌, ◌<◌, ◌≡◌, refl, sym, ◌∙◌, true, false, Option, none, some, List, [], ◌∷◌,
  if◌then◌else◌, arith, Option-cases, Bool-cases, inl, inr, ==_iff,
}
use packetd.Base.Keys.{nat_key}
use packetd.Base.Table.{get, get-put, get-remove}
use packetd.Base.Sweep.{unless_stale, get-sweep}
use packetd.Dispatch.SessionTable.Cleaning.{asked_delete}
use packetd.Dict.Cleanup.{
  CleanupState, clean_max_seconds, split_lines, parse_uint, is_overdue, clean_session_id,
  clean_item, clean_items, clean_dictionary,
}
use packetd.Dict.Cleanup.Lines.{lone-split_lines}
use packetd.Dict.Cleanup.Removal.{AreWords, names_id, is_listed, is_due, clean_dictionary-asks}

get-clean_dictionary :
    (currtime : ℕ) (out : List ℕ) (st : CleanupState) (j : ℕ)
    → get (clean_dictionary currtime (some out) st).cleanup_table j
      ≡ unless_stale
          (is_overdue currtime)
          (get (clean_items currtime st (split_lines out)).cleanup_table j)
unfolding clean_dictionary
get-clean_dictionary currtime out st j =
    rw (lone-split_lines out, clean_dictionary)
      (get-sweep (is_overdue currtime) (clean_items currtime st (split_lines out)).cleanup_table j)

not_overdue :
    (currtime t : ℕ) (o : Option ℕ)
    → unless_stale (is_overdue currtime) o ≡ some t
    → currtime ≤ t + clean_max_seconds
unfolding is_overdue
not_overdue currtime t none h = cc
not_overdue currtime t (some s) h = ground arith

-- After a cleaning no id of the table is older than clean_max_seconds.
pub clean_dictionary-ages :
    (currtime : ℕ) (out : List ℕ) (st : CleanupState) (j t : ℕ)
    → get (clean_dictionary currtime (some out) st).cleanup_table j ≡ some t
    → currtime ≤ t + clean_max_seconds
clean_dictionary-ages currtime out st j t h =
    not_overdue currtime t _ (sym (get-clean_dictionary currtime out st j) ∙ h)

-- An id that is known and not overdue keeps its time.
kept-clean_session_id :
    (currtime : ℕ) (st : CleanupState) (idx j t : ℕ)
    → get st.cleanup_table j ≡ some t
    → is_overdue currtime t ≡ false
    → get (clean_session_id currtime st idx).cleanup_table j ≡ some t
unfolding clean_session_id
kept-clean_session_id currtime st idx j t e f = elim (Option-cases (get st.cleanup_table idx)) [
  | inl q ↦
      rw (q, clean_session_id)
        (ground (arith, e, q, ==_iff idx j, get-put st.cleanup_table idx j currtime))
  | inr (s, q) ↦ elim (Bool-cases (is_overdue currtime s)) [
    | inl g ↦
        rw (q, g, clean_session_id)
          (ground (arith, e, f, g, q, ==_iff idx j, get-remove st.cleanup_table idx j))
    | inr g ↦ rw (q, g, clean_session_id) e
  ]
]

kept-clean_item :
    (currtime : ℕ) (st : CleanupState) (o : Option ℕ) (j t : ℕ)
    → get st.cleanup_table j ≡ some t
    → is_overdue currtime t ≡ false
    → get (clean_item currtime st o).cleanup_table j ≡ some t
unfolding clean_item
kept-clean_item currtime st none j t e f = e
kept-clean_item currtime st (some idx) j t e f = kept-clean_session_id currtime st idx j t e f

kept-clean_items :
    (currtime : ℕ) (items : List (List ℕ)) (st : CleanupState) (j t : ℕ)
    → get st.cleanup_table j ≡ some t
    → is_overdue currtime t ≡ false
    → get (clean_items currtime st items).cleanup_table j ≡ some t
unfolding clean_items
kept-clean_items currtime [] st j t e f = e
kept-clean_items currtime (item ∷ items) st j t e f =
    kept-clean_items currtime items (clean_item currtime st (parse_uint item)) j t
      (kept-clean_item currtime st (parse_uint item) j t e f) f

-- An unknown id is entered when a line names it, and stays unknown otherwise.
new-clean_item :
    (currtime : ℕ) (st : CleanupState) (o : Option ℕ) (j : ℕ)
    → get st.cleanup_table j ≡ none
    → get (clean_item currtime st o).cleanup_table j
      ≡ (if names_id o j then some currtime else none)
unfolding clean_item clean_session_id
new-clean_item currtime st none j e = e
new-clean_item currtime st (some idx) j e = elim (Option-cases (get st.cleanup_table idx)) [
  | inl q ↦
      rw (q, clean_session_id)
        (ground (arith, e, q, ==_iff idx j, get-put st.cleanup_table idx j currtime))
  | inr (s, q) ↦ elim (Bool-cases (is_overdue currtime s)) [
    | inl g ↦
        rw (q, g, clean_session_id)
          (ground (arith, e, q, ==_iff idx j, get-remove st.cleanup_table idx j))
    | inr g ↦ rw (q, g, clean_session_id) (ground (arith, e, q, ==_iff idx j))
  ]
]

seen-clean_items :
    (currtime : ℕ) (items : List (List ℕ)) (st : CleanupState) (j : ℕ)
    → get st.cleanup_table j ≡ none
    → is_listed items j ≡ true
    → get (clean_items currtime st items).cleanup_table j ≡ some currtime
unfolding clean_items is_overdue
seen-clean_items currtime [] st j e l = cc
seen-clean_items currtime (item ∷ items) st j e l =
    let o = parse_uint item in
    let first = new-clean_item currtime st o j e in
    elim (Bool-cases (names_id o j)) [
      | inl q ↦
          kept-clean_items currtime items (clean_item currtime st o) j currtime (first ∙ rw q refl)
            (ground arith)
      | inr q ↦
          seen-clean_items currtime items (clean_item currtime st o) j (first ∙ rw q refl)
            (ground (arith, l, q))
    ]

-- A session that a cleaning finds in the dictionary and does not know, and that the next cleaning,
-- more than clean_max_seconds later, still finds there among ids that are words of 32 bits, is
-- removed from the dictionary by the second one.
pub clean_dictionary-twice :
    (first second : ℕ) (out later_out : List ℕ) (st : CleanupState) (j : ℕ)
    → AreWords (split_lines later_out)
    → get st.cleanup_table j ≡ none
    → is_listed (split_lines out) j ≡ true
    → is_listed (split_lines later_out) j ≡ true
    → first + clean_max_seconds < second
    → asked_delete j
        (clean_dictionary second (some later_out) (clean_dictionary first (some out) st)).calls
      ≡ true
unfolding is_overdue
clean_dictionary-twice first second out later_out st j words e l l' late =
    let st' = clean_dictionary first (some out) st in
    let entered : get st'.cleanup_table j ≡ some first =
      get-clean_dictionary first out st j
      ∙ rw (seen-clean_items first (split_lines out) st j e l) (ground arith) in
    let due : is_due second st' j ≡ true = rw entered (ground (arith, late)) in
    (clean_dictionary-asks second later_out st' j words).0 ∙ ground (arith, l', due)
