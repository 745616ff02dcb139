-- ===== src/Dict/Cleanup/Removal.antt =====
-- Which sessions the cleaning removes from the dictionary.
use packetd.Base.{
  ltb, ◌+◌, ℕ, ◌^◌, ◌<◌, ◌≡◌, refl, ◌∙◌, Bool, false, not, ◌&&◌, ◌||◌, Option, none, some, List, [],
  ◌∷◌, ◌==◌, arith, Option-cases, Bool-cases, inl, inr, ==_iff,
}
use packetd.Base.Keys.{nat_key}
use packetd.Base.Table.{get, get-put, get-remove}
use packetd.Base.Sweep.{is_stale}
use packetd.Dispatch.SessionTable.Cleaning.{asked_delete}
use packetd.Dict.Cleanup.Lines.{lone-split_lines}
use packetd.Dict.Cleanup.{
  CleanupState, clean_max_seconds, split_lines, parse_uint, is_overdue, clean_session_id,
  clean_item, clean_items, clean_dictionary,
}

-- The id is one of those that the lines name.
abbrev pub names_id : Option ℕ → ℕ → Bool
names_id none idx = false
names_id (some i) idx = i == idx

abbrev pub is_listed : List (List ℕ) → ℕ → Bool
is_listed [] idx = false
is_listed (item ∷ items) idx = names_id (parse_uint item) idx || is_listed items idx

-- Every id that the lines name is a word of 32 bits, as the ids of sessions are.
pub data AreWords : List (List ℕ) → Type 0 where
  no_lines : AreWords []
  one_line :
      {item : List ℕ} {items : List (List ℕ)}
      → ((idx : ℕ) → parse_uint item ≡ some idx → idx < 2 ^ 32)
      → AreWords items
      → AreWords (item ∷ items)

-- The table has held the id for more than clean_max_seconds.
abbrev pub is_due : ℕ → CleanupState → ℕ → Bool
is_due currtime st idx =
    is_stale (λ t. ltb (t + clean_max_seconds) currtime) (get st.cleanup_table idx)

asked-clean_session_id :
    (currtime : ℕ) (st : CleanupState) (idx j : ℕ)
    → idx < 2 ^ 32
    → asked_delete j (clean_session_id currtime st idx).calls
      ≡ (asked_delete j st.calls || ((idx == j) && is_due currtime st j))
unfolding clean_session_id is_overdue asked_delete
asked-clean_session_id currtime st idx j h = elim (Option-cases (get st.cleanup_table idx)) [
  | inl e ↦ rw (e, clean_session_id) (ground (arith, e, ==_iff idx j))
  | inr (t, e) ↦ ground (arith, e, ==_iff idx j, h)
]

-- A visit leaves an id not due, and tells nothing of another one.
due-clean_session_id :
    (currtime : ℕ) (st : CleanupState) (idx j : ℕ)
    → is_due currtime (clean_session_id currtime st idx) j
      ≡ (is_due currtime st j && not (idx == j))
unfolding clean_session_id is_overdue
due-clean_session_id currtime st idx j = elim (Option-cases (get st.cleanup_table idx)) [
  | inl e ↦
      rw (e, clean_session_id)
        (ground (arith, e, ==_iff idx j, get-put st.cleanup_table idx j currtime))
  | inr (t, e) ↦ elim (Bool-cases (is_overdue currtime t)) [
    | inl f ↦
        rw (e, f, clean_session_id)
          (ground (arith, e, f, ==_iff idx j, get-remove st.cleanup_table idx j))
    | inr f ↦ rw (e, f, clean_session_id) (ground (arith, e, f, ==_iff idx j))
  ]
]

asked-clean_item :
    (currtime : ℕ) (st : CleanupState) (o : Option ℕ) (j : ℕ)
    → ((idx : ℕ) → o ≡ some idx → idx < 2 ^ 32)
    → asked_delete j (clean_item currtime st o).calls
      ≡ (asked_delete j st.calls || (names_id o j && is_due currtime st j))
unfolding clean_item
asked-clean_item currtime st none j word = ground arith
asked-clean_item currtime st (some idx) j word =
    asked-clean_session_id currtime st idx j (word idx refl)

due-clean_item :
    (currtime : ℕ) (st : CleanupState) (o : Option ℕ) (j : ℕ)
    → is_due currtime (clean_item currtime st o) j ≡ (is_due currtime st j && not (names_id o j))
unfolding clean_item
due-clean_item currtime st none j = ground arith
due-clean_item currtime st (some idx) j = due-clean_session_id currtime st idx j

bool_step :
    (asked first rest due : Bool)
    → ((asked || (first && due)) || (rest && (due && not first)))
      ≡ (asked || ((first || rest) && due))
bool_step asked first rest due = ground arith

asked-clean_items :
    (currtime : ℕ) (items : List (List ℕ)) (st : CleanupState) (j : ℕ)
    → AreWords items
    → asked_delete j (clean_items currtime st items).calls
      ≡ (asked_delete j st.calls || (is_listed items j && is_due currtime st j))
unfolding clean_items
asked-clean_items currtime [] st j h = ground arith
asked-clean_items currtime (item ∷ items) st j (one_line word h) =
    let o = parse_uint item in
    asked-clean_items currtime items (clean_item currtime st o) j h
    ∙ rw (asked-clean_item currtime st o j word, due-clean_item currtime st o j)
        (bool_step _ (names_id o j) (is_listed items j) (is_due currtime st j))

-- When the command succeeds, and the ids that it lists are words of 32 bits, cleanDictionary asks
-- for the removal of exactly the listed ids that the table has held for more than
-- clean_max_seconds, beside the ids that were asked for before; when the command fails it changes
-- nothing.
pub clean_dictionary-asks :
    (currtime : ℕ) (out : List ℕ) (st : CleanupState) (j : ℕ)
    → AreWords (split_lines out)
    → (asked_delete j (clean_dictionary currtime (some out) st).calls
        ≡ (asked_delete j st.calls || (is_listed (split_lines out) j && is_due currtime st j)))
      × (clean_dictionary currtime none st ≡ st)
unfolding clean_dictionary
clean_dictionary-asks currtime out st j h = (
  rw (lone-split_lines out, clean_dictionary) (asked-clean_items currtime (split_lines out) st j h),
  refl,
)
