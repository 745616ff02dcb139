-- ===== src/Dict/Cleanup.antt =====
-- services/dict/dict.go: the periodic removal of sessions that the program never saw end.
pub mod Lines
pub mod Removal
pub mod Ageing
use packetd.Base.{
  ℕ, ◌+◌, ◌-◌, ◌%◌, ◌^◌, String, Bool, true, false, Option, none, some, List, [], ◌∷◌, ◌==◌, leb,
  ltb, bytes_equal, ◌&&◌, if◌then◌else◌,
}
use packetd.Base.Keys.{nat_key}
use packetd.Base.Table.{Table, get, put, remove}
use packetd.Base.Sweep.{sweep}
use packetd.Base.Text.{digits}
use packetd.Dispatch.State.{DictCall, delete_session}

-- `cleanupTable`, from a session's id to the second when it was first seen, and the calls that
-- change the dictionary, the latest first.
pub record CleanupState : Type 0 where
  pub cleanup_table : Table ℕ ℕ
  pub calls : List DictCall

abbrev pub clean_max_seconds : ℕ
clean_max_seconds = 3600

-- `strings.Split(text, "\n")`: the pieces between newlines, at least one.
abbrev pub onto_first : ℕ → List (List ℕ) → List (List ℕ)
onto_first c [] = (c ∷ []) ∷ []
onto_first c (piece ∷ pieces) = (c ∷ piece) ∷ pieces

unfoldable pub split_lines : List ℕ → List (List ℕ)
split_lines [] = [] ∷ []
split_lines (c ∷ cs) =
    let pieces = split_lines cs in if c == b'\n' then [] ∷ pieces else onto_first c pieces

-- The early return for a list of one piece that is a newline.
abbrev pub is_lone_newline : List (List ℕ) → Bool
is_lone_newline [] = false
is_lone_newline (piece ∷ []) = bytes_equal piece (b'\n' ∷ [])
is_lone_newline (piece ∷ next ∷ pieces) = false

-- `strconv.ParseUint(item, 10, 64)`
abbrev pub bounded : Option ℕ → Option ℕ
bounded none = none
bounded (some n) = if leb n (2 ^ 64 - 1) then some n else none

unfoldable pub parse_uint : List ℕ → Option ℕ
unfolding digits
parse_uint item = bounded (digits item)

-- The test `currtime > lasttime+cleanMaxSeconds`
unfoldable pub is_overdue : ℕ → ℕ → Bool
is_overdue currtime lasttime = ltb (lasttime + clean_max_seconds) currtime

-- The first loop, for an id in the dictionary
unfoldable pub clean_session_id : ℕ → CleanupState → ℕ → CleanupState
unfolding is_overdue
clean_session_id currtime st idx = elim (get st.cleanup_table idx) [
  | none ↦ record st { cleanup_table = put st.cleanup_table idx currtime }
  | some lasttime ↦
      if is_overdue currtime lasttime
      then record {
        cleanup_table = remove st.cleanup_table idx;
        calls = delete_session (idx % 2 ^ 32) ∷ st.calls;
      }
      else st
]

-- A line that is no number is skipped.
unfoldable pub clean_item : ℕ → CleanupState → Option ℕ → CleanupState
unfolding clean_session_id
clean_item currtime st none = st
clean_item currtime st (some idx) = clean_session_id currtime st idx

unfoldable pub clean_items : ℕ → CleanupState → List (List ℕ) → CleanupState
unfolding clean_item parse_uint
clean_items currtime st [] = st
clean_items currtime st (item ∷ items) =
    clean_items currtime (clean_item currtime st (parse_uint item)) items

-- `cleanDictionary`, on the output of the command that lists the ids, or none when it fails. The
-- counters are only logged.
unfoldable pub clean_dictionary : ℕ → Option (List ℕ) → CleanupState → CleanupState
unfolding split_lines clean_items is_overdue
clean_dictionary currtime none st = st
clean_dictionary currtime (some out) st =
    let list = split_lines out in
    let cleaned = clean_items currtime st list in
    if is_lone_newline list
    then st
    else record cleaned { cleanup_table = sweep (is_overdue currtime) cleaned.cleanup_table }
