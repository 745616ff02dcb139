-- ===== src/Dispatch/Attachments.antt =====
-- services/dispatch/session.go: attachments of a session that plugins also write to the dictionary.
pub mod Agreement
use packetd.Base.{
  ℕ, String, Bool, true, false, Option, none, some, List, [], ◌∷◌, ◌==◌, ◌&&◌, if◌then◌else◌,
}
use packetd.Base.Keys.{string_key}
use packetd.Base.Heap.{modify}
use packetd.Dispatch.State.{
  World, Value, nil, text, number, flag, DictCall, add_session_entry, delete_session,
}
use packetd.Dispatch.Session.{put_attachment}

-- `session.PutAttachment` for a session that a pointer addresses
unfoldable pub attach : World → ℕ → String → Value → World
unfolding put_attachment
attach w sess name value = record w {
  sessions = modify w.sessions sess (λ s. put_attachment s name value);
}

-- `AddEntry` of services/dict returns early for the empty text.
unfoldable pub is_written : Value → Bool
is_written (text String.[]) = false
is_written _ = true

-- The value that the calls, the latest first, leave in the dictionary.
unfoldable pub entry_value : List DictCall → ℕ → String → Option Value
unfolding is_written
entry_value [] ctid field = none
entry_value (add_session_entry c name value ∷ calls) ctid field =
    let before = entry_value calls ctid field in
    if (c == ctid && string_key.same name field) && is_written value then some value else before
entry_value (delete_session c ∷ calls) ctid field =
    let before = entry_value calls ctid field in if c == ctid then none else before
