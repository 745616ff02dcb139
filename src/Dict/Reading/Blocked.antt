-- ===== src/Dict/Reading/Blocked.antt =====
-- One line that is read without its key keeps GetSessions from returning any session.
use packetd.Base.{
  ℕ, ◌^◌, ◌<◌, ◌≡◌, refl, Bool, true, false, some, List, [], ◌∷◌, ◌++◌, Option-cases, inl, inr, ◌⊎◌,
}
use packetd.Base.Text.{codes}
use packetd.Dict.Lines.{no_key, Entry, contains, parse_entry}
use packetd.Dict.Lines.Scanning.{has_space}
use packetd.Dict.Lines.RoundTrip.{line_of}
use packetd.Dict.Lines.Confusion.{IsNoKey, parse_entry-key_like}
use packetd.Dict.Reading.{
  Read, read, refused, panicked, then_read, Sessions, add_value, collect, parse_lines, get_table,
  get_sessions,
}
use packetd.Dict.Reading.Sessions.{uint32_key-cases}

-- The result is not a session table.
pub is_blocked {ℓ} : {A : Type ℓ} → Read A → Bool
is_blocked (read a) = false
is_blocked refused = true
is_blocked panicked = true

collect-keyless :
    (before after : List Entry) (entry : Entry) (m : Sessions)
    → entry.key ≡ no_key
    → is_blocked (collect m (before ++ (entry ∷ after))) ≡ true
unfolding collect is_blocked
collect-keyless [] after entry m h = rw (h, collect) refl
collect-keyless (first ∷ before) after entry m h = elim (uint32_key-cases first.key) [
  | inl (n, e) ↦
      rw (e, collect) (collect-keyless before after entry (add_value m n first.field first.value) h)
  | inr other ↦ rw (other m first (before ++ (entry ∷ after)) refl) refl
]

Read-cases {ℓ} : {A : Type ℓ} (r : Read A) → ((a : A) × (r ≡ read a)) ⊎ (is_blocked r ≡ true)
unfolding is_blocked
Read-cases (read a) = inl (a, refl)
Read-cases refused = inr refl
Read-cases panicked = inr refl

blocked-then {ℓ κ} :
    {A : Type ℓ} {B : Type κ} (r : Read A) (next : A → Read B)
    → is_blocked r ≡ true
    → is_blocked (then_read r next) ≡ true
unfolding is_blocked then_read
blocked-then (read a) next h = cc
blocked-then refused next h = refl
blocked-then panicked next h = refl

module _ (parse_mac parse_ip : List ℕ → List ℕ) (has_room : List ℕ → Bool) where
  -- The entries of the lines, with that of one line among them, unless reading ends before.
  lines-around :
      (before after : List (List ℕ)) (line : List ℕ) (entry : Entry)
      → parse_entry parse_mac parse_ip has_room line ≡ some entry
      → ((b : List Entry) × (a : List Entry) × (parse_lines parse_mac parse_ip has_room
              (before ++ (line ∷ after))
            ≡ read (b ++ (entry ∷ a))))
        ⊎ (is_blocked (parse_lines parse_mac parse_ip has_room (before ++ (line ∷ after))) ≡ true)
  unfolding parse_lines is_blocked then_read
  lines-around [] after line entry e =
      elim (Read-cases (parse_lines parse_mac parse_ip has_room after)) [
        | inl (a, q) ↦ inl ([], a, rw (e, q, parse_lines) refl)
        | inr q ↦ inr (rw (e, parse_lines) (blocked-then _ _ q))
      ]
  lines-around (first ∷ before) after line entry e =
      elim (Option-cases (parse_entry parse_mac parse_ip has_room first)) [
        | inl p ↦ inr (rw (p, parse_lines) refl)
        | inr (x, p) ↦ elim (lines-around before after line entry e) [
          | inl (b, a, q) ↦ inl (x ∷ b, a, rw (p, q, parse_lines) refl)
          | inr q ↦ inr (rw (p, parse_lines) (blocked-then _ _ q))
        ]
      ]

  -- If one line of the dictionary, with a key_int of 32 bits and words for its table and field,
  -- has a string that contains "key_", but no "table: ", no "field: " and no name of a kind of
  -- key, then GetSessions returns no session at all, whatever the other lines are.
  pub get_sessions-blocked :
      (before after : List (List ℕ)) (t : List ℕ) (n : ℕ) (f v : List ℕ)
      → has_space t ≡ false
      → has_space f ≡ false
      → n < 2 ^ 32
      → contains v (codes "table: ") ≡ false
      → contains v (codes "field: ") ≡ false
      → contains v (codes "key_") ≡ true
      → IsNoKey v
      → is_blocked (
          get_sessions parse_mac parse_ip has_room
            (some (before ++ (line_of t n f (codes "string:") v ∷ after))))
        ≡ true
  unfolding get_sessions get_table
  get_sessions-blocked before after t n f v ht hf hn vt vf vk h =
      let line = line_of t n f (codes "string:") v in
      let e = parse_entry-key_like parse_mac parse_ip has_room t n f v ht hf hn vt vf vk h in
      elim (lines-around before after line _ e) [
        | inl (b, a, q) ↦ rw (q, then_read) (collect-keyless b a _ [] refl)
        | inr q ↦ blocked-then _ (collect []) q
      ]
