-- ===== src/Dict/Reading.antt =====
-- services/dict/dict.go: what the readers of the dictionary make of its lines. That the file cannot
-- be opened or written is an input.
pub mod Sessions
pub mod Blocked
use packetd.Base.{
  ℕ, ◌≡◌, refl, sym, subst, String, Bool, true, false, Option, none, some, List, [], ◌∷◌,
  bytes_equal, bytes_equal_eq, bytes_equal_refl, if◌then◌else◌,
}
use packetd.Base.Integer.{ℤ}
use packetd.Base.Keys.{Key, nat_key}
use packetd.Base.Table.{Table, get, put}
use packetd.Dict.Lines.{
  DictKey, no_key, string_key, uint32_key, mac_key, ip_key, DictValue, Entry, parse_entry,
  string_value, int32_value, int64_value, mac_value, ip_value, bool_value, no_value,
}

-- How a reader ends: a result, an error, or a panic.
pub data Read {ℓ} (A : Type ℓ) : Type ℓ where
  read : A → Read A
  refused : Read A
  panicked : Read A

unfoldable pub then_read {ℓ κ} : {A : Type ℓ} {B : Type κ} → Read A → (A → Read B) → Read B
then_read (read a) next = next a
then_read refused next = refused
then_read panicked next = panicked

-- The getters of an entry's value by its type: `GetString`, `GetInt`, `GetInt64`, `GetBool`
unfoldable pub get_string : Entry → Read (List ℕ)
get_string entry = elim entry.value [ string_value s ↦ read s | _ ↦ refused ]

unfoldable pub get_int : Entry → Read ℤ
get_int entry = elim entry.value [ int32_value i ↦ read i | _ ↦ refused ]

unfoldable pub get_int64 : Entry → Read ℤ
get_int64 entry = elim entry.value [ int64_value i ↦ read i | _ ↦ refused ]

unfoldable pub get_bool : Entry → Read Bool
get_bool entry = elim entry.value [ bool_value b ↦ read b | _ ↦ refused ]

instance abbrev pub text_key : Key (List ℕ)
text_key = record {
  same = bytes_equal;
  same_iff =
      λ a b. (bytes_equal_eq a b, λ e. subst (λ c. bytes_equal a c ≡ true) e (bytes_equal_refl a));
}

abbrev pub Sessions : Type 0
Sessions = Table ℕ (Table (List ℕ) DictValue)

-- A nil inner map is made before it is written to.
abbrev pub inner_map : Option (Table (List ℕ) DictValue) → Table (List ℕ) DictValue
inner_map none = []
inner_map (some m) = m

unfoldable pub add_value : Sessions → ℕ → List ℕ → DictValue → Sessions
add_value m id field value = put m id (put (inner_map (get m id)) field value)

-- The loop of `GetSessions`
unfoldable pub collect : Sessions → List Entry → Read Sessions
unfolding add_value
collect m [] = read m
collect m (entry ∷ entries) = elim entry.key [
  | uint32_key id ↦ collect (add_value m id entry.field entry.value) entries
  | _ ↦ refused
]

-- The loop of `GetEntry`: the first entry of the field
unfoldable pub first_of : List Entry → List ℕ → Read Entry
first_of [] field = refused
first_of (entry ∷ entries) field =
    let rest = first_of entries field in if bytes_equal entry.field field then read entry else rest

module _ (parse_mac parse_ip : List ℕ → List ℕ) (has_room : List ℕ → Bool) where
  -- The loop of `GetDictionary` and `GetTable` over the lines
  unfoldable pub parse_lines : List (List ℕ) → Read (List Entry)
  unfolding parse_entry then_read
  parse_lines [] = read []
  parse_lines (line ∷ lines) = elim (parse_entry parse_mac parse_ip has_room line) [
    | none ↦ panicked
    | some entry ↦ then_read (parse_lines lines) (λ entries. read (entry ∷ entries))
  ]

  -- `GetDictionary` and `GetTable`, on the lines that the kernel returns, or none when the file
  -- cannot be opened or written
  unfoldable pub get_table : Option (List (List ℕ)) → Read (List Entry)
  unfolding parse_lines
  get_table none = refused
  get_table (some lines) = parse_lines lines

  -- `GetEntry`
  unfoldable pub get_entry : Option (List (List ℕ)) → List ℕ → Read Entry
  unfolding get_table then_read first_of
  get_entry lines field = then_read (get_table lines) (λ entries. first_of entries field)

  -- `GetSessions`
  unfoldable pub get_sessions : Option (List (List ℕ)) → Read Sessions
  unfolding get_table then_read collect
  get_sessions lines = then_read (get_table lines) (collect [])
