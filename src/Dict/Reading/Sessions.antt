-- ===== src/Dict/Reading/Sessions.antt =====
-- The session table that GetSessions builds, against the last entry of each field.
use packetd.Base.{
  ℕ, ◌≡◌, refl, sym, ap, ◌∙◌, Bool, false, ◌&&◌, Option, some, List, [], ◌∷◌, ◌==◌, ◌⊎◌,
  if◌then◌else◌, arith, inl, inr, bytes_equal,
}
use packetd.Base.Keys.{nat_key}
use packetd.Base.Table.{get, put, get-put}
use packetd.Dict.Lines.{DictKey, no_key, string_key, uint32_key, mac_key, ip_key, DictValue, Entry}
use packetd.Dict.Reading.{read, refused, text_key, Sessions, inner_map, add_value, collect}

-- m[id][field]
abbrev pub value_in : Sessions → ℕ → List ℕ → Option DictValue
value_in m id field = get (inner_map (get m id)) field

abbrev pub is_key : DictKey → ℕ → Bool
is_key (uint32_key k) id = k == id
is_key _ id = false

-- The value of the last entry with this key and field, or what was there before
abbrev pub last_value : List Entry → ℕ → List ℕ → Option DictValue → Option DictValue
last_value [] id field before = before
last_value (entry ∷ entries) id field before =
    last_value entries id field
      (if is_key entry.key id && bytes_equal entry.field field then some entry.value else before)

value_in-add_value :
    (m : Sessions) (id j : ℕ) (field f : List ℕ) (value : DictValue)
    → value_in (add_value m id field value) j f
      ≡ (if (id == j) && bytes_equal field f then some value else value_in m j f)
unfolding add_value
value_in-add_value m id j field f value = ground (
  arith,
  get-put m id j (put (inner_map (get m id)) field value),
  get-put (inner_map (get m id)) field f value,
  nat_key.same_iff id j,
)

pub uint32_key-cases :
    (k : DictKey)
    → ((n : ℕ) × (k ≡ uint32_key n))
      ⊎ ((m : Sessions) (entry : Entry) (entries : List Entry)
          → entry.key ≡ k
          → collect m (entry ∷ entries) ≡ refused)
unfolding collect
uint32_key-cases (uint32_key n) = inl (n, refl)
uint32_key-cases no_key = inr (λ m entry entries e. rw (e, collect) refl)
uint32_key-cases (string_key s) = inr (λ m entry entries e. rw (e, collect) refl)
uint32_key-cases (mac_key s) = inr (λ m entry entries e. rw (e, collect) refl)
uint32_key-cases (ip_key s) = inr (λ m entry entries e. rw (e, collect) refl)

-- When the loop of GetSessions gives a table, each session has for each field the value of the
-- last entry with that session's id as its key, and for the other fields what it had in the table
-- that the loop started with.
pub collect_lem :
    (entries : List Entry) (m m' : Sessions) (id : ℕ) (f : List ℕ)
    → collect m entries ≡ read m'
    → value_in m' id f ≡ last_value entries id f (value_in m id f)
unfolding collect
collect_lem [] m m' id f h = let same : m ≡ m' = cc in ap (λ t. value_in t id f) (sym same)
collect_lem (entry ∷ entries) m m' id f h = elim (uint32_key-cases entry.key) [
  | inl (n, e) ↦
      collect_lem entries (add_value m n entry.field entry.value) m' id f (rw (e, collect) at h)
      ∙ ap (last_value entries id f)
          (value_in-add_value m n id entry.field f entry.value ∙ rw e refl)
  | inr other ↦ let bad : refused ≡ read m' = sym (other m entry entries refl) ∙ h in cc
]
