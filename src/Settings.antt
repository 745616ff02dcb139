-- ===== src/Settings.antt =====
-- services/settings/settings.go: reading, setting and trimming a path of the settings document.
pub mod Document
pub mod File
pub mod Paths
pub mod Frames
pub mod Trimming
pub mod Saving
pub mod Panics
pub mod Examples
use packetd.Base.{
  ℕ, String, Bool, true, false, Option, none, some, List, [], ◌∷◌, leb, if◌then◌else◌, ◌+◌,
}
use packetd.Base.Integer.{ℤ, pos, negsuc}
use packetd.Base.Text.{atoi, codes}
use packetd.Settings.Document.{
  Json, null, flag, number, text, array, object, Items, nil, item, Fields, end, field, count,
  get_item, set_item, get_field, set_field, delete_field, is_null,
}

-- The errors of the package, and those of its surroundings.
pub data Failure : Type 0 where
  not_a_number : String → Failure
  exceeded_capacity : Failure
  unknown_type : Failure
  attribute_missing : String → Failure
  non_dict_in_path : String → Failure
  invalid_trim_path : Failure
  invalid_global_object : Failure
  invalid_file_format : Failure
  failed_to_save : Failure
  from_system : String → Failure

-- How an operation ends: a result, an error, or a panic.
pub data Outcome {ℓ} (A : Type ℓ) : Type ℓ where
  ok : A → Outcome A
  fails : Failure → Outcome A
  panics : Outcome A

unfoldable pub then_do {ℓ κ} : {A : Type ℓ} {B : Type κ} → Outcome A → (A → Outcome B) → Outcome B
then_do (ok a) f = f a
then_do (fails e) f = fails e
then_do panics f = panics

unfoldable pub then_map {ℓ κ} : {A : Type ℓ} {B : Type κ} → (A → B) → Outcome A → Outcome B
then_map f (ok a) = ok (f a)
then_map f (fails e) = fails e
then_map f panics = panics

abbrev or_panic : Option Json → Outcome Json
or_panic none = panics
or_panic (some v) = ok v

-- An index that passed the test against the capacity, but lies outside the length, panics; a
-- negative one passes it.
unfoldable pub element_at : ℕ → Items → ℤ → Outcome Json
element_at spare items (negsuc i) = panics
element_at spare items (pos i) =
    if leb (count items + spare) i then fails exceeded_capacity else or_panic (get_item items i)

-- `getArrayIndex`
unfoldable pub get_array_index : ℕ → Items → String → Outcome Json
unfolding element_at
get_array_index spare items idx = elim (atoi (codes idx)) [
  | none ↦ fails (not_a_number idx)
  | some i ↦ element_at spare items i
]

unfoldable pub element_set : ℕ → Items → Json → ℤ → Outcome Json
element_set spare items value (negsuc i) = panics
element_set spare items value (pos i) =
    if leb (count items + spare) i
    then fails exceeded_capacity
    else if leb (count items) i
    then panics
    else ok (array spare (set_item items i value))

-- `setArrayIndex`, with the array as a value again.
unfoldable pub set_array_index : ℕ → Items → String → Json → Outcome Json
unfolding element_set
set_array_index spare items idx value = elim (atoi (codes idx)) [
  | none ↦ fails (not_a_number idx)
  | some i ↦ element_set spare items value i
]

-- `getObjectIndex`
unfoldable pub get_object_index : Json → String → Outcome Json
unfolding get_array_index
get_object_index (object fs) idx = ok (get_field fs idx)
get_object_index (array spare items) idx = get_array_index spare items idx
get_object_index other idx = fails unknown_type

-- `setObjectIndex`
unfoldable pub set_object_index : Json → String → Json → Outcome Json
unfolding set_array_index
set_object_index (object fs) idx value = ok (object (set_field fs idx value))
set_object_index (array spare items) idx value = set_array_index spare items idx value
set_object_index other idx value = fails unknown_type

-- The step of `getSettingsFromJSON` to a child that must not be nil.
unfoldable pub descend : String → (Json → Outcome Json) → Json → Outcome Json
descend element next child = if is_null child then fails (attribute_missing element) else next child

-- `getSettingsFromJSON`
unfoldable pub get_settings_from_json : List String → Json → Outcome Json
unfolding get_object_index descend then_do
get_settings_from_json [] j = ok j
get_settings_from_json (s ∷ rest) j = elim rest [
  | [] ↦ get_object_index j s
  | t ∷ more ↦ then_do (get_object_index j s) (descend s (get_settings_from_json rest))
]

-- A value that is not an object is replaced by an empty one.
abbrev pub as_fields : Json → Fields
as_fields (object fs) = fs
as_fields other = end

abbrev pub or_object : Json → Json
or_object v = if is_null v then object end else v

-- `setSettingsInJSON`
unfoldable pub set_settings_in_json : List String → Json → Json → Outcome Json
unfolding set_object_index then_map
set_settings_in_json [] value j = ok value
set_settings_in_json (s ∷ rest) value j = elim rest [
  | [] ↦ set_object_index j s value
  | t ∷ more ↦
      then_map (λ child. object (set_field (as_fields j) s child))
        (set_settings_in_json rest value (or_object (get_field (as_fields j) s)))
]

-- The loop of `TrimSettingsFile`, which walks down the objects in place.
unfoldable pub trim_child : String → (Fields → Outcome Fields) → Fields → Json → Outcome Fields
trim_child s next fs null = ok fs
trim_child s next fs (object child) = then_map (λ c. set_field fs s (object c)) (next child)
trim_child s next fs other = fails (non_dict_in_path s)

unfoldable pub trim_fields : List String → Fields → Outcome Fields
unfolding trim_child then_map
trim_fields [] fs = ok fs
trim_fields (s ∷ rest) fs = elim rest [
  | [] ↦ ok (delete_field fs s)
  | t ∷ more ↦ trim_child s (trim_fields rest) fs (get_field fs s)
]
