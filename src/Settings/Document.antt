-- ===== src/Settings/Document.antt =====
-- The JSON values that `encoding/json` hands out as an `interface{}`. An array has a capacity, which
-- may be larger than its length: `spare` is the difference. An object is a Go map: a key that is not
-- there reads as nil, which is also the value null.
use packetd.Base.{ℕ, zero, suc, String, Bool, true, false, Option, none, some, if◌then◌else◌}
use packetd.Base.Keys.{string_key}

mutual
  pub data Json : Type 0 where
    null : Json
    flag : Bool → Json
    number : String → Json
    text : String → Json
    array : (spare : ℕ) → Items → Json
    object : Fields → Json

  pub data Items : Type 0 where
    nil : Items
    item : Json → Items → Items

  pub data Fields : Type 0 where
    end : Fields
    field : String → Json → Fields → Fields

abbrev pub count : Items → ℕ
count nil = 0
count (item v vs) = suc (count vs)

unfoldable pub get_item : Items → ℕ → Option Json
get_item nil i = none
get_item (item v vs) zero = some v
get_item (item v vs) (suc i) = get_item vs i

unfoldable pub set_item : Items → ℕ → Json → Items
set_item nil i w = nil
set_item (item v vs) zero w = item w vs
set_item (item v vs) (suc i) w = item v (set_item vs i w)

-- m[key]
unfoldable pub get_field : Fields → String → Json
get_field end key = null
get_field (field k v fs) key =
    let rest = get_field fs key in if string_key.same k key then v else rest

-- delete(m, key)
unfoldable pub delete_field : Fields → String → Fields
delete_field end key = end
delete_field (field k v fs) key =
    let rest = delete_field fs key in if string_key.same k key then rest else field k v rest

-- m[key] = value
unfoldable pub set_field : Fields → String → Json → Fields
unfolding delete_field
set_field fs key value = field key value (delete_field fs key)

abbrev pub is_null : Json → Bool
is_null null = true
is_null other = false
