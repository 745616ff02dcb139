-- ===== src/Dict/Writing.antt =====
-- services/dict/dict.go: the lines that are written to /proc/net/dict. The texts of hardware and IP
-- addresses, which Go's net gives, are parameters, and whether the write succeeds is an input.
pub mod Tokens
use Prim.Native.String.{◌++◌}
use packetd.Base.{
  ℕ, ◌+◌, String, Bool, true, false, Option, none, some, List, [], ◌∷◌, if◌then◌else◌,
}
use packetd.Base.Integer.{ℤ, pos, negsuc}
use packetd.Base.Decimal.{itoa}
use packetd.Base.Text.{is_empty_text}
use packetd.Dispatch.Ip.{Ip, to4}

-- The dynamic types that the writers tell apart
pub data WrittenKey : Type 0 where
  string_key : String → WrittenKey
  mac_key : List ℕ → WrittenKey
  ip_key : Ip → WrittenKey
  uint32_key : ℕ → WrittenKey
  other_key : WrittenKey

pub data WrittenValue : Type 0 where
  string_value : String → WrittenValue
  mac_value : List ℕ → WrittenValue
  ip_value : Ip → WrittenValue
  bool_value : Bool → WrittenValue
  int8_value : ℤ → WrittenValue
  uint8_value : ℕ → WrittenValue
  int16_value : ℤ → WrittenValue
  uint16_value : ℕ → WrittenValue
  int32_value : ℤ → WrittenValue
  uint32_value : ℕ → WrittenValue
  int64_value : ℤ → WrittenValue
  other_value : WrittenValue

-- The test of `AddEntry` for an empty string
abbrev pub is_empty_value : WrittenValue → Bool
is_empty_value (string_value value) = is_empty_text value
is_empty_value other = false

-- `%d`
unfoldable pub format_int : ℤ → String
unfolding itoa
format_int (pos n) = itoa n
format_int (negsuc n) = "-" ++ itoa (n + 1)

-- `strconv.FormatBool`
abbrev pub format_bool : Bool → String
format_bool true = "true"
format_bool false = "false"

-- A token that ends with a comma
unfoldable pub token : String → String → String
token name text = (name ++ text) ++ ","

-- `generateTable`, `generateField`
unfoldable pub generate_table : String → String
unfolding token
generate_table table = token "table=" table

unfoldable pub generate_field : String → String
unfolding token
generate_field field = token "field=" field

abbrev pub generate_int : ℤ → String
generate_int value = "int=" ++ format_int value

abbrev pub generate_int64 : ℤ → String
generate_int64 value = "int64=" ++ format_int value

module _ (mac_text : List ℕ → String) (ip_text : Ip → String) where
  -- `generateKey`, with `generateKeyString`, `generateKeyMac`, `generateKeyIP`, `generateKeyIP6` and
  -- `generateKeyInt`
  unfoldable pub generate_key : WrittenKey → String
  unfolding token
  generate_key (string_key key) = token "key_string=" key
  generate_key (mac_key key) = token "key_mac=" (mac_text key)
  generate_key (ip_key key) = elim (to4 key) [
    | some v4 ↦ token "key_ip=" (ip_text key)
    | none ↦ token "key_ip6=" (ip_text key)
  ]
  generate_key (uint32_key key) = token "key_int=" (itoa key)
  generate_key other_key = ""

  -- `generateValue`, with `generateString`, `generateMac`, `generateIP`, `generateIP6`,
  -- `generateBool`, `generateInt` and `generateInt64`
  unfoldable pub generate_value : WrittenValue → String
  unfolding format_int
  generate_value (string_value value) = "value=" ++ value
  generate_value (mac_value value) = "mac=" ++ mac_text value
  generate_value (ip_value value) = elim (to4 value) [
    | some v4 ↦ "ip=" ++ ip_text value
    | none ↦ "ip6=" ++ ip_text value
  ]
  generate_value (bool_value value) = "bool=" ++ format_bool value
  generate_value (int8_value value) = generate_int value
  generate_value (uint8_value value) = generate_int (pos value)
  generate_value (int16_value value) = generate_int value
  generate_value (uint16_value value) = generate_int (pos value)
  generate_value (int32_value value) = generate_int value
  generate_value (uint32_value value) = generate_int64 (pos value)
  generate_value (int64_value value) = generate_int64 value
  generate_value other_value = ""

  abbrev pub entry_line : String → WrittenKey → String → WrittenValue → String
  entry_line table key field value =
      ((generate_table table ++ generate_key key) ++ generate_field field) ++ generate_value value

  -- `AddEntry`: the line for writeEntry, or none for the early return
  unfoldable pub add_entry : String → WrittenKey → String → WrittenValue → Option String
  unfolding generate_table generate_key generate_field generate_value
  add_entry table key field value =
      if is_empty_value value then none else some (entry_line table key field value)

  -- `DeleteDictionary`: the line for deleteEntry
  unfoldable pub delete_dictionary : String → WrittenKey → String
  unfolding generate_table generate_key
  delete_dictionary table key = generate_table table ++ generate_key key

  -- `AddSessionEntry` and `DeleteSession`
  unfoldable pub add_session_entry : ℕ → String → WrittenValue → Option String
  unfolding add_entry
  add_session_entry key field value = add_entry "sessions" (uint32_key key) field value

  unfoldable pub delete_session : ℕ → String
  unfolding delete_dictionary
  delete_session key = delete_dictionary "sessions" (uint32_key key)
