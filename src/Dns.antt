-- ===== src/Dns.antt =====
-- plugins/dns/dns.go: the cache of the names that DNS replies gave to addresses. The text form of an
-- address, by which the cache is keyed, is a parameter.
pub mod Keyed
pub mod Lookup
pub mod Cleaning
pub mod Handler
pub mod Examples
use packetd.Base.{
  ℕ, ◌/◌, ◌%◌, ◌^◌, String, Bool, true, false, Option, none, some, List, [], ◌∷◌, ltb,
  if◌then◌else◌,
}
use packetd.Base.Keys.{string_key}
use packetd.Base.Table.{Table, get, put, remove, keys}
use packetd.Dispatch.Ip.{Ip, dup_ip}
use packetd.Dispatch.State.{second}

-- `AddressHolder`. Times are nanoseconds, so that `Unix` is a division.
pub record AddressHolder : Type 0 where
  pub creation_time : ℕ
  pub expire_time : ℕ
  pub address : Ip
  pub name : String

abbrev pub AddressTable : Type 0
AddressTable = Table String AddressHolder

-- The test `val.ExpireTime.Unix() < nowtime.Unix()`
unfoldable pub is_past : ℕ → AddressHolder → Bool
is_past now val = ltb (val.expire_time / second) (now / second)

-- The new holder of `insertAddress`. `ExpireTime.Add` returns the later time and changes nothing,
-- and its result is dropped, so that the time to live plays no part.
unfoldable pub new_holder : ℕ → Ip → String → ℕ → AddressHolder
new_holder now finder name ttl = record {
  creation_time = now;
  expire_time = now;
  address = dup_ip finder;
  name = name;
}

module _ (ip_text : Ip → String) where
  -- `FindAddress`
  unfoldable pub find_address : AddressTable → Ip → String
  find_address table finder = elim (get table (ip_text finder)) [
    | none ↦ ""
    | some entry ↦ entry.name
  ]

  -- `insertAddress`
  unfoldable pub insert_address : ℕ → AddressTable → Ip → String → ℕ → AddressTable
  unfolding new_holder
  insert_address now table finder name ttl =
      put table (ip_text finder) (new_holder now finder name ttl)

  -- `removeAddress`
  unfoldable pub remove_address : AddressTable → Ip → AddressTable
  remove_address table finder = remove table (ip_text finder)

  -- The body of the loop of `cleanAddressTable`, for a key that may be gone by then.
  unfoldable pub clean_entry : ℕ → AddressTable → String → AddressTable
  unfolding is_past
  clean_entry now table key = elim (get table key) [
    | none ↦ table
    | some val ↦ if is_past now val then table else remove table (ip_text val.address)
  ]

  unfoldable pub clean_entries : ℕ → AddressTable → List String → AddressTable
  unfolding clean_entry
  clean_entries now table [] = table
  clean_entries now table (key ∷ order) = clean_entries now (clean_entry now table key) order

  -- `cleanAddressTable`
  unfoldable pub clean_address_table : ℕ → AddressTable → AddressTable
  unfolding clean_entries
  clean_address_table now table = clean_entries now table (keys table)
