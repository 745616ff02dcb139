-- ===== src/Dns/Lookup.antt =====
-- What the cache finds after an insertion or a removal.
use packetd.Base.{ℕ, ◌≡◌, String, if◌then◌else◌, arith}
use packetd.Base.Keys.{string_key}
use packetd.Base.Table.{get-put, get-remove}
use packetd.Dispatch.Ip.{Ip}
use packetd.Dns.{AddressTable, new_holder, find_address, insert_address, remove_address}

module _ (ip_text : Ip → String) where
  -- After insertAddress the cache finds the new name for every address of the same text, and after
  -- removeAddress it finds the empty name there; for other addresses it finds what it found before.
  pub find_address_lem :
      (now : ℕ) (table : AddressTable) (finder other : Ip) (name : String) (ttl : ℕ)
      → (find_address ip_text (insert_address ip_text now table finder name ttl) other ≡ (
          if string_key.same (ip_text finder) (ip_text other)
          then name
          else find_address ip_text table other))
        × (find_address ip_text (remove_address ip_text table finder) other ≡ (
            if string_key.same (ip_text finder) (ip_text other)
            then ""
            else find_address ip_text table other))
  unfolding find_address insert_address remove_address new_holder
  find_address_lem now table finder other name ttl = ground (
    arith,
    get-put table (ip_text finder) (ip_text other) (new_holder now finder name ttl),
    get-remove table (ip_text finder) (ip_text other),
  )
