-- ===== src/Dns/Cleaning.antt =====
-- What the cleaning of the cache keeps.
use packetd.Base.{
  ℕ, ◌/◌, ◌<◌, ◌≡◌, refl, String, Bool, true, false, leb, ◌&&◌, none, some, List, [], ◌∷◌,
  if◌then◌else◌, arith, Option-cases, inl, inr,
}
use packetd.Base.Keys.{string_key}
use packetd.Base.Table.{get, keys, has, has-keys, get-put, get-remove}
use packetd.Dispatch.Ip.{Ip}
use packetd.Dispatch.State.{second}
use packetd.Dns.{
  AddressTable, new_holder, is_past, find_address, insert_address, clean_entry, clean_entries,
  clean_address_table,
}
use packetd.Dns.Keyed.{IsKeyed, insert_address-IsKeyed, clean_entry-IsKeyed}

-- The cache has a holder under the key whose time to expire is in the current second or in a later
-- one.
abbrev pub has_fresh : ℕ → AddressTable → String → Bool
has_fresh now table key = elim (get table key) [
  | none ↦ false
  | some val ↦ leb (now / second) (val.expire_time / second)
]

module _ (ip_text : Ip → String) where
  get-clean_entry :
      (now : ℕ) (table : AddressTable) (key k : String)
      → IsKeyed ip_text table
      → get (clean_entry ip_text now table key) k
        ≡ (if string_key.same key k && has_fresh now table k then none else get table k)
  unfolding clean_entry is_past
  get-clean_entry now table key k h = elim (Option-cases (get table key)) [
    | inl e ↦ ground (arith, string_key.same_iff key k, e)
    | inr (val, e) ↦
        rw (e, clean_entry, h.keyed key val e)
          (ground (arith, string_key.same_iff key k, e, get-remove table key k))
  ]

  get-clean_entries :
      (now : ℕ) (order : List String) (table : AddressTable) (k : String)
      → IsKeyed ip_text table
      → get (clean_entries ip_text now table order) k
        ≡ (if has order k && has_fresh now table k then none else get table k)
  unfolding clean_entries has
  get-clean_entries now [] table k h = refl
  get-clean_entries now (key ∷ order) table k h = ground (
    arith,
    get-clean_entries now order (clean_entry ip_text now table key) k
        (clean_entry-IsKeyed ip_text now table key h),
    get-clean_entry now table key k h,
  )

  fresh-has-keys :
      (now : ℕ) (table : AddressTable) (key : String)
      → has_fresh now table key ≡ true
      → has (keys table) key ≡ true
  fresh-has-keys now table key h = elim (Option-cases (get table key)) [
    | inl e ↦ ground arith
    | inr (val, e) ↦ has-keys table key val e
  ]

  -- Where every holder stands under the text of its own address, cleanAddressTable removes exactly
  -- the holders whose time to expire, in whole seconds, is the current second or a later one, and
  -- keeps all whose second is past.
  pub clean_address_table_lem :
      (now : ℕ) (table : AddressTable) (key : String)
      → IsKeyed ip_text table
      → get (clean_address_table ip_text now table) key
        ≡ (if has_fresh now table key then none else get table key)
  unfolding clean_address_table
  clean_address_table_lem now table key h =
      ground (arith, get-clean_entries now (keys table) table key h, fresh-has-keys now table key)

  inserted :
      (now : ℕ) (table : AddressTable) (finder : Ip) (name : String) (ttl : ℕ)
      → get (insert_address ip_text now table finder name ttl) (ip_text finder)
        ≡ some (new_holder now finder name ttl)
  unfolding insert_address
  inserted now table finder name ttl = ground (
    arith,
    get-put table (ip_text finder) (ip_text finder) (new_holder now finder name ttl),
    string_key.same_iff (ip_text finder) (ip_text finder),
  )

  -- A name that is inserted is found by its address after a cleaning in a later second, whatever
  -- its time to live.
  pub insert_then_clean :
      (now later : ℕ) (table : AddressTable) (finder : Ip) (name : String) (ttl : ℕ)
      → IsKeyed ip_text table
      → now / second < later / second
      → find_address ip_text
          (clean_address_table ip_text later (insert_address ip_text now table finder name ttl))
          finder
        ≡ name
  unfolding find_address new_holder
  insert_then_clean now later table finder name ttl h l =
      let kept =
        clean_address_table_lem later (insert_address ip_text now table finder name ttl)
          (ip_text finder) (insert_address-IsKeyed ip_text now table finder name ttl h) in
      let late : leb (later / second) (now / second) ≡ false = ground (arith, l) in
      rw (kept, find_address, inserted now table finder name ttl, new_holder, late) refl
