-- ===== src/Dns/Keyed.antt =====
-- Every holder of the cache stands under the text of its own address.
use packetd.Base.{ℕ, ◌≡◌, sym, ◌∙◌, ap, String, some, arith, Bool-cases, Option-cases, inl, inr}
use packetd.Base.Keys.{string_key}
use packetd.Base.Table.{get, remove, get-put, get-remove}
use packetd.Dispatch.Ip.{Ip}
use packetd.Dispatch.Ip.Equality.{dup_ip_lem}
use packetd.Dns.{AddressHolder, AddressTable, new_holder, is_past, insert_address, clean_entry}

pub record IsKeyed (ip_text : Ip → String) (table : AddressTable) : Type 0 where
  pub keyed :
      (key : String) (val : AddressHolder) → get table key ≡ some val → ip_text val.address ≡ key

module _ (ip_text : Ip → String) where
  remove-IsKeyed :
      (table : AddressTable) (key : String)
      → IsKeyed ip_text table
      → IsKeyed ip_text (remove table key)
  remove-IsKeyed table key h = record {
    keyed = λ k val e. h.keyed k val (ground (arith, get-remove table key k, e));
  }

  pub insert_address-IsKeyed :
      (now : ℕ) (table : AddressTable) (finder : Ip) (name : String) (ttl : ℕ)
      → IsKeyed ip_text table
      → IsKeyed ip_text (insert_address ip_text now table finder name ttl)
  unfolding insert_address new_holder
  insert_address-IsKeyed now table finder name ttl h = record {
    keyed = λ k val e. elim (Bool-cases (string_key.same (ip_text finder) k)) [
      | inl t ↦
          let same : some (new_holder now finder name ttl) ≡ some val =
            ground (arith, get-put table (ip_text finder) k (new_holder now finder name ttl), e) in
          let holder : new_holder now finder name ttl ≡ val = cc in
          ap (λ (x : AddressHolder). ip_text x.address) (sym holder)
          ∙ ap ip_text (dup_ip_lem finder)
          ∙ (string_key.same_iff (ip_text finder) k).0 t
      | inr f ↦
          h.keyed k val
            (ground (arith, get-put table (ip_text finder) k (new_holder now finder name ttl), e))
    ];
  }

  pub clean_entry-IsKeyed :
      (now : ℕ) (table : AddressTable) (key : String)
      → IsKeyed ip_text table
      → IsKeyed ip_text (clean_entry ip_text now table key)
  unfolding clean_entry
  clean_entry-IsKeyed now table key h = elim (Option-cases (get table key)) [
    | inl e ↦ rw (e, clean_entry) h
    | inr (val, e) ↦ elim (Bool-cases (is_past now val)) [
      | inl t ↦ rw (e, t, clean_entry) h
      | inr f ↦ rw (e, f, clean_entry) (remove-IsKeyed table (ip_text val.address) h)
    ]
  ]
