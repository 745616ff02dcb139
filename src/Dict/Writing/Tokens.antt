-- ===== src/Dict/Writing/Tokens.antt =====
-- What a line says of its entry.
use Prim.Native.String.{◌++◌ as ◌then◌}
use mathlib.Core.List.{append_assoc, append_cancel_left}
use packetd.Base.{
  ℕ, ◌≡◌, refl, sym, ap, ◌∙◌, String, false, none, some, List, [], ◌∷◌, ◌++◌, arith, Bool-cases,
  inl, inr,
}
use packetd.Base.Keys.{nat_key}
use packetd.Base.Table.{has}
use packetd.Base.Text.{codes}
use packetd.Base.Decimal.{IsDigits, one_more, itoa, itoa-IsDigits, itoa_injective}
use packetd.Base.TextCodes.{codes-append, codes_injective}
use packetd.Dispatch.Ip.{Ip}
use packetd.Dict.Writing.{
  uint32_key, WrittenValue, is_empty_value, token, generate_table, generate_field, generate_key,
  generate_value, entry_line, add_entry, add_session_entry,
}

-- The first separator tells where the text before it ends.
split_first :
    (sep : ℕ) (xs xs' ys ys' : List ℕ)
    → has xs sep ≡ false
    → has xs' sep ≡ false
    → xs ++ (sep ∷ ys) ≡ xs' ++ (sep ∷ ys')
    → (xs ≡ xs') × (ys ≡ ys')
unfolding has
split_first sep [] [] ys ys' h h' e = (refl, cc)
split_first sep [] (x ∷ xs') ys ys' h h' e = let same : sep ≡ x = cc in ground (arith, h', same)
split_first sep (x ∷ xs) [] ys ys' h h' e = let same : x ≡ sep = cc in ground (arith, h, same)
split_first sep (x ∷ xs) (x' ∷ xs') ys ys' h h' e =
    let (p, q) = split_first sep xs xs' ys ys' (ground (arith, h)) (ground (arith, h')) cc in
    let first : x ≡ x' = cc in (cc, q)

codes-token :
    (name text : String) (rest : List ℕ)
    → codes (token name text) ++ rest ≡ codes name ++ (codes text ++ (b',' ∷ rest))
unfolding token
codes-token name text rest =
    ap (λ xs. xs ++ rest)
      (codes-append (name then text) "," ∙ ap (λ xs. xs ++ (b',' ∷ [])) (codes-append name text))
    ∙ append_assoc (codes name ++ codes text) (b',' ∷ []) rest
    ∙ append_assoc (codes name) (codes text) (b',' ∷ rest)

digits-no_comma : (cs : List ℕ) → IsDigits cs → has cs b',' ≡ false
unfolding has
digits-no_comma [] h = refl
digits-no_comma (c ∷ cs) (one_more d h) = ground (arith, d, digits-no_comma cs h)

module _ (mac_text : List ℕ → String) (ip_text : Ip → String) where
  codes-entry_line :
      (table : String) (n : ℕ) (field : String) (value : WrittenValue)
      → codes (entry_line mac_text ip_text table (uint32_key n) field value)
        ≡ codes "table="
          ++ (codes table
              ++ (b','
                  ∷ (codes "key_int="
                      ++ (codes (itoa n)
                          ++ (b','
                              ∷ (codes "field="
                                  ++ (codes field
                                      ++ (b','
                                          ∷ codes (generate_value mac_text ip_text value)))))))))
  unfolding generate_table generate_key generate_field
  codes-entry_line table n field value =
      let t = token "table=" table in
      let k = token "key_int=" (itoa n) in
      let f = token "field=" field in
      let v = generate_value mac_text ip_text value in
      codes-append ((t then k) then f) v
      ∙ ap (λ xs. xs ++ codes v)
          (codes-append (t then k) f ∙ ap (λ xs. xs ++ codes f) (codes-append t k))
      ∙ append_assoc (codes t ++ codes k) (codes f) (codes v)
      ∙ append_assoc (codes t) (codes k) (codes f ++ codes v)
      ∙ ap (λ xs. codes t ++ (codes k ++ xs)) (codes-token "field=" field (codes v))
      ∙ ap (λ xs. codes t ++ xs) (codes-token "key_int=" (itoa n) _)
      ∙ codes-token "table=" table _

  written_line :
      (n : ℕ) (field : String) (value : WrittenValue) (line : String)
      → add_session_entry mac_text ip_text n field value ≡ some line
      → entry_line mac_text ip_text "sessions" (uint32_key n) field value ≡ line
  unfolding add_session_entry add_entry
  written_line n field value line h = elim (Bool-cases (is_empty_value value)) [
    | inl e ↦ let nothing : none ≡ some line = sym (rw e refl) ∙ h in cc
    | inr e ↦
        let something : some (entry_line mac_text ip_text "sessions" (uint32_key n) field value)
            ≡ some line =
          sym (rw e refl) ∙ h in
        cc
  ]

  -- Two calls of AddSessionEntry that write the same line have the same session, the same field and
  -- the same token for the value, if neither field has a comma.
  pub add_session_entry-line :
      (n n' : ℕ) (field field' : String) (value value' : WrittenValue) (line : String)
      → has (codes field) b',' ≡ false
      → has (codes field') b',' ≡ false
      → add_session_entry mac_text ip_text n field value ≡ some line
      → add_session_entry mac_text ip_text n' field' value' ≡ some line
      → (n ≡ n')
        × ((field ≡ field')
            × (generate_value mac_text ip_text value ≡ generate_value mac_text ip_text value'))
  unfolding has
  add_session_entry-line n n' field field' value value' line h h' e e' =
      let same =
        sym (codes-entry_line "sessions" n field value)
        ∙ ap codes (written_line n field value line e ∙ sym (written_line n' field' value' line e'))
        ∙ codes-entry_line "sessions" n' field' value' in
      let after_table =
        (split_first b',' (codes "table=" ++ codes "sessions") (codes "table=" ++ codes "sessions")
          _ _ refl refl same).1 in
      let (keys, after_key) =
        split_first b',' (codes (itoa n)) (codes (itoa n')) _ _
          (digits-no_comma _ (itoa-IsDigits n)) (digits-no_comma _ (itoa-IsDigits n'))
          (append_cancel_left (codes "key_int=") _ _ after_table) in
      let (fields, values) =
        split_first b',' (codes field) (codes field') _ _ h h'
          (append_cancel_left (codes "field=") _ _ after_key) in
      (
        itoa_injective n n' (codes_injective _ _ keys),
        (codes_injective _ _ fields, codes_injective _ _ values),
      )
