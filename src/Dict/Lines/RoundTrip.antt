-- ===== src/Dict/Lines/RoundTrip.antt =====
-- Which entry a line of the dictionary is read as.
use packetd.Base.{Bool, ℕ, ◌^◌, ◌<◌, ◌≡◌, refl, ap, ◌∙◌, false, some, List, [], ◌∷◌, ◌++◌}
use packetd.Base.Text.{codes}
use packetd.Base.Decimal.{itoa, itoa-IsDigits}
use packetd.Dict.Lines.{
  uint32_key, string_value, Entry, split_n, has_prefix, contains, after_literal, scan_word,
  scan_uint32, parse_table, parse_field, parse_key, parse_value, second_piece, parse_argument,
  empty_entry, parse_pieces, parse_entry,
}
use packetd.Dict.Lines.Scanning.{
  has_space, skip_spaces_word, word_whole, split-word, contains-word, digits-no_space, scan-itoa,
}

-- The line of an entry whose key is a number, in the form that parseEntry expects
abbrev pub line_of : List ℕ → ℕ → List ℕ → List ℕ → List ℕ → List ℕ
line_of table n field tag rest =
    codes "table:"
    ++ (b' '
        ∷ (table
            ++ (b' '
                ∷ (codes "key_int:"
                    ++ (b' '
                        ∷ (codes (itoa n)
                            ++ (b' '
                                ∷ (codes "field:"
                                    ++ (b' ' ∷ (field ++ (b' ' ∷ (tag ++ (b' ' ∷ rest)))))))))))))

module _ (parse_mac : List ℕ → List ℕ) (parse_ip : List ℕ → List ℕ) where
  table_argument :
      (entry : Entry) (t : List ℕ)
      → has_space t ≡ false
      → parse_argument parse_mac parse_ip entry (codes "table:" ++ (b' ' ∷ t))
        ≡ record entry { table = t }
  unfolding parse_argument contains has_prefix parse_table scan_word after_literal
  table_argument entry t h = rw (skip_spaces_word t h, word_whole t h) refl

  key_argument :
      (entry : Entry) (n : ℕ)
      → n < 2 ^ 32
      → parse_argument parse_mac parse_ip entry (codes "key_int:" ++ (b' ' ∷ codes (itoa n)))
        ≡ record entry { key = uint32_key n }
  unfolding has_space parse_argument contains has_prefix parse_key scan_uint32 after_literal
  key_argument entry n h =
      let plain = digits-no_space (codes (itoa n)) (itoa-IsDigits n) in
      rw
        (
          contains-word (codes (itoa n)) (codes "table: ") plain refl,
          contains-word (codes (itoa n)) (codes "field: ") plain refl,
          contains-word (codes (itoa n)) (codes "key_string: ") plain refl,
          skip_spaces_word (codes (itoa n)) plain,
          scan-itoa n h,
        )
        refl

  field_argument :
      (entry : Entry) (f : List ℕ)
      → has_space f ≡ false
      → parse_argument parse_mac parse_ip entry (codes "field:" ++ (b' ' ∷ f))
        ≡ record entry { field = f }
  unfolding has_space parse_argument contains has_prefix parse_field scan_word after_literal
  field_argument entry f h =
      rw (contains-word f (codes "table: ") h refl, skip_spaces_word f h, word_whole f h) refl

  split-one : (rest : List ℕ) → split_n 1 rest ≡ rest ∷ []
  unfolding split_n
  split-one [] = refl
  split-one (c ∷ rest) = refl

  -- The pieces of the line
  pieces_of :
      (t : List ℕ) (n : ℕ) (f tag rest : List ℕ)
      → has_space t ≡ false
      → has_space f ≡ false
      → has_space tag ≡ false
      → split_n 8 (line_of t n f tag rest)
        ≡ codes "table:"
          ∷ t
          ∷ codes "key_int:"
          ∷ codes (itoa n)
          ∷ codes "field:"
          ∷ f
          ∷ tag
          ∷ rest
          ∷ []
  unfolding has_space
  pieces_of t n f tag rest ht hf hg =
      split-word 6 (codes "table:") _ refl
      ∙ ap (◌∷◌ (codes "table:")) (
          split-word 5 t _ ht
          ∙ ap (◌∷◌ t) (
              split-word 4 (codes "key_int:") _ refl
              ∙ ap (◌∷◌ (codes "key_int:")) (
                  split-word 3 (codes (itoa n)) _
                    (digits-no_space (codes (itoa n)) (itoa-IsDigits n))
                  ∙ ap (◌∷◌ (codes (itoa n))) (
                      split-word 2 (codes "field:") _ refl
                      ∙ ap (◌∷◌ (codes "field:")) (
                          split-word 1 f _ hf
                          ∙ ap (◌∷◌ f)
                              (split-word 0 tag rest hg ∙ ap (◌∷◌ tag) (split-one rest)))))))

  -- The entry before its value is read
  abbrev pub headed : List ℕ → ℕ → List ℕ → Entry
  headed t n f = record (empty_entry parse_mac parse_ip) {
    table = t;
    key = uint32_key n;
    field = f;
  }

  pub parse_entry-line :
      (has_room : List ℕ → Bool) (t : List ℕ) (n : ℕ) (f tag rest : List ℕ)
      → has_space t ≡ false
      → has_space f ≡ false
      → has_space tag ≡ false
      → n < 2 ^ 32
      → parse_entry parse_mac parse_ip has_room (line_of t n f tag rest)
        ≡ some (parse_argument parse_mac parse_ip (headed t n f) (tag ++ (b' ' ∷ rest)))
  unfolding parse_entry parse_pieces
  parse_entry-line has_room t n f tag rest ht hf hg hn =
      let start = empty_entry parse_mac parse_ip in
      let named : Entry = record start { table = t } in
      let keyed : Entry = record named { key = uint32_key n } in
      let argument = parse_argument parse_mac parse_ip in
      let numbered = codes "key_int:" ++ (b' ' ∷ codes (itoa n)) in
      let fielded = codes "field:" ++ (b' ' ∷ f) in
      let valued = tag ++ (b' ' ∷ rest) in
      let room = has_room (line_of t n f tag rest) in
      ap (parse_pieces parse_mac parse_ip room 4 start) (pieces_of t n f tag rest ht hf hg)
      ∙ ap (λ e. some (argument (argument (argument e numbered) fielded) valued))
          (table_argument start t ht)
      ∙ ap (λ e. some (argument (argument e fielded) valued)) (key_argument named n hn)
      ∙ ap (λ e. some (argument e valued)) (field_argument keyed f hf)

  string_read :
      (v : List ℕ) → parse_value parse_mac parse_ip (codes "string:" ++ (b' ' ∷ v)) ≡ string_value v
  unfolding has_space contains has_prefix parse_value
  string_read v =
      ap (λ pieces. string_value (second_piece pieces))
        (split-word 0 (codes "string:") v refl ∙ ap (◌∷◌ (codes "string:")) (split-one v))

  string_argument :
      (entry : Entry) (v : List ℕ)
      → contains v (codes "table: ") ≡ false
      → contains v (codes "field: ") ≡ false
      → contains v (codes "key_") ≡ false
      → parse_argument parse_mac parse_ip entry (codes "string:" ++ (b' ' ∷ v))
        ≡ record entry { value = string_value v }
  unfolding has_space parse_argument contains has_prefix parse_value
  string_argument entry v ht hf hk =
      rw (ht, hf, hk) (ap (λ value. record entry { value = value }) (string_read v))

  -- A line with a key_int of 32 bits and a string is read as the entry that it prints, whatever
  -- spaces the string has, if the string contains none of "table: ", "field: " and "key_", and the
  -- table and the field have none of the characters that Sscanf takes for a space.
  pub parse_entry-string :
      (has_room : List ℕ → Bool) (t : List ℕ) (n : ℕ) (f v : List ℕ)
      → has_space t ≡ false
      → has_space f ≡ false
      → n < 2 ^ 32
      → contains v (codes "table: ") ≡ false
      → contains v (codes "field: ") ≡ false
      → contains v (codes "key_") ≡ false
      → parse_entry parse_mac parse_ip has_room (line_of t n f (codes "string:") v)
        ≡ some (record { table = t; key = uint32_key n; field = f; value = string_value v })
  unfolding has_space
  parse_entry-string has_room t n f v ht hf hn vt vf vk =
      parse_entry-line has_room t n f (codes "string:") v ht hf refl hn
      ∙ ap some (string_argument (headed t n f) v vt vf vk)
