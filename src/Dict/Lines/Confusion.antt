-- ===== src/Dict/Lines/Confusion.antt =====
-- A string that looks like a key.
use packetd.Base.{Bool, ℕ, ◌^◌, ◌<◌, ◌≡◌, refl, ap, ◌∙◌, true, false, some, List, ◌∷◌, ◌++◌}
use packetd.Base.Text.{codes}
use packetd.Dict.Lines.{
  no_key, no_value, Entry, has_prefix, contains, parse_key, parse_argument, parse_entry,
}
use packetd.Dict.Lines.Scanning.{has_space}
use packetd.Dict.Lines.RoundTrip.{line_of, headed, parse_entry-line}

-- The string has the name of none of the five kinds of keys.
pub record IsNoKey (v : List ℕ) : Type 0 where
  pub no_string : contains v (codes "key_string: ") ≡ false
  pub no_int : contains v (codes "key_int: ") ≡ false
  pub no_mac : contains v (codes "key_mac: ") ≡ false
  pub no_ip : contains v (codes "key_ip: ") ≡ false
  pub no_ip6 : contains v (codes "key_ip6: ") ≡ false

module _ (parse_mac : List ℕ → List ℕ) (parse_ip : List ℕ → List ℕ) where
  key_like :
      (entry : Entry) (v : List ℕ)
      → contains v (codes "table: ") ≡ false
      → contains v (codes "field: ") ≡ false
      → contains v (codes "key_") ≡ true
      → IsNoKey v
      → parse_argument parse_mac parse_ip entry (codes "string:" ++ (b' ' ∷ v))
        ≡ record entry { key = no_key }
  unfolding parse_argument contains has_prefix parse_key
  key_like entry v ht hf hk h =
      rw (ht, hf, hk, h.no_string, h.no_int, h.no_mac, h.no_ip, h.no_ip6) refl

  -- A line whose string contains "key_", but no "table: ", no "field: " and no name of a kind of
  -- key, is read as an entry with neither a key nor a value.
  pub parse_entry-key_like :
      (has_room : List ℕ → Bool) (t : List ℕ) (n : ℕ) (f v : List ℕ)
      → has_space t ≡ false
      → has_space f ≡ false
      → n < 2 ^ 32
      → contains v (codes "table: ") ≡ false
      → contains v (codes "field: ") ≡ false
      → contains v (codes "key_") ≡ true
      → IsNoKey v
      → parse_entry parse_mac parse_ip has_room (line_of t n f (codes "string:") v)
        ≡ some (record { table = t; key = no_key; field = f; value = no_value })
  unfolding has_space
  parse_entry-key_like has_room t n f v ht hf hn vt vf vk h =
      parse_entry-line parse_mac parse_ip has_room t n f (codes "string:") v ht hf refl hn
      ∙ ap some (key_like (headed parse_mac parse_ip t n f) v vt vf vk h)
