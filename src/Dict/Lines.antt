-- ===== src/Dict/Lines.antt =====
-- services/dict/dict.go: reading the lines of /proc/net/dict. A text is the list of its code
-- points. Whether the slice that `strings.SplitN` makes of a line has room for eight pieces, and
-- what `net.ParseMAC` and `net.ParseIP` make of a text, are parameters.
pub mod Scanning
pub mod RoundTrip
pub mod Confusion
use packetd.Base.{
  ℕ, zero, suc, ◌+◌, ◌-◌, ◌*◌, ◌^◌, String, Bool, true, false, Option, none, some, List, [], ◌∷◌,
  ◌++◌, ◌==◌, ◌&&◌, ◌||◌, not, leb, ltb, bytes_equal, if◌then◌else◌,
}
use packetd.Base.Integer.{ℤ, pos, negsuc}
use packetd.Base.Text.{codes, is_digit, digits, atoi}

-- The dynamic types of `Key` and `Value`
pub data DictKey : Type 0 where
  no_key : DictKey
  string_key : List ℕ → DictKey
  uint32_key : ℕ → DictKey
  mac_key : List ℕ → DictKey
  ip_key : List ℕ → DictKey

pub data DictValue : Type 0 where
  no_value : DictValue
  string_value : List ℕ → DictValue
  int32_value : ℤ → DictValue
  int64_value : ℤ → DictValue
  mac_value : List ℕ → DictValue
  ip_value : List ℕ → DictValue
  bool_value : Bool → DictValue

-- `Entry`
pub record Entry : Type 0 where
  pub table : List ℕ
  pub key : DictKey
  pub field : List ℕ
  pub value : DictValue

-- `strings.SplitN(line, " ", n)`, for n above zero
unfoldable pub split_n : ℕ → List ℕ → List (List ℕ)
split_n n [] = [] ∷ []
split_n zero (c ∷ cs) = []
split_n (suc zero) (c ∷ cs) = (c ∷ cs) ∷ []
split_n (suc (suc n)) (c ∷ cs) =
    let after = split_n (suc n) cs in
    let more = split_n (suc (suc n)) cs in
    if c == b' '
    then [] ∷ after
    else elim more [ [] ↦ (c ∷ []) ∷ [] | piece ∷ pieces ↦ (c ∷ piece) ∷ pieces ]

-- `strings.HasPrefix` and `strings.Contains`
unfoldable pub has_prefix : List ℕ → List ℕ → Bool
has_prefix cs [] = true
has_prefix [] (p ∷ ps) = false
has_prefix (c ∷ cs) (p ∷ ps) = c == p && has_prefix cs ps

unfoldable pub contains : List ℕ → List ℕ → Bool
unfolding has_prefix
contains [] part = has_prefix [] part
contains (c ∷ cs) part = has_prefix (c ∷ cs) part || contains cs part

-- `fmt.Sscanf` with a literal that ends in a space and one verb: after the literal and further
-- spaces, `%s` reads a word and `%d` the digits of a number, for an integer after its sign.
-- A text that does not start with the literal leaves the variable at its zero value. The spaces are
-- those of Go's fmt, which has more than the ones of ASCII.
abbrev pub is_space : ℕ → Bool
is_space c =
    c == b' '
    || ((leb 9 c && leb c 13)
        || (c == 0x85
            || (c == 0xA0
                || (c == 0x1680
                    || ((leb 0x2000 c && leb c 0x200A)
                        || ((leb 0x2028 c && leb c 0x2029)
                            || (c == 0x202F || (c == 0x205F || c == 0x3000))))))))

-- A space that a space of the literal stands for; a newline is an error.
abbrev pub is_blank : ℕ → Bool
is_blank c = is_space c && not (c == b'\n')

unfoldable pub skip_spaces : List ℕ → List ℕ
skip_spaces [] = []
skip_spaces (c ∷ cs) = let rest = skip_spaces cs in if is_blank c then rest else c ∷ cs

unfoldable pub word : List ℕ → List ℕ
word [] = []
word (c ∷ cs) = let rest = word cs in if is_space c then [] else c ∷ rest

unfoldable pub after_literal : List ℕ → List ℕ → List ℕ
unfolding skip_spaces
after_literal cs [] = cs
after_literal [] (p ∷ ps) = []
after_literal (c ∷ cs) (p ∷ ps) =
    let after_spaces = after_literal (skip_spaces cs) ps in
    let rest = after_literal cs ps in
    if p == b' ' then (if is_blank c then after_spaces else []) else if c == p then rest else []

unfoldable pub scan_word : String → List ℕ → List ℕ
unfolding word after_literal
scan_word literal arg = word (after_literal arg (codes literal))

unfoldable pub digit_run : List ℕ → List ℕ
digit_run [] = []
digit_run (c ∷ cs) = let rest = digit_run cs in if is_digit c then c ∷ rest else []

unfoldable pub signed_run : List ℕ → List ℕ
unfolding digit_run
signed_run [] = []
signed_run (c ∷ cs) =
    let unsigned = digit_run cs in
    if c == b'-' || c == b'+' then c ∷ unsigned else digit_run (c ∷ cs)

abbrev pub uint32_or_zero : Option ℕ → ℕ
uint32_or_zero none = 0
uint32_or_zero (some n) = if ltb n (2 ^ 32) then n else 0

unfoldable pub scan_uint32 : String → List ℕ → ℕ
unfolding digit_run after_literal digits
scan_uint32 literal arg = uint32_or_zero (digits (digit_run (after_literal arg (codes literal))))

-- An integer of w + 1 bits, or zero when there is none in range
abbrev pub fits_or_zero : ℕ → Option ℤ → ℤ
fits_or_zero w none = pos 0
fits_or_zero w (some (pos n)) = if ltb n (2 ^ w) then pos n else pos 0
fits_or_zero w (some (negsuc n)) = if ltb n (2 ^ w) then negsuc n else pos 0

unfoldable pub scan_int : ℕ → String → List ℕ → ℤ
unfolding signed_run after_literal atoi
scan_int w literal arg = fits_or_zero w (atoi (signed_run (after_literal arg (codes literal))))

-- `strconv.ParseBool`, with false on an error
abbrev pub is_one_of : List ℕ → List String → Bool
is_one_of cs [] = false
is_one_of cs (name ∷ names) = bytes_equal cs (codes name) || is_one_of cs names

unfoldable pub parse_bool : List ℕ → Bool
parse_bool cs = is_one_of cs ("1" ∷ "t" ∷ "T" ∷ "TRUE" ∷ "true" ∷ "True" ∷ [])

-- `parseTable` and `parseField`
unfoldable pub parse_table : List ℕ → List ℕ
unfolding scan_word
parse_table arg = scan_word "table: " arg

unfoldable pub parse_field : List ℕ → List ℕ
unfolding scan_word
parse_field arg = scan_word "field: " arg

-- The second piece of `strings.SplitN(arg, " ", 2)`, or the empty text
abbrev pub second_piece : List (List ℕ) → List ℕ
second_piece [] = []
second_piece (piece ∷ []) = []
second_piece (piece ∷ next ∷ pieces) = next

module _ (parse_mac : List ℕ → List ℕ) (parse_ip : List ℕ → List ℕ) where
  -- `parseKey`
  unfoldable pub parse_key : List ℕ → DictKey
  unfolding contains scan_word scan_uint32
  parse_key arg =
      if contains arg (codes "key_string: ")
      then string_key (scan_word "key_string: " arg)
      else if contains arg (codes "key_int: ")
      then uint32_key (scan_uint32 "key_int: " arg)
      else if contains arg (codes "key_mac: ")
      then mac_key (parse_mac (scan_word "key_mac: " arg))
      else if contains arg (codes "key_ip: ")
      then ip_key (parse_ip (scan_word "key_ip: " arg))
      else if contains arg (codes "key_ip6: ")
      then ip_key (parse_ip (scan_word "key_ip6: " arg))
      else no_key

  -- `parseValue`
  unfoldable pub parse_value : List ℕ → DictValue
  unfolding contains scan_word scan_int parse_bool split_n
  parse_value arg =
      if contains arg (codes "string: ")
      then string_value (second_piece (split_n 2 arg))
      else if contains arg (codes "int: ")
      then int32_value (scan_int 31 "int: " arg)
      else if contains arg (codes "int64: ")
      then int64_value (scan_int 63 "int64: " arg)
      else if contains arg (codes "mac: ")
      then mac_value (parse_mac (scan_word "mac: " arg))
      else if contains arg (codes "ip: ")
      then ip_value (parse_ip (scan_word "ip: " arg))
      else if contains arg (codes "ip6: ")
      then ip_value (parse_ip (scan_word "ip6: " arg))
      else if contains arg (codes "bool: ")
      then bool_value (parse_bool (scan_word "bool: " arg))
      else no_value

  -- The loop of `parseEntry`, for one argument
  unfoldable pub parse_argument : Entry → List ℕ → Entry
  unfolding contains parse_table parse_field parse_key parse_value
  parse_argument entry arg =
      if contains arg (codes "table: ")
      then record entry { table = parse_table arg }
      else if contains arg (codes "field: ")
      then record entry { field = parse_field arg }
      else if contains arg (codes "key_")
      then record entry { key = parse_key arg }
      else record entry { value = parse_value arg }

  abbrev pub empty_entry : Entry
  empty_entry = record { table = []; key = no_key; field = []; value = no_value }

module _ (parse_mac : List ℕ → List ℕ) (parse_ip : List ℕ → List ℕ) (has_room : Bool) where
  -- The pieces two by two. Of fewer than eight pieces the slice expression takes what follows in the
  -- capacity of the slice, which is empty texts, or panics if there is no room.
  unfoldable pub parse_pieces : ℕ → Entry → List (List ℕ) → Option Entry
  unfolding parse_argument
  parse_pieces zero entry pieces = some entry
  parse_pieces (suc n) entry [] =
      let rest = parse_pieces n (parse_argument parse_mac parse_ip entry (b' ' ∷ [])) [] in
      if has_room then rest else none
  parse_pieces (suc n) entry (piece ∷ []) =
      let rest =
        parse_pieces n (parse_argument parse_mac parse_ip entry (piece ++ (b' ' ∷ []))) [] in
      if has_room then rest else none
  parse_pieces (suc n) entry (name ∷ rest ∷ pieces) =
      parse_pieces n (parse_argument parse_mac parse_ip entry (name ++ (b' ' ∷ rest))) pieces

-- `parseEntry`; `none` is a panic.
module _ (parse_mac parse_ip : List ℕ → List ℕ) (has_room : List ℕ → Bool) where
  unfoldable pub parse_entry : List ℕ → Option Entry
  unfolding parse_pieces split_n
  parse_entry line =
      parse_pieces parse_mac parse_ip (has_room line) 4 (empty_entry parse_mac parse_ip)
        (split_n 8 line)
