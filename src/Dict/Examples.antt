-- ===== src/Dict/Examples.antt =====
-- Lines of the dictionary, and a session that the cleaning removes after an hour.
use packetd.Base.{
  ℕ, ◌+◌, ◌^◌, ◌<◌, ◌≡◌, refl, String, Bool, true, false, Option, none, some, List, [], ◌∷◌, ◌++◌,
  ◌||◌, ◌&&◌, arith, bytes_equal,
}
use packetd.Base.Text.{codes, digits, digits_value}
use packetd.Base.Table.{get}
use packetd.Base.Keys.{nat_key}
use packetd.Dispatch.SessionTable.Cleaning.{asked_delete}
use packetd.Base.Table.{has}
use packetd.Base.Decimal.{itoa, digits_before}
use packetd.Dict.Writing.{
  WrittenValue, token, generate_table, generate_field, generate_key, generate_value, add_entry,
  add_session_entry,
}
use packetd.Dict.Writing.Tokens.{add_session_entry-line}
use packetd.Dict.Cleanup.{CleanupState, split_lines, parse_uint, clean_dictionary}
use packetd.Dict.Cleanup.Removal.{
  AreWords, no_lines, one_line, is_listed, is_due, clean_dictionary-asks,
}
use packetd.Dict.Cleanup.Ageing.{clean_dictionary-twice}
use packetd.Dict.Lines.{Entry, uint32_key, string_value, contains, has_prefix, parse_entry}
use packetd.Dict.Lines.Scanning.{has_space}
use packetd.Dict.Lines.RoundTrip.{line_of, parse_entry-string}
use packetd.Dict.Lines.Confusion.{IsNoKey}
use packetd.Dict.Reading.{Sessions, Read, read, collect, get_sessions}
use packetd.Dict.Reading.Sessions.{value_in, collect_lem}
use packetd.Dict.Reading.Blocked.{is_blocked, get_sessions-blocked}

abbrev out : List ℕ
out = codes "5\n"

abbrev nothing_known : CleanupState
nothing_known = record { cleanup_table = []; calls = [] }

five_fits : (idx : ℕ) → parse_uint (codes "5") ≡ some idx → idx < 2 ^ 32
unfolding parse_uint digits digits_value
five_fits idx e = let same : 5 ≡ idx = cc in omega (arith, same)

nothing_fits : (idx : ℕ) → parse_uint [] ≡ some idx → idx < 2 ^ 32
unfolding parse_uint digits
nothing_fits idx e = cc

out-AreWords : AreWords (split_lines out)
unfolding split_lines
out-AreWords = one_line five_fits (one_line nothing_fits no_lines)

five_listed : is_listed (split_lines out) 5 ≡ true
unfolding split_lines parse_uint digits digits_value
five_listed = refl

nothing_there : get nothing_known.cleanup_table 5 ≡ none
unfolding get
nothing_there = refl

clean_dictionary-twice_example :
    asked_delete 5
      (clean_dictionary 5000 (some out) (clean_dictionary 1000 (some out) nothing_known)).calls
    ≡ true
clean_dictionary-twice_example =
    clean_dictionary-twice 1000 5000 out out nothing_known 5 out-AreWords nothing_there five_listed
      five_listed (omega arith)

clean_dictionary-asks_example :
    (asked_delete 5 (clean_dictionary 5000 (some out) nothing_known).calls ≡ (
      asked_delete 5 nothing_known.calls
      || (is_listed (split_lines out) 5 && is_due 5000 nothing_known 5)))
    × (clean_dictionary 5000 none nothing_known ≡ nothing_known)
clean_dictionary-asks_example = clean_dictionary-asks 5000 out nothing_known 5 out-AreWords

abbrev same_text : List ℕ → List ℕ
same_text cs = cs

abbrev always_room : List ℕ → Bool
always_room line = true

abbrev sessions_word : List ℕ
sessions_word = codes "sessions"

abbrev sni_word : List ℕ
sni_word = codes "ssl_sni"

parse_entry-string_example :
    parse_entry same_text same_text always_room
      (line_of sessions_word 5 sni_word (codes "string:") (codes "a host"))
    ≡ some (record {
      table = sessions_word;
      key = uint32_key 5;
      field = sni_word;
      value = string_value (codes "a host");
    })
unfolding has_space contains has_prefix
parse_entry-string_example =
    parse_entry-string same_text same_text always_room sessions_word 5 sni_word (codes "a host")
      refl refl (omega arith) refl refl refl

abbrev monkey : List ℕ
monkey = codes "monkey_tree.com"

monkey-IsNoKey : IsNoKey monkey
unfolding contains has_prefix
monkey-IsNoKey = record {
  no_string = refl;
  no_int = refl;
  no_mac = refl;
  no_ip = refl;
  no_ip6 = refl;
}

get_sessions-blocked_example :
    is_blocked (
      get_sessions same_text same_text always_room
        (some ([] ++ (line_of sessions_word 5 sni_word (codes "string:") monkey ∷ []))))
    ≡ true
unfolding has_space contains has_prefix
get_sessions-blocked_example =
    get_sessions-blocked same_text same_text always_room [] [] sessions_word 5 sni_word monkey refl
      refl (omega arith) refl refl refl monkey-IsNoKey

abbrev entry : Entry
entry = record {
  table = sessions_word;
  key = uint32_key 5;
  field = sni_word;
  value = string_value monkey;
}

abbrev collected : Sessions
collected = (5, ((sni_word, string_value monkey) ∷ [])) ∷ []

collects : collect [] (entry ∷ []) ≡ read collected
unfolding collect packetd.Dict.Reading.add_value get packetd.Base.Table.put
    packetd.Base.Table.remove
collects = refl

collect_lem_example : value_in collected 5 sni_word ≡ some (string_value monkey)
unfolding bytes_equal
collect_lem_example = collect_lem (entry ∷ []) [] collected 5 sni_word collects

abbrev no_text : List ℕ → String
no_text bytes = ""

abbrev sni_value : WrittenValue
sni_value = WrittenValue.string_value "a.example"

sni_written :
    add_session_entry no_text no_text 5 "ssl_sni" sni_value
    ≡ some "table=sessions,key_int=5,field=ssl_sni,value=a.example"
unfolding add_session_entry add_entry generate_table generate_key generate_field generate_value
    token itoa digits_before
sni_written = refl

no_comma_in_field : has (codes "ssl_sni") b',' ≡ false
unfolding has
no_comma_in_field = refl

abbrev five : ℕ
five = 5

abbrev field_name : String
field_name = "ssl_sni"

add_session_entry-line_example :
    (five ≡ five)
    × ((field_name ≡ field_name)
        × (generate_value no_text no_text sni_value ≡ generate_value no_text no_text sni_value))
add_session_entry-line_example =
    add_session_entry-line no_text no_text 5 5 "ssl_sni" "ssl_sni" sni_value sni_value
      "table=sessions,key_int=5,field=ssl_sni,value=a.example" no_comma_in_field no_comma_in_field
      sni_written sni_written
