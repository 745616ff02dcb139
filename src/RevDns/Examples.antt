-- ===== src/RevDns/Examples.antt =====
-- An address with two names, looked up for two sessions.
use packetd.Base.{◌≡◌, refl, String, true, Option, none, some, List, [], ◌∷◌, arith}
use packetd.Base.Text.{join, join_onto}
use packetd.Base.Table.{get}
use packetd.Dispatch.State.{World, text}
use packetd.Dispatch.Attachments.{is_written}
use packetd.Dispatch.Examples.Data.{empty_world, session_world}
use packetd.RevDns.{
  ReverseCache, new_holder, find_reverse, clean_reverse_table, begin_lookup, client_side,
  server_side, keyname_of, plugin_nfqueue_handler,
}
use packetd.RevDns.Flights.{begin_then_clean}
use packetd.Dispatch.Attachments.Agreement.{IsNamed}
use packetd.RevDns.Naming.{handlers_share_names}

abbrev no_holders : ReverseCache
no_holders = record { reverse_table = []; holders = record { next = 0; cell = λ p. new_holder } }

abbrev address : String
address = "10.0.0.1"

abbrev names : Option (List String)
names = some ("host" ∷ "www" ∷ [])

nothing_found : find_reverse no_holders address ≡ none
unfolding find_reverse get
nothing_found = refl

names-written : is_written (text (join ("host" ∷ "www" ∷ []))) ≡ true
unfolding is_written join join_onto
names-written = refl

begin_then_clean_example :
    find_reverse (clean_reverse_table 500000000000 (begin_lookup no_holders address).0) address
    ≡ none
begin_then_clean_example = begin_then_clean 500000000000 no_holders address (omega arith)

handlers_share_names_example :
    ((w' : World) × ((plugin_nfqueue_handler client_side 7000000000 names empty_world no_holders 0
          address true).1
        ≡ some w')
      × IsNamed w' 0 (keyname_of client_side) (join ("host" ∷ "www" ∷ [])))
    × ((w' : World) × ((plugin_nfqueue_handler server_side 9000000000 none session_world
            (plugin_nfqueue_handler client_side 7000000000 names empty_world no_holders 0 address
              true).0
            1
            address
            true).1
          ≡ some w')
        × IsNamed w' 1 (keyname_of server_side) (join ("host" ∷ "www" ∷ [])))
handlers_share_names_example =
    handlers_share_names client_side server_side 7000000000 9000000000 "host" ("www" ∷ []) none
      empty_world session_world no_holders 0 1 address nothing_found names-written
