-- ===== src/Dns/Examples.antt =====
-- A cache with one name, keyed by a text of the first byte.
use packetd.Dispatch.State.{empty_tuple}
use packetd.Dispatch.Tuple.{Tuple}
use packetd.Dispatch.Attachments.Agreement.{IsNamed}
use packetd.Dns.Handler.{Question, DnsLayer, Handled, plugin_nfqueue_handler}
use packetd.Dns.Handler.Keeping.{hint_of_server}
use packetd.Dns.Handler.Hints.{query_then_reply_then_hint}
use packetd.Dispatch.Examples.Data.{empty_world, session_world, server_ip}
use packetd.Base.{some, true, false, refl}
use packetd.Base.{◌≡◌, String, some, true, false, none, [], ◌∷◌, if◌then◌else◌, arith}
use packetd.Base.{◌==◌}
use packetd.Base.Keys.{string_key}
use packetd.Base.Table.{get}
use packetd.Dispatch.Ip.{Ip}
use packetd.Dispatch.Examples.Data.{client_ip}
use packetd.Dns.{AddressTable, find_address, insert_address, clean_address_table}
use packetd.Dns.Keyed.{IsKeyed, insert_address-IsKeyed}
use packetd.Dns.Cleaning.{has_fresh, clean_address_table_lem, insert_then_clean}

abbrev short_text : Ip → String
short_text [] = "none"
short_text (b ∷ rest) = if b == 192 then "client" else "server"

abbrev no_names : AddressTable
no_names = []

no_names-IsKeyed : IsKeyed short_text no_names
unfolding get
no_names-IsKeyed = record { keyed = λ key val e. cc }

abbrev one_name : AddressTable
one_name = insert_address short_text 7000000000 no_names client_ip "host" 300

one_name-IsKeyed : IsKeyed short_text one_name
one_name-IsKeyed =
    insert_address-IsKeyed short_text 7000000000 no_names client_ip "host" 300 no_names-IsKeyed

clean_address_table_lem_example :
    get (clean_address_table short_text 7500000000 one_name) "client"
    ≡ (if has_fresh 7500000000 one_name "client" then none else get one_name "client")
clean_address_table_lem_example =
    clean_address_table_lem short_text 7500000000 one_name "client" one_name-IsKeyed

insert_then_clean_example :
    find_address short_text
      (clean_address_table short_text 9999000000000
        (insert_address short_text 7000000000 no_names client_ip "host" 300))
      client_ip
    ≡ "host"
insert_then_clean_example =
    insert_then_clean short_text 7000000000 9999000000000 no_names client_ip "host" 300
      no_names-IsKeyed (omega arith)

abbrev question : Question
question = record { name = "web.example"; kind = 1 }

abbrev query_layer : DnsLayer
query_layer = record {
  qr = false;
  qd_count = 1;
  an_count = 0;
  questions = question ∷ [];
  answers = [];
}

abbrev reply_layer : DnsLayer
reply_layer = record {
  qr = true;
  qd_count = 1;
  an_count = 2;
  questions = question ∷ [];
  answers =
      record { kind = 5; ip = []; ttl = 60 } ∷ record { kind = 1; ip = server_ip; ttl = 60 } ∷ [];
}

abbrev to_server : Tuple
to_server = record empty_tuple { client_address = client_ip; server_address = server_ip }

query_then_reply_then_hint_example :
    (first : Handled) × (plugin_nfqueue_handler short_text 1000 empty_world no_names 0 empty_tuple
        (some (some query_layer))
        true
      ≡ some first)
    × (first.session_release ≡ false)
    × ((second : Handled) × (plugin_nfqueue_handler short_text 2000 first.world first.names 0
            empty_tuple
            (some (some reply_layer))
            false
          ≡ some second)
        × (second.session_release ≡ true)
        × ((third : Handled) × (plugin_nfqueue_handler short_text 3000 session_world second.names 1
                to_server
                (some (some query_layer))
                true
              ≡ some third)
            × IsNamed third.world 1 (hint_of_server true) "web.example"))
query_then_reply_then_hint_example =
    query_then_reply_then_hint short_text true true 1000 2000 3000 empty_world session_world
      no_names 0 1 empty_tuple to_server question [] query_layer reply_layer (some query_layer) refl
      refl refl refl refl refl refl refl refl
