-- ===== src/Dns/Handler.antt =====
-- plugins/dns/dns.go: PluginNfqueueHandler, which keeps the name of a query with its session, caches
-- the addresses of the reply, and hints at the names of the addresses of a new session. The layer
-- that gopacket finds, and the text form of an address, are inputs.
pub mod Keeping
pub mod Hints
use packetd.Base.{
  ℕ, String, Bool, true, false, Option, none, some, List, [], ◌∷◌, ◌==◌, ◌||◌, not, ltb,
  if◌then◌else◌,
}
use packetd.Base.Text.{is_empty_text}
use packetd.Dispatch.Ip.{Ip}
use packetd.Dispatch.Tuple.{Tuple}
use packetd.Dispatch.State.{World, Value, nil, text, number, flag}
use packetd.Dispatch.Session.{get_conntrack_id, get_attachment}
use packetd.Dispatch.SessionTable.{dict_add}
use packetd.Dispatch.Attachments.{attach}
use packetd.Dns.{AddressTable, find_address, insert_address}

-- The fields of gopacket's `layers.DNS` that the handler reads
pub record Question : Type 0 where
  pub name : String
  pub kind : ℕ

pub record Resource : Type 0 where
  pub kind : ℕ
  pub ip : Ip
  pub ttl : ℕ

pub record DnsLayer : Type 0 where
  pub qr : Bool
  pub qd_count : ℕ
  pub an_count : ℕ
  pub questions : List Question
  pub answers : List Resource

-- `DNSTypeA` or `DNSTypeAAAA`
abbrev pub is_address_kind : ℕ → Bool
is_address_kind kind = kind == 1 || kind == 28

-- The world, the cache, and `SessionRelease` of the result
pub record Handled : Type 0 where
  pub world : World
  pub names : AddressTable
  pub session_release : Bool

-- A hint that is not empty goes to the dictionary and to the session.
unfoldable pub set_hint : World → ℕ → String → String → World
unfolding get_conntrack_id
set_hint w sess field hint =
    if is_empty_text hint
    then w
    else attach (dict_add w (get_conntrack_id (w.sessions.cell sess)) field (text hint)) sess field
        (text hint)

-- A query: the name of its first question is kept, if it asks for an address. `none` is the panic
-- of an index out of range.
unfoldable pub handle_query : Handled → ℕ → DnsLayer → Option Handled
handle_query h sess dns = if ltb dns.qd_count 1 then some h else elim dns.questions [
  | [] ↦ none
  | query ∷ others ↦ some (
      if is_address_kind query.kind
      then record h {
        world = attach h.world sess "dns_query" (text query.name);
        session_release = false;
      }
      else h)
]

module _ (ip_text : Ip → String) where
  -- The hints for a new session; the event that is logged is output.
  unfoldable pub set_hints : World → AddressTable → ℕ → Tuple → World
  unfolding set_hint find_address
  set_hints w names sess tuple =
      set_hint (set_hint w sess "client_dns_hint" (find_address ip_text names tuple.client_address))
        sess "server_dns_hint" (find_address ip_text names tuple.server_address)

  -- The type assertion `qname.(string)`
  unfoldable pub insert_answer : ℕ → Value → AddressTable → Resource → Option AddressTable
  unfolding insert_address
  insert_answer now (text qname) names val =
      some (insert_address ip_text now names val.ip qname val.ttl)
  insert_answer now nil names val = none
  insert_answer now (number n) names val = none
  insert_answer now (flag b) names val = none

  -- The loop over the answers
  unfoldable pub insert_answers : ℕ → Value → AddressTable → List Resource → Option AddressTable
  unfolding insert_answer
  insert_answers now qname names [] = some names
  insert_answers now qname names (val ∷ answers) =
      let skipped = insert_answers now qname names answers in
      if is_address_kind val.kind
      then elim (insert_answer now qname names val) [
        | none ↦ none
        | some more ↦ insert_answers now qname more answers
      ]
      else skipped

  abbrev pub with_names : Handled → Option AddressTable → Option Handled
  with_names h none = none
  with_names h (some names) = some (record h { names = names })

  -- A reply, for the name that was kept with the session
  unfoldable pub reply_for : ℕ → Handled → DnsLayer → Value → Option Handled
  unfolding insert_answers
  reply_for now h dns nil = some h
  reply_for now h dns qname =
      let inserted = insert_answers now qname h.names dns.answers in
      if ltb dns.an_count 1 then some h else with_names h inserted

  unfoldable pub handle_reply : ℕ → Handled → ℕ → DnsLayer → Option Handled
  unfolding get_attachment reply_for
  handle_reply now h sess dns =
      reply_for now h dns (get_attachment (h.world.sessions.cell sess) "dns_query")

  unfoldable pub handle_layer : ℕ → Handled → ℕ → Option DnsLayer → Option Handled
  unfolding handle_query handle_reply
  handle_layer now h sess none = some h
  handle_layer now h sess (some dns) =
      if dns.qr then handle_reply now h sess dns else handle_query h sess dns

  -- `PluginNfqueueHandler`: without a packet the session is over.
  unfoldable pub plugin_nfqueue_handler :
      ℕ → World → AddressTable → ℕ → Tuple → Option (Option DnsLayer) → Bool → Option Handled
  unfolding set_hints handle_layer
  plugin_nfqueue_handler now w names sess tuple none new_session =
      some (record { world = w; names = names; session_release = true })
  plugin_nfqueue_handler now w names sess tuple (some layer) new_session =
      let hinted = if new_session then set_hints w names sess tuple else w in
      handle_layer now (record { world = hinted; names = names; session_release = true }) sess layer
