-- ===== src/Dns/Handler/Keeping.antt =====
-- The hints of a session, and what the handler of its packet's layer leaves of them.
use packetd.Base.{
  ℕ, ◌≡◌, refl, String, Bool, true, false, not, Option, none, some, List, [], ◌∷◌, ◌||◌, ◌&&◌, ltb,
  arith, Bool-cases, inl, inr,
}
use packetd.Base.Text.{is_empty_text}
use packetd.Base.Keys.{string_key}
use packetd.Dispatch.Ip.{Ip}
use packetd.Dispatch.Tuple.{Tuple}
use packetd.Dispatch.State.{World, text}
use packetd.Dispatch.Attachments.{attach, is_written}
use packetd.Dispatch.Attachments.Agreement.{IsNamed, both-IsNamed, other-IsNamed, attach-IsNamed}
use packetd.Dns.{AddressTable, find_address}
use packetd.Dns.Handler.{
  Question, DnsLayer, is_address_kind, Handled, set_hint, handle_query, set_hints, handle_layer,
}

written : (t : String) → is_empty_text t ≡ false → is_written (text t) ≡ true
unfolding is_written
written String.[] h = cc
written (String.◌∷◌ c s) h = refl

set_hint-IsNamed :
    (w : World) (sess : ℕ) (field hint : String)
    → is_empty_text hint ≡ false
    → IsNamed (set_hint w sess field hint) sess field hint
unfolding set_hint
set_hint-IsNamed w sess field hint h = rw h (both-IsNamed w sess field hint (written hint h))

set_hint-keeps :
    (w : World) (sess : ℕ) (field other t hint : String)
    → string_key.same other field ≡ false
    → IsNamed w sess field t
    → IsNamed (set_hint w sess other hint) sess field t
unfolding set_hint
set_hint-keeps w sess field other t hint d h = elim (Bool-cases (is_empty_text hint)) [
  | inl e ↦ rw e h
  | inr e ↦ rw e (other-IsNamed w sess _ field other t (text hint) d h)
]

-- The two hints of a new session
abbrev pub hint_of_server : Bool → String
hint_of_server false = "client_dns_hint"
hint_of_server true = "server_dns_hint"

query-hint : (server : Bool) → string_key.same "dns_query" (hint_of_server server) ≡ false
query-hint false = refl
query-hint true = refl

abbrev pub address_of : Bool → Tuple → Ip
address_of false tuple = tuple.client_address
address_of true tuple = tuple.server_address

-- A packet has no DNS layer, or a query with the question that it counts.
abbrev pub is_plain : Option DnsLayer → Bool
is_plain none = true
is_plain (some dns) =
    not dns.qr && (ltb dns.qd_count 1 || elim dns.questions [ [] ↦ false | q ∷ qs ↦ true ])

module _ (ip_text : Ip → String) where
  pub set_hints-IsNamed :
      (server : Bool) (w : World) (names : AddressTable) (sess : ℕ) (tuple : Tuple)
      → is_empty_text (find_address ip_text names (address_of server tuple)) ≡ false
      → IsNamed
          (set_hints ip_text w names sess tuple)
          sess
          (hint_of_server server)
          (find_address ip_text names (address_of server tuple))
  unfolding set_hints
  set_hints-IsNamed false w names sess tuple h =
      set_hint-keeps _ sess "client_dns_hint" "server_dns_hint" _ _ refl
        (set_hint-IsNamed w sess "client_dns_hint" _ h)
  set_hints-IsNamed true w names sess tuple h = set_hint-IsNamed _ sess "server_dns_hint" _ h

  query_keeps :
      (server : Bool) (w : World) (names : AddressTable) (sess : ℕ) (t : String) (dns : DnsLayer)
      (questions : List Question)
      → dns.questions ≡ questions
      → is_plain (some dns) ≡ true
      → IsNamed w sess (hint_of_server server) t
      → let h : Handled = record { world = w; names = names; session_release = true } in
        (h' : Handled) × (handle_query h sess dns ≡ some h')
        × IsNamed h'.world sess (hint_of_server server) t
  unfolding handle_query
  query_keeps server w names sess t dns [] e p n =
      let h : Handled = record { world = w; names = names; session_release = true } in
      let counts_none : ltb dns.qd_count 1 ≡ true = ground (arith, e, p) in
      (h, rw counts_none refl, n)
  query_keeps server w names sess t dns (query ∷ others) e p n =
      let h : Handled = record { world = w; names = names; session_release = true } in
      let asked : Handled = record {
        world = attach w sess "dns_query" (text query.name);
        names = names;
        session_release = false;
      } in
      let kept =
        attach-IsNamed w sess (hint_of_server server) "dns_query" t (text query.name)
          (query-hint server) n in
      elim (Bool-cases (ltb dns.qd_count 1)) [
        | inl c ↦ (h, rw c refl, n)
        | inr c ↦ elim (Bool-cases (is_address_kind query.kind)) [
          | inl k ↦ (asked, rw (c, e, k) refl, kept)
          | inr k ↦ (h, rw (c, e, k) refl, n)
        ]
      ]

  pub layer_keeps :
      (server : Bool) (now : ℕ) (w : World) (names : AddressTable) (sess : ℕ) (t : String)
      (layer : Option DnsLayer)
      → is_plain layer ≡ true
      → IsNamed w sess (hint_of_server server) t
      → let h : Handled = record { world = w; names = names; session_release = true } in
        (h' : Handled) × (handle_layer ip_text now h sess layer ≡ some h')
        × IsNamed h'.world sess (hint_of_server server) t
  unfolding handle_layer
  layer_keeps server now w names sess t none p n =
      (record { world = w; names = names; session_release = true }, refl, n)
  layer_keeps server now w names sess t (some dns) p n =
      let query : dns.qr ≡ false = ground (arith, p) in
      rw query (query_keeps server w names sess t dns dns.questions refl p n)
