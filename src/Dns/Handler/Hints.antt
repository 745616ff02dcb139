-- ===== src/Dns/Handler/Hints.antt =====
-- A name that was asked for is a hint for the sessions with its addresses.
use packetd.Base.{
  ℕ, ◌≡◌, refl, subst, ap, ◌∙◌, String, Bool, true, false, Option, some, List, [], ◌∷◌, ◌||◌, ◌&&◌,
  ltb, if◌then◌else◌, arith, Bool-cases, inl, inr,
}
use packetd.Base.Text.{is_empty_text}
use packetd.Base.Keys.{string_key}
use packetd.Base.Table.{get-put}
use packetd.Dispatch.Ip.{Ip}
use packetd.Dispatch.Tuple.{Tuple}
use packetd.Dispatch.State.{World, text}
use packetd.Dispatch.Session.{get_attachment}
use packetd.Dispatch.Attachments.{attach}
use packetd.Dispatch.Attachments.Agreement.{IsNamed, attachments-attach}
use packetd.Dns.{AddressTable, find_address, insert_address}
use packetd.Dns.Lookup.{find_address_lem}
use packetd.Dns.Handler.Keeping.{
  hint_of_server, address_of, set_hints-IsNamed, is_plain, layer_keeps,
}
use packetd.Dns.Handler.{
  Question, Resource, DnsLayer, is_address_kind, Handled, handle_query, set_hints, insert_answer,
  insert_answers, reply_for, handle_reply, handle_layer, plugin_nfqueue_handler,
}

module _ (ip_text : Ip → String) where
  -- One of the answers gives an address of this text.
  abbrev pub answers_address : List Resource → String → Bool
  answers_address [] t = false
  answers_address (val ∷ answers) t =
      (is_address_kind val.kind && string_key.same (ip_text val.ip) t) || answers_address answers t

  -- All the addresses of a reply get the name, and the others keep theirs.
  insert_answers_lem :
      (now : ℕ) (q : String) (answers : List Resource) (names : AddressTable)
      → (names' : AddressTable) × (insert_answers ip_text now (text q) names answers ≡ some names')
        × ((a : Ip)
            → find_address ip_text names' a
              ≡ (if answers_address answers (ip_text a) then q else find_address ip_text names a))
  unfolding insert_answers insert_answer
  insert_answers_lem now q [] names = (names, refl, λ a. refl)
  insert_answers_lem now q (val ∷ answers) names = elim (Bool-cases (is_address_kind val.kind)) [
    | inl e ↦
        let next = insert_address ip_text now names val.ip q val.ttl in
        let (names', r, found) = insert_answers_lem now q answers next in
        (
          names',
          rw (e, insert_answers) r,
          λ a.
              ground (arith, e, found a, (find_address_lem ip_text now names val.ip a q val.ttl).0),
        )
    | inr e ↦
        let (names', r, found) = insert_answers_lem now q answers names in
        (names', rw (e, insert_answers) r, λ a. ground (arith, e, found a))
  ]

module _ (ip_text : Ip → String) where
  asked :
      (w : World) (names : AddressTable) (sess : ℕ) (query : Question) (others : List Question)
      (dns : DnsLayer)
      → ltb dns.qd_count 1 ≡ false
      → dns.questions ≡ query ∷ others
      → is_address_kind query.kind ≡ true
      → handle_query (record { world = w; names = names; session_release = true }) sess dns
        ≡ some (record {
          world = attach w sess "dns_query" (text query.name);
          names = names;
          session_release = false;
        })
  unfolding handle_query
  asked w names sess query others dns c q k = rw (c, q, k) refl

  query_kept :
      (w : World) (sess : ℕ) (t : String)
      → get_attachment ((attach w sess "dns_query" (text t)).sessions.cell sess) "dns_query"
        ≡ text t
  unfolding get_attachment
  query_kept w sess t = ground (
    arith,
    attachments-attach w sess "dns_query" (text t),
    get-put (w.sessions.cell sess).attachments "dns_query" "dns_query" (text t),
    string_key.same_iff "dns_query" "dns_query",
  )

  replied :
      (now : ℕ) (h : Handled) (sess : ℕ) (t : String) (dns : DnsLayer) (names' : AddressTable)
      → get_attachment (h.world.sessions.cell sess) "dns_query" ≡ text t
      → ltb dns.an_count 1 ≡ false
      → insert_answers ip_text now (text t) h.names dns.answers ≡ some names'
      → handle_reply ip_text now h sess dns ≡ some (record h { names = names' })
  unfolding handle_reply reply_for
  replied now h sess t dns names' q c r = ap (reply_for ip_text now h dns) q ∙ rw (c, r) refl

  -- A query for an address, by a name that is not empty, keeps its session in the queue, also when
  -- it is the session's first packet. The reply, as the handler's next call and on that session, with
  -- at least one answer, lets it go and caches the addresses. If the call after that is for the
  -- first packet of a session whose server or client has one of these addresses, and this packet
  -- has no DNS layer or a query with the question that it counts, that session is given the name as
  -- its hint, in its attachments and in the dictionary. None of these three calls panics.
  pub query_then_reply_then_hint :
      (server fresh : Bool) (now later latest : ℕ) (w other_w : World) (names : AddressTable)
      (sess other_sess : ℕ) (tuple other_tuple : Tuple) (query : Question) (others : List Question)
      (dns reply : DnsLayer) (layer : Option DnsLayer)
      → dns.qr ≡ false
      → ltb dns.qd_count 1 ≡ false
      → dns.questions ≡ query ∷ others
      → is_address_kind query.kind ≡ true
      → is_empty_text query.name ≡ false
      → reply.qr ≡ true
      → ltb reply.an_count 1 ≡ false
      → answers_address ip_text reply.answers (ip_text (address_of server other_tuple)) ≡ true
      → is_plain layer ≡ true
      → (first : Handled) × (plugin_nfqueue_handler ip_text now w names sess tuple
            (some (some dns))
            fresh
          ≡ some first)
        × (first.session_release ≡ false)
        × ((second : Handled) × (plugin_nfqueue_handler ip_text later first.world first.names sess
                tuple
                (some (some reply))
                false
              ≡ some second)
            × (second.session_release ≡ true)
            × ((third : Handled) × (plugin_nfqueue_handler ip_text latest other_w second.names
                    other_sess other_tuple
                    (some layer)
                    true
                  ≡ some third)
                × IsNamed third.world other_sess (hint_of_server server) query.name))
  unfolding plugin_nfqueue_handler handle_layer
  query_then_reply_then_hint server fresh now later latest w other_w names sess other_sess tuple
        other_tuple query others dns reply layer qr c q k e qr' c' a p =
      let hinted = if fresh then set_hints ip_text w names sess tuple else w in
      let w' = attach hinted sess "dns_query" (text query.name) in
      let start : Handled = record { world = w'; names = names; session_release = true } in
      let (names', r, found) = insert_answers_lem ip_text later query.name reply.answers names in
      let named : find_address ip_text names' (address_of server other_tuple) ≡ query.name =
        found (address_of server other_tuple) ∙ rw a refl in
      (
        record { world = w'; names = names; session_release = false },
        rw (qr, asked hinted names sess query others dns c q k) refl,
        refl,
        (
          record { world = w'; names = names'; session_release = true },
          rw
              (
                qr',
                replied later start sess query.name reply names' (query_kept hinted sess query.name)
                    c' r,
              )
              refl,
          refl,
          layer_keeps ip_text server latest
              (set_hints ip_text other_w names' other_sess other_tuple) names' other_sess query.name
              layer p
              (subst
                (IsNamed (set_hints ip_text other_w names' other_sess other_tuple) other_sess
                  (hint_of_server server))
                named
                (set_hints-IsNamed ip_text server other_w names' other_sess other_tuple
                  (ap is_empty_text named ∙ e))),
        ),
      )
