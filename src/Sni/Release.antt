-- ===== src/Sni/Release.antt =====
-- For which payloads the search for a server name is given up.
use packetd.Base.{
  ℕ, ◌≡◌, ◌≢◌, refl, Bool, true, false, not, ◌&&◌, ◌||◌, Option, none, some, List, [], ◌∷◌, length,
  ◌==◌, ltb, if◌then◌else◌, arith, Bool-cases, inl, inr,
}
use packetd.Dispatch.Nfqueue.{NfqueueMessage, TcpLayer}
use packetd.Sni.{
  Extraction, extracted, index_panic, unfinished, check_header, skip_session_id,
  extract_sni_hostname, Verdict, without_name, judge, max_packet_count, plugin_nfqueue_handler,
}
use packetd.Sni.Termination.{is_decided, skip_session_id_lem}

-- The first bytes of a TLS record with a ClientHello.
abbrev pub starts_hello : List ℕ → Bool
starts_hello (b0 ∷ b1 ∷ b2 ∷ b3 ∷ b4 ∷ b5 ∷ rest) =
    (b0 == 0x16) && ((b1 == 0x03) && (not (ltb b2 0x01) && (b5 == 0x01)))
starts_hello other = false

abbrev pub is_client_hello : List ℕ → Bool
is_client_hello buffer = not (ltb (length buffer) 48) && starts_hello buffer

header_lem :
    (buffer : List ℕ) (next : Extraction)
    → ltb (length buffer) 48 ≡ false
    → check_header buffer next ≡ (if starts_hello buffer then next else extracted false [])
unfolding check_header
header_lem [] next h = cc
header_lem (b0 ∷ []) next h = cc
header_lem (b0 ∷ b1 ∷ []) next h = cc
header_lem (b0 ∷ b1 ∷ b2 ∷ []) next h = cc
header_lem (b0 ∷ b1 ∷ b2 ∷ b3 ∷ []) next h = cc
header_lem (b0 ∷ b1 ∷ b2 ∷ b3 ∷ b4 ∷ []) next h = cc
header_lem (b0 ∷ b1 ∷ b2 ∷ b3 ∷ b4 ∷ b5 ∷ rest) next h = ground arith

pub extract_lem :
    (buffer : List ℕ)
    → extract_sni_hostname buffer
      ≡ (if is_client_hello buffer then skip_session_id buffer else extracted false [])
unfolding extract_sni_hostname
extract_lem buffer = elim (Bool-cases (ltb (length buffer) 48)) [
  | inl t ↦ rw t refl
  | inr f ↦ rw f (header_lem buffer (skip_session_id buffer) f)
]

-- The result asks for more packets.
abbrev pub keeps_on : Extraction → Bool
keeps_on (extracted release name) = not release
keeps_on index_panic = false
keeps_on unfinished = false

decided-kept : (x : Extraction) → is_decided x ≡ true → (keeps_on x ≡ false) × (x ≢ unfinished)
decided-kept (extracted release name) h = ground arith
decided-kept index_panic h = ground arith
decided-kept unfinished h = cc

-- For every buffer, extractSNIhostname returns or panics on an index; it returns without the release
-- flag exactly if the buffer has less than 48 bytes or does not start as a TLS ClientHello.
pub extract_sni_hostname_lem :
    (buffer : List ℕ)
    → (extract_sni_hostname buffer ≢ unfinished)
      × (keeps_on (extract_sni_hostname buffer) ≡ not (is_client_hello buffer))
extract_sni_hostname_lem buffer = elim (Bool-cases (is_client_hello buffer)) [
  | inl t ↦
      let d = decided-kept (skip_session_id buffer) (skip_session_id_lem buffer) in
      rw (extract_lem buffer, t) (d.1, d.0)
  | inr f ↦ rw (extract_lem buffer, f) (ground arith)
]

-- The handler returns and keeps the session.
abbrev pub keeps_session : Option Verdict → Bool
keeps_session none = false
keeps_session (some v) = not v.release

judge-decided :
    (count : ℕ) (x : Extraction) → is_decided x ≡ true → keeps_session (judge count x) ≡ false
unfolding judge
judge-decided count (extracted release []) h = ground arith
judge-decided count (extracted release (c ∷ name)) h = refl
judge-decided count index_panic h = refl
judge-decided count unfinished h = refl

judge_lem :
    (count : ℕ) (buffer : List ℕ)
    → keeps_session (judge count (extract_sni_hostname buffer))
      ≡ (not (is_client_hello buffer) && ltb count max_packet_count)
judge_lem count buffer = elim (Bool-cases (is_client_hello buffer)) [
  | inl t ↦
      rw (extract_lem buffer, t)
        (judge-decided count (skip_session_id buffer) (skip_session_id_lem buffer))
  | inr f ↦ rw (extract_lem buffer, f) (unfold judge in ground arith)
]

-- The message is of a TCP packet from or to port 443.
abbrev pub is_tls_port : NfqueueMessage → Bool
is_tls_port mess = elim mess.packet.tcp_layer [
  | none ↦ false
  | some layer ↦ mess.msg_tuple.server_port == 443 || mess.msg_tuple.client_port == 443
]

by_port :
    (a b kept : Bool) (v : Option Verdict)
    → keeps_session v ≡ kept
    → keeps_session (if not a && not b then some (without_name true) else v) ≡ ((a || b) && kept)
by_port a b kept v h = ground (arith, h)

-- The handler keeps a session exactly for a TCP packet from or to port 443 whose payload is not a
-- ClientHello, while the session has counted less than 10 packets.
pub plugin_nfqueue_handler_lem :
    (mess : NfqueueMessage) (packet_count : ℕ)
    → keeps_session (plugin_nfqueue_handler mess packet_count) ≡ (
        is_tls_port mess
        && (not (is_client_hello mess.payload) && ltb packet_count max_packet_count))
unfolding plugin_nfqueue_handler
plugin_nfqueue_handler_lem mess packet_count = by_layer mess.packet.tcp_layer
  where
    by_layer :
        (o : Option TcpLayer)
        → keeps_session (elim o [
          | none ↦ some (without_name true)
          | some layer ↦
              if not (mess.msg_tuple.server_port == 443) && not (mess.msg_tuple.client_port == 443)
              then some (without_name true)
              else judge packet_count (extract_sni_hostname mess.payload)
        ])
          ≡ (elim o [
            | none ↦ false
            | some layer ↦ mess.msg_tuple.server_port == 443 || mess.msg_tuple.client_port == 443
          ]
              && (not (is_client_hello mess.payload) && ltb packet_count max_packet_count))
    by_layer none = refl
    by_layer (some layer) =
        by_port (mess.msg_tuple.server_port == 443) (mess.msg_tuple.client_port == 443) _ _
          (judge_lem packet_count mess.payload)
