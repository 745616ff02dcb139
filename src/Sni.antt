-- ===== src/Sni.antt =====
-- plugins/sni/sni.go: the server name in the ClientHello that starts a TLS connection. A payload is
-- a list of bytes whose capacity is its length.
pub mod Termination
pub mod Release
pub mod Truncation
pub mod Examples
use packetd.Base.{
  ℕ, zero, suc, ◌+◌, ◌*◌, Bool, true, false, not, ◌&&◌, ◌||◌, Option, none, some, List, [], ◌∷◌,
  length, get_elem?, take, drop, ◌==◌, ltb, leb, if◌then◌else◌,
}
use packetd.Dispatch.Tuple.{Tuple}
use packetd.Dispatch.Nfqueue.{NfqueueMessage, Packet, TcpLayer}

-- How a run of `extractSNIhostname` ends: with its two results, by the panic of an index past the
-- end of the buffer, or without fuel.
pub data Extraction : Type 0 where
  extracted : Bool → List ℕ → Extraction
  index_panic : Extraction
  unfinished : Extraction

-- `buffer[i]`
abbrev pub with_byte : Option ℕ → (ℕ → Extraction) → Extraction
with_byte none next = index_panic
with_byte (some b) next = next b

-- `(int(buffer[i]) << 8) + int(buffer[i+1])`
unfoldable pub with_word : List ℕ → ℕ → (ℕ → Extraction) → Extraction
with_word buffer i next =
    with_byte (get_elem? buffer i)
      (λ high. with_byte (get_elem? buffer (i + 1)) (λ low. next (high * 256 + low)))

-- `string(buffer[spot : spot+nameLen])`, for a payload whose slice has no capacity past its length
unfoldable pub take_name : List ℕ → ℕ → ℕ → Extraction
take_name buffer spot name_len =
    if leb (spot + name_len) (length buffer)
    then extracted true (take name_len (drop spot buffer))
    else index_panic

-- The name of a server name extension, or what follows an entry of another type.
unfoldable pub read_name : List ℕ → Extraction → ℕ → Extraction
unfolding with_word take_name
read_name buffer skipped spot = with_byte (get_elem? buffer spot) (λ name_type.
    if name_type == 0
    then with_word buffer (spot + 1) (λ name_len. take_name buffer (spot + 3) name_len)
    else skipped)

-- One round of the loop over the extensions; `next` goes on from an offset.
unfoldable pub read_extension : List ℕ → (ℕ → Extraction) → ℕ → Extraction
unfolding with_word read_name
read_extension buffer next current = with_word buffer current (λ extension_type.
    with_word buffer (current + 2) (λ data_length.
      if not (extension_type == 0)
      then next (current + 4 + data_length)
      else read_name buffer (next (current + 4 + data_length)) (current + 6)))

-- `for current < len(buffer)`, on fuel.
unfoldable pub extension_loop : List ℕ → ℕ → ℕ → Extraction
unfolding read_extension
extension_loop buffer zero current = unfinished
extension_loop buffer (suc fuel) current = elim (ltb current (length buffer)) [
  | true ↦ read_extension buffer (extension_loop buffer fuel) current
  | false ↦ extracted true []
]

-- The length of all extensions, and the loop. Every round moves on by 4 bytes at least.
unfoldable pub read_extensions : List ℕ → ℕ → Extraction
unfolding with_word extension_loop
read_extensions buffer current = with_word buffer current (λ extensions_length.
    if extensions_length == 0
    then extracted true []
    else extension_loop buffer (suc (length buffer)) (current + 2))

-- The end of a field, which must lie before the end of the buffer.
unfoldable pub go_on : List ℕ → (ℕ → Extraction) → ℕ → Extraction
go_on buffer next current = if leb (length buffer) current then extracted true [] else next current

unfoldable pub skip_compression : List ℕ → ℕ → Extraction
unfolding go_on read_extensions
skip_compression buffer current =
    with_byte (get_elem? buffer current)
      (λ n. go_on buffer (read_extensions buffer) (current + 1 + n))

unfoldable pub skip_ciphers : List ℕ → ℕ → Extraction
unfolding go_on with_word skip_compression
skip_ciphers buffer current =
    with_word buffer current (λ n. go_on buffer (skip_compression buffer) (current + 2 + n))

unfoldable pub skip_session_id : List ℕ → Extraction
unfolding go_on skip_ciphers
skip_session_id buffer =
    with_byte (get_elem? buffer 43) (λ n. go_on buffer (skip_ciphers buffer) (44 + n))

-- The tests of the record's first bytes, in their order.
unfoldable pub check_header : List ℕ → Extraction → Extraction
check_header buffer next = with_byte (get_elem? buffer 0) (λ content.
    if not (content == 0x16)
    then extracted false []
    else with_byte (get_elem? buffer 1) (λ major.
      if not (major == 0x03)
      then extracted false []
      else with_byte (get_elem? buffer 2) (λ minor.
        if ltb minor 0x01
        then extracted false []
        else with_byte (get_elem? buffer 5)
            (λ type. if not (type == 0x01) then extracted false [] else next))))

-- `extractSNIhostname`
unfoldable pub extract_sni_hostname : List ℕ → Extraction
unfolding check_header skip_session_id
extract_sni_hostname buffer =
    if ltb (length buffer) 48
    then extracted false []
    else check_header buffer (skip_session_id buffer)

-- `maxPacketCount`
abbrev pub max_packet_count : ℕ
max_packet_count = 10

-- What the handler returns: whether it releases the session, and the name that it writes to the
-- dictionary as `ssl_sni`, if it finds one.
pub record Verdict : Type 0 where
  pub release : Bool
  pub ssl_sni : Option (List ℕ)

abbrev pub without_name : Bool → Verdict
without_name release = record { release = release; ssl_sni = none }

-- The handler once the payload was looked at; `none` is the panic.
unfoldable pub judge : ℕ → Extraction → Option Verdict
judge packet_count index_panic = none
judge packet_count unfinished = none
judge packet_count (extracted release []) =
    some (without_name (leb max_packet_count packet_count || release))
judge packet_count (extracted release (c ∷ name)) =
    some (record { release = true; ssl_sni = some (c ∷ name) })

-- `PluginNfqueueHandler`, with the count that `mess.Session.GetPacketCount` gives.
unfoldable pub plugin_nfqueue_handler : NfqueueMessage → ℕ → Option Verdict
unfolding judge extract_sni_hostname
plugin_nfqueue_handler mess packet_count = elim mess.packet.tcp_layer [
  | none ↦ some (without_name true)
  | some layer ↦
      if not (mess.msg_tuple.server_port == 443) && not (mess.msg_tuple.client_port == 443)
      then some (without_name true)
      else judge packet_count (extract_sni_hostname mess.payload)
]
