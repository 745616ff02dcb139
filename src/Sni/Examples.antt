-- ===== src/Sni/Examples.antt =====
-- A truncated ClientHello, one with a server name, and a message with each.
use packetd.Base.{ℕ, zero, suc, ◌≡◌, refl, true, not, ◌&&◌, some, List, [], ◌∷◌, ◌++◌, ltb}
use packetd.Dispatch.Nfqueue.{NfqueueMessage}
use packetd.Dispatch.Examples.Data.{syn, connection}
use packetd.Sni.{extracted, index_panic, extract_sni_hostname, plugin_nfqueue_handler}
use packetd.Sni.Release.{is_client_hello, keeps_session, is_tls_port, plugin_nfqueue_handler_lem}
use packetd.Sni.Truncation.{extract_sni_hostname-truncated}

abbrev zeros : ℕ → List ℕ
zeros zero = []
zeros (suc n) = 0 ∷ zeros n

-- 43 bytes up to the length of the session id.
abbrev hello_start : List ℕ
hello_start = 22 ∷ 3 ∷ 1 ∷ 0 ∷ 44 ∷ 1 ∷ zeros 37

abbrev truncated_hello : List ℕ
truncated_hello = hello_start ++ (3 ∷ 7 ∷ 7 ∷ 7 ∷ 0 ∷ [])

-- No session id, one cipher suite, one compression method, an extension of type 23 and the name
-- "ab".
abbrev named_hello : List ℕ
named_hello =
    hello_start
    ++ (0 ∷ 0 ∷ 2 ∷ 19 ∷ 1 ∷ 1 ∷ 0 ∷ 0 ∷ 15 ∷ 0 ∷ 23 ∷ 0 ∷ 0 ∷ 0 ∷ 0 ∷ 0 ∷ 7 ∷ 0 ∷ 5 ∷ 0 ∷ 0 ∷ 2
        ∷ 97 ∷ 98 ∷ [])

named_hello_found : extract_sni_hostname named_hello ≡ extracted true (97 ∷ 98 ∷ [])
unfolding extract_sni_hostname
named_hello_found = refl

abbrev tls_message : NfqueueMessage
tls_message = record {
  session = some 0;
  msg_tuple = record connection { server_port = 443 };
  family = 2;
  packet = syn;
  packet_mark = 0;
  length = 60;
  client_to_server = true;
  payload = named_hello;
}

extract_sni_hostname-truncated_example : extract_sni_hostname truncated_hello ≡ index_panic
extract_sni_hostname-truncated_example =
    extract_sni_hostname-truncated truncated_hello 3 refl refl refl

plugin_nfqueue_handler_lem_example :
    keeps_session (plugin_nfqueue_handler tls_message 3)
    ≡ (is_tls_port tls_message && (not (is_client_hello named_hello) && ltb 3 10))
plugin_nfqueue_handler_lem_example = plugin_nfqueue_handler_lem tls_message 3
