-- ===== src/Dispatch/Nfqueue.antt =====
-- services/dispatch/nfqueue.go: the messages, the verdicts and the creation of sessions.
use packetd.Base.{ℕ, ◌%◌, ◌^◌, String, Bool, false, Option, List, []}
use packetd.Base.Heap.{allocate}
use packetd.Dispatch.Ip.{Ip}
use packetd.Dispatch.Tuple.{Tuple}
use packetd.Dispatch.State.{World, Session, new_session}
use packetd.Dispatch.Session.{
  set_session_id, set_conntrack_id, set_creation_time, set_packet_count, set_byte_count,
  set_event_count, set_last_activity, set_client_side_tuple, set_family, set_conntrack_confirmed,
}
use packetd.Dispatch.SessionTable.{next_session_id, insert_session_table}
use packetd.Dispatch.Subscriptions.{attach_nfqueue_subscriptions}

-- `NfDrop` and `NfAccept`
abbrev pub nf_drop : ℕ
nf_drop = 0

abbrev pub nf_accept : ℕ
nf_accept = 1

-- The layers of a packet, as the library that decodes packets hands them out.
pub record IpLayer : Type 0 where
  pub protocol : ℕ
  pub src_ip : Ip
  pub dst_ip : Ip

pub record TcpLayer : Type 0 where
  pub src_port : ℕ
  pub dst_port : ℕ
  pub rst : Bool
  pub fin : Bool

pub record UdpLayer : Type 0 where
  pub src_port : ℕ
  pub dst_port : ℕ

pub record Packet : Type 0 where
  pub ip4_layer : Option IpLayer
  pub ip6_layer : Option IpLayer
  pub tcp_layer : Option TcpLayer
  pub udp_layer : Option UdpLayer
  pub application_payload : Option (List ℕ)

-- `NfqueueMessage`
pub record NfqueueMessage : Type 0 where
  pub session : Option ℕ
  pub msg_tuple : Tuple
  pub family : ℕ
  pub packet : Packet
  pub packet_mark : ℕ
  pub length : ℕ
  pub client_to_server : Bool
  pub payload : List ℕ

-- What a plugin's handler does with a message: it returns, with `SessionRelease`, or is still
-- running after `maxAllowedTime`.
pub data Answer : Type 0 where
  finished : Bool → Answer
  timed_out : Answer

-- `NfqueueHandlerFunction`, by the owner of the subscription: the arguments of the handlers are the
-- message, the conntrack id and whether the session is new.
abbrev pub Handlers : Type 0
Handlers = NfqueueMessage → ℕ → Bool → String → Answer

-- The writes of `createSession` to its new object.
unfoldable pub fill_session : World → NfqueueMessage → ℕ → ℕ → ℕ → Session
unfolding set_session_id set_conntrack_id set_creation_time set_packet_count set_byte_count
    set_event_count set_last_activity set_client_side_tuple set_family set_conntrack_confirmed
    attach_nfqueue_subscriptions
fill_session w mess ctid id now =
    let identified =
      set_creation_time (set_conntrack_id (set_session_id new_session id) ctid) now in
    let counted =
      set_event_count (set_byte_count (set_packet_count identified 1) (mess.length % 2 ^ 64)) 1 in
    let named = set_client_side_tuple (set_last_activity counted now) mess.msg_tuple in
    let unconfirmed = set_conntrack_confirmed (set_family named (mess.family % 2 ^ 8)) false in
    attach_nfqueue_subscriptions w (record unconfirmed { attachments = [] })

-- `createSession`: the new world, and the address of the session.
unfoldable pub create_session : World → NfqueueMessage → ℕ → ℕ → World × ℕ
unfolding fill_session next_session_id insert_session_table
create_session w mess ctid now =
    let (w', id) = next_session_id w in
    let sess = w'.sessions.next in
    let filled : World = record w' {
      sessions = allocate w'.sessions (fill_session w' mess ctid id now);
    } in
    (insert_session_table filled ctid sess, sess)
