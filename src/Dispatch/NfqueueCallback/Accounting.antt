-- ===== src/Dispatch/NfqueueCallback/Accounting.antt =====
-- How packets are counted.
use packetd.Base.{
  ℕ, ◌+◌, ◌*◌, ◌%◌, ◌^◌, ◌≡◌, refl, ◌∙◌, Bool, true, false, ◌==◌, if◌then◌else◌, arith, ==_iff,
}
use packetd.Base.Heap.{modify, allocate}
use packetd.Dispatch.State.{World, Session}
use packetd.Dispatch.SessionTable.{insert_session_table, next_session_id}
use packetd.Dispatch.ConntrackTable.{remove_conntrack}
use packetd.Dispatch.Nfqueue.{NfqueueMessage, fill_session, create_session}
use packetd.Dispatch.NfqueueCallback.{Found, created, touch, prepare}

-- The counters of a session.
pub record Counts : Type 0 where
  pub packets : ℕ
  pub bytes : ℕ
  pub events : ℕ

abbrev pub counts : Session → Counts
counts s = record { packets = s.packet_count; bytes = s.byte_count; events = s.event_count }

counts-touch :
    (mess : NfqueueMessage) (now : ℕ) (new : Bool) (s : Session)
    → counts (touch mess now new s) ≡ record {
      packets = (s.packet_count + 1) % 2 ^ 64;
      bytes = (s.byte_count + mess.length % 2 ^ 64) % 2 ^ 64;
      events = (s.event_count + 1) % 2 ^ 64;
    }
unfolding touch
counts-touch mess now new s = ground arith

-- The writes of a packet reach its session only.
pub prepare-cell :
    (mess : NfqueueMessage) (ctid now : ℕ) (f : Found) (q : ℕ)
    → (prepare mess ctid now f).0.sessions.cell q ≡ (
        if f.session == q
        then touch (prepare mess ctid now f).1 now f.new_session (f.world.sessions.cell q)
        else f.world.sessions.cell q)
unfolding prepare modify remove_conntrack
prepare-cell mess ctid now f q = by_new f.new_session
  where
    by_new :
        (b : Bool)
        → (modify
              (if b then remove_conntrack f.world ctid else f.world).sessions
              f.session
              (touch (prepare mess ctid now f).1 now f.new_session)).cell
            q
          ≡ (if f.session == q
              then touch (prepare mess ctid now f).1 now f.new_session (f.world.sessions.cell q)
              else f.world.sessions.cell q)
    by_new true = refl
    by_new false = refl

length-prepare :
    (mess : NfqueueMessage) (ctid now : ℕ) (f : Found)
    → (prepare mess ctid now f).1.length ≡ mess.length
unfolding prepare
length-prepare mess ctid now f = refl

counts-prepare :
    (mess : NfqueueMessage) (ctid now : ℕ) (f : Found)
    → let s = f.world.sessions.cell f.session in
      counts ((prepare mess ctid now f).0.sessions.cell f.session) ≡ record {
        packets = (s.packet_count + 1) % 2 ^ 64;
        bytes = (s.byte_count + mess.length % 2 ^ 64) % 2 ^ 64;
        events = (s.event_count + 1) % 2 ^ 64;
      }
unfolding prepare
counts-prepare mess ctid now f =
    rw
      (
        prepare-cell mess ctid now f f.session,
        (==_iff f.session f.session).1 refl,
        ← length-prepare mess ctid now f,
      )
      (counts-touch (prepare mess ctid now f).1 now f.new_session (f.world.sessions.cell f.session))

-- What is done with a packet once its session is chosen adds one packet, its length and one event to
-- that session's counters, as words, and changes no other session.
pub packet_counted :
    (w : World) (mess : NfqueueMessage) (ctid now sess q : ℕ) (new : Bool)
    → (sess == q) ≡ false
    → let s = w.sessions.cell sess in
      let v = (prepare mess ctid now (record { world = w; session = sess; new_session = new })).0 in
      (counts (v.sessions.cell sess) ≡ record {
        packets = (s.packet_count + 1) % 2 ^ 64;
        bytes = (s.byte_count + mess.length) % 2 ^ 64;
        events = (s.event_count + 1) % 2 ^ 64;
      })
      × (v.sessions.cell q ≡ w.sessions.cell q)
packet_counted w mess ctid now sess q new n =
    let f : Found = record { world = w; session = sess; new_session = new } in
    (counts-prepare mess ctid now f ∙ ground arith, prepare-cell mess ctid now f q ∙ rw n)

created_cell :
    (w : World) (mess : NfqueueMessage) (ctid now : ℕ)
    → let (v, sess) = create_session w mess ctid now in
      (counts (v.sessions.cell sess)
        ≡ record { packets = 1; bytes = mess.length % 2 ^ 64; events = 1 })
unfolding create_session allocate fill_session insert_session_table next_session_id
created_cell w mess ctid now = ground arith

-- The packet that creates a session is counted twice: the new session starts with the packet in its
-- counters, and the accounting that every packet gets adds it again.
pub first_packet_twice :
    (w : World) (mess : NfqueueMessage) (ctid now : ℕ)
    → let f = created (create_session w mess ctid now) in
      counts ((prepare mess ctid now f).0.sessions.cell f.session)
      ≡ record { packets = 2; bytes = (2 * mess.length) % 2 ^ 64; events = 2 }
first_packet_twice w mess ctid now =
    counts-prepare mess ctid now (created (create_session w mess ctid now))
    ∙ ground (arith, created_cell w mess ctid now)
