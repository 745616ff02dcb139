-- ===== src/Dispatch/NfqueueCallback/Sessions.antt =====
-- Which session a packet gets, and what a new session leaves in the tables.
use packetd.Base.{
  ℕ, ◌≡◌, refl, ap, ◌∙◌, Bool, true, false, not, ◌||◌, Option, none, some, arith, ==_iff,
}
use packetd.Base.Keys.{nat_key}
use packetd.Base.Table.{get-put, get-remove}
use packetd.Base.Heap.{Heap, allocate}
use packetd.Dispatch.Ip.{is_loopback}
use packetd.Dispatch.Tuple.{Tuple, equal}
use packetd.Dispatch.State.{World, Session}
use packetd.Dispatch.SessionTable.{
  find_session, remove_from_session_table, insert_session_table, next_session_id,
}
use packetd.Dispatch.ConntrackTable.{ConntrackEvent, find_conntrack, remove_conntrack}
use packetd.Dispatch.PriorityLoop.{LoopResult, state_of, done}
use packetd.Dispatch.Nfqueue.{Packet, NfqueueMessage, Handlers, fill_session, create_session}
use packetd.Dispatch.CallSubscribers.Filing.{SameFiling, call_subscribers-SameFiling}
use packetd.Dispatch.ConntrackCallback.{conntrack_callback, returned}
use packetd.Dispatch.ConntrackCallback.Deletion.{IsDeleteEvent, delete_unknown}
use packetd.Dispatch.Subscriptions.{bypass}
use packetd.Dispatch.NfqueueCallback.{
  packet_tuple, with_ports, is_new, Found, created, choose_session, touch, prepare, dispatch_packet,
  message_of, handle_message, nfqueue_callback,
}
use packetd.Dispatch.NfqueueCallback.Accounting.{prepare-cell}

-- The table has no session for the id, or one of another client side tuple.
abbrev pub no_match : World → Tuple → Option ℕ → Bool
no_match w t none = true
no_match w t (some sess) = not (equal t (w.sessions.cell sess).client_side_tuple)

-- A session is made, on a world that differs in the session table at most.
record Makes (w : World) (mess : NfqueueMessage) (ctid now : ℕ) (o : Option Found) : Type 0 where
  base : World
  sessions : base.sessions ≡ w.sessions
  index : base.session_index ≡ w.session_index
  made : o ≡ some (created (create_session base mess ctid now))

choose-Makes :
    (w : World) (mess : NfqueueMessage) (ctid now : ℕ) (found : Option ℕ)
    → no_match w mess.msg_tuple found ≡ true
    → Makes w mess ctid now (choose_session w mess ctid now true found)
unfolding choose_session
choose-Makes w mess ctid now none h = record {
  base = w;
  sessions = refl;
  index = refl;
  made = refl;
}
choose-Makes w mess ctid now (some sess) h = record {
  base = remove_from_session_table w sess;
  sessions = unfold remove_from_session_table in ground arith;
  index = unfold remove_from_session_table in ground arith;
  made = ground arith;
}

-- What a created session looks like.
created_session :
    (w : World) (mess : NfqueueMessage) (ctid now : ℕ)
    → let (v, sess) = create_session w mess ctid now in
      (sess ≡ w.sessions.next)
      × (find_session v ctid ≡ some sess)
      × ((v.sessions.cell sess).client_side_tuple ≡ mess.msg_tuple)
      × ((v.sessions.cell sess).session_id ≡ w.session_index)
      × ((v.sessions.cell sess).conntrack_confirmed ≡ 0)
unfolding create_session allocate fill_session insert_session_table next_session_id find_session
created_session w mess ctid now = ground (arith, get-put w.session_table ctid ctid w.sessions.next)

-- A packet that starts a session: not to or from a loopback address, marked as new, and without a
-- session under its id, or with one of another client side tuple.
pub record IsFirst (packet : Packet) (pmark ctid : ℕ) (w : World) (t : Tuple) : Type 0 where
  pub has_tuple : packet_tuple packet ≡ some t
  pub not_loopback : (is_loopback t.client_address || is_loopback t.server_address) ≡ false
  pub marked_new : is_new pmark ≡ true
  pub no_session : no_match w (with_ports packet t) (find_session w ctid) ≡ true

-- What a packet that starts a session leaves in the tables.
pub record IsStarted (w v : World) (ctid : ℕ) (t : Tuple) : Type 0 where
  pub filed : find_session v ctid ≡ some w.sessions.next
  pub forgotten : find_conntrack v ctid ≡ none
  pub tuple : (v.sessions.cell w.sessions.next).client_side_tuple ≡ t
  pub id : (v.sessions.cell w.sessions.next).session_id ≡ w.session_index
  pub unconfirmed : (v.sessions.cell w.sessions.next).conntrack_confirmed ≡ 0

-- A session without what the accounting of a packet writes.
touch_keeps :
    (mess : NfqueueMessage) (now : ℕ) (new : Bool) (s : Session)
    → ((touch mess now new s).client_side_tuple ≡ s.client_side_tuple)
      × ((touch mess now new s).session_id ≡ s.session_id)
      × ((touch mess now new s).conntrack_confirmed ≡ s.conntrack_confirmed)
unfolding touch
touch_keeps mess now new s = ground arith

prepared_tables :
    (w : World) (mess : NfqueueMessage) (ctid now sess : ℕ)
    → let v =
        (prepare mess ctid now (record { world = w; session = sess; new_session = true })).0 in
      (find_session v ctid ≡ find_session w ctid) × (find_conntrack v ctid ≡ none)
unfolding prepare remove_conntrack find_session find_conntrack
prepared_tables w mess ctid now sess = ground (arith, get-remove w.conntrack_table ctid ctid)

prepared_cell :
    (w : World) (mess : NfqueueMessage) (ctid now sess : ℕ)
    → let f : Found = record { world = w; session = sess; new_session = true } in
      (prepare mess ctid now f).0.sessions.cell sess
      ≡ touch (prepare mess ctid now f).1 now true (w.sessions.cell sess)
prepared_cell w mess ctid now sess =
    let f : Found = record { world = w; session = sess; new_session = true } in
    prepare-cell mess ctid now f sess ∙ rw ((==_iff sess sess).1 refl)

prepared-IsStarted :
    (w : World) (mess : NfqueueMessage) (ctid now : ℕ)
    → IsStarted w
        (prepare mess ctid now (created (create_session w mess ctid now))).0
        ctid
        mess.msg_tuple
unfolding prepare create_session
prepared-IsStarted w mess ctid now =
    let (v, sess) = create_session w mess ctid now in
    let f = created (create_session w mess ctid now) in
    let s = created_session w mess ctid now in
    let c = prepared_cell v mess ctid now sess in
    let k = touch_keeps (prepare mess ctid now f).1 now true (v.sessions.cell sess) in
    record {
      filed = (prepared_tables v mess ctid now sess).0 ∙ s.1;
      forgotten = (prepared_tables v mess ctid now sess).1;
      tuple = ap (λ (x : Session). x.client_side_tuple) c ∙ k.0 ∙ s.2;
      id = ap (λ (x : Session). x.session_id) c ∙ k.1 ∙ s.3;
      unconfirmed = ap (λ (x : Session). x.conntrack_confirmed) c ∙ k.2 ∙ s.4;
    }

-- Handlers keep what a started session left.
same-IsStarted :
    (w u v : World) (ctid : ℕ) (t : Tuple)
    → SameFiling u v
    → IsStarted w u ctid t
    → IsStarted w v ctid t
unfolding find_session find_conntrack
same-IsStarted w u v ctid t same h =
    let cell = same.sessions w.sessions.next in
    record {
      filed = rw (same.session_table) h.filed;
      forgotten = rw (same.conntrack_table) h.forgotten;
      tuple = ap (λ (s : Session). s.client_side_tuple) cell ∙ h.tuple;
      id = ap (λ (s : Session). s.session_id) cell ∙ h.id;
      unconfirmed = ap (λ (s : Session). s.conntrack_confirmed) cell ∙ h.unconfirmed;
    }

based-IsStarted :
    (w base v : World) (ctid : ℕ) (t : Tuple)
    → base.sessions ≡ w.sessions
    → base.session_index ≡ w.session_index
    → IsStarted base v ctid t
    → IsStarted w v ctid t
based-IsStarted w base v ctid t s i h =
    let next : base.sessions.next ≡ w.sessions.next = ap (λ (x : Heap Session). x.next) s in
    record {
      filed = h.filed ∙ ap some next;
      forgotten = h.forgotten;
      tuple = rw (← next) h.tuple;
      id = rw (← next) (h.id ∙ i);
      unconfirmed = rw (← next) h.unconfirmed;
    }

-- The callback once the session is chosen.
handle_chosen :
    (handlers : Handlers) (mess : NfqueueMessage) (ctid now : ℕ) (w : World) (f : Found)
    → is_new mess.packet_mark ≡ true
    → choose_session w mess ctid now true (find_session w ctid) ≡ some f
    → handle_message handlers mess ctid now w ≡ dispatch_packet handlers mess ctid now f
unfolding handle_message
handle_chosen handlers mess ctid now w f n made =
    ap go (ap (λ b. choose_session w mess ctid now b (find_session w ctid)) n ∙ made)
  where
    go : Option Found → LoopResult World
    go o = elim o [
      | none ↦ done (bypass w ctid)
      | some f ↦ dispatch_packet handlers mess ctid now f
    ]

choose_new :
    (handlers : Handlers) (mess : NfqueueMessage) (ctid now : ℕ) (w : World)
    → is_new mess.packet_mark ≡ true
    → no_match w mess.msg_tuple (find_session w ctid) ≡ true
    → IsStarted w (state_of (handle_message handlers mess ctid now w)) ctid mess.msg_tuple
unfolding dispatch_packet
choose_new handlers mess ctid now w n m =
    let c = choose-Makes w mess ctid now (find_session w ctid) m in
    let f = created (create_session c.base mess ctid now) in
    let (u, mess') = prepare mess ctid now f in
    based-IsStarted w c.base _ ctid mess.msg_tuple c.sessions c.index (
      rw (handle_chosen handlers mess ctid now w f n c.made) (
        same-IsStarted c.base u _ ctid mess.msg_tuple
          (call_subscribers-SameFiling (handlers mess' ctid true) f.session u)
          (prepared-IsStarted c.base mess ctid now)))

-- Whatever the handlers do, a packet that is marked as new, has a tuple without a loopback address,
-- and finds under its conntrack id no session or one of another client side tuple, files a new
-- session with the packet's tuple and the next session id under that id, not confirmed, and leaves
-- no conntrack entry of that id: also where the id is reused and the comment of nfqueueCallback says
-- that the entry is left for the conntrack handler.
pub first_packet_starts :
    (handlers : Handlers) (ctid family : ℕ) (packet : Packet) (length pmark now : ℕ) (w : World)
    (t : Tuple)
    → IsFirst packet pmark ctid w t
    → IsStarted w
        (state_of (nfqueue_callback handlers ctid family packet length pmark now w))
        ctid
        (with_ports packet t)
unfolding nfqueue_callback message_of
first_packet_starts handlers ctid family packet length pmark now w t h =
    rw (h.has_tuple, h.not_loopback, nfqueue_callback)
      (choose_new handlers (message_of family packet length pmark t) ctid now w h.marked_new
        h.no_session)

-- After a packet that is marked as new, has a tuple without a loopback address, and finds under its
-- conntrack id no session or one of another client side tuple, a DELETE event for that id, between
-- addresses that are not loopback addresses, changes nothing and calls no handler, although the
-- comment of nfqueueCallback says that the old entry is left for the conntrack handler.
pub first_packet_then_delete :
    (handlers : Handlers) (ctid family : ℕ) (packet : Packet) (length pmark now : ℕ) (w : World)
    (t : Tuple) (e : ConntrackEvent) (later : ℕ)
    → IsFirst packet pmark ctid w t
    → IsDeleteEvent e
    → e.ctid ≡ ctid
    → let v = state_of (nfqueue_callback handlers ctid family packet length pmark now w) in
      conntrack_callback e later v ≡ returned v
first_packet_then_delete handlers ctid family packet length pmark now w t e later h d same =
    delete_unknown e later _ d (
      ap (find_conntrack _) same
      ∙ (first_packet_starts handlers ctid family packet length pmark now w t h).forgotten)
