-- ===== src/Dispatch/WellFormed/Packets.antt =====
-- Every packet keeps the world well formed, whatever the handlers answer.
use packetd.Base.{
  ℕ, ◌≡◌, refl, String, Bool, true, false, not, ◌||◌, Option, none, some, [], ◌∷◌, ◌==◌,
  if◌then◌else◌, arith, Option-cases, Bool-cases, inl, inr, length,
}
use packetd.Base.Heap.{modify}
use packetd.Base.Keys.{string_key}
use packetd.Base.Table.{remove}
use packetd.Dispatch.Ip.{is_loopback}
use packetd.Dispatch.Tuple.{equal}
use packetd.Dispatch.State.{World, Session, Subscriptions, Value}
use packetd.Dispatch.Session.{get_client_side_tuple}
use packetd.Dispatch.SessionTable.{
  find_session, remove_from_session_table, next_session_id, dict_add,
}
use packetd.Dispatch.ConntrackTable.{find_conntrack, remove_conntrack}
use packetd.Dispatch.Subscriptions.{bypass, is_empty, release_session, mirror_nfqueue_subscriptions}
use packetd.Dispatch.PriorityLoop.{done, state_of}
use packetd.Dispatch.PriorityLoop.Invariant.{call_by_priority-keeps}
use packetd.Dispatch.Nfqueue.{
  Packet, NfqueueMessage, Handlers, Answer, finished, timed_out, fill_session, create_session,
}
use packetd.Dispatch.CallSubscribers.{take_answer, serve_batch, call_subscribers}
use packetd.Dispatch.NfqueueCallback.{
  packet_tuple, is_new, Found, created, choose_session, touch, prepare, dispatch_packet, message_of,
  handle_message, nfqueue_callback,
}
use packetd.Dispatch.WellFormed.{IsWellFormed}
use packetd.Dispatch.WellFormed.Sessions.{
  Shrinks-IsWellFormed, modify_session-IsWellFormed, insert_session-IsWellFormed,
  remove_from_session_table-Shrinks,
}
use packetd.Dispatch.WellFormed.Conntracks.{remove_conntrack-Shrinks}
use packetd.Dispatch.WellFormed.Callbacks.{session_id-IsWellFormed}

dict_add-IsWellFormed :
    (w : World) (ctid : ℕ) (field : String) (value : Value)
    → IsWellFormed w
    → IsWellFormed (dict_add w ctid field value)
unfolding find_session find_conntrack
dict_add-IsWellFormed w ctid field value h = record {
  session_exists = h.session_exists;
  session_filed = h.session_filed;
  conntrack_exists = h.conntrack_exists;
  conntrack_filed = h.conntrack_filed;
  link_exists = h.link_exists;
  link_agrees = h.link_agrees;
}

IsWellFormed-if :
    (b : Bool) (u v : World) → IsWellFormed u → IsWellFormed v → IsWellFormed (if b then u else v)
IsWellFormed-if true u v hu hv = hu
IsWellFormed-if false u v hu hv = hv

pub release_session-IsWellFormed :
    (w : World) (sess : ℕ) (owner : String)
    → IsWellFormed w
    → IsWellFormed (release_session w sess owner)
unfolding release_session
release_session-IsWellFormed w sess owner h =
    IsWellFormed-if (is_empty (w.sessions.cell sess).subscriptions) _ _ h (
      IsWellFormed-if (is_empty (remove (w.sessions.cell sess).subscriptions owner)) _ _
        (dict_add-IsWellFormed _ _ _ _ released) released)
  where
    released : IsWellFormed (record w {
      sessions =
          modify w.sessions sess (λ s. record s { subscriptions = remove s.subscriptions owner });
    })
    released = modify_session-IsWellFormed w sess _ (λ s. refl) h

take_answer-IsWellFormed :
    (sess : ℕ) (a : Answer) (owner : String) (w : World)
    → IsWellFormed w
    → IsWellFormed (take_answer sess a owner w).0
unfolding take_answer
take_answer-IsWellFormed sess (finished true) owner w h =
    release_session-IsWellFormed w sess owner h
take_answer-IsWellFormed sess (finished false) owner w h = h
take_answer-IsWellFormed sess timed_out owner w h = h

serve_batch-IsWellFormed :
    (answers : String → Answer) (sess : ℕ) (batch : Subscriptions) (w : World)
    → IsWellFormed w
    → IsWellFormed (serve_batch answers sess batch w).0
unfolding serve_batch
serve_batch-IsWellFormed answers sess [] w h = h
serve_batch-IsWellFormed answers sess ((key, holder) ∷ batch) w h =
    serve_batch-IsWellFormed answers sess batch _
      (take_answer-IsWellFormed sess (answers key) key w h)

call_subscribers-IsWellFormed :
    (answers : String → Answer) (sess : ℕ) (w : World)
    → IsWellFormed w
    → IsWellFormed (state_of (call_subscribers answers sess w))
unfolding call_subscribers
call_subscribers-IsWellFormed answers sess w h =
    elim (Bool-cases (length (mirror_nfqueue_subscriptions w sess) == 0)) [
      | inl t ↦ rw t (dict_add-IsWellFormed w _ _ _ h)
      | inr f ↦ rw f (
          call_by_priority-keeps IsWellFormed (serve_batch answers sess)
            (mirror_nfqueue_subscriptions w sess) (serve_batch-IsWellFormed answers sess) w h)
    ]

create_session-IsWellFormed :
    (w : World) (mess : NfqueueMessage) (ctid now : ℕ)
    → IsWellFormed w
    → IsWellFormed (create_session w mess ctid now).0
unfolding create_session
create_session-IsWellFormed w mess ctid now h =
    insert_session-IsWellFormed (next_session_id w).0
      (fill_session (next_session_id w).0 mess ctid w.session_index now)
      (session_id-IsWellFormed w _ h)

abbrev FoundWellFormed : Option Found → Type 0
FoundWellFormed none = Unit
FoundWellFormed (some f) = IsWellFormed f.world

FoundWellFormed-if :
    (b : Bool) (u v : Option Found)
    → FoundWellFormed u
    → FoundWellFormed v
    → FoundWellFormed (if b then u else v)
FoundWellFormed-if true u v hu hv = hu
FoundWellFormed-if false u v hu hv = hv

choose_session-IsWellFormed :
    (w : World) (mess : NfqueueMessage) (ctid now : ℕ) (new : Bool) (found : Option ℕ)
    → IsWellFormed w
    → FoundWellFormed (choose_session w mess ctid now new found)
unfolding choose_session
choose_session-IsWellFormed w mess ctid now new none h =
    FoundWellFormed-if (not new) none (some (created (create_session w mess ctid now))) tt
      (create_session-IsWellFormed w mess ctid now h)
choose_session-IsWellFormed w mess ctid now new (some sess) h =
    FoundWellFormed-if new _ (some (record { world = w; session = sess; new_session = false }))
      (FoundWellFormed-if (equal mess.msg_tuple (get_client_side_tuple (w.sessions.cell sess)))
        (some (record { world = w; session = sess; new_session = false }))
        (some (created (create_session (remove_from_session_table w sess) mess ctid now))) h
        (create_session-IsWellFormed (remove_from_session_table w sess) mess ctid now
          (Shrinks-IsWellFormed (remove_from_session_table-Shrinks w sess) h)))
      h

conntrack_id-touch :
    (mess : NfqueueMessage) (now : ℕ) (new : Bool) (s : Session)
    → (touch mess now new s).conntrack_id ≡ s.conntrack_id
unfolding touch
conntrack_id-touch mess now new s = ground arith

prepare-IsWellFormed :
    (mess : NfqueueMessage) (ctid now : ℕ) (f : Found)
    → IsWellFormed f.world
    → IsWellFormed (prepare mess ctid now f).0
unfolding prepare
prepare-IsWellFormed mess ctid now f h =
    modify_session-IsWellFormed _ f.session _
      (conntrack_id-touch (prepare mess ctid now f).1 now f.new_session)
      (IsWellFormed-if f.new_session (remove_conntrack f.world ctid) f.world
        (Shrinks-IsWellFormed (remove_conntrack-Shrinks f.world ctid) h) h)

handle_message-IsWellFormed :
    (handlers : Handlers) (mess : NfqueueMessage) (ctid now : ℕ) (w : World)
    → IsWellFormed w
    → IsWellFormed (state_of (handle_message handlers mess ctid now w))
unfolding handle_message
handle_message-IsWellFormed handlers mess ctid now w h =
    chosen (choose_session w mess ctid now (is_new mess.packet_mark) (find_session w ctid)) (
      choose_session-IsWellFormed w mess ctid now (is_new mess.packet_mark) (find_session w ctid) h)
  where
    chosen :
        (o : Option Found)
        → FoundWellFormed o
        → IsWellFormed (
            state_of (elim o [
              | none ↦ done (bypass w ctid)
              | some f ↦ dispatch_packet handlers mess ctid now f
            ]))
    chosen none ok = dict_add-IsWellFormed w _ _ _ h
    chosen (some f) ok =
        call_subscribers-IsWellFormed _ f.session _ (prepare-IsWellFormed mess ctid now f ok)

-- Every packet keeps the world well formed, also where a handler blocks the callback or the loop
-- over the priorities panics.
pub nfqueue_callback-IsWellFormed :
    (handlers : Handlers) (ctid family : ℕ) (packet : Packet) (packet_length pmark now : ℕ)
    (w : World)
    → IsWellFormed w
    → IsWellFormed
        (state_of (nfqueue_callback handlers ctid family packet packet_length pmark now w))
unfolding nfqueue_callback
nfqueue_callback-IsWellFormed handlers ctid family packet packet_length pmark now w h =
    elim (Option-cases (packet_tuple packet)) [
      | inl e ↦ rw (e, nfqueue_callback) h
      | inr (t, e) ↦
          elim (Bool-cases (is_loopback t.client_address || is_loopback t.server_address)) [
            | inl l ↦ rw (e, nfqueue_callback, l) h
            | inr l ↦
                rw (e, nfqueue_callback, l)
                  (handle_message-IsWellFormed handlers
                    (message_of family packet packet_length pmark t) ctid now w h)
          ]
    ]
