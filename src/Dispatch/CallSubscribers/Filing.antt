-- ===== src/Dispatch/CallSubscribers/Filing.antt =====
-- The handlers' answers change nothing of the tables and the sessions but the subscriptions.
use packetd.Base.{
  ℕ, ◌≡◌, refl, String, true, false, [], ◌∷◌, ◌==◌, length, arith, Bool-cases, inl, inr,
}
use packetd.Base.Heap.{modify}
use packetd.Dispatch.State.{World, Session, Subscriptions}
use packetd.Dispatch.Subscriptions.{release_session, mirror_nfqueue_subscriptions}
use packetd.Dispatch.PriorityLoop.{state_of}
use packetd.Dispatch.PriorityLoop.Invariant.{call_by_priority-keeps}
use packetd.Dispatch.Nfqueue.{Answer, finished, timed_out}
use packetd.Dispatch.CallSubscribers.{take_answer, serve_batch, call_subscribers}

-- A session without its subscriptions.
abbrev pub unsubscribed : Session → Session
unsubscribed s = record s { subscriptions = [] }

pub record SameFiling (w v : World) : Type 0 where
  pub session_table : v.session_table ≡ w.session_table
  pub conntrack_table : v.conntrack_table ≡ w.conntrack_table
  pub conntracks : v.conntracks ≡ w.conntracks
  pub session_index : v.session_index ≡ w.session_index
  pub sessions : (q : ℕ) → unsubscribed (v.sessions.cell q) ≡ unsubscribed (w.sessions.cell q)

SameFiling-refl : (w : World) → SameFiling w w
SameFiling-refl w = record {
  session_table = refl;
  conntrack_table = refl;
  conntracks = refl;
  session_index = refl;
  sessions = λ q. refl;
}

release_session-SameFiling :
    (w v : World) (sess : ℕ) (owner : String)
    → SameFiling w v
    → SameFiling w (release_session v sess owner)
unfolding release_session modify
release_session-SameFiling w v sess owner h = record {
  session_table = ground (arith, h.session_table);
  conntrack_table = ground (arith, h.conntrack_table);
  conntracks = ground (arith, h.conntracks);
  session_index = ground (arith, h.session_index);
  sessions = λ q. ground (arith, h.sessions q);
}

take_answer-SameFiling :
    (w v : World) (sess : ℕ) (a : Answer) (owner : String)
    → SameFiling w v
    → SameFiling w (take_answer sess a owner v).0
unfolding take_answer
take_answer-SameFiling w v sess (finished true) owner h =
    release_session-SameFiling w v sess owner h
take_answer-SameFiling w v sess (finished false) owner h = h
take_answer-SameFiling w v sess timed_out owner h = h

serve_batch-SameFiling :
    (w : World) (answers : String → Answer) (sess : ℕ) (batch : Subscriptions) (v : World)
    → SameFiling w v
    → SameFiling w (serve_batch answers sess batch v).0
unfolding serve_batch
serve_batch-SameFiling w answers sess [] v h = h
serve_batch-SameFiling w answers sess ((key, holder) ∷ batch) v h =
    serve_batch-SameFiling w answers sess batch (take_answer sess (answers key) key v).0
      (take_answer-SameFiling w v sess (answers key) key h)

-- callSubscribers leaves the session table, the conntrack table, the conntrack entries and every
-- session as they were, but for the subscriptions of sessions, however it ends.
pub call_subscribers-SameFiling :
    (answers : String → Answer) (sess : ℕ) (w : World)
    → SameFiling w (state_of (call_subscribers answers sess w))
unfolding call_subscribers
call_subscribers-SameFiling answers sess w =
    elim (Bool-cases (length (mirror_nfqueue_subscriptions w sess) == 0)) [
      | inl t ↦ rw t (record {
        session_table = refl;
        conntrack_table = refl;
        conntracks = refl;
        session_index = refl;
        sessions = λ q. refl;
      })
      | inr f ↦ rw f (
          call_by_priority-keeps (SameFiling w) (serve_batch answers sess)
            (mirror_nfqueue_subscriptions w sess) (serve_batch-SameFiling w answers sess) w
            (SameFiling-refl w))
    ]
