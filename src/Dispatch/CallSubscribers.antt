-- ===== src/Dispatch/CallSubscribers.antt =====
-- `callSubscribers` of services/dispatch/nfqueue.go.
pub mod InTime
pub mod LateBatch
pub mod Blocking
pub mod Filing
use packetd.Base.{
  ℕ, String, Bool, true, false, ◌&&◌, Option, none, some, List, [], ◌∷◌, ◌==◌, length,
  if◌then◌else◌,
}
use packetd.Base.Heap.{Heap}
use packetd.Dispatch.State.{World, SubscriptionHolder, Subscriptions}
use packetd.Dispatch.Session.{get_conntrack_id}
use packetd.Dispatch.Subscriptions.{mirror_nfqueue_subscriptions, bypass, release_session}
use packetd.Dispatch.PriorityLoop.{
  LoopResult, done, blocked, panicked, out_of_fuel, Batch, call_by_priority,
}
use packetd.Dispatch.Nfqueue.{Answer, finished, timed_out}

-- One handler's goroutine and the read of its result. A handler that runs out of time writes its
-- result to a channel that nobody reads, so that the caller waits for ever.
unfoldable pub take_answer : ℕ → Answer → String → World → World × Bool
take_answer sess (finished true) owner w = (release_session w sess owner, true)
take_answer sess (finished false) owner w = (w, true)
take_answer sess timed_out owner w = (w, false)

-- The reads of `resultsChannel` after a batch, and whether all of its results come.
unfoldable pub serve_batch : (String → Answer) → ℕ → Batch World
unfolding take_answer
serve_batch answers sess [] w = (w, true)
serve_batch answers sess ((key, holder) ∷ batch) w =
    let (w', arrived) = take_answer sess (answers key) key w in
    let (w'', all) = serve_batch answers sess batch w' in (w'', arrived && all)

-- `callSubscribers`: `done` is the return of `NfAccept`.
unfoldable pub call_subscribers : (String → Answer) → ℕ → World → LoopResult World
unfolding serve_batch mirror_nfqueue_subscriptions get_conntrack_id
call_subscribers answers sess w =
    let sublist = mirror_nfqueue_subscriptions w sess in
    if length sublist == 0
    then done (bypass w (get_conntrack_id (w.sessions.cell sess)))
    else call_by_priority (serve_batch answers sess) sublist w
