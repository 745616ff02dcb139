-- ===== src/Dispatch/CallSubscribers/InTime.antt =====
-- When `callSubscribers` returns a verdict.
use packetd.Base.{
  ℕ, ◌≡◌, ◌≢◌, refl, String, Bool, true, false, [], ◌∷◌, length, if◌then◌else◌, arith,
}
use packetd.Base.Keys.{string_key}
use packetd.Dispatch.State.{World, Subscriptions}
use packetd.Dispatch.Subscriptions.{mirror_nfqueue_subscriptions}
use packetd.Dispatch.PriorityLoop.{done, panicked}
use packetd.Dispatch.PriorityLoop.Order.{all_in_range, call_by_priority_lem, serve_rounds, ==_ne}
use packetd.Dispatch.Nfqueue.{Answer, finished}
use packetd.Dispatch.CallSubscribers.{take_answer, serve_batch, call_subscribers}

-- The handlers that all return in time.
abbrev pub in_time : (String → Bool) → String → Answer
in_time release key = finished (release key)

answers-in_time :
    (release : String → Bool) (sess : ℕ) (batch : Subscriptions) (w : World)
    → (serve_batch (in_time release) sess batch w).1 ≡ true
unfolding serve_batch
answers-in_time release sess [] w = refl
answers-in_time release sess ((key, holder) ∷ batch) w = ground (
  arith,
  arrives (release key),
  answers-in_time release sess batch (take_answer sess (finished (release key)) key w).0,
)
  where
    arrives : (b : Bool) → (take_answer sess (finished b) key w).1 ≡ true
    arrives true = refl
    arrives false = refl

idle-serve_batch :
    (answers : String → Answer) (sess : ℕ) (w : World) → (serve_batch answers sess [] w).0 ≡ w
unfolding serve_batch
idle-serve_batch answers sess w = refl

-- Where all handlers return in time and some are subscribed, callSubscribers returns its verdict if
-- all priorities are from 0 to 99, and otherwise panics.
pub call_subscribers-in_time :
    (release : String → Bool) (sess : ℕ) (w : World)
    → length (mirror_nfqueue_subscriptions w sess) ≢ 0
    → call_subscribers (in_time release) sess w ≡ (
        let subs = mirror_nfqueue_subscriptions w sess in
        let serve = serve_batch (in_time release) sess in
        if all_in_range subs
        then done (serve_rounds serve subs 0 100 w)
        else panicked (serve_rounds serve subs 0 101 w))
unfolding call_subscribers
call_subscribers-in_time release sess w some_sub =
    rw (==_ne _ _ some_sub, call_subscribers)
      (call_by_priority_lem (serve_batch (in_time release) sess)
        (mirror_nfqueue_subscriptions w sess) (answers-in_time release sess)
        (idle-serve_batch (in_time release) sess) w)
