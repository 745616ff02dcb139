-- ===== src/Dispatch/CallSubscribers/Blocking.antt =====
-- When `callSubscribers` waits for ever.
use packetd.Base.{
  ℕ, zero, suc, ◌+◌, ◌≤◌, ◌<◌, ◌≡◌, refl, sym, ap, ◌∙◌, String, Bool, true, false, some, length,
  arith, Bool-cases, inl, inr,
}
use packetd.Base.Integer.{pos}
use packetd.Base.Keys.{string_key}
use packetd.Base.Table.{get}
use packetd.Dispatch.State.{World, SubscriptionHolder, Subscriptions}
use packetd.Dispatch.Subscriptions.{mirror_nfqueue_subscriptions}
use packetd.Dispatch.Subscriptions.Release.{get-copy_subscriptions}
use packetd.Dispatch.PriorityLoop.{
  LoopResult, blocked, Batch, at_priority, after_batch, priority_loop, call_by_priority,
}
use packetd.Dispatch.PriorityLoop.Order.{
  below, length-below-suc, length-below-zero, ==_ne, not_past, after_batch_lem,
}
use packetd.Dispatch.Nfqueue.{Answer, timed_out}
use packetd.Dispatch.CallSubscribers.{serve_batch, call_subscribers}
use packetd.Dispatch.CallSubscribers.LateBatch.{not_all_below, batch_blocks}

after_blocked :
    {S : Type 0} (r : S × Bool) (p : ℕ) (next : S → LoopResult S)
    → r.1 ≡ false
    → (v : S) × (after_batch r p next ≡ blocked v)
unfolding after_batch
after_blocked (s, true) p next h = cc
after_blocked (s, false) p next h = (s, refl)

loop_step :
    (serve : Batch World) (subs : Subscriptions) (fuel q : ℕ) (w : World)
    → length (below q subs) < length subs
    → priority_loop serve subs (suc fuel) (length (below q subs)) q w
      ≡ after_batch
          (serve (at_priority q subs) w)
          (q + 1)
          (priority_loop serve subs fuel (length (below (q + 1) subs)) (q + 1))
unfolding priority_loop
loop_step serve subs fuel q w h = rw (
  ==_ne (length (below q subs)) (length subs) (omega arith),
  priority_loop,
  length-below-suc q subs,
)

module _ (answers : String → Answer) (sess : ℕ) (subs : Subscriptions) (key : String)
    (holder : SubscriptionHolder) (p : ℕ) (subscribed : get subs key ≡ some holder)
    (priority : holder.priority ≡ pos p) (late : answers key ≡ timed_out) where
  waiting : (q : ℕ) → q ≤ p → length (below q subs) < length subs
  waiting q l = not_all_below subs key holder p q subscribed priority l

  loop_blocks :
      (n fuel q : ℕ) (w : World)
      → n + q ≡ p
      → p ≤ 99
      → n < fuel
      → (v : World) × (priority_loop
            (serve_batch answers sess)
            subs
            fuel
            (length (below q subs))
            q
            w
          ≡ blocked v)
  loop_blocks n zero q w h l m = absurd (omega arith)
  loop_blocks zero (suc fuel) q w h l m =
      let at : q ≡ p = omega arith in
      let (v, stuck) =
        after_blocked (serve_batch answers sess (at_priority q subs) w) (q + 1)
          (priority_loop (serve_batch answers sess) subs fuel (length (below (q + 1) subs)) (q + 1))
          (rw at (batch_blocks answers sess subs key holder p subscribed priority late w)) in
      (v, loop_step _ subs fuel q w (waiting q (omega arith)) ∙ stuck)
  loop_blocks (suc n) (suc fuel) q w h l m =
      elim (Bool-cases (serve_batch answers sess (at_priority q subs) w).1) [
        | inl t ↦
            let (v, stuck) =
              loop_blocks n fuel (q + 1) (serve_batch answers sess (at_priority q subs) w).0
                (omega arith) l (omega arith) in
            (
              v,
              loop_step _ subs fuel q w (waiting q (omega arith))
                  ∙ after_batch_lem (serve_batch answers sess (at_priority q subs) w) (q + 1) _ t
                  ∙ rw (not_past q (omega arith)) stuck,
            )
        | inr f ↦
            let (v, stuck) =
              after_blocked (serve_batch answers sess (at_priority q subs) w) (q + 1)
                (priority_loop (serve_batch answers sess) subs fuel (length (below (q + 1) subs))
                  (q + 1))
                f in
            (v, loop_step _ subs fuel q w (waiting q (omega arith)) ∙ stuck)
      ]

  loop_blocks_start :
      (w : World)
      → p ≤ 99
      → (v : World) × (call_by_priority (serve_batch answers sess) subs w ≡ blocked v)
  unfolding call_by_priority
  loop_blocks_start w l =
      let (v, stuck) = loop_blocks p 102 0 w (omega arith) l (omega arith) in
      (
        v,
        ap (λ k. priority_loop (serve_batch answers sess) subs 102 k 0 w)
              (sym (length-below-zero subs))
            ∙ stuck,
      )

-- If a subscriber of the session with a priority from 0 to 99 does not return in time,
-- callSubscribers gives no verdict: it waits for ever for the result of that handler.
pub call_subscribers-blocks :
    (answers : String → Answer) (sess : ℕ) (w : World) (key : String) (holder : SubscriptionHolder)
    (p : ℕ)
    → get (w.sessions.cell sess).subscriptions key ≡ some holder
    → holder.priority ≡ pos p
    → p ≤ 99
    → answers key ≡ timed_out
    → (v : World) × (call_subscribers answers sess w ≡ blocked v)
unfolding call_subscribers
call_subscribers-blocks answers sess w key holder p subscribed priority l late =
    let mirrored : get (mirror_nfqueue_subscriptions w sess) key ≡ some holder =
      unfold mirror_nfqueue_subscriptions in
      get-copy_subscriptions (w.sessions.cell sess).subscriptions key ∙ subscribed in
    let nonempty =
      not_all_below (mirror_nfqueue_subscriptions w sess) key holder p 0 mirrored priority
        (omega arith) in
    let (v, stuck) =
      loop_blocks_start answers sess (mirror_nfqueue_subscriptions w sess) key holder p mirrored
        priority late w l in
    (
      v,
      rw (==_ne (length (mirror_nfqueue_subscriptions w sess)) 0 (omega arith), call_subscribers)
          stuck,
    )
