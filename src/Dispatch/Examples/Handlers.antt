-- ===== src/Dispatch/Examples/Handlers.antt =====
-- The theorems on the calls of handlers, on a session with two subscribers.
use mathlib.Core.List.{Perm}
use packetd.Base.{String, Bool, false, none, some, [], ◌∷◌, ◌≡◌, refl, keep, if◌then◌else◌, arith}
use packetd.Base.Integer.{ℤ, pos, negsuc}
use packetd.Base.Keys.{string_key}
use packetd.Base.Table.{get, put}
use packetd.Dispatch.State.{World, SubscriptionHolder, Subscriptions, new_session}
use packetd.Dispatch.Subscriptions.{mirror_nfqueue_subscriptions}
use packetd.Dispatch.PriorityLoop.{done, blocked, panicked, call_all}
use packetd.Dispatch.PriorityLoop.Order.{all_in_range, below, serve_rounds}
use packetd.Dispatch.PriorityLoop.Calls.{batches, Ordered, call_all-in_range}
use packetd.Dispatch.Nfqueue.{Answer, finished, timed_out}
use packetd.Dispatch.CallSubscribers.{serve_batch, call_subscribers}
use packetd.Dispatch.CallSubscribers.InTime.{in_time, call_subscribers-in_time}
use packetd.Dispatch.CallSubscribers.Blocking.{call_subscribers-blocks}
use packetd.Dispatch.Examples.Data.{empty_world}

abbrev holder : ℤ → SubscriptionHolder
holder priority = record {
  owner = "sni";
  priority = priority;
  nfqueue_func = some 1;
  conntrack_func = none;
  netlogger_func = none;
}

abbrev pub two_subscriptions : Subscriptions
two_subscriptions = ("sni", holder (pos 2)) ∷ ("geoip", holder (pos 1)) ∷ []

abbrev bad_subscriptions : Subscriptions
bad_subscriptions = ("sni", holder (pos 2)) ∷ ("geoip", holder (negsuc 0)) ∷ []

-- Session 0 has the two subscribers.
abbrev pub two_world : World
two_world = record empty_world {
  sessions = record {
    next = 1;
    cell = λ q. record new_session { subscriptions = two_subscriptions };
  };
}

abbrev release_sni : String → Bool
release_sni key = string_key.same key "sni"

-- The handler of `sni` hangs.
abbrev late_sni : String → Answer
late_sni key = if string_key.same key "sni" then timed_out else finished false

call_all-in_range_example :
    (call_all two_subscriptions ≡ done (batches 0 100 two_subscriptions))
    × Perm (batches 0 100 two_subscriptions) two_subscriptions
    × Ordered 0 (batches 0 100 two_subscriptions)
unfolding all_in_range below keep
call_all-in_range_example = call_all-in_range two_subscriptions refl

call_subscribers-in_time_example : call_subscribers (in_time release_sni) 0 two_world ≡ (
    let subs = mirror_nfqueue_subscriptions two_world 0 in
    let serve = serve_batch (in_time release_sni) 0 in
    if all_in_range subs
    then done (serve_rounds serve subs 0 100 two_world)
    else panicked (serve_rounds serve subs 0 101 two_world))
unfolding mirror_nfqueue_subscriptions put
call_subscribers-in_time_example = call_subscribers-in_time release_sni 0 two_world (omega arith)

call_subscribers-blocks_example : (v : World) × (call_subscribers late_sni 0 two_world ≡ blocked v)
unfolding get
call_subscribers-blocks_example =
    call_subscribers-blocks late_sni 0 two_world "sni" (holder (pos 2)) 2 refl refl (omega arith)
      refl
