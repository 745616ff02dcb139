-- ===== src/Dispatch/PriorityLoop.antt =====
-- The loop that `callSubscribers`, `conntrackCallback` and `netloggerCallback` share: handlers are
-- called by priority, from 0 up, until all were called; past priority 100 the loop panics.
pub mod Order
pub mod Calls
pub mod Invariant
use packetd.Base.{
  ℕ, zero, suc, ◌+◌, String, Bool, true, false, List, [], ◌∷◌, ◌++◌, keep, length, ◌==◌, ltb,
  if◌then◌else◌,
}
use packetd.Base.Integer.{ℤ, equals_ℕ}
use packetd.Dispatch.State.{SubscriptionHolder, Subscriptions}

-- How a run of the loop ends, with the state that it reached.
pub data LoopResult {ℓ} (S : Type ℓ) : Type ℓ where
  done : S → LoopResult S
  blocked : S → LoopResult S
  panicked : S → LoopResult S
  out_of_fuel : S → LoopResult S

-- The subscriptions that a round calls: `val.Priority != priority` skips the others.
unfoldable pub at_priority : ℕ → Subscriptions → Subscriptions
at_priority priority = keep (λ sub. equals_ℕ (sub.1).priority priority)

abbrev pub Batch {ℓ} : Type ℓ → Type ℓ
Batch S = Subscriptions → S → S × Bool

-- What follows a served batch: the wait for its answers may never end.
unfoldable pub after_batch {ℓ} : {S : Type ℓ} → S × Bool → ℕ → (S → LoopResult S) → LoopResult S
after_batch (s, false) priority next = blocked s
after_batch (s, true) priority next = if ltb 100 priority then panicked s else next s

module _ {ℓ} {S : Type ℓ} (serve : Batch S) (sublist : Subscriptions) where
  -- `for subcount != subtotal`, on fuel. `serve` calls a batch and says whether all of it answered.
  unfoldable pub priority_loop : ℕ → ℕ → ℕ → S → LoopResult S
  unfolding after_batch
  priority_loop zero subcount priority s = out_of_fuel s
  priority_loop (suc fuel) subcount priority s =
      let batch = at_priority priority sublist in
      elim (subcount == length sublist) [
        | true ↦ done s
        | false ↦
            after_batch (serve batch s) (priority + 1)
              (priority_loop fuel (subcount + length batch) (priority + 1))
      ]

  -- The loop from its start. Priorities above 100 end it, so 102 rounds are enough.
  unfoldable pub call_by_priority : S → LoopResult S
  unfolding priority_loop
  call_by_priority s = priority_loop 102 0 0 s

-- The loop where a call has no answer that matters: it yields the calls that were made, in order.
unfoldable pub record_calls : Batch Subscriptions
record_calls batch calls = (calls ++ batch, true)

unfoldable pub call_all : Subscriptions → LoopResult Subscriptions
unfolding record_calls
call_all subs = call_by_priority record_calls subs []

-- The state that a run of the loop left, however it ended.
abbrev pub state_of {ℓ} : {S : Type ℓ} → LoopResult S → S
state_of (done s) = s
state_of (blocked s) = s
state_of (panicked s) = s
state_of (out_of_fuel s) = s
