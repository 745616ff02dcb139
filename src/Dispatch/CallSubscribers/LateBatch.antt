-- ===== src/Dispatch/CallSubscribers/LateBatch.antt =====
-- A batch with a handler that is late does not come to its end.
use packetd.Base.{
  ℕ, ◌≤◌, ◌<◌, ◌≡◌, refl, ap, ◌∙◌, String, Bool, true, false, Option, some, [], ◌∷◌, length, keep,
  if◌then◌else◌, arith, Bool-cases, inl, inr,
}
use packetd.Base.Integer.{ℤ, pos, equals_ℕ}
use packetd.Base.Keys.{string_key}
use packetd.Base.Table.{get}
use packetd.Dispatch.State.{World, SubscriptionHolder, Subscriptions}
use packetd.Dispatch.PriorityLoop.{at_priority}
use packetd.Dispatch.PriorityLoop.Order.{below, is_below, length-below_mono}
use packetd.Dispatch.Nfqueue.{Answer, timed_out}
use packetd.Dispatch.CallSubscribers.{take_answer, serve_batch}

not_below : (i : ℤ) (p q : ℕ) → i ≡ pos p → q ≤ p → is_below q i ≡ false
not_below i p q h l = rw h (ground arith)

at_own : (i : ℤ) (p : ℕ) → i ≡ pos p → equals_ℕ i p ≡ true
at_own i p h = rw h (ground arith)

-- The head of a table is what its own key finds.
head_found :
    (k key : String) (sub holder : SubscriptionHolder) (rest : Option SubscriptionHolder)
    → string_key.same k key ≡ true
    → (if string_key.same k key then some sub else rest) ≡ some holder
    → (sub ≡ holder) × (k ≡ key)
head_found k key sub holder rest t e =
    let found : some sub ≡ some holder = rw t at e in (cc, (string_key.same_iff k key).0 t)

tail_found :
    (k key : String) (sub holder : SubscriptionHolder) (rest : Option SubscriptionHolder)
    → string_key.same k key ≡ false
    → (if string_key.same k key then some sub else rest) ≡ some holder
    → rest ≡ some holder
tail_found k key sub holder rest f e = rw f at e

-- While a subscription waits for its priority, not all are called.
pub not_all_below :
    (subs : Subscriptions) (key : String) (holder : SubscriptionHolder) (p q : ℕ)
    → get subs key ≡ some holder
    → holder.priority ≡ pos p
    → q ≤ p
    → length (below q subs) < length subs
unfolding below keep get
not_all_below [] key holder p q e h l = cc
not_all_below ((k, sub) ∷ subs) key holder p q e h l = elim (Bool-cases (string_key.same k key)) [
  | inl t ↦
      let hit = (head_found k key sub holder (get subs key) t e).0 in
      let prior : sub.priority ≡ pos p = ap (λ (s : SubscriptionHolder). s.priority) hit ∙ h in
      ground (arith, not_below sub.priority p q prior l, length-below_mono q q subs)
  | inr f ↦ ground (
    arith,
    not_all_below subs key holder p q (tail_found k key sub holder (get subs key) f e) h l,
  )
]

-- A batch does not come to its end once one of its handlers does not.
serve_head :
    (answers : String → Answer) (sess : ℕ) (k : String) (sub : SubscriptionHolder)
    (batch : Subscriptions) (w : World)
    → answers k ≡ timed_out
    → (serve_batch answers sess ((k, sub) ∷ batch) w).1 ≡ false
unfolding serve_batch
serve_head answers sess k sub batch w a = rw a refl

serve_tail :
    (answers : String → Answer) (sess : ℕ) (k : String) (sub : SubscriptionHolder)
    (batch : Subscriptions) (w : World)
    → ((v : World) → (serve_batch answers sess batch v).1 ≡ false)
    → (serve_batch answers sess ((k, sub) ∷ batch) w).1 ≡ false
unfolding serve_batch
serve_tail answers sess k sub batch w blocks =
    ground (arith, blocks (take_answer sess (answers k) k w).0)

pub batch_blocks :
    (answers : String → Answer) (sess : ℕ) (subs : Subscriptions) (key : String)
    (holder : SubscriptionHolder) (p : ℕ)
    → get subs key ≡ some holder
    → holder.priority ≡ pos p
    → answers key ≡ timed_out
    → (w : World) → (serve_batch answers sess (at_priority p subs) w).1 ≡ false
unfolding at_priority keep get
batch_blocks answers sess [] key holder p e h a w = cc
batch_blocks answers sess ((k, sub) ∷ subs) key holder p e h a w =
    elim (Bool-cases (string_key.same k key)) [
      | inl t ↦
          let (hit, same) = head_found k key sub holder (get subs key) t e in
          rw (at_own sub.priority p (ap (λ (s : SubscriptionHolder). s.priority) hit ∙ h))
            (serve_head answers sess k sub _ w (ap answers same ∙ a))
      | inr f ↦
          in_tail
            (batch_blocks answers sess subs key holder p
              (tail_found k key sub holder (get subs key) f e) h a)
            (equals_ℕ sub.priority p)
    ]
  where
    in_tail :
        ((v : World) → (serve_batch answers sess (at_priority p subs) v).1 ≡ false)
        → (b : Bool)
        → (serve_batch answers sess
            (if b then (k, sub) ∷ at_priority p subs else at_priority p subs)
            w).1
          ≡ false
    in_tail blocks true = serve_tail answers sess k sub _ w blocks
    in_tail blocks false = blocks w
