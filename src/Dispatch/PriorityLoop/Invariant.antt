-- ===== src/Dispatch/PriorityLoop/Invariant.antt =====
-- What every batch keeps, the loop keeps, however it ends.
use packetd.Base.{ℕ, zero, suc, ◌+◌, Bool, true, false, length, ◌==◌, ltb, Bool-cases, inl, inr}
use packetd.Dispatch.State.{Subscriptions}
use packetd.Dispatch.PriorityLoop.{
  LoopResult, Batch, at_priority, after_batch, priority_loop, call_by_priority, state_of,
}

module _ {ℓ κ} {S : Type ℓ} (P : S → Type κ) (serve : Batch S) (sublist : Subscriptions)
    (keeps : (batch : Subscriptions) (s : S) → P s → P (serve batch s).0) where
  after_batch-keeps :
      (r : S × Bool) (priority : ℕ) (next : S → LoopResult S)
      → P r.0
      → ((s : S) → P s → P (state_of (next s)))
      → P (state_of (after_batch r priority next))
  unfolding after_batch
  after_batch-keeps (s, false) priority next h k = h
  after_batch-keeps (s, true) priority next h k = elim (Bool-cases (ltb 100 priority)) [
    | inl t ↦ rw t h
    | inr f ↦ rw f (k s h)
  ]

  priority_loop-keeps :
      (fuel subcount priority : ℕ) (s : S)
      → P s
      → P (state_of (priority_loop serve sublist fuel subcount priority s))
  unfolding priority_loop
  priority_loop-keeps zero subcount priority s h = h
  priority_loop-keeps (suc fuel) subcount priority s h =
      elim (Bool-cases (subcount == length sublist)) [
        | inl t ↦ rw (t, priority_loop) h
        | inr f ↦
            rw (f, priority_loop)
              (after_batch-keeps (serve (at_priority priority sublist) s) (priority + 1) _
                (keeps (at_priority priority sublist) s h)
                (priority_loop-keeps fuel (subcount + length (at_priority priority sublist))
                  (priority + 1)))
      ]

  pub call_by_priority-keeps : (s : S) → P s → P (state_of (call_by_priority serve sublist s))
  unfolding call_by_priority
  call_by_priority-keeps s h = priority_loop-keeps 102 0 0 s h
