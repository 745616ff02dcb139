-- ===== src/Dispatch/PriorityLoop/Order.antt =====
-- The loop calls every subscription of priority 0 to 99 once, in the order of the priorities.
use packetd.Base.{
  ℕ, zero, suc, ◌+◌, ◌≤◌, ◌<◌, ◌≡◌, ◌≢◌, refl, sym, ap, ◌∙◌, Bool, true, false, [], ◌∷◌, keep,
  length, ◌==◌, ltb, if◌then◌else◌, arith, ℕ_discrete, Bool-cases, inl, inr, ==_iff,
}
use packetd.Base.Integer.{ℤ, pos, negsuc}
use packetd.Dispatch.State.{Subscriptions}
use packetd.Dispatch.PriorityLoop.{
  LoopResult, done, panicked, Batch, at_priority, after_batch, priority_loop, call_by_priority,
}

-- A priority in the range from 0 up to a bound.
abbrev pub is_below : ℕ → ℤ → Bool
is_below bound (pos n) = ltb n bound
is_below bound (negsuc n) = false

-- The subscriptions with a priority in that range.
unfoldable pub below : ℕ → Subscriptions → Subscriptions
below bound = keep (λ sub. is_below bound (sub.1).priority)

pub length-below-suc :
    (p : ℕ) (subs : Subscriptions)
    → length (below (p + 1) subs) ≡ length (below p subs) + length (at_priority p subs)
unfolding below at_priority keep
length-below-suc p [] = omega arith
length-below-suc p ((name, sub) ∷ subs) = ground (arith, length-below-suc p subs)

pub length-below_mono :
    (p q : ℕ) (subs : Subscriptions)
    → p ≤ q
    → (length (below p subs) ≤ length (below q subs)) × (length (below q subs) ≤ length subs)
unfolding below keep
length-below_mono p q [] h = omega arith
length-below_mono p q ((name, sub) ∷ subs) h = ground (arith, length-below_mono p q subs)

-- Once all subscriptions were called, the later rounds find none.
at_priority_past :
    (p q : ℕ) (subs : Subscriptions)
    → length (below p subs) ≡ length subs
    → p ≤ q
    → at_priority q subs ≡ []
unfolding below at_priority keep
at_priority_past p q [] e h = refl
at_priority_past p q ((name, sub) ∷ subs) e h =
    ground (arith, at_priority_past p q subs, length-below_mono p p subs)

pub length-below-zero : (subs : Subscriptions) → length (below 0 subs) ≡ 0
unfolding below keep
length-below-zero [] = refl
length-below-zero ((name, sub) ∷ subs) = ground (arith, length-below-zero subs)

-- Whether every subscription has a priority from 0 to 99.
unfoldable pub all_in_range : Subscriptions → Bool
all_in_range subs = length (below 100 subs) == length subs

module _ {ℓ} {S : Type ℓ} (serve : Batch S) (subs : Subscriptions) where
  -- The batches of a number of rounds from a priority on, with no test.
  unfoldable pub serve_rounds : ℕ → ℕ → S → S
  serve_rounds p zero s = s
  serve_rounds p (suc n) s = serve_rounds (p + 1) n (serve (at_priority p subs) s).0

pub not_past : (p : ℕ) → p < 100 → ltb 100 (p + 1) ≡ false
not_past p h = ground arith

past : (p : ℕ) → 100 ≤ p → ltb 100 (p + 1) ≡ true
past p h = ground arith

pub ==_ne : (a b : ℕ) → a ≢ b → (a == b) ≡ false
==_ne a b h = ground arith

early :
    (subs : Subscriptions) (p : ℕ)
    → p ≤ 100
    → length (below 100 subs) ≢ length subs
    → length (below p subs) ≢ length subs
early subs p h e = omega (arith, length-below_mono p 100 subs h)

pub after_batch_lem {ℓ} :
    {S : Type ℓ} (r : S × Bool) (p : ℕ) (next : S → LoopResult S)
    → r.1 ≡ true
    → after_batch r p next ≡ (if ltb 100 p then panicked r.0 else next r.0)
unfolding after_batch
after_batch_lem (s, true) p next h = refl
after_batch_lem (s, false) p next h = cc

module _ {ℓ} {S : Type ℓ} (serve : Batch S) (subs : Subscriptions)
    (answers : (batch : Subscriptions) (s : S) → (serve batch s).1 ≡ true)
    (idle : (s : S) → (serve [] s).0 ≡ s) where
  serve_past :
      (p q n : ℕ) (s : S)
      → length (below p subs) ≡ length subs
      → p ≤ q
      → serve_rounds serve subs q n s ≡ s
  unfolding serve_rounds
  serve_past p q zero s e h = refl
  serve_past p q (suc n) s e h =
      rw (at_priority_past p q subs e h, idle s) (serve_past p (q + 1) n s e (omega arith))

  step_lem :
      (fuel p : ℕ) (s : S)
      → length (below p subs) ≢ length subs
      → priority_loop serve subs (suc fuel) (length (below p subs)) p s ≡ (
          if ltb 100 (p + 1)
          then panicked (serve (at_priority p subs) s).0
          else priority_loop serve subs fuel
              (length (below (p + 1) subs))
              (p + 1)
              (serve (at_priority p subs) s).0)
  unfolding priority_loop
  step_lem fuel p s e = elim (Bool-cases (length (below p subs) == length subs)) [
    | inl t ↦ absurd (e ((==_iff _ _).0 t))
    | inr t ↦
        rw (t, priority_loop, length-below-suc p subs) (after_batch_lem _ (p + 1) _ (answers _ s))
  ]

  stop_lem :
      (fuel p : ℕ) (s : S)
      → length (below p subs) ≡ length subs
      → priority_loop serve subs (suc fuel) (length (below p subs)) p s ≡ done s
  unfolding priority_loop
  stop_lem fuel p s e = rw ((==_iff _ _).1 e, priority_loop)

  in_range_loop :
      (n fuel p : ℕ) (s : S)
      → n + p ≡ 100
      → n < fuel
      → length (below 100 subs) ≡ length subs
      → priority_loop serve subs fuel (length (below p subs)) p s
        ≡ done (serve_rounds serve subs p n s)
  unfolding serve_rounds
  in_range_loop n zero p s h m e = absurd (omega arith)
  in_range_loop zero (suc fuel) p s h m e =
      let at_end : p ≡ 100 = omega arith in stop_lem fuel p s (rw at_end e)
  in_range_loop (suc n) (suc fuel) p s h m e =
      elim (ℕ_discrete (length (below p subs)) (length subs)) [
        | yes t ↦ stop_lem fuel p s t ∙ ap done (sym (serve_past p p (suc n) s t (omega arith)))
        | no t ↦
            step_lem fuel p s t
            ∙ rw (not_past p (omega arith))
                (in_range_loop n fuel (p + 1) _ (omega arith) (omega arith) e)
      ]

  out_of_range_loop :
      (n fuel p : ℕ) (s : S)
      → n + p ≡ 100
      → n < fuel
      → length (below 100 subs) ≢ length subs
      → priority_loop serve subs fuel (length (below p subs)) p s
        ≡ panicked (serve_rounds serve subs p (suc n) s)
  unfolding serve_rounds
  out_of_range_loop n zero p s h m e = absurd (omega arith)
  out_of_range_loop zero (suc fuel) p s h m e =
      step_lem fuel p s (early subs p (omega arith) e) ∙ rw (past p (omega arith))
  out_of_range_loop (suc n) (suc fuel) p s h m e =
      step_lem fuel p s (early subs p (omega arith) e)
      ∙ rw (not_past p (omega arith))
          (out_of_range_loop n fuel (p + 1) _ (omega arith) (omega arith) e)

  start :
      (s : S)
      → priority_loop serve subs 102 0 0 s
        ≡ priority_loop serve subs 102 (length (below 0 subs)) 0 s
  start s = ap (λ k. priority_loop serve subs 102 k 0 s) (sym (length-below-zero subs))

  -- If every batch is answered, and an empty batch changes nothing, the loop ends well exactly if
  -- every priority is in 0 to 99, and then it has served the batches of the priorities 0 to 99 in
  -- that order. Otherwise it panics, after the batches of 0 to 100. It never runs out of fuel.
  pub call_by_priority_lem :
      (s : S)
      → call_by_priority serve subs s ≡ (
          if all_in_range subs
          then done (serve_rounds serve subs 0 100 s)
          else panicked (serve_rounds serve subs 0 101 s))
  unfolding call_by_priority all_in_range
  call_by_priority_lem s = elim (ℕ_discrete (length (below 100 subs)) (length subs)) [
    | yes t ↦
        rw ((==_iff _ _).1 t) (start s ∙ in_range_loop 100 102 0 s (omega arith) (omega arith) t)
    | no t ↦
        rw (==_ne _ _ t) (start s ∙ out_of_range_loop 100 102 0 s (omega arith) (omega arith) t)
  ]
