-- ===== src/Dispatch/PriorityLoop/Calls.antt =====
-- The calls of conntrack and netlogger handlers: each subscriber once, by priority.
use mathlib.Core.List.{append-nil, append_assoc, Perm, perm_middle}
use mathlib.Core.List.Perm
use packetd.Base.{
  ℕ, zero, suc, ◌+◌, ◌≤◌, ◌≡◌, refl, sym, ◌∙◌, true, false, [], ◌∷◌, ◌++◌, keep, length,
  if◌then◌else◌, arith, Bool-cases, inl, inr, ◌⊎◌, ==_iff, subst,
}
use packetd.Base.Integer.{ℤ, pos, negsuc, equals_ℕ}
use packetd.Dispatch.State.{Subscriptions}
use packetd.Dispatch.PriorityLoop.{done, panicked, at_priority, record_calls, call_all}
use packetd.Dispatch.PriorityLoop.Order.{
  below, is_below, length-below_mono, all_in_range, serve_rounds, call_by_priority_lem,
}

-- A priority is below, at or past a round; it is below the next one in the first two cases.
abbrev Place : ℕ → ℤ → Type 0
Place p i =
    ((is_below p i ≡ true) × (equals_ℕ i p ≡ false) × (is_below (p + 1) i ≡ true))
    ⊎ (((is_below p i ≡ false) × (equals_ℕ i p ≡ true) × (is_below (p + 1) i ≡ true))
        ⊎ ((is_below p i ≡ false) × (equals_ℕ i p ≡ false) × (is_below (p + 1) i ≡ false)))

-- The batches of a number of rounds from a priority on, joined.
pub batches : ℕ → ℕ → Subscriptions → Subscriptions
batches p zero subs = []
batches p (suc n) subs = at_priority p subs ++ batches (p + 1) n subs

serve_rounds-batches :
    (p n : ℕ) (subs calls : Subscriptions)
    → serve_rounds record_calls subs p n calls ≡ calls ++ batches p n subs
unfolding serve_rounds batches record_calls
serve_rounds-batches p zero subs calls = sym (append-nil calls)
serve_rounds-batches p (suc n) subs calls =
    serve_rounds-batches (p + 1) n subs (calls ++ at_priority p subs)
    ∙ append_assoc calls (at_priority p subs) (batches (p + 1) n subs)

place : (p : ℕ) (i : ℤ) → Place p i
place p (negsuc n) = inr (inr (refl, refl, refl))
place p (pos n) = ground arith

-- One round moves the next priority's subscriptions to those that were called.
below-perm :
    (p : ℕ) (subs : Subscriptions) → Perm (below p subs ++ at_priority p subs) (below (p + 1) subs)
unfolding below at_priority keep
below-perm p [] = Perm.refl []
below-perm p ((name, sub) ∷ subs) = elim (place p sub.priority) [
  | inl (b, e, n) ↦ rw (b, e, n) (Perm.cons _ (below-perm p subs))
  | inr (inl (b, e, n)) ↦
      rw (b, e, n) (Perm.trans (perm_middle (below p subs) _) (Perm.cons _ (below-perm p subs)))
  | inr (inr (b, e, n)) ↦ rw (b, e, n) (below-perm p subs)
]

batches-perm :
    (p n : ℕ) (subs : Subscriptions) → Perm (below p subs ++ batches p n subs) (below (n + p) subs)
unfolding batches
batches-perm p zero subs =
    let e : 0 + p ≡ p = omega arith in rw (append-nil (below p subs), e) (Perm.refl _)
batches-perm p (suc n) subs =
    let e : suc n + p ≡ n + (p + 1) = omega arith in
    rw (e, ← append_assoc (below p subs) (at_priority p subs) (batches (p + 1) n subs))
      (Perm.trans (Perm.append (below-perm p subs) (Perm.refl _)) (batches-perm (p + 1) n subs))

-- The priorities are numbers from a bound on, and never fall.
abbrev pub Ordered : ℕ → Subscriptions → Type 0
Ordered lo [] = Unit
Ordered lo ((name, sub) ∷ subs) = (n : ℕ) × (sub.priority ≡ pos n) × (lo ≤ n) × Ordered n subs

Ordered-mono : (lo p : ℕ) (subs : Subscriptions) → lo ≤ p → Ordered p subs → Ordered lo subs
Ordered-mono lo p [] h o = tt
Ordered-mono lo p ((name, sub) ∷ subs) h (n, e, l, o) = (n, e, omega arith, o)

equals-pos : (i : ℤ) (p : ℕ) → equals_ℕ i p ≡ true → i ≡ pos p
equals-pos (pos n) p h = ground arith
equals-pos (negsuc n) p h = cc

at_priority-Ordered :
    (p : ℕ) (subs rest : Subscriptions) → Ordered p rest → Ordered p (at_priority p subs ++ rest)
unfolding at_priority keep
at_priority-Ordered p [] rest r = r
at_priority-Ordered p ((name, sub) ∷ subs) rest r = elim (Bool-cases (equals_ℕ sub.priority p)) [
  | inl e ↦ rw e (p, equals-pos sub.priority p e, omega arith, at_priority-Ordered p subs rest r)
  | inr e ↦ rw e (at_priority-Ordered p subs rest r)
]

batches-Ordered : (p n : ℕ) (subs : Subscriptions) → Ordered p (batches p n subs)
unfolding batches
batches-Ordered p zero subs = tt
batches-Ordered p (suc n) subs =
    at_priority-Ordered p subs _
      (Ordered-mono p (p + 1) _ (omega arith) (batches-Ordered (p + 1) n subs))

below-all :
    (p : ℕ) (subs : Subscriptions) → length (below p subs) ≡ length subs → below p subs ≡ subs
unfolding below keep
below-all p [] h = refl
below-all p ((name, sub) ∷ subs) h = ground (arith, below-all p subs, length-below_mono p p subs)

below-zero : (subs : Subscriptions) → below 0 subs ≡ []
unfolding below keep
below-zero [] = refl
below-zero ((name, sub) ∷ subs) = ground (arith, below-zero subs)

calls-perm : (subs : Subscriptions) → all_in_range subs ≡ true → Perm (batches 0 100 subs) subs
unfolding all_in_range
calls-perm subs h =
    subst (λ (b : Subscriptions). Perm (b ++ batches 0 100 subs) subs) (below-zero subs)
      (subst (Perm (below 0 subs ++ batches 0 100 subs)) (below-all 100 subs ((==_iff _ _).0 h))
        (batches-perm 0 100 subs))

answers-record_calls : (batch calls : Subscriptions) → (record_calls batch calls).1 ≡ true
unfolding record_calls
answers-record_calls batch calls = refl

idle-record_calls : (calls : Subscriptions) → (record_calls [] calls).0 ≡ calls
unfolding record_calls
idle-record_calls calls = append-nil calls

-- The rounds of the loop that only records.
call_all-batches :
    (subs : Subscriptions)
    → call_all subs
      ≡ (if all_in_range subs then done (batches 0 100 subs) else panicked (batches 0 101 subs))
unfolding call_all
call_all-batches subs =
    rw (← serve_rounds-batches 0 100 subs [], ← serve_rounds-batches 0 101 subs [])
      (call_by_priority_lem record_calls subs answers-record_calls idle-record_calls [])

-- If every subscription has a priority from 0 to 99, the loop ends well, and the calls are a
-- permutation of the subscriptions in which the priorities never fall.
pub call_all-in_range :
    (subs : Subscriptions)
    → all_in_range subs ≡ true
    → (call_all subs ≡ done (batches 0 100 subs))
      × Perm (batches 0 100 subs) subs
      × Ordered 0 (batches 0 100 subs)
call_all-in_range subs h =
    (call_all-batches subs ∙ rw h, calls-perm subs h, batches-Ordered 0 100 subs)

-- If some subscription has a priority outside 0 to 99, the loop panics, after it has called the
-- subscriptions of priority 0 to 100.
pub call_all-out_of_range :
    (subs : Subscriptions)
    → all_in_range subs ≡ false
    → call_all subs ≡ panicked (batches 0 101 subs)
call_all-out_of_range subs h = call_all-batches subs ∙ rw h
