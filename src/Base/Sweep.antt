-- ===== src/Base/Sweep.antt =====
-- The loop of a cache's cleaner: it visits the keys of a map and deletes those whose value is stale.
use mathlib.Core.Path.{◌≡◌, refl}
use mathlib.Core.Bool.{Bool, false}
use mathlib.Core.Option.{Option, none, some}
use mathlib.Core.Logic.{inl, inr}
use mathlib.Core.List.{List, [], ◌∷◌}
use native.Mathlib.Omega.{arith}
use packetd.Base.Tests.{if◌then◌else◌, Option-cases}
use packetd.Base.Keys.{Key}
use packetd.Base.Table.{Table, get, remove, keys, has, has-keys, get-remove}

-- A value that is there and stale, and what is left of it.
abbrev pub is_stale {ℓ} : {V : Type ℓ} → (V → Bool) → Option V → Bool
is_stale stale none = false
is_stale stale (some v) = stale v

abbrev pub unless_stale {ℓ} : {V : Type ℓ} → (V → Bool) → Option V → Option V
unless_stale stale none = none
unless_stale stale (some v) = if stale v then none else some v

module _ {ℓ κ} {K : Type ℓ} {V : Type κ} ⦃e : Key K⦄ (stale : V → Bool) where
  -- One round of the loop, for a key that may be gone by then.
  unfoldable pub sweep_key : Table K V → K → Table K V
  sweep_key m k = if is_stale stale (get m k) then remove m k else m

  unfoldable pub sweep_keys : Table K V → List K → Table K V
  unfolding sweep_key
  sweep_keys m [] = m
  sweep_keys m (k ∷ order) = sweep_keys (sweep_key m k) order

  unfoldable pub sweep : Table K V → Table K V
  unfolding sweep_keys
  sweep m = sweep_keys m (keys m)

  get-sweep_key :
      (m : Table K V) (k j : K)
      → get (sweep_key m k) j ≡ (if e.same k j then unless_stale stale (get m j) else get m j)
  unfolding sweep_key
  get-sweep_key m k j = elim (Option-cases (get m k)) [
    | inl q ↦ rw q (ground (arith, e.same_iff k j, q))
    | inr (v, q) ↦ rw q (ground (arith, e.same_iff k j, q, get-remove m k j))
  ]

  get-sweep_keys :
      (order : List K) (m : Table K V) (j : K)
      → get (sweep_keys m order) j ≡ (if has order j then unless_stale stale (get m j) else get m j)
  unfolding sweep_keys has
  get-sweep_keys [] m j = refl
  get-sweep_keys (k ∷ order) m j = elim (Option-cases (get m j)) [
    | inl q ↦ ground (arith, get-sweep_keys order (sweep_key m k) j, get-sweep_key m k j, q)
    | inr (v, q) ↦ ground (arith, get-sweep_keys order (sweep_key m k) j, get-sweep_key m k j, q)
  ]

  -- The loop keeps exactly the values that are not stale, whatever the order of the keys.
  pub get-sweep : (m : Table K V) (j : K) → get (sweep m) j ≡ unless_stale stale (get m j)
  unfolding sweep
  get-sweep m j = elim (Option-cases (get m j)) [
    | inl q ↦ ground (arith, get-sweep_keys (keys m) m j, q)
    | inr (v, q) ↦ ground (arith, get-sweep_keys (keys m) m j, has-keys m j v q, q)
  ]
