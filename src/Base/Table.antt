-- ===== src/Base/Table.antt =====
-- A Go map as an association list. `put` and `remove` leave at most one entry for a key that they
-- touch, and clients have the laws by `get`.
use mathlib.Core.Path.{◌≡◌, refl}
use mathlib.Core.Bool.{Bool, true, false, ◌||◌}
use mathlib.Core.Option.{Option, none, some}
use mathlib.Core.List.{List, [], ◌∷◌}
use native.Mathlib.Omega.{arith}
use packetd.Base.Tests.{if◌then◌else◌}
use packetd.Base.Keys.{Key}

abbrev pub Table {ℓ κ} : Type ℓ → Type κ → Type (ℓ ⊔ κ)
Table K V = List (K × V)

module _ {ℓ} {K : Type ℓ} ⦃e : Key K⦄ where
  -- k is one of the listed keys
  unfoldable pub has : List K → K → Bool
  has [] k = false
  has (j ∷ js) k = e.same j k || has js k

  pub same_refl : (k : K) → e.same k k ≡ true
  same_refl k = (e.same_iff k k).1 refl

module _ {ℓ κ} {K : Type ℓ} {V : Type κ} ⦃e : Key K⦄ where
  -- m[k], with `none` for a key that is not there
  unfoldable pub get : Table K V → K → Option V
  get [] k = none
  get ((j, v) ∷ m) k = let rest = get m k in if e.same j k then some v else rest

  -- delete(m, k)
  unfoldable pub remove : Table K V → K → Table K V
  remove [] k = []
  remove ((j, v) ∷ m) k = let rest = remove m k in if e.same j k then rest else (j, v) ∷ rest

  -- m[k] = v
  unfoldable pub put : Table K V → K → V → Table K V
  unfolding remove
  put m k v = (k, v) ∷ remove m k

  -- the keys that a `range` over the map visits
  unfoldable pub keys : Table K V → List K
  keys [] = []
  keys ((j, v) ∷ m) = j ∷ keys m

  pub get-remove :
      (m : Table K V) (k j : K) → get (remove m k) j ≡ (if e.same k j then none else get m j)
  unfolding get remove
  get-remove [] k j = ground arith
  get-remove ((i, v) ∷ m) k j =
      ground (arith, get-remove m k j, e.same_iff i k, e.same_iff i j, e.same_iff k j)

  pub get-put :
      (m : Table K V) (k j : K) (v : V)
      → get (put m k v) j ≡ (if e.same k j then some v else get m j)
  unfolding get put
  get-put m k j v = ground (arith, get-remove m k j)

  pub has-keys : (m : Table K V) (k : K) (v : V) → get m k ≡ some v → has (keys m) k ≡ true
  unfolding get keys has
  has-keys [] k v h = ground arith
  has-keys ((i, w) ∷ m) k v h = ground (arith, has-keys m k v)

pub ruleset table_laws = (get-put, get-remove)
