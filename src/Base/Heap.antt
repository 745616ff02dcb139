-- ===== src/Base/Heap.antt =====
-- The objects that Go code reaches by a pointer: an address names a cell, and cells that are not
-- allocated yet hold the zero value of the type. A pointer that may be nil is an `Option ℕ`.
use Prim.Native.Nat.{ℕ, ◌+◌}
use mathlib.Core.Path.{◌≡◌, refl}
use packetd.Base.Tests.{if◌then◌else◌, ◌==◌}

pub record Heap {ℓ} (A : Type ℓ) : Type ℓ where
  pub next : ℕ
  pub cell : ℕ → A

module _ {ℓ} {A : Type ℓ} where
  -- *p = f(*p)
  unfoldable pub modify : Heap A → ℕ → (A → A) → Heap A
  modify h p f = record h { cell = λ q. if p == q then f (h.cell q) else h.cell q }

  -- new(T), filled in: the address is the heap's `next`
  unfoldable pub allocate : Heap A → A → Heap A
  allocate h a = record { next = h.next + 1; cell = λ q. if h.next == q then a else h.cell q }

  pub cell-modify :
      (h : Heap A) (p q : ℕ) (f : A → A)
      → (modify h p f).cell q ≡ (if p == q then f (h.cell q) else h.cell q)
  unfolding modify
  cell-modify h p q f = refl

  pub cell-allocate :
      (h : Heap A) (q : ℕ) (a : A) → (allocate h a).cell q ≡ (if h.next == q then a else h.cell q)
  unfolding allocate
  cell-allocate h q a = refl
