-- ===== src/Logger/Writing.antt =====
-- The writer loses no byte, and how the bytes come in pieces does not matter.
use packetd.Base.{ℕ, ◌≡◌, refl, sym, ap, ◌∙◌, List, [], ◌∷◌, ◌++◌, ◌==◌, Bool-cases, inl, inr}
use mathlib.Core.List.{append_assoc, append-nil}
use packetd.Logger.{write}

pub all_bytes : List (List ℕ) → List ℕ
all_bytes [] = []
all_bytes (line ∷ lines) = line ++ all_bytes lines

-- The lines that Write logs and the buffer that it leaves hold, in order, the old buffer and the
-- bytes that it was given.
pub write-lossless :
    (buffer p : List ℕ) → all_bytes (write buffer p).0 ++ (write buffer p).1 ≡ buffer ++ p
unfolding write all_bytes
write-lossless buffer [] = sym (append-nil buffer)
write-lossless buffer (b ∷ p) =
    let buffer' = buffer ++ (b ∷ []) in
    elim (Bool-cases (b == b'\n')) [
      | inl e ↦ rw e (
          append_assoc buffer' (all_bytes (write [] p).0) (write [] p).1
          ∙ ap (λ xs. buffer' ++ xs) (write-lossless [] p)
          ∙ append_assoc buffer (b ∷ []) p)
      | inr e ↦ rw e (write-lossless buffer' p ∙ append_assoc buffer (b ∷ []) p)
    ]

-- Writing two pieces one after the other logs the same lines and leaves the same buffer as writing
-- them at once.
pub write-append :
    (buffer p q : List ℕ)
    → write buffer (p ++ q)
      ≡ ((write buffer p).0 ++ (write (write buffer p).1 q).0, (write (write buffer p).1 q).1)
unfolding write
write-append buffer [] q = refl
write-append buffer (b ∷ p) q = elim (Bool-cases (b == b'\n')) [
  | inl e ↦
      rw e (
        ap (λ (r : List (List ℕ) × List ℕ). ((buffer ++ (b ∷ [])) ∷ r.0, r.1))
          (write-append [] p q))
  | inr e ↦ rw e (write-append (buffer ++ (b ∷ [])) p q)
]
