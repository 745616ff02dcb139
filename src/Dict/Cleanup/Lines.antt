-- ===== src/Dict/Cleanup/Lines.antt =====
-- No piece between newlines starts with one, so that the early return is never taken.
use packetd.Base.{
  ℕ, ◌≡◌, refl, ◌∙◌, Bool, false, List, [], ◌∷◌, ◌==◌, bytes_equal, Bool-cases, inl, inr, arith,
}
use packetd.Dict.Cleanup.{split_lines, onto_first, is_lone_newline}

starts_newline : List (List ℕ) → Bool
starts_newline [] = false
starts_newline ([] ∷ pieces) = false
starts_newline ((c ∷ piece) ∷ pieces) = c == b'\n'

starts-onto_first :
    (c : ℕ) (pieces : List (List ℕ)) → starts_newline (onto_first c pieces) ≡ (c == b'\n')
unfolding starts_newline
starts-onto_first c [] = refl
starts-onto_first c (piece ∷ pieces) = refl

starts-split_lines : (cs : List ℕ) → starts_newline (split_lines cs) ≡ false
unfolding starts_newline split_lines
starts-split_lines [] = refl
starts-split_lines (c ∷ cs) = elim (Bool-cases (c == b'\n')) [
  | inl e ↦ rw (e, split_lines) refl
  | inr e ↦ rw (e, split_lines) (starts-onto_first c (split_lines cs) ∙ e)
]

lone_starts :
    (pieces : List (List ℕ)) → starts_newline pieces ≡ false → is_lone_newline pieces ≡ false
unfolding starts_newline bytes_equal
lone_starts [] h = refl
lone_starts ([] ∷ []) h = refl
lone_starts ((c ∷ piece) ∷ []) h = ground arith
lone_starts (piece ∷ next ∷ pieces) h = refl

pub lone-split_lines : (cs : List ℕ) → is_lone_newline (split_lines cs) ≡ false
lone-split_lines cs = lone_starts (split_lines cs) (starts-split_lines cs)
