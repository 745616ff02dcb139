-- ===== src/Dict/Lines/Scanning.antt =====
-- Words and numbers in the lines of the dictionary.
use packetd.Base.{
  ℕ, suc, ◌^◌, ◌<◌, ◌≡◌, refl, Bool, true, false, ◌||◌, List, [], ◌∷◌, ◌++◌, ◌==◌, arith,
}
use packetd.Base.Text.{codes, digits}
use packetd.Base.Decimal.{itoa, itoa-IsDigits, digits-itoa, IsDigits, one_more}
use packetd.Dict.Lines.{
  split_n, has_prefix, contains, is_space, skip_spaces, word, digit_run, uint32_or_zero,
}

unfoldable pub has_space : List ℕ → Bool
has_space [] = false
has_space (c ∷ cs) = is_space c || has_space cs

pub word_whole : (cs : List ℕ) → has_space cs ≡ false → word cs ≡ cs
unfolding word has_space
word_whole [] h = refl
word_whole (c ∷ cs) h = ground (arith, word_whole cs, h)

pub skip_spaces_word : (cs : List ℕ) → has_space cs ≡ false → skip_spaces cs ≡ cs
unfolding skip_spaces has_space
skip_spaces_word [] h = refl
skip_spaces_word (c ∷ cs) h =
    let plain : is_space c ≡ false = ground (arith, h) in rw (plain, skip_spaces) refl

pub split-word :
    (n : ℕ) (a rest : List ℕ)
    → has_space a ≡ false
    → split_n (suc (suc n)) (a ++ (b' ' ∷ rest)) ≡ a ∷ split_n (suc n) rest
unfolding split_n has_space
split-word n [] rest h = refl
split-word n (c ∷ a) rest h =
    let deeper = split-word n a rest (ground (arith, h)) in
    let other : (c == b' ') ≡ false = ground (arith, h) in rw (other, deeper) refl

prefix-word :
    (cs part : List ℕ) → has_space cs ≡ false → has_space part ≡ true → has_prefix cs part ≡ false
unfolding has_prefix has_space
prefix-word cs [] h p = cc
prefix-word [] (d ∷ part) h p = refl
prefix-word (c ∷ cs) (d ∷ part) h p = ground (arith, prefix-word cs part, h, p)

-- A part with a space is not contained in a word.
pub contains-word :
    (cs part : List ℕ) → has_space cs ≡ false → has_space part ≡ true → contains cs part ≡ false
unfolding contains has_space
contains-word [] part h p = prefix-word [] part refl p
contains-word (c ∷ cs) part h p =
    let first = prefix-word (c ∷ cs) part h p in
    let rest = contains-word cs part (ground (arith, h)) p in rw (first, rest) refl

pub digits-no_space : (cs : List ℕ) → IsDigits cs → has_space cs ≡ false
unfolding has_space
digits-no_space [] h = refl
digits-no_space (c ∷ cs) (one_more d h) = ground (arith, d, digits-no_space cs h)

pub digit_run_whole : (cs : List ℕ) → IsDigits cs → digit_run cs ≡ cs
unfolding digit_run
digit_run_whole [] h = refl
digit_run_whole (c ∷ cs) (one_more d h) = ground (arith, d, digit_run_whole cs h)

pub scan-itoa : (n : ℕ) → n < 2 ^ 32 → uint32_or_zero (digits (digit_run (codes (itoa n)))) ≡ n
scan-itoa n h =
    rw (digit_run_whole (codes (itoa n)) (itoa-IsDigits n), digits-itoa n) (ground (arith, h))
