-- ===== src/Base/Decimal.antt =====
-- Numbers in decimal, as Go's `strconv.Itoa` and `%d` print them.
use Prim.Native.Char.{Char, char, code, IsScalar}
use Prim.Native.Nat.{ℕ, compare, Ordering, zero, suc, ◌+◌, ◌*◌, ◌/◌, ◌%◌, ◌≤◌}
use Prim.Native.String.{String}
use mathlib.Core.Path.{◌≡◌, refl, sym, ap, ◌∙◌}
use mathlib.Core.Bool.{true}
use mathlib.Core.Option.{some}
use mathlib.Core.Logic.{inl, inr}
use mathlib.Core.List.{List, [], ◌∷◌}
use native.Mathlib.Omega.{arith}
use packetd.Base.Tests.{ltb, if◌then◌else◌, Bool-cases}
use packetd.Base.Text.{codes, is_digit, digits, digits_value}

pub digit-IsScalar : (n : ℕ) → IsScalar (b'0' + n % 10)
digit-IsScalar n =
    let small : compare (b'0' + n % 10) 55296 ≡ Ordering.lt = ground arith in rw small tt

-- The last digit of a number
abbrev digit : ℕ → Char
digit n = char (b'0' + n % 10) (digit-IsScalar n)

-- The digits of a number before a text, on as much fuel as the number has units.
unfoldable pub digits_before : ℕ → ℕ → String → String
digits_before zero n rest = String.◌∷◌ (digit n) rest
digits_before (suc fuel) n rest =
    let more = digits_before fuel (n / 10) (String.◌∷◌ (digit n) rest) in
    if ltb n 10 then String.◌∷◌ (digit n) rest else more

unfoldable pub itoa : ℕ → String
unfolding digits_before
itoa n = digits_before n n ""

digit_read :
    (n acc : ℕ) (rest : String)
    → digits_value acc (code (digit n) ∷ codes rest) ≡ digits_value (acc * 10 + n % 10) (codes rest)
unfolding digits_value
digit_read n acc rest = ground arith

digits_read :
    (fuel n : ℕ) (rest : String)
    → n ≤ fuel
    → digits_value 0 (codes (digits_before fuel n rest)) ≡ digits_value n (codes rest)
unfolding digits_before
digits_read zero n rest h = ground (arith, digit_read n 0 rest)
digits_read (suc fuel) n rest h = ground (
  arith,
  digit_read n 0 rest,
  digit_read n (n / 10) rest,
  digits_read fuel (n / 10) (String.◌∷◌ (digit n) rest) (omega arith),
)

-- A text of digits before a text that starts with none.
pub data IsDigits : List ℕ → Type 0 where
  no_more : IsDigits []
  one_more : {c : ℕ} {cs : List ℕ} → is_digit c ≡ true → IsDigits cs → IsDigits (c ∷ cs)

digits_before-IsDigits :
    (fuel n : ℕ) (rest : String)
    → IsDigits (codes rest)
    → IsDigits (codes (digits_before fuel n rest))
unfolding digits_before
digits_before-IsDigits zero n rest h = IsDigits.one_more (ground arith) h
digits_before-IsDigits (suc fuel) n rest h = elim (Bool-cases (ltb n 10)) [
  | inl e ↦ rw e (IsDigits.one_more (ground arith) h)
  | inr e ↦ rw e (
      digits_before-IsDigits fuel (n / 10) (String.◌∷◌ (digit n) rest)
        (IsDigits.one_more (ground arith) h))
]

pub itoa-IsDigits : (n : ℕ) → IsDigits (codes (itoa n))
unfolding itoa
itoa-IsDigits n = digits_before-IsDigits n n "" IsDigits.no_more

digits_before-some :
    (fuel n : ℕ) (rest : String)
    → digits (codes (digits_before fuel n rest))
      ≡ digits_value 0 (codes (digits_before fuel n rest))
unfolding digits_before digits
digits_before-some zero n rest = refl
digits_before-some (suc fuel) n rest = elim (Bool-cases (ltb n 10)) [
  | inl e ↦ rw e refl
  | inr e ↦ rw e (digits_before-some fuel (n / 10) (String.◌∷◌ (digit n) rest))
]

-- A printed number is read back.
pub digits-itoa : (n : ℕ) → digits (codes (itoa n)) ≡ some n
unfolding itoa digits_value
digits-itoa n = digits_before-some n n "" ∙ digits_read n n "" (omega arith)

pub itoa_injective : (m n : ℕ) → itoa m ≡ itoa n → m ≡ n
itoa_injective m n h =
    let same : some m ≡ some n =
      sym (digits-itoa m) ∙ ap (λ s. digits (codes s)) h ∙ digits-itoa n in
    cc
