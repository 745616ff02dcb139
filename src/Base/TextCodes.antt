-- ===== src/Base/TextCodes.antt =====
-- A text and its code points: what a separator before a run of digits tells apart.
use Prim.Native.Char.{Char, code}
use Prim.Native.Nat.{ℕ}
use Prim.Native.String.{String, ◌++◌ as ◌then◌}
use text.Mathlib.TextEquality.{Char-path}
use text.Mathlib.TextLemmas.{nil-append, cons-append}
use mathlib.Core.Path.{◌≡◌, refl, sym, ap, ◌∙◌}
use mathlib.Core.Bool.{true, false}
use mathlib.Core.List.{List, [], ◌∷◌, ◌++◌}
use packetd.Base.Text.{codes, is_digit}
use packetd.Base.Decimal.{IsDigits, one_more}

one-append : (xs ys : List ℕ) (x : ℕ) → (xs ++ (x ∷ [])) ++ ys ≡ xs ++ (x ∷ ys)
one-append [] ys x = refl
one-append (z ∷ xs) ys x = ap (◌∷◌ z) (one-append xs ys x)

pub codes-append : (s t : String) → codes (s then t) ≡ codes s ++ codes t
codes-append String.[] t = ap codes (nil-append t)
codes-append (String.◌∷◌ c s) t =
    ap codes (cons-append c s t) ∙ ap (◌∷◌ (code c)) (codes-append s t)

-- A text, a separator of one character, and a text
pub codes-separated :
    (s t : String) (sep : Char)
    → codes ((s then String.◌∷◌ sep String.[]) then t) ≡ codes s ++ (code sep ∷ codes t)
codes-separated s t sep =
    codes-append (s then String.◌∷◌ sep String.[]) t
    ∙ ap (λ xs. xs ++ codes t) (codes-append s (String.◌∷◌ sep String.[]))
    ∙ one-append (codes s) (codes t) (code sep)

pub codes_injective : (s t : String) → codes s ≡ codes t → s ≡ t
codes_injective String.[] String.[] h = refl
codes_injective String.[] (String.◌∷◌ d t) h = cc
codes_injective (String.◌∷◌ c s) String.[] h = cc
codes_injective (String.◌∷◌ c s) (String.◌∷◌ d t) h =
    let first : code c ≡ code d = cc in
    let rest : codes s ≡ codes t = cc in
    let a : c ≡ d = Char-path c d first in let b : s ≡ t = codes_injective s t rest in cc

-- A separator that is not a digit does not stand among digits.
digits-no_sep {ℓ} :
    {A : Type ℓ} (sep : ℕ) (xs ys zs : List ℕ)
    → is_digit sep ≡ false
    → IsDigits zs
    → zs ≡ xs ++ (sep ∷ ys)
    → A
digits-no_sep sep [] ys [] d h e = cc
digits-no_sep sep [] ys (c ∷ zs) d (one_more digit h) e =
    let same : c ≡ sep = cc in let bad : true ≡ false = sym digit ∙ ap is_digit same ∙ d in cc
digits-no_sep sep (x ∷ xs) ys [] d h e = cc
digits-no_sep sep (x ∷ xs) ys (c ∷ zs) d (one_more digit h) e = digits-no_sep sep xs ys zs d h cc

-- The last separator tells where a run of digits begins.
pub split_last :
    (sep : ℕ) (xs xs' ys ys' : List ℕ)
    → is_digit sep ≡ false
    → IsDigits ys
    → IsDigits ys'
    → xs ++ (sep ∷ ys) ≡ xs' ++ (sep ∷ ys')
    → (xs ≡ xs') × (ys ≡ ys')
split_last sep [] [] ys ys' d h h' e = (refl, cc)
split_last sep [] (x ∷ xs') ys ys' d h h' e = digits-no_sep sep xs' ys' ys d h cc
split_last sep (x ∷ xs) [] ys ys' d h h' e = digits-no_sep sep xs ys ys' d h' cc
split_last sep (x ∷ xs) (x' ∷ xs') ys ys' d h h' e =
    let (p, q) = split_last sep xs xs' ys ys' d h h' cc in let first : x ≡ x' = cc in (cc, q)
