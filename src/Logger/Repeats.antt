-- ===== src/Logger/Repeats.antt =====
-- Which of the repeats of a limited message are printed.
use packetd.Base.{
  ◌==◌, ◌||◌, ℕ, suc, ◌+◌, ◌%◌, ◌^◌, ◌<◌, ◌≡◌, ap, ◌∙◌, String, List, [], ◌∷◌, if◌then◌else◌, arith,
}
use packetd.Base.Integer.{ℤ}
use packetd.Base.Keys.{string_key}
use packetd.Base.Table.{get, get-put}
use packetd.Overseer.{Counters, add_counter, counted, get_counter}
use packetd.Logger.{
  FormatArgument, text_argument, int_argument, limited, message, as_word, is_due, log_formatter,
}

-- The counters after some calls with the same name and limit, each with arguments of its own
pub after_calls : Counters → String → ℤ → List (List FormatArgument) → Counters
after_calls counters name limit [] = counters
after_calls counters name limit (args ∷ calls) =
    after_calls (log_formatter counters (text_argument name ∷ int_argument limit ∷ args)).0 name
      limit calls

unfoldable pub calls_made : List (List FormatArgument) → ℕ
calls_made [] = 0
calls_made (args ∷ calls) = suc (calls_made calls)

added :
    (counters : Counters) (name : String)
    → (add_counter counters name 1).1 ≡ (get_counter counters name + 1) % 2 ^ 64
unfolding add_counter get_counter counted
added counters name = ground arith

one_more_call :
    (counters : Counters) (name : String) (limit : ℤ) (args : List FormatArgument)
    → get_counter (log_formatter counters (text_argument name ∷ int_argument limit ∷ args)).0 name
      ≡ (get_counter counters name + 1) % 2 ^ 64
unfolding log_formatter add_counter get_counter counted
one_more_call counters name limit args = ground (
  arith,
  get-put counters name name (counted (get counters name) 1),
  string_key.same_iff name name,
)

counter-after_calls :
    (calls : List (List FormatArgument)) (counters : Counters) (name : String) (limit : ℤ)
    → get_counter counters name < 2 ^ 64
    → get_counter (after_calls counters name limit calls) name
      ≡ (get_counter counters name + calls_made calls) % 2 ^ 64
unfolding after_calls calls_made
counter-after_calls [] counters name limit h = omega (arith, h)
counter-after_calls (args ∷ calls) counters name limit h =
    let next = (log_formatter counters (text_argument name ∷ int_argument limit ∷ args)).0 in
    let one = one_more_call counters name limit args in
    omega (arith, one, counter-after_calls calls next name limit (omega (arith, one)))

due_call : (n limit : ℕ) → is_due (suc n) limit ≡ (n == 0 || (limit == 0 || suc n % limit == 0))
unfolding is_due
due_call n limit = ground arith

-- Of the messages with one counter that was never used before, the first one is printed and then
-- each one whose number is a multiple of the limit, and all of them when the limit is zero; the
-- others are held back, as long as fewer than 2^64 are sent.
pub log_formatter-after_calls :
    (calls : List (List FormatArgument)) (counters : Counters) (name : String) (limit : ℤ)
    (args : List FormatArgument)
    → get_counter counters name ≡ 0
    → suc (calls_made calls) < 2 ^ 64
    → (log_formatter
        (after_calls counters name limit calls)
        (text_argument name ∷ int_argument limit ∷ args)).1
      ≡ (if calls_made calls == 0
            || (as_word limit == 0 || suc (calls_made calls) % as_word limit == 0)
          then message args
          else limited)
unfolding log_formatter
log_formatter-after_calls calls counters name limit args z h =
    let used = after_calls counters name limit calls in
    let n : (add_counter used name 1).1 ≡ suc (calls_made calls) =
      added used name
      ∙ omega (arith, z, h, counter-after_calls calls counters name limit (omega (arith, z))) in
    ap (λ total. if is_due total (as_word limit) then message args else limited) n
    ∙ ap (λ due. if due then message args else limited)
        (due_call (calls_made calls) (as_word limit))
