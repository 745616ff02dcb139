-- ===== src/Logger/Levels.antt =====
-- Which messages are printed, and the names of levels.
use packetd.Base.{
  ℕ, zero, suc, ◌≤◌, ◌↔◌, ◌≡◌, refl, sym, ap, ◌∙◌, String, true, none, some, List, [], ◌∷◌, ltb,
  length, get_elem?, if◌then◌else◌, arith, Bool-cases, inl, inr,
}
use packetd.Base.Integer.{ℤ, pos, negsuc}
use packetd.Base.Keys.{string_key}
use packetd.Base.Table.{put, get-put}
use packetd.Logger.{
  LogLevelMap, log_level_name, level_of, get_log_level, is_printed, is_log_enabled_source,
  find_calling_function, is_log_enabled, search_source_log_level, adjust_source_log_level,
  find_log_level_name,
}

-- Let a function log a message by a function for its level, such as Debug, and ask before by the
-- test for that level, such as IsDebugEnabled. If the message is printed, the test has said yes. But
-- when the function calls IsLogEnabled itself, the answer is the one that the function which called
-- it would get from the test.
pub is_log_enabled-printed :
    (levels : LogLevelMap) (level : ℤ) (debug is_debug_enabled caller : String)
    (callers : List String)
    → is_printed levels level (debug ∷ caller ∷ callers) ≡ true
    → (is_log_enabled levels level (is_debug_enabled ∷ caller ∷ callers) ≡ true)
      × (is_log_enabled levels level (caller ∷ callers)
          ≡ is_log_enabled levels level (is_debug_enabled ∷ callers))
unfolding is_printed is_log_enabled is_log_enabled_source get_log_level level_of
    find_calling_function
is_log_enabled-printed levels level debug is_debug_enabled caller callers h =
    (ground (arith, h), refl)

-- AdjustSourceLogLevel returns what SearchSourceLogLevel said of the source, and afterwards
-- SearchSourceLogLevel says the new level of it and what it said before of every other source.
pub adjust_source_log_level_lem :
    (levels : LogLevelMap) (source other : String) (level : ℤ)
    → ((adjust_source_log_level levels source level).1 ≡ search_source_log_level levels source)
      × (search_source_log_level (adjust_source_log_level levels source level).0 other
          ≡ (if string_key.same source other then level else search_source_log_level levels other))
unfolding adjust_source_log_level search_source_log_level
adjust_source_log_level_lem levels source other level = ground (
  arith,
  get-put levels source other level,
  get-put levels source other (negsuc 0),
  get-put (put levels source (negsuc 0)) source other level,
)

get_elem?-none {ℓ} : {A : Type ℓ} (xs : List A) (n : ℕ) → get_elem? xs n ≡ none → length xs ≤ n
get_elem?-none [] n h = omega arith
get_elem?-none (x ∷ xs) zero h = cc
get_elem?-none (x ∷ xs) (suc n) h = omega (arith, get_elem?-none xs n h)

-- FindLogLevelName panics for the level 9, one past the last name, and for no other.
pub find_log_level_name-panics :
    (print : ℤ → String) (level : ℤ) → (find_log_level_name print level ≡ none) ↔ (level ≡ pos 9)
unfolding find_log_level_name
find_log_level_name-panics print (negsuc n) = ((λ h. cc), (λ h. cc))
find_log_level_name-panics print (pos n) = (
  λ h. elim (Bool-cases (ltb (length log_level_name) n)) [
    | inl e ↦
        let bad : find_log_level_name print (pos n) ≡ some (print (pos n)) =
          rw (e, find_log_level_name) refl in
        let clash : none ≡ some (print (pos n)) = sym h ∙ bad in cc
    | inr e ↦
        let found : find_log_level_name print (pos n) ≡ get_elem? log_level_name n =
          rw (e, find_log_level_name) refl in
        let past = get_elem?-none log_level_name n (sym found ∙ h) in
        ap pos (ground (arith, e, past))
  ],
  λ h. ap (find_log_level_name print) h,
)
