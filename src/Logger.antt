-- ===== src/Logger.antt =====
-- services/logger/logger.go: the levels of the sources of messages, the limit on repeated messages,
-- and the writer that cuts a stream into messages. Printing is output; the arguments are what
-- `fmt.Sprintf` gets, and the upper case of a text, which Go's strings gives, is a parameter.
pub mod Levels
pub mod Writing
pub mod Repeats
pub mod Examples
use packetd.Base.{
  ℕ, zero, suc, ◌+◌, ◌-◌, ◌%◌, ◌^◌, String, Bool, true, false, Option, none, some, List, [], ◌∷◌,
  ◌++◌, ◌==◌, ◌||◌, ◌&&◌, leb, ltb, length, get_elem?, if◌then◌else◌,
}
use packetd.Base.Integer.{ℤ, pos, negsuc}
use packetd.Base.Text.{is_empty_text, after_last, before_first}
use packetd.Base.Keys.{string_key}
use packetd.Base.Table.{Table, get, put}
use packetd.Overseer.{Counters, add_counter}

-- A level is an `int32`; `logLevelMap` holds pointers to them, which nothing else shares.
abbrev pub LogLevelMap : Type 0
LogLevelMap = Table String ℤ

abbrev pub log_level_name : List String
log_level_name =
    "EMERG" ∷ "ALERT" ∷ "CRIT" ∷ "ERROR" ∷ "WARN" ∷ "NOTICE" ∷ "INFO" ∷ "DEBUG" ∷ "TRACE" ∷ []

abbrev pub log_level_info : ℤ
log_level_info = pos 6

abbrev pub leb_int : ℤ → ℤ → Bool
leb_int (pos m) (pos n) = leb m n
leb_int (pos m) (negsuc n) = false
leb_int (negsuc m) (pos n) = true
leb_int (negsuc m) (negsuc n) = leb n m

-- One of the two lookups of `GetLogLevel`: none when the name is empty or not in the map
unfoldable pub level_of : LogLevelMap → String → Option ℤ
level_of levels name = let found = get levels name in if is_empty_text name then none else found

-- `GetLogLevel`
unfoldable pub get_log_level : LogLevelMap → String → String → ℤ
unfolding level_of
get_log_level levels package_name function_name = elim (level_of levels function_name) [
  | some level ↦ level
  | none ↦ elim (level_of levels package_name) [ some level ↦ level | none ↦ log_level_info ]
]

-- The function and the package of a frame's `Function`, such as
-- github.com/untangle/packetd/services/dict.cleanDictionary
abbrev pub function_of : String → String
function_of path = elim (after_last b'/' path) [ none ↦ path | some name ↦ name ]

abbrev pub package_of : String → String
package_of function_name = elim (before_first b'.' function_name) [
  | none ↦ "unknown"
  | some package_name ↦ package_name
]

-- `runtime.Callers(skip, stack)`, and `frames.Next` on what it leaves
abbrev pub frame_at : ℕ → List String → String
frame_at skip stack = elim (get_elem? stack skip) [ none ↦ "" | some path ↦ path ]

-- `findCallingFunction`: the package and the function of the frame after the first four. A stack is
-- the list of the functions of its frames, the innermost first.
unfoldable pub find_calling_function : List String → String × String
unfolding after_last before_first
find_calling_function stack =
    let function_name = function_of (frame_at 4 stack) in (package_of function_name, function_name)

-- The stack in findCallingFunction, when a function of the logger with this stack calls it
abbrev pub inside : List String → List String
inside stack =
    "runtime.Callers" ∷ "github.com/untangle/packetd/services/logger.findCallingFunction" ∷ stack

-- The level that `LogMessage` and `IsLogEnabled` compare with, by what they found
abbrev pub for_caller {ℓ} : {A : Type ℓ} → (String → String → A) → List String → A
for_caller f stack =
    let (package_name, function_name) = find_calling_function (inside stack) in
    f package_name function_name

-- `LogMessage`, called on a stack, goes on to print a message when its level is at most that of the
-- source.
unfoldable pub is_printed : LogLevelMap → ℤ → List String → Bool
unfolding get_log_level find_calling_function
is_printed levels level stack = leb_int level (
    for_caller (get_log_level levels)
      ("github.com/untangle/packetd/services/logger.LogMessage" ∷ stack))

-- `IsLogEnabledSource`
unfoldable pub is_log_enabled_source : LogLevelMap → ℤ → String → Bool
unfolding get_log_level
is_log_enabled_source levels level source = leb_int level (get_log_level levels source "")

-- `IsLogEnabled`, called on a stack
abbrev is_enabled_for : LogLevelMap → ℤ → String → String → Bool
is_enabled_for levels level package_name function_name =
    if is_log_enabled_source levels level package_name
    then true
    else if is_log_enabled_source levels level function_name
    then true
    else false

unfoldable pub is_log_enabled : LogLevelMap → ℤ → List String → Bool
unfolding is_log_enabled_source find_calling_function
is_log_enabled levels level stack =
    for_caller (is_enabled_for levels level)
      ("github.com/untangle/packetd/services/logger.IsLogEnabled" ∷ stack)

-- `SearchSourceLogLevel`
unfoldable pub search_source_log_level : LogLevelMap → String → ℤ
search_source_log_level levels source = elim (get levels source) [
  | none ↦ negsuc 0
  | some level ↦ level
]

-- `AdjustSourceLogLevel`: the map, and the previous level
unfoldable pub adjust_source_log_level : LogLevelMap → String → ℤ → LogLevelMap × ℤ
adjust_source_log_level levels source level = elim (get levels source) [
  | none ↦ (put (put levels source (negsuc 0)) source level, negsuc 0)
  | some previous ↦ (put levels source level, previous)
]

-- `FindLogLevelName`: the level equal to the number of names passes the test, and the index panics
-- (`none`).
unfoldable pub find_log_level_name : (ℤ → String) → ℤ → Option String
find_log_level_name print (negsuc n) = some "UNDEFINED"
find_log_level_name print (pos n) =
    if ltb (length log_level_name) n then some (print (pos n)) else get_elem? log_level_name n

-- The loop of `FindLogLevelValue` over the names, from an index on
unfoldable pub find_index : (String → String) → String → ℕ → List String → ℤ
find_index to_upper source index [] = negsuc 0
find_index to_upper source index (name ∷ names) =
    let rest = find_index to_upper source (index + 1) names in
    if string_key.same (to_upper name) (to_upper source) then pos index else rest

-- `FindLogLevelValue`
unfoldable pub find_log_level_value : (String → String) → String → ℤ
unfolding find_index
find_log_level_value to_upper source = find_index to_upper source 0 log_level_name

-- The dynamic types of an argument that `LogFormatter` tells apart
pub data FormatArgument : Type 0 where
  text_argument : String → FormatArgument
  int_argument : ℤ → FormatArgument
  other_argument : FormatArgument

-- What `LogFormatter` returns: a complaint, nothing, or the text and arguments of the message
pub data Formatted : Type 0 where
  missing_arguments : Formatted
  not_a_string : Formatted
  not_an_int : Formatted
  limited : Formatted
  message : List FormatArgument → Formatted

-- `uint64(limit)`
abbrev pub as_word : ℤ → ℕ
as_word (pos n) = n % 2 ^ 64
as_word (negsuc n) = 2 ^ 64 - 1 - n % 2 ^ 64

unfoldable pub is_due : ℕ → ℕ → Bool
is_due total limit = total == 1 || (limit == 0 || total % limit == 0)

-- `LogFormatter` on a format with the overseer verb, by its arguments
unfoldable pub log_formatter : Counters → List FormatArgument → Counters × Formatted
unfolding is_due add_counter
log_formatter counters [] = (counters, missing_arguments)
log_formatter counters (first ∷ []) = (counters, missing_arguments)
log_formatter counters (int_argument i ∷ second ∷ args) = (counters, not_a_string)
log_formatter counters (other_argument ∷ second ∷ args) = (counters, not_a_string)
log_formatter counters (text_argument name ∷ text_argument s ∷ args) = (counters, not_an_int)
log_formatter counters (text_argument name ∷ other_argument ∷ args) = (counters, not_an_int)
log_formatter counters (text_argument name ∷ int_argument i ∷ args) =
    let (counted, total) = add_counter counters name 1 in
    (counted, if is_due total (as_word i) then message args else limited)

-- `LogWriter.Write` on its buffer: the lines that are logged, in order, and the buffer after it
unfoldable pub write : List ℕ → List ℕ → List (List ℕ) × List ℕ
write buffer [] = ([], buffer)
write buffer (b ∷ p) =
    let buffer' = buffer ++ (b ∷ []) in
    let kept = write buffer' p in
    let (lines, rest) = write [] p in if b == b'\n' then (buffer' ∷ lines, rest) else kept
