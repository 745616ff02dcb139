-- ===== src/Logger/Examples.antt =====
-- Levels of two sources, and a message that is repeated.
use packetd.Base.{suc, String, List, ◌^◌, ◌<◌, ◌≡◌, refl, true, false, [], ◌∷◌, arith}
use packetd.Base.Integer.{pos}
use packetd.Base.Keys.{string_key}
use packetd.Base.Table.{get}
use packetd.Base.Text.{after_last, before_first}
use packetd.Overseer.{startup, get_counter}
use packetd.Logger.{
  LogLevelMap, find_calling_function, level_of, get_log_level, is_printed, is_log_enabled,
  is_log_enabled_source, FormatArgument, text_argument, int_argument, Formatted, message, limited,
  log_formatter, write, search_source_log_level, adjust_source_log_level, find_log_level_name,
}
use packetd.Logger.Levels.{is_log_enabled-printed}
use packetd.Logger.Repeats.{after_calls, calls_made, log_formatter-after_calls}

abbrev levels : LogLevelMap
levels = ("dict", pos 3) ∷ ("dict.cleanDictionary", pos 7) ∷ []

-- A function that logs, called by the dispatcher
abbrev clean : String
clean = "github.com/untangle/packetd/services/dict.cleanDictionary"

abbrev outer : List String
outer = "github.com/untangle/packetd/services/dispatch.callSubscribers.func1" ∷ []

abbrev debug : String
debug = "github.com/untangle/packetd/services/logger.Debug"

abbrev is_debug_enabled : String
is_debug_enabled = "github.com/untangle/packetd/services/logger.IsDebugEnabled"

debug_printed : is_printed levels (pos 7) (debug ∷ clean ∷ outer) ≡ true
unfolding is_printed find_calling_function after_last before_first get_log_level level_of get
debug_printed = refl

is_log_enabled-printed_example :
    (is_log_enabled levels (pos 7) (is_debug_enabled ∷ clean ∷ outer) ≡ true)
    × (is_log_enabled levels (pos 7) (clean ∷ outer)
        ≡ is_log_enabled levels (pos 7) (is_debug_enabled ∷ outer))
is_log_enabled-printed_example =
    is_log_enabled-printed levels (pos 7) debug is_debug_enabled clean outer debug_printed

-- The message that Debug prints is lost when the function asks IsLogEnabled itself, which answers
-- for the dispatcher.
asks_for_the_dispatcher : is_log_enabled levels (pos 7) (clean ∷ outer) ≡ false
unfolding is_log_enabled is_log_enabled_source find_calling_function after_last before_first
    get_log_level level_of get
asks_for_the_dispatcher = refl

abbrev add : String
add = "github.com/untangle/packetd/services/dict.AddEntry"

-- For a package with a level below INFO, IsLogEnabled says that INFO is on, since the function has
-- no level of its own, but LogMessage prints nothing.
enabled_not_printed :
    (is_log_enabled levels (pos 6) (is_debug_enabled ∷ add ∷ outer) ≡ true)
    × (is_printed levels (pos 6) (debug ∷ add ∷ outer) ≡ false)
unfolding is_printed is_log_enabled is_log_enabled_source find_calling_function after_last
    before_first get_log_level level_of get
enabled_not_printed = (refl, refl)

nothing_counted : get_counter startup "cloud" ≡ 0
unfolding get_counter get
nothing_counted = refl

few : suc (calls_made ([] ∷ [])) < 2 ^ 64
unfolding calls_made
few = omega arith

log_formatter-after_calls_example :
    (log_formatter
      (after_calls startup "cloud" (pos 10) ([] ∷ []))
      (text_argument "cloud" ∷ int_argument (pos 10) ∷ [])).1
    ≡ limited
unfolding calls_made packetd.Logger.is_due
log_formatter-after_calls_example =
    log_formatter-after_calls ([] ∷ []) startup "cloud" (pos 10) [] nothing_counted few
