-- ===== src/Overseer.antt =====
-- services/overseer/overseer.go: named counters. A counter is a `uint64`.
pub mod Counting
use packetd.Base.{List, [], ℕ, ◌+◌, ◌%◌, ◌^◌, String, Option, none, some}
use packetd.Base.Keys.{string_key}
use packetd.Base.Table.{Table, get, put}

abbrev pub Counters : Type 0
Counters = Table String ℕ

-- `Startup`
abbrev pub startup : Counters
startup = []

-- What `AddCounter` stores: the sum wraps, and a counter that is not there is created.
unfoldable pub counted : Option ℕ → ℕ → ℕ
counted none amount = amount
counted (some value) amount = (value + amount) % 2 ^ 64

-- `AddCounter`: the new table, and the value that the counter has in it.
unfoldable pub add_counter : Counters → String → ℕ → Counters × ℕ
unfolding counted
add_counter table name amount =
    let value = counted (get table name) amount in (put table name value, value)

-- `GetCounter`
unfoldable pub get_counter : Counters → String → ℕ
get_counter table name = elim (get table name) [ none ↦ 0 | some value ↦ value ]
