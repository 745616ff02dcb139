-- ===== src/Overseer/Counting.antt =====
-- A counter holds the sum of what was added to it, modulo 2^64.
use packetd.Base.{ℕ, ◌+◌, ◌%◌, ◌^◌, ◌<◌, ◌≡◌, refl, String, List, [], ◌∷◌, arith, if◌then◌else◌}
use packetd.Base.Keys.{string_key}
use packetd.Base.Table.{get, get-put}
use packetd.Overseer.{Counters, startup, add_counter, get_counter, counted}

-- A run of calls of `AddCounter`.
unfoldable pub add_all : Counters → List (String × ℕ) → Counters
add_all table [] = table
add_all table ((name, amount) ∷ calls) = add_all (add_counter table name amount).0 calls

-- The sum of what a run adds to one counter.
pub total : String → List (String × ℕ) → ℕ
total name [] = 0
total name ((other, amount) ∷ calls) =
    (if string_key.same other name then amount else 0) + total name calls

-- The amounts are `uint64` values.
abbrev pub AreWords : List (String × ℕ) → Type 0
AreWords [] = Unit
AreWords ((name, amount) ∷ calls) = (amount < 2 ^ 64) × AreWords calls

get-add :
    (table : Counters) (name other : String) (amount : ℕ)
    → amount < 2 ^ 64
    → get_counter (add_counter table name amount).0 other % 2 ^ 64
      ≡ (get_counter table other + (if string_key.same name other then amount else 0)) % 2 ^ 64
unfolding add_counter get_counter
get-add table name other amount h = ground (
  arith,
  get-put table name other (counted (get table name) amount),
  string_key.same_iff name other,
)

get-add_all_mod :
    (table : Counters) (calls : List (String × ℕ)) (name : String)
    → AreWords calls
    → get_counter (add_all table calls) name % 2 ^ 64
      ≡ (get_counter table name + total name calls) % 2 ^ 64
unfolding add_all total
get-add_all_mod table [] name h = omega arith
get-add_all_mod table ((other, amount) ∷ calls) name h = omega (
  arith,
  get-add_all_mod (add_counter table other amount).0 calls name h.1,
  get-add table other name amount h.0,
)

abbrev IsInRange : Counters → Type 0
IsInRange table = (name : String) → get_counter table name < 2 ^ 64

add-IsInRange :
    (table : Counters) (name : String) (amount : ℕ)
    → amount < 2 ^ 64
    → IsInRange table
    → IsInRange (add_counter table name amount).0
unfolding add_counter get_counter counted
add-IsInRange table name amount h r other =
    ground (arith, get-put table name other (counted (get table name) amount), r other)

add_all-IsInRange :
    (table : Counters) (calls : List (String × ℕ))
    → AreWords calls
    → IsInRange table
    → IsInRange (add_all table calls)
unfolding add_all
add_all-IsInRange table [] h r = r
add_all-IsInRange table ((name, amount) ∷ calls) h r =
    add_all-IsInRange (add_counter table name amount).0 calls h.1
      (add-IsInRange table name amount h.0 r)

startup-IsInRange : IsInRange startup
unfolding get_counter get
startup-IsInRange name = omega arith

get_counter-startup : (name : String) → get_counter startup name ≡ 0
unfolding get_counter get
get_counter-startup name = refl

-- After any calls of AddCounter with uint64 amounts since the start of the service, GetCounter
-- returns the sum of the amounts added to that name, modulo 2^64, and 0 for a name not added to.
pub get_counter-add_all :
    (calls : List (String × ℕ)) (name : String)
    → AreWords calls
    → get_counter (add_all startup calls) name ≡ total name calls % 2 ^ 64
get_counter-add_all calls name h = omega (
  arith,
  get-add_all_mod startup calls name h,
  add_all-IsInRange startup calls h startup-IsInRange name,
  get_counter-startup name,
)
