-- ===== src/RevDns/Flights.antt =====
-- What the cleaner does to a lookup that is under way and to one that has ended.
use packetd.Base.{
  ℕ, ◌+◌, ◌/◌, ◌≤◌, ◌≡◌, refl, ◌∙◌, String, Option, none, some, List, [], ◌∷◌, leb, if◌then◌else◌,
  arith, ==_iff,
}
use packetd.Base.Keys.{string_key}
use packetd.Base.Heap.{cell-modify, cell-allocate}
use packetd.Base.Sweep.{unless_stale, get-sweep}
use packetd.Dispatch.State.{second}
use packetd.RevDns.{
  ReverseHolder, ReverseCache, reverse_timeout, new_holder, find_reverse, insert_reverse,
  is_expired, clean_reverse_table, begin_lookup, fill_holder, finish_lookup, look_up,
}
use packetd.RevDns.Lookups.{find-begin_lookup, find-look_up}

find-clean :
    (now : ℕ) (cache : ReverseCache) (finder : String)
    → find_reverse (clean_reverse_table now cache) finder
      ≡ unless_stale (is_expired cache.holders now) (find_reverse cache finder)
unfolding find_reverse clean_reverse_table
find-clean now cache finder = get-sweep (is_expired cache.holders now) cache.reverse_table finder

cell-begin :
    (cache : ReverseCache) (findkey : String)
    → (begin_lookup cache findkey).0.holders.cell (begin_lookup cache findkey).1 ≡ new_holder
unfolding begin_lookup insert_reverse
cell-begin cache findkey = ground (
  arith,
  cell-allocate cache.holders cache.holders.next new_holder,
  ==_iff cache.holders.next cache.holders.next,
)

-- The cleaner removes the holder of a lookup that is still under way, since its time of access is
-- not set yet: a second session for the same address then does not find it, at any time that is at
-- least reverse_timeout seconds after the zero time.
pub begin_then_clean :
    (now : ℕ) (cache : ReverseCache) (findkey : String)
    → reverse_timeout ≤ now / second
    → find_reverse (clean_reverse_table now (begin_lookup cache findkey).0) findkey ≡ none
unfolding is_expired
begin_then_clean now cache findkey h =
    find-clean now (begin_lookup cache findkey).0 findkey
    ∙ ground (arith, find-begin_lookup cache findkey, cell-begin cache findkey, h)

access-fill :
    (now : ℕ) (answer : Option (List String)) (h : ReverseHolder)
    → (fill_holder now answer h).access_time ≡ now
unfolding fill_holder
access-fill now none h = refl
access-fill now (some []) h = refl
access-fill now (some (name ∷ names)) h = refl

access-finish :
    (now : ℕ) (answer : Option (List String)) (cache : ReverseCache) (holder : ℕ)
    → ((finish_lookup now answer cache holder).holders.cell holder).access_time ≡ now
unfolding finish_lookup
access-finish now answer cache holder = ground (
  arith,
  cell-modify cache.holders holder holder (fill_holder now answer),
  access-fill now answer (cache.holders.cell holder),
  ==_iff holder holder,
)

access-look_up :
    (now : ℕ) (answer : Option (List String)) (cache : ReverseCache) (findkey : String)
    → find_reverse cache findkey ≡ none
    → ((look_up now answer cache findkey).0.holders.cell
        (look_up now answer cache findkey).1).access_time
      ≡ now
unfolding look_up
access-look_up now answer cache findkey e =
    rw (e, look_up)
      (access-finish now answer (begin_lookup cache findkey).0 (begin_lookup cache findkey).1)

-- The holder of a lookup that ended, with names or without, is found after a cleaning exactly when
-- less than reverse_timeout seconds have passed since its end.
pub look_up_then_clean :
    (now later : ℕ) (answer : Option (List String)) (cache : ReverseCache) (findkey : String)
    → find_reverse cache findkey ≡ none
    → find_reverse (clean_reverse_table later (look_up now answer cache findkey).0) findkey ≡ (
        if leb (now / second + reverse_timeout) (later / second)
        then none
        else some (look_up now answer cache findkey).1)
unfolding is_expired
look_up_then_clean now later answer cache findkey e =
    find-clean later (look_up now answer cache findkey).0 findkey
    ∙ ground
        (arith, find-look_up now answer cache findkey, access-look_up now answer cache findkey e)
