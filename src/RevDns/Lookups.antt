-- ===== src/RevDns/Lookups.antt =====
-- A name that was looked up stays known.
use packetd.Base.{
  ℕ, ◌≡◌, refl, ◌∙◌, String, Option, some, List, if◌then◌else◌, arith, Option-cases, inl, inr,
}
use packetd.Base.Keys.{string_key}
use packetd.Base.Table.{get, remove, get-put, get-remove}
use packetd.Base.Heap.{allocate}
use packetd.RevDns.{
  ReverseCache, new_holder, find_reverse, insert_reverse, begin_lookup, finish_lookup, look_up,
}

pub find-insert_reverse :
    (cache : ReverseCache) (finder other : String) (holder : ℕ)
    → find_reverse (insert_reverse cache finder holder) other
      ≡ (if string_key.same finder other then some holder else find_reverse cache other)
unfolding find_reverse insert_reverse
find-insert_reverse cache finder other holder =
    elim (Option-cases (get cache.reverse_table finder)) [
      | inl e ↦ ground (arith, e, get-put cache.reverse_table finder other holder)
      | inr (old, e) ↦ ground (
        arith,
        e,
        get-put (remove cache.reverse_table finder) finder other holder,
        get-remove cache.reverse_table finder other,
      )
    ]

pub find-begin_lookup :
    (cache : ReverseCache) (findkey : String)
    → find_reverse (begin_lookup cache findkey).0 findkey ≡ some (begin_lookup cache findkey).1
unfolding begin_lookup
find-begin_lookup cache findkey = ground (
  arith,
  find-insert_reverse (record cache { holders = allocate cache.holders new_holder }) findkey findkey
      cache.holders.next,
  string_key.same_iff findkey findkey,
)

find-finish_lookup :
    (now : ℕ) (answer : Option (List String)) (cache : ReverseCache) (holder : ℕ) (k : String)
    → find_reverse (finish_lookup now answer cache holder) k ≡ find_reverse cache k
unfolding finish_lookup find_reverse
find-finish_lookup now answer cache holder k = refl

pub find-look_up :
    (now : ℕ) (answer : Option (List String)) (cache : ReverseCache) (findkey : String)
    → find_reverse (look_up now answer cache findkey).0 findkey
      ≡ some (look_up now answer cache findkey).1
unfolding look_up
find-look_up now answer cache findkey = elim (Option-cases (find_reverse cache findkey)) [
  | inl e ↦
      rw (e, look_up)
        (find-finish_lookup now answer (begin_lookup cache findkey).0 (begin_lookup cache findkey).1
            findkey
          ∙ find-begin_lookup cache findkey)
  | inr (holder, e) ↦ rw (e, look_up) e
]

-- Looking up an address again changes nothing and finds the same holder, whatever the network would
-- answer now.
pub look_up-again :
    (now later : ℕ) (answer other : Option (List String)) (cache : ReverseCache) (findkey : String)
    → look_up later other (look_up now answer cache findkey).0 findkey
      ≡ look_up now answer cache findkey
unfolding look_up
look_up-again now later answer other cache findkey =
    rw (find-look_up now answer cache findkey, look_up) refl
