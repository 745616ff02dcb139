-- ===== src/RevDns.antt =====
-- plugins/revdns/revdns.go: the cache of the names that reverse lookups gave, and the handlers of
-- both sides of a connection. The network's answer to a lookup is an input. A holder is reached by
-- a pointer, so that a handler that waits for it sees what another one fills in.
pub mod Lookups
pub mod Flights
pub mod Naming
pub mod Examples
use packetd.Base.{
  ℕ, ◌+◌, ◌/◌, String, Bool, true, false, Option, none, some, List, [], ◌∷◌, leb, if◌then◌else◌,
}
use packetd.Base.Text.{join}
use packetd.Base.Keys.{string_key}
use packetd.Base.Table.{Table, get, put, remove}
use packetd.Base.Heap.{Heap, modify, allocate}
use packetd.Base.Sweep.{sweep}
use packetd.Dispatch.State.{World, text, second}
use packetd.Dispatch.Session.{get_conntrack_id}
use packetd.Dispatch.SessionTable.{dict_add}
use packetd.Dispatch.Subscriptions.{release_session}
use packetd.Dispatch.Attachments.{attach}

-- `ReverseHolder`; `is_done` says that the wait group is back at zero.
pub record ReverseHolder : Type 0 where
  pub access_time : ℕ
  pub name_list : List String
  pub available : Bool
  pub is_done : Bool

-- `reverseTable` and the holders that it points to
pub record ReverseCache : Type 0 where
  pub reverse_table : Table String ℕ
  pub holders : Heap ReverseHolder

abbrev pub reverse_timeout : ℕ
reverse_timeout = 120

-- `findReverse`
unfoldable pub find_reverse : ReverseCache → String → Option ℕ
find_reverse cache finder = get cache.reverse_table finder

-- `insertReverse`
unfoldable pub insert_reverse : ReverseCache → String → ℕ → ReverseCache
insert_reverse cache finder holder = record cache {
  reverse_table = elim (get cache.reverse_table finder) [
    | none ↦ put cache.reverse_table finder holder
    | some old ↦ put (remove cache.reverse_table finder) finder holder
  ];
}

-- `removeReverse`
unfoldable pub remove_reverse : ReverseCache → String → ReverseCache
remove_reverse cache finder = record cache { reverse_table = remove cache.reverse_table finder }

-- The holder's last access is as long ago as the timeout: the test of the loop does not hold.
unfoldable pub is_expired : Heap ReverseHolder → ℕ → ℕ → Bool
is_expired holders now holder =
    leb ((holders.cell holder).access_time / second + reverse_timeout) (now / second)

-- `cleanReverseTable`
unfoldable pub clean_reverse_table : ℕ → ReverseCache → ReverseCache
unfolding is_expired
clean_reverse_table now cache = record cache {
  reverse_table = sweep (is_expired cache.holders now) cache.reverse_table;
}

-- `new(ReverseHolder)` with one lookup to wait for
abbrev pub new_holder : ReverseHolder
new_holder = record { access_time = 0; name_list = []; available = false; is_done = false }

-- A handler that finds no holder inserts a new one, before it asks the network.
unfoldable pub begin_lookup : ReverseCache → String → ReverseCache × ℕ
unfolding insert_reverse
begin_lookup cache findkey =
    let holder = cache.holders.next in
    let allocated : ReverseCache = record cache { holders = allocate cache.holders new_holder } in
    (insert_reverse allocated findkey holder, holder)

-- What the answer of `net.LookupAddr` makes of the holder; an error is `none`.
unfoldable pub fill_holder : ℕ → Option (List String) → ReverseHolder → ReverseHolder
fill_holder now (some (name ∷ names)) h = record {
  access_time = now;
  name_list = name ∷ names;
  available = true;
  is_done = true;
}
fill_holder now (some []) h = record h { access_time = now; available = false; is_done = true }
fill_holder now none h = record h { access_time = now; available = false; is_done = true }

unfoldable pub finish_lookup : ℕ → Option (List String) → ReverseCache → ℕ → ReverseCache
unfolding fill_holder
finish_lookup now answer cache holder = record cache {
  holders = modify cache.holders holder (fill_holder now answer);
}

-- The part of a handler up to the wait, with no other handler in between.
unfoldable pub look_up : ℕ → Option (List String) → ReverseCache → String → ReverseCache × ℕ
unfolding find_reverse begin_lookup finish_lookup
look_up now answer cache findkey = elim (find_reverse cache findkey) [
  | some holder ↦ (cache, holder)
  | none ↦
      let (begun, holder) = begin_lookup cache findkey in
      (finish_lookup now answer begun holder, holder)
]

-- `attachReverseNamesToSession`
unfoldable pub attach_reverse_names_to_session : World → ℕ → String → List String → World
unfolding get_conntrack_id
attach_reverse_names_to_session w sess keyname list =
    let builder = text (join list) in
    let attached = attach w sess keyname builder in
    dict_add attached (get_conntrack_id (attached.sessions.cell sess)) keyname builder

-- The two handlers differ in the address that they look up and in these names.
pub data Side : Type 0 where
  client_side : Side
  server_side : Side

abbrev pub owner_of : Side → String
owner_of client_side = "revdns_client"
owner_of server_side = "revdns_server"

abbrev pub keyname_of : Side → String
keyname_of client_side = "client_reverse_dns"
keyname_of server_side = "server_reverse_dns"

-- What follows the lookup: the handler waits while the holder is not done.
unfoldable pub use_holder : World → ℕ → Side → ReverseHolder → Option World
unfolding attach_reverse_names_to_session
use_holder w sess side holder =
    if holder.is_done
    then some (
        if holder.available
        then attach_reverse_names_to_session w sess (keyname_of side) holder.name_list
        else w)
    else none

-- `PluginNfqueueClientHandler` and `PluginNfqueueServerHandler`, on the text of the address: the
-- cache, and the world once the handler returns.
unfoldable pub plugin_nfqueue_handler :
    Side
    → ℕ
    → Option (List String)
    → World
    → ReverseCache
    → ℕ
    → String
    → Bool
    → ReverseCache × Option World
unfolding look_up use_holder
plugin_nfqueue_handler side now answer w cache sess findkey new_session =
    let released = release_session w sess (owner_of side) in
    let (found, holder) = look_up now answer cache findkey in
    if new_session
    then (found, use_holder released sess side (found.holders.cell holder))
    else (cache, some released)
