-- ===== src/RevDns/Naming.antt =====
-- What a session and the dictionary are told of the names of an address.
use packetd.Base.{ℕ, ◌≡◌, refl, String, true, Option, none, some, List, ◌∷◌, arith, ==_iff}
use packetd.Base.Text.{join}
use packetd.Base.Keys.{string_key}
use packetd.Base.Table.{get-put}
use packetd.Base.Heap.{cell-modify}
use packetd.Dispatch.State.{World, text}
use packetd.Dispatch.Session.{get_conntrack_id}
use packetd.Dispatch.Subscriptions.{release_session}
use packetd.Dispatch.Attachments.{is_written, entry_value}
use packetd.Dispatch.Attachments.Agreement.{IsNamed, attachments-attach, conntrack_id-attach}
use packetd.RevDns.{
  ReverseHolder, ReverseCache, find_reverse, begin_lookup, fill_holder, finish_lookup, look_up,
  attach_reverse_names_to_session, Side, owner_of, keyname_of, use_holder, plugin_nfqueue_handler,
}
use packetd.RevDns.Lookups.{look_up-again}

attach_reverse_names-IsNamed :
    (w : World) (sess : ℕ) (keyname : String) (list : List String)
    → is_written (text (join list)) ≡ true
    → IsNamed (attach_reverse_names_to_session w sess keyname list) sess keyname (join list)
unfolding attach_reverse_names_to_session entry_value
attach_reverse_names-IsNamed w sess keyname list t = record {
  attached = ground (
    arith,
    attachments-attach w sess keyname (text (join list)),
    get-put (w.sessions.cell sess).attachments keyname keyname (text (join list)),
    string_key.same_iff keyname keyname,
  );
  in_dict = ground (
    arith,
    t,
    conntrack_id-attach w sess keyname (text (join list)),
    ==_iff (get_conntrack_id (w.sessions.cell sess)) (get_conntrack_id (w.sessions.cell sess)),
    string_key.same_iff keyname keyname,
  );
}

-- A holder whose lookup gave names
record HasNames (holder : ReverseHolder) (list : List String) : Type 0 where
  is_done : holder.is_done ≡ true
  available : holder.available ≡ true
  name_list : holder.name_list ≡ list

HasNames-fill :
    (now : ℕ) (name : String) (names : List String) (h : ReverseHolder)
    → HasNames (fill_holder now (some (name ∷ names)) h) (name ∷ names)
unfolding fill_holder
HasNames-fill now name names h = record { is_done = refl; available = refl; name_list = refl }

HasNames-look_up :
    (now : ℕ) (name : String) (names : List String) (cache : ReverseCache) (findkey : String)
    → find_reverse cache findkey ≡ none
    → HasNames
        ((look_up now (some (name ∷ names)) cache findkey).0.holders.cell
          (look_up now (some (name ∷ names)) cache findkey).1)
        (name ∷ names)
unfolding look_up finish_lookup
HasNames-look_up now name names cache findkey e =
    let begun = begin_lookup cache findkey in
    rw
      (
        e,
        look_up,
        cell-modify begun.0.holders begun.1 begun.1 (fill_holder now (some (name ∷ names))),
        (==_iff begun.1 begun.1).1 refl,
      )
      (HasNames-fill now name names (begun.0.holders.cell begun.1))

use_holder-IsNamed :
    (w : World) (sess : ℕ) (side : Side) (holder : ReverseHolder) (list : List String)
    → HasNames holder list
    → is_written (text (join list)) ≡ true
    → (w' : World) × (use_holder w sess side holder ≡ some w')
      × IsNamed w' sess (keyname_of side) (join list)
unfolding use_holder
use_holder-IsNamed w sess side holder list h t = (
  attach_reverse_names_to_session w sess (keyname_of side) list,
  rw (h.is_done, h.available, h.name_list) refl,
  attach_reverse_names-IsNamed w sess (keyname_of side) list t,
)

-- When the lookup of an address that is not in the cache gives names that do not join to the empty
-- text, the handler returns with the session named by them; and so does a second handler for the
-- address, of either side and for any session, on the cache that the first one left, whatever the
-- network would answer it.
pub handlers_share_names :
    (side later_side : Side) (now later : ℕ) (name : String) (names : List String)
    (other : Option (List String)) (w later_w : World) (cache : ReverseCache) (sess later_sess : ℕ)
    (findkey : String)
    → find_reverse cache findkey ≡ none
    → is_written (text (join (name ∷ names))) ≡ true
    → ((w' : World) × ((plugin_nfqueue_handler side now
            (some (name ∷ names))
            w
            cache
            sess
            findkey
            true).1
          ≡ some w')
        × IsNamed w' sess (keyname_of side) (join (name ∷ names)))
      × ((w' : World) × ((plugin_nfqueue_handler later_side later other later_w
              (plugin_nfqueue_handler side now (some (name ∷ names)) w cache sess findkey true).0
              later_sess
              findkey
              true).1
            ≡ some w')
          × IsNamed w' later_sess (keyname_of later_side) (join (name ∷ names)))
unfolding plugin_nfqueue_handler
handlers_share_names side later_side now later name names other w later_w cache sess later_sess
      findkey e t =
    let h = HasNames-look_up now name names cache findkey e in
    (
      use_holder-IsNamed (release_session w sess (owner_of side)) sess side _ (name ∷ names) h t,
      rw (look_up-again now later (some (name ∷ names)) other cache findkey) (
          use_holder-IsNamed (release_session later_w later_sess (owner_of later_side)) later_sess
            later_side _ (name ∷ names) h t),
    )
