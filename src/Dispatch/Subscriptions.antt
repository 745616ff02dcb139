-- ===== src/Dispatch/Subscriptions.antt =====
-- services/dispatch/dispatch.go and nfqueue.go: who wants to see which events.
pub mod Release
use packetd.Base.{ℕ, String, Bool, true, false, Option, none, some, List, [], ◌∷◌, if◌then◌else◌}
use packetd.Base.Integer.{ℤ}
use packetd.Base.Keys.{string_key}
use packetd.Base.Table.{Table, get, put, remove}
use packetd.Base.Heap.{Heap, modify}
use packetd.Dispatch.State.{World, Session, SubscriptionHolder, Subscriptions, Value, flag}
use packetd.Dispatch.SessionTable.{dict_add}

abbrev pub is_empty {ℓ} : {A : Type ℓ} → List A → Bool
is_empty [] = true
is_empty (x ∷ xs) = false

abbrev pub is_some {ℓ} : {A : Type ℓ} → Option A → Bool
is_some none = false
is_some (some x) = true

-- A holder with no handler function yet.
abbrev pub holder_for : String → ℤ → SubscriptionHolder
holder_for owner priority = record {
  owner = owner;
  priority = priority;
  nfqueue_func = none;
  conntrack_func = none;
  netlogger_func = none;
}

-- `InsertNfqueueSubscription`: the new world, and whether the call panics. The table is written
-- before the panic.
unfoldable pub insert_nfqueue_subscription : World → String → ℤ → ℕ → World × Bool
insert_nfqueue_subscription w owner priority function =
    let holder : SubscriptionHolder = record (holder_for owner priority) {
      nfqueue_func = some function;
    } in
    (
      record w { nfqueue_sub_list = put w.nfqueue_sub_list owner holder },
      is_some (get w.nfqueue_sub_list owner),
    )

-- `InsertConntrackSubscription`
unfoldable pub insert_conntrack_subscription : World → String → ℤ → ℕ → World
insert_conntrack_subscription w owner priority function =
    let holder : SubscriptionHolder = record (holder_for owner priority) {
      conntrack_func = some function;
    } in
    record w { conntrack_sub_list = put w.conntrack_sub_list owner holder }

-- `InsertNetloggerSubscription`
unfoldable pub insert_netlogger_subscription : World → String → ℤ → ℕ → World
insert_netlogger_subscription w owner priority function =
    let holder : SubscriptionHolder = record (holder_for owner priority) {
      netlogger_func = some function;
    } in
    record w { netlogger_sub_list = put w.netlogger_sub_list owner holder }

-- The loops that copy a table of subscriptions, entry by entry.
unfoldable pub copy_subscriptions : Subscriptions → Subscriptions
copy_subscriptions [] = []
copy_subscriptions ((owner, holder) ∷ subs) = put (copy_subscriptions subs) owner holder

-- `AttachNfqueueSubscriptions`
unfoldable pub attach_nfqueue_subscriptions : World → Session → Session
unfolding copy_subscriptions
attach_nfqueue_subscriptions w s = record s {
  subscriptions = copy_subscriptions w.nfqueue_sub_list;
}

-- `MirrorNfqueueSubscriptions`
unfoldable pub mirror_nfqueue_subscriptions : World → ℕ → Subscriptions
unfolding copy_subscriptions
mirror_nfqueue_subscriptions w sess = copy_subscriptions (w.sessions.cell sess).subscriptions

-- The entry of the dictionary that takes a session out of the queue.
abbrev pub bypass : World → ℕ → World
bypass w ctid = dict_add w ctid "bypass_packetd" (flag true)

-- `ReleaseSession`
unfoldable pub release_session : World → ℕ → String → World
release_session w sess owner =
    let s = w.sessions.cell sess in
    let left = remove s.subscriptions owner in
    let released : World = record w {
      sessions =
          modify w.sessions sess (λ s. record s { subscriptions = remove s.subscriptions owner });
    } in
    if is_empty s.subscriptions
    then w
    else if is_empty left
    then bypass released s.conntrack_id
    else released
