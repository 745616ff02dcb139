-- ===== src/Dispatch/Subscriptions/Release.antt =====
-- What registering and releasing a subscription changes.
use packetd.Base.{
  ℕ, ◌≡◌, refl, String, ◌&&◌, not, none, some, [], ◌∷◌, ◌==◌, if◌then◌else◌, arith, ◌∙◌,
}
use packetd.Base.Integer.{ℤ}
use packetd.Base.Keys.{string_key}
use packetd.Base.Table.{get, remove, get-put, get-remove}
use packetd.Base.Heap.{modify}
use packetd.Dispatch.State.{World, Session, Subscriptions}
use packetd.Dispatch.Subscriptions.{
  holder_for, is_some, is_empty, insert_nfqueue_subscription, copy_subscriptions,
  attach_nfqueue_subscriptions, bypass, release_session,
}

pub get-copy_subscriptions :
    (subs : Subscriptions) (owner : String) → get (copy_subscriptions subs) owner ≡ get subs owner
unfolding copy_subscriptions get
get-copy_subscriptions [] owner = refl
get-copy_subscriptions ((o, h) ∷ subs) owner =
    ground (arith, get-put (copy_subscriptions subs) o owner h, get-copy_subscriptions subs owner)

-- InsertNfqueueSubscription panics exactly when the owner has a subscription already, and in both
-- cases a session that gets its subscriptions afterwards has the new holder for that owner and the
-- holders registered before for every other owner.
pub insert_then_attach :
    (w : World) (owner other : String) (priority : ℤ) (function : ℕ) (s : Session)
    → ((insert_nfqueue_subscription w owner priority function).1
        ≡ is_some (get w.nfqueue_sub_list owner))
      × (get
            (attach_nfqueue_subscriptions
              (insert_nfqueue_subscription w owner priority function).0
              s).subscriptions
            other
          ≡ (if string_key.same owner other
              then some (record (holder_for owner priority) { nfqueue_func = some function })
              else get w.nfqueue_sub_list other))
unfolding insert_nfqueue_subscription attach_nfqueue_subscriptions
insert_then_attach w owner other priority function s = (
  refl,
  get-copy_subscriptions _ other
      ∙ get-put w.nfqueue_sub_list owner other
          (record (holder_for owner priority) { nfqueue_func = some function }),
)

-- ReleaseSession takes the owner, and nobody else, off the subscriptions of the session, and leaves
-- the subscriptions of every other session; it asks the dictionary to bypass the session exactly
-- when the owner was the last of at least one subscription, and asks it nothing else.
pub release_session_lem :
    (w : World) (sess q : ℕ) (owner other : String)
    → let s = w.sessions.cell sess in
      (get ((release_session w sess owner).sessions.cell q).subscriptions other ≡ (
        if (sess == q) && string_key.same owner other
        then none
        else get (w.sessions.cell q).subscriptions other))
      × ((release_session w sess owner).dict ≡ (
          if not (is_empty s.subscriptions) && is_empty (remove s.subscriptions owner)
          then (bypass w s.conntrack_id).dict
          else w.dict))
unfolding release_session modify get
release_session_lem w sess q owner other = ground (
  arith,
  get-remove (w.sessions.cell sess).subscriptions owner other,
  get-remove (w.sessions.cell q).subscriptions owner other,
)
