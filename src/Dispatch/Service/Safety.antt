-- ===== src/Dispatch/Service/Safety.antt =====
-- The tables are well formed in every world that the service comes to.
use packetd.Base.{ℕ, ◌≡◌, refl, subst, sym, ◌∙◌, Option, none, some, List, [], ◌∷◌, arith, ap}
use packetd.Base.Keys.{nat_key}
use packetd.Base.Table.{Table, get, keys}
use packetd.Dispatch.State.{World}
use packetd.Dispatch.Session.{put_attachment, delete_attachment, add_navl_count}
use packetd.Dispatch.SessionTable.{find_session}
use packetd.Dispatch.ConntrackTable.{find_conntrack, remove_conntrack}
use packetd.Dispatch.Subscriptions.{
  insert_nfqueue_subscription, insert_conntrack_subscription, insert_netlogger_subscription,
}
use packetd.Dispatch.Service.{
  startup, cleaner_round, handle_warehouse_playback, drop_playback_session, cleanup_sessions,
  cleanup_conntracks, cleanup_nf, cleanup_ct, handle_warehouse_cleanup, Step, packet, conntrack,
  clean, subscribe_nfqueue, subscribe_conntrack, subscribe_netlogger, playback, cleanup, attach,
  detach, release, count_navl, Reachable, started, next,
}
use packetd.Dispatch.WellFormed.{IsWellFormed}
use packetd.Dispatch.WellFormed.Sessions.{
  Shrinks, Shrinks-refl, Shrinks-trans, Shrinks-IsWellFormed, modify_session-IsWellFormed,
}
use packetd.Dispatch.WellFormed.Conntracks.{
  clean_tables-Shrinks, remove_conntrack-Shrinks, flush_session_of-Shrinks,
}
use packetd.Dispatch.WellFormed.ConntrackEvents.{conntrack_callback-IsWellFormed}
use packetd.Dispatch.WellFormed.Packets.{
  release_session-IsWellFormed, nfqueue_callback-IsWellFormed,
}

startup-IsWellFormed : (ct_interval unix : ℕ) → IsWellFormed (startup ct_interval unix)
unfolding startup find_session find_conntrack get
startup-IsWellFormed ct_interval unix = record {
  session_exists = λ ctid sess e. cc;
  session_filed = λ ctid sess e. cc;
  conntrack_exists = λ ctid entry e. cc;
  conntrack_filed = λ ctid entry e. cc;
  link_exists = λ entry sess e. cc;
  link_agrees = λ entry sess e. cc;
}

pub drop_playback_session-Shrinks :
    (w : World) (found : Option ℕ) → Shrinks w (drop_playback_session w found)
drop_playback_session-Shrinks w none = Shrinks-refl w
drop_playback_session-Shrinks w (some sess) = flush_session_of-Shrinks w (some sess)

pub cleanup_sessions-Shrinks : (w : World) (order : List ℕ) → Shrinks w (cleanup_sessions w order)
unfolding cleanup_sessions
cleanup_sessions-Shrinks w [] = Shrinks-refl w
cleanup_sessions-Shrinks w (ctid ∷ order) =
    Shrinks-trans (drop_playback_session-Shrinks w (find_session w ctid))
      (cleanup_sessions-Shrinks (drop_playback_session w (find_session w ctid)) order)

cleanup_conntracks-Shrinks : (w : World) (order : List ℕ) → Shrinks w (cleanup_conntracks w order)
unfolding cleanup_conntracks
cleanup_conntracks-Shrinks w [] = Shrinks-refl w
cleanup_conntracks-Shrinks w (ctid ∷ order) =
    Shrinks-trans (remove_conntrack-Shrinks w ctid)
      (cleanup_conntracks-Shrinks (remove_conntrack w ctid) order)

-- Fields that well-formedness does not name.
other_fields :
    (w v : World)
    → v.session_table ≡ w.session_table
    → v.conntrack_table ≡ w.conntrack_table
    → v.sessions ≡ w.sessions
    → v.conntracks ≡ w.conntracks
    → Shrinks w v
unfolding find_session find_conntrack
other_fields w v st ct s c = record {
  sessions = s;
  conntracks = c;
  filed = λ ctid sess e. ap (λ t. get t ctid) (sym st) ∙ e;
  entries = λ ctid entry e. ap (λ t. get t ctid) (sym ct) ∙ e;
}

cleanup_nf-Shrinks : (w : World) (o : Option (Table ℕ _)) → Shrinks w (cleanup_nf w o)
cleanup_nf-Shrinks w none = Shrinks-refl w
cleanup_nf-Shrinks w (some list) =
    Shrinks-trans (cleanup_sessions-Shrinks w (keys list)) (other_fields _ _ refl refl refl refl)

cleanup_ct-Shrinks : (w : World) (o : Option (Table ℕ _)) → Shrinks w (cleanup_ct w o)
cleanup_ct-Shrinks w none = Shrinks-refl w
cleanup_ct-Shrinks w (some list) =
    Shrinks-trans (cleanup_conntracks-Shrinks w (keys list)) (other_fields _ _ refl refl refl refl)

-- Every step of the service keeps the world well formed.
pub Step-IsWellFormed : {w v : World} → Step w v → IsWellFormed w → IsWellFormed v
unfolding insert_nfqueue_subscription insert_conntrack_subscription insert_netlogger_subscription
    handle_warehouse_playback handle_warehouse_cleanup cleaner_round put_attachment
    delete_attachment add_navl_count
Step-IsWellFormed (packet w handlers ctid family p packet_length pmark now) h =
    nfqueue_callback-IsWellFormed handlers ctid family p packet_length pmark now w h
Step-IsWellFormed (conntrack w e now) h = conntrack_callback-IsWellFormed e now w h
Step-IsWellFormed (clean w now) h = Shrinks-IsWellFormed (clean_tables-Shrinks w now) h
Step-IsWellFormed (subscribe_nfqueue w owner priority function) h =
    Shrinks-IsWellFormed (other_fields w _ refl refl refl refl) h
Step-IsWellFormed (subscribe_conntrack w owner priority function) h =
    Shrinks-IsWellFormed (other_fields w _ refl refl refl refl) h
Step-IsWellFormed (subscribe_netlogger w owner priority function) h =
    Shrinks-IsWellFormed (other_fields w _ refl refl refl refl) h
Step-IsWellFormed (playback w nf_list ct_list) h =
    Shrinks-IsWellFormed (other_fields w _ refl refl refl refl) h
Step-IsWellFormed (cleanup w) h =
    Shrinks-IsWellFormed
      (Shrinks-trans (cleanup_nf-Shrinks w w.nf_cleanup_list)
        (cleanup_ct-Shrinks _ (cleanup_nf w w.nf_cleanup_list).ct_cleanup_list))
      h
Step-IsWellFormed (attach w sess name value) h = modify_session-IsWellFormed w sess _ (λ s. refl) h
Step-IsWellFormed (detach w sess name) h =
    modify_session-IsWellFormed w sess _ (λ s. ground arith) h
Step-IsWellFormed (release w sess owner) h = release_session-IsWellFormed w sess owner h
Step-IsWellFormed (count_navl w sess amount) h = modify_session-IsWellFormed w sess _ (λ s. refl) h

-- In every world that the service comes to from its start, by any events in any order, the tables
-- are well formed: a session and a conntrack entry that are found under an id exist and carry that
-- id, and a conntrack entry is linked to a session that exists and has the entry's id.
pub Reachable-IsWellFormed :
    (ct_interval unix : ℕ) {w : World} → Reachable ct_interval unix w → IsWellFormed w
Reachable-IsWellFormed ct_interval unix (started w e) =
    subst IsWellFormed (sym e) (startup-IsWellFormed ct_interval unix)
Reachable-IsWellFormed ct_interval unix (next r s) =
    Step-IsWellFormed s (Reachable-IsWellFormed ct_interval unix r)
