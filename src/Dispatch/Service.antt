-- ===== src/Dispatch/Service.antt =====
-- services/dispatch/dispatch.go: the start of the service, the cleaner and the cleanup after a
-- warehouse playback; and the service as a step relation, in which the kernel, the plugins and the
-- clock choose what happens next.
pub mod Safety
pub mod Playback
use packetd.Base.{◌≡◌, ℕ, ◌*◌, ◌%◌, ◌^◌, String, Bool, Option, none, some, List, [], ◌∷◌}
use packetd.Base.Integer.{ℤ}
use packetd.Base.Keys.{nat_key}
use packetd.Base.Table.{Table, keys}
use packetd.Base.Heap.{Heap, modify}
use packetd.Dispatch.State.{World, Session, Value, new_session, new_conntrack}
use packetd.Dispatch.Session.{put_attachment, delete_attachment, add_navl_count}
use packetd.Dispatch.SessionTable.{
  find_session, flush_dict, remove_from_session_table, clean_session_table,
}
use packetd.Dispatch.ConntrackTable.{ConntrackEvent, remove_conntrack, clean_conntrack_table}
use packetd.Dispatch.Subscriptions.{
  release_session, insert_nfqueue_subscription, insert_conntrack_subscription,
  insert_netlogger_subscription,
}
use packetd.Dispatch.ConntrackCallback.{conntrack_callback}
use packetd.Dispatch.PriorityLoop.{state_of}
use packetd.Dispatch.Nfqueue.{Packet, Handlers}
use packetd.Dispatch.NfqueueCallback.{nfqueue_callback}

-- The first session id: the low 32 bits of the epoch seconds, over 16 zero bits.
unfoldable pub first_index : ℕ → ℕ
first_index unix = unix % 2 ^ 32 * 2 ^ 16

-- `Startup`, at a time in epoch seconds.
unfoldable pub startup : ℕ → ℕ → World
unfolding first_index
startup ct_interval unix = record {
  session_table = [];
  session_index = first_index unix;
  conntrack_table = [];
  sessions = record { next = 0; cell = λ a. new_session };
  conntracks = record { next = 0; cell = λ a. new_conntrack };
  nfqueue_sub_list = [];
  conntrack_sub_list = [];
  netlogger_sub_list = [];
  nf_cleanup_list = none;
  ct_cleanup_list = none;
  conntrack_interval_seconds = ct_interval;
  dict = [];
  counters = [];
}

-- One round of `cleanerTask`.
unfoldable pub cleaner_round : World → ℕ → World
cleaner_round w now = clean_conntrack_table (clean_session_table w now) now

-- `HandleWarehousePlayback`, with the two lists that the kernel fills in while it plays a file.
unfoldable pub handle_warehouse_playback : World → Table ℕ Bool → Table ℕ Bool → World
handle_warehouse_playback w nf_list ct_list = record w {
  nf_cleanup_list = some nf_list;
  ct_cleanup_list = some ct_list;
}

abbrev pub drop_playback_session : World → Option ℕ → World
drop_playback_session w none = w
drop_playback_session w (some sess) = remove_from_session_table (flush_dict w sess) sess

unfoldable pub cleanup_sessions : World → List ℕ → World
cleanup_sessions w [] = w
cleanup_sessions w (ctid ∷ order) =
    cleanup_sessions (drop_playback_session w (find_session w ctid)) order

unfoldable pub cleanup_conntracks : World → List ℕ → World
cleanup_conntracks w [] = w
cleanup_conntracks w (ctid ∷ order) = cleanup_conntracks (remove_conntrack w ctid) order

abbrev pub cleanup_nf : World → Option (Table ℕ Bool) → World
cleanup_nf w none = w
cleanup_nf w (some list) = record (cleanup_sessions w (keys list)) { nf_cleanup_list = none }

abbrev pub cleanup_ct : World → Option (Table ℕ Bool) → World
cleanup_ct w none = w
cleanup_ct w (some list) = record (cleanup_conntracks w (keys list)) { ct_cleanup_list = none }

-- `HandleWarehouseCleanup`
unfoldable pub handle_warehouse_cleanup : World → World
unfolding cleanup_sessions cleanup_conntracks
handle_warehouse_cleanup w =
    let w' = cleanup_nf w w.nf_cleanup_list in cleanup_ct w' w'.ct_cleanup_list

-- One thing that happens to the service.
pub data Step : World → World → Type 0 where
  packet :
      (w : World) (handlers : Handlers) (ctid family : ℕ) (p : Packet) (packet_length pmark now : ℕ)
      → Step w (state_of (nfqueue_callback handlers ctid family p packet_length pmark now w))
  conntrack : (w : World) (e : ConntrackEvent) (now : ℕ) → Step w (conntrack_callback e now w).world
  clean : (w : World) (now : ℕ) → Step w (cleaner_round w now)
  subscribe_nfqueue :
      (w : World) (owner : String) (priority : ℤ) (function : ℕ)
      → Step w (insert_nfqueue_subscription w owner priority function).0
  subscribe_conntrack :
      (w : World) (owner : String) (priority : ℤ) (function : ℕ)
      → Step w (insert_conntrack_subscription w owner priority function)
  subscribe_netlogger :
      (w : World) (owner : String) (priority : ℤ) (function : ℕ)
      → Step w (insert_netlogger_subscription w owner priority function)
  playback :
      (w : World) (nf_list ct_list : Table ℕ Bool)
      → Step w (handle_warehouse_playback w nf_list ct_list)
  cleanup : (w : World) → Step w (handle_warehouse_cleanup w)
  attach :
      (w : World) (sess : ℕ) (name : String) (value : Value)
      → Step w (record w { sessions = modify w.sessions sess (λ s. put_attachment s name value) })
  detach :
      (w : World) (sess : ℕ) (name : String)
      → Step w (record w { sessions = modify w.sessions sess (λ s. (delete_attachment s name).0) })
  release : (w : World) (sess : ℕ) (owner : String) → Step w (release_session w sess owner)
  count_navl :
      (w : World) (sess amount : ℕ)
      → Step w (record w { sessions = modify w.sessions sess (λ s. add_navl_count s amount) })

-- The worlds that the service comes to from its start.
pub data Reachable (ct_interval unix : ℕ) : World → Type 0 where
  started : (w : World) → w ≡ startup ct_interval unix → Reachable ct_interval unix w
  next : {w v : World} → Reachable ct_interval unix w → Step w v → Reachable ct_interval unix v
