-- ===== src/Dispatch/WellFormed.antt =====
-- The tables of services/dispatch point at objects that exist and that carry the id they are filed
-- under, and a conntrack entry is linked to a session of its own id.
pub mod Sessions
pub mod Conntracks
pub mod Callbacks
pub mod ConntrackEvents
pub mod Packets
use packetd.Base.{ℕ, ◌<◌, ◌≡◌, Option, none, some}
use packetd.Base.Heap.{Heap}
use packetd.Dispatch.State.{World, Session, Conntrack}
use packetd.Dispatch.SessionTable.{find_session}
use packetd.Dispatch.ConntrackTable.{find_conntrack}

pub record IsWellFormed (w : World) : Type 0 where
  pub session_exists : (ctid sess : ℕ) → find_session w ctid ≡ some sess → sess < w.sessions.next
  pub session_filed :
      (ctid sess : ℕ) → find_session w ctid ≡ some sess → (w.sessions.cell sess).conntrack_id ≡ ctid
  pub conntrack_exists :
      (ctid entry : ℕ) → find_conntrack w ctid ≡ some entry → entry < w.conntracks.next
  pub conntrack_filed :
      (ctid entry : ℕ)
      → find_conntrack w ctid ≡ some entry
      → (w.conntracks.cell entry).conntrack_id ≡ ctid
  pub link_exists :
      (entry sess : ℕ) → (w.conntracks.cell entry).session ≡ some sess → sess < w.sessions.next
  pub link_agrees :
      (entry sess : ℕ)
      → (w.conntracks.cell entry).session ≡ some sess
      → (w.sessions.cell sess).conntrack_id ≡ (w.conntracks.cell entry).conntrack_id
