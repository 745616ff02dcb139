-- ===== src/Dispatch/Service/Playback.antt =====
-- The cleanup after a warehouse playback.
use packetd.Base.{
  ℕ, ◌≡◌, refl, ◌∙◌, ap, Bool, Option, none, some, List, [], ◌∷◌, ◌==◌, if◌then◌else◌, arith,
  Option-cases, inl, inr,
}
use packetd.Base.Keys.{nat_key}
use packetd.Base.Table.{Table, get, keys, has, get-remove}
use packetd.Dispatch.State.{World}
use packetd.Dispatch.SessionTable.{find_session, flush_dict, remove_from_session_table}
use packetd.Dispatch.SessionTable.Removal.{remove_flush_own}
use packetd.Dispatch.ConntrackTable.{find_conntrack, remove_conntrack}
use packetd.Dispatch.Service.{
  drop_playback_session, cleanup_sessions, cleanup_conntracks, cleanup_nf, cleanup_ct,
  handle_warehouse_cleanup,
}
use packetd.Dispatch.Service.Safety.{drop_playback_session-Shrinks}
use packetd.Dispatch.WellFormed.{IsWellFormed}
use packetd.Dispatch.WellFormed.Sessions.{Shrinks-IsWellFormed}

find-flush :
    (w : World) (sess : ℕ)
    → ((flush_dict w sess).session_table ≡ w.session_table)
      × ((flush_dict w sess).sessions ≡ w.sessions)
      × ((flush_dict w sess).conntrack_table ≡ w.conntrack_table)
unfolding flush_dict
find-flush w sess = ground arith

find-drop :
    (w : World) (c ctid : ℕ)
    → IsWellFormed w
    → find_session (drop_playback_session w (find_session w c)) ctid
      ≡ (if c == ctid then none else find_session w ctid)
find-drop w c ctid h = elim (Option-cases (find_session w c)) [
  | inl e ↦ rw e (unfold find_session in ground (arith, e))
  | inr (sess, e) ↦ rw e (
      unfold find_session in
      ground (
        arith,
        e,
        h.session_filed c sess e,
        find-flush w sess,
        remove_flush_own (flush_dict w sess) sess ctid,
      ))
]

drop-keeps_conntracks :
    (w : World) (o : Option ℕ)
    → ((drop_playback_session w o).conntrack_table ≡ w.conntrack_table)
      × ((drop_playback_session w o).ct_cleanup_list ≡ w.ct_cleanup_list)
unfolding remove_from_session_table flush_dict
drop-keeps_conntracks w none = (refl, refl)
drop-keeps_conntracks w (some sess) = ground arith

find-cleanup_sessions :
    (w : World) (order : List ℕ) (ctid : ℕ)
    → IsWellFormed w
    → (find_session (cleanup_sessions w order) ctid
        ≡ (if has order ctid then none else find_session w ctid))
      × ((cleanup_sessions w order).conntrack_table ≡ w.conntrack_table)
      × ((cleanup_sessions w order).ct_cleanup_list ≡ w.ct_cleanup_list)
unfolding cleanup_sessions has
find-cleanup_sessions w [] ctid h = (refl, refl, refl)
find-cleanup_sessions w (c ∷ order) ctid h =
    let o = find_session w c in
    let kept = Shrinks-IsWellFormed (drop_playback_session-Shrinks w o) h in
    let rest = find-cleanup_sessions (drop_playback_session w o) order ctid kept in
    let here = drop-keeps_conntracks w o in
    (ground (arith, rest.0, find-drop w c ctid h), rest.1 ∙ here.0, rest.2 ∙ here.1)

find-cleanup_conntracks :
    (w : World) (order : List ℕ) (ctid : ℕ)
    → (find_conntrack (cleanup_conntracks w order) ctid
        ≡ (if has order ctid then none else find_conntrack w ctid))
      × ((cleanup_conntracks w order).session_table ≡ w.session_table)
unfolding cleanup_conntracks has find_conntrack remove_conntrack
find-cleanup_conntracks w [] ctid = (refl, refl)
find-cleanup_conntracks w (c ∷ order) ctid =
    let rest = find-cleanup_conntracks (remove_conntrack w c) order ctid in
    (ground (arith, rest.0, get-remove w.conntrack_table c ctid), rest.1)

-- On a well-formed world, the cleanup after a playback removes exactly the sessions that are filed
-- under an id of the packet list and the conntrack entries that are filed under an id of the event
-- list; every other session and entry stays.
pub handle_warehouse_cleanup_lem :
    (w : World) (nf_list ct_list : Table ℕ Bool) (ctid : ℕ)
    → IsWellFormed w
    → w.nf_cleanup_list ≡ some nf_list
    → w.ct_cleanup_list ≡ some ct_list
    → let v = handle_warehouse_cleanup w in
      (find_session v ctid ≡ (if has (keys nf_list) ctid then none else find_session w ctid))
      × (find_conntrack v ctid ≡ (if has (keys ct_list) ctid then none else find_conntrack w ctid))
unfolding handle_warehouse_cleanup
handle_warehouse_cleanup_lem w nf_list ct_list ctid h nf ct =
    let u : World = record (cleanup_sessions w (keys nf_list)) { nf_cleanup_list = none } in
    let s = find-cleanup_sessions w (keys nf_list) ctid h in
    let c = find-cleanup_conntracks u (keys ct_list) ctid in
    let outcome : handle_warehouse_cleanup w ≡ cleanup_ct u (some ct_list) =
      ap (λ o. cleanup_ct (cleanup_nf w o) (cleanup_nf w o).ct_cleanup_list) nf
      ∙ ap (cleanup_ct u) (s.2 ∙ ct) in
    (
      ap (λ v. find_session v ctid) outcome ∙ unfold find_session in ap (λ t. get t ctid) c.1 ∙ s.0,
      ap (λ v. find_conntrack v ctid) outcome
          ∙ unfold find_conntrack in
            c.0 ∙ ap (λ t. if has (keys ct_list) ctid then none else get t ctid) s.1,
    )
