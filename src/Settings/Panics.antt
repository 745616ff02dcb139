-- ===== src/Settings/Panics.antt =====
-- When SetSettingsFile panics.
use packetd.Base.{
  ◌≡◌, ◌↔◌, ◌⊎◌, inl, inr, refl, ap, ◌∙◌, String, Bool, true, false, none, some, List, arith,
}
use packetd.Settings.Document.{Json, null, flag, number, text, array, object, Fields}
use packetd.Settings.{Outcome, ok, fails, panics, then_do, set_settings_in_json}
use packetd.Settings.File.{
  Contents, document, read_settings_file_json, SyncRun, run_sync_settings, copy_to, sync_and_save,
  Reply, reply_of, or_refuse, save_reply, save_object, set_settings_file,
}

-- The temporary file is made, and the document cannot be written to it.
abbrev pub write_breaks : SyncRun → Bool
write_breaks run = elim run.temp_file [
  | some reason ↦ false
  | none ↦ elim run.marshal_and_write [ none ↦ false | some reason ↦ true ]
]

save_reply-panics :
    (run : SyncRun) (file : Contents) (fs : Fields)
    → (save_reply run file fs ≡ panics) ↔ (write_breaks run ≡ true)
unfolding save_reply sync_and_save copy_to run_sync_settings reply_of then_do
save_reply-panics run file fs = ground arith

save_object-panics :
    (run : SyncRun) (file : Contents) (j : Json)
    → save_object run file j ≡ panics
    → (gs : Fields) × (j ≡ object gs) × (write_breaks run ≡ true)
save_object-panics run file (object gs) h = (gs, refl, (save_reply-panics run file gs).0 h)
save_object-panics run file null h = cc
save_object-panics run file (flag b) h = cc
save_object-panics run file (number n) h = cc
save_object-panics run file (text n) h = cc
save_object-panics run file (array n items) h = cc

or_refuse-panics {ℓ} :
    {A : Type ℓ} (file : Contents) (o : Outcome A) (next : A → Outcome Reply)
    → or_refuse file o next ≡ panics
    → (o ≡ panics) ⊎ ((a : A) × (o ≡ ok a) × (next a ≡ panics))
unfolding or_refuse
or_refuse-panics file (ok a) next h = inr (a, refl, h)
or_refuse-panics file (fails e) next h = cc
or_refuse-panics file panics next h = inl refl

-- On a file that holds an object, SetSettingsFile panics exactly when setting the path in it panics,
-- or the path can be set and the changed object cannot be written to the temporary file that was
-- made; no other failure of the system makes it panic.
pub set_settings_file-panics :
    (run : SyncRun) (segments : List String) (value : Json) (fs : Fields)
    → (set_settings_file run segments value (document (object fs)) ≡ panics) ↔ (
        (set_settings_in_json segments value (object fs) ≡ panics)
        ⊎ ((gs : Fields) × (set_settings_in_json segments value (object fs) ≡ ok (object gs))
            × (write_breaks run ≡ true)))
unfolding set_settings_file read_settings_file_json or_refuse
set_settings_file-panics run segments value fs =
    let file = document (object fs) in
    let set = set_settings_in_json segments value (object fs) in
    (
      λ h. elim (or_refuse-panics file set (save_object run file) h) [
        | inl e ↦ inl e
        | inr (j, e, h') ↦
            let (gs, same, b) = save_object-panics run file j h' in inr (gs, e ∙ ap ok same, b)
      ],
      λ h. elim h [
        | inl e ↦ rw (e, or_refuse) refl
        | inr (gs, e, b) ↦ rw (e, or_refuse) ((save_reply-panics run file gs).1 b)
      ],
    )
