-- ===== src/Settings/Saving.antt =====
-- What stands in the settings file after an operation.
use packetd.Base.{◌≡◌, refl, sym, ap, ◌∙◌, String, none, some, List, arith}
use packetd.Settings.Document.{Json, null, flag, number, text, array, object, Fields}
use packetd.Settings.{
  Failure, Outcome, ok, fails, panics, then_do, set_settings_in_json, invalid_global_object,
}
use packetd.Settings.File.{
  Contents, missing, broken, document, read_settings_file_json, get_settings_file, SyncRun,
  exits_zero, run_sync_settings, copy_to, sync_and_save, Reply, refused, reply_of, or_refuse,
  save_reply, save_object, set_settings_file,
}
use packetd.Settings.Paths.{get-set_settings}

-- A run of the system in which everything succeeds.
pub record Succeeds (run : SyncRun) : Type 0 where
  pub temp_file : run.temp_file ≡ none
  pub marshal_and_write : run.marshal_and_write ≡ none
  pub sync : run.sync_exit ≡ exits_zero
  pub create : run.create ≡ none
  pub copy : run.copy ≡ none

save_reply-written :
    (run : SyncRun) (file : Contents) (fs : Fields)
    → Succeeds run
    → save_reply run file fs
      ≡ ok (record { result = none; output = some run.sync_output; file = run.synced fs })
unfolding save_reply sync_and_save copy_to run_sync_settings reply_of then_do
save_reply-written run file fs h =
    rw (h.temp_file, h.marshal_and_write, h.sync, h.create, h.copy) refl

-- What a save may leave: the new document if there is no error, and otherwise the old file, unless
-- the copy broke off.
save_leaves :
    (run : SyncRun) (file : Contents) (fs : Fields) (r : Reply) (e : Failure)
    → save_reply run file fs ≡ ok r
    → run.copy ≡ none
    → r.result ≡ some e
    → r.file ≡ file
unfolding save_reply sync_and_save copy_to run_sync_settings reply_of then_do
save_leaves run file fs r e h c q = ground (arith, h, c, q)

not_refused {ℓ} :
    {A : Type ℓ} (file : Contents) (e : Failure) (r : Reply)
    → ok (refused file e) ≡ ok r
    → r.result ≡ none
    → A
not_refused file e r h q =
    let same : refused file e ≡ r = cc in
    let bad : some e ≡ none = ap (λ (x : Reply). x.result) same ∙ q in cc

or_refuse-ok {ℓ} :
    {A : Type ℓ} (file : Contents) (o : Outcome A) (next : A → Outcome Reply) (r : Reply)
    → or_refuse file o next ≡ ok r
    → r.result ≡ none
    → (a : A) × (o ≡ ok a) × (next a ≡ ok r)
unfolding or_refuse
or_refuse-ok file (ok a) next r h q = (a, refl, h)
or_refuse-ok file (fails e) next r h q = not_refused file e r h q
or_refuse-ok file panics next r h q = cc

save_object-ok :
    (run : SyncRun) (file : Contents) (j : Json) (r : Reply)
    → save_object run file j ≡ ok r
    → r.result ≡ none
    → (fs : Fields) × (j ≡ object fs) × (save_reply run file fs ≡ ok r)
save_object-ok run file (object fs) r h q = (fs, refl, h)
save_object-ok run file null r h q = not_refused file invalid_global_object r h q
save_object-ok run file (flag b) r h q = not_refused file invalid_global_object r h q
save_object-ok run file (number n) r h q = not_refused file invalid_global_object r h q
save_object-ok run file (text n) r h q = not_refused file invalid_global_object r h q
save_object-ok run file (array n items) r h q = not_refused file invalid_global_object r h q

saved_document :
    (run : SyncRun) (file : Contents) (fs : Fields) (r : Reply)
    → save_reply run file fs ≡ ok r
    → r.result ≡ none
    → r.file ≡ run.synced fs
unfolding save_reply sync_and_save copy_to run_sync_settings reply_of then_do
saved_document run file fs r h q = ground (arith, h, q)

-- The changed document is as it was written once sync-settings has run on the temporary file, also
-- in the capacities of its arrays when it is read back.
pub record IsLeft (run : SyncRun) (path : List String) (value : Json) (file : Contents)
    : Type 0 where
  pub left :
      (fs gs : Fields)
      → file ≡ document (object fs)
      → set_settings_in_json path value (object fs) ≡ ok (object gs)
      → run.synced gs ≡ document (object gs)

read_object :
    (file : Contents) (fs : Fields)
    → read_settings_file_json file ≡ ok fs
    → file ≡ document (object fs)
unfolding read_settings_file_json
read_object missing fs h = cc
read_object broken fs h = cc
read_object (document (object gs)) fs h = ap (λ x. document (object x)) cc
read_object (document null) fs h = cc
read_object (document (flag b)) fs h = cc
read_object (document (number n)) fs h = cc
read_object (document (text n)) fs h = cc
read_object (document (array n items)) fs h = cc

-- When SetSettingsFile reports no error, and the changed document is left as it was written by
-- sync-settings, the path reads as the value in the file that it leaves.
pub set_then_get_file :
    (run : SyncRun) (segments : List String) (value : Json) (file : Contents) (r : Reply)
    → IsLeft run segments value file
    → set_settings_file run segments value file ≡ ok r
    → r.result ≡ none
    → get_settings_file segments r.file ≡ ok value
unfolding set_settings_file get_settings_file read_settings_file_json then_do
set_then_get_file run segments value file r l h q =
    let (fs, read, h') = or_refuse-ok file (read_settings_file_json file) _ r h q in
    let (j, set, h'') =
      or_refuse-ok file (set_settings_in_json segments value (object fs)) (save_object run file) r
        h' q in
    let (gs, same, h''') = save_object-ok run file j r h'' q in
    let changed = set ∙ ap ok same in
    rw (saved_document run file gs r h''' q, l.left fs gs (read_object file fs read) changed)
      (get-set_settings segments value (object fs) (object gs) changed)

-- When everything that the system does succeeds, the file holds an object and the path can be set in
-- it, SetSettingsFile reports no error and leaves in the file what sync-settings has left of the
-- changed object.
pub set_settings_file-saves :
    (run : SyncRun) (segments : List String) (value : Json) (fs gs : Fields)
    → Succeeds run
    → set_settings_in_json segments value (object fs) ≡ ok (object gs)
    → set_settings_file run segments value (document (object fs))
      ≡ ok (record { result = none; output = some run.sync_output; file = run.synced gs })
unfolding set_settings_file read_settings_file_json or_refuse
set_settings_file-saves run segments value fs gs h set =
    rw (set, or_refuse) (save_reply-written run (document (object fs)) gs h)

refused-file :
    (file : Contents) (e : Failure) (r : Reply) → ok (refused file e) ≡ ok r → r.file ≡ file
refused-file file e r h =
    let same : refused file e ≡ r = cc in ap (λ (x : Reply). x.file) (sym same)

or_refuse-kept {ℓ} :
    {A : Type ℓ} (file : Contents) (o : Outcome A) (next : A → Outcome Reply) (r : Reply)
    → or_refuse file o next ≡ ok r
    → ((a : A) → next a ≡ ok r → r.file ≡ file)
    → r.file ≡ file
unfolding or_refuse
or_refuse-kept file (ok a) next r h k = k a h
or_refuse-kept file (fails e) next r h k = refused-file file e r h
or_refuse-kept file panics next r h k = cc

save_object-kept :
    (run : SyncRun) (file : Contents) (r : Reply) (e : Failure) (j : Json)
    → run.copy ≡ none
    → r.result ≡ some e
    → save_object run file j ≡ ok r
    → r.file ≡ file
save_object-kept run file r e (object fs) c q h = save_leaves run file fs r e h c q
save_object-kept run file r e null c q h = refused-file file invalid_global_object r h
save_object-kept run file r e (flag b) c q h = refused-file file invalid_global_object r h
save_object-kept run file r e (number n) c q h = refused-file file invalid_global_object r h
save_object-kept run file r e (text n) c q h = refused-file file invalid_global_object r h
save_object-kept run file r e (array n items) c q h = refused-file file invalid_global_object r h

-- When SetSettingsFile reports an error, and no copy of the new document broke off, the file is as it
-- was.
pub set_settings_file-keeps :
    (run : SyncRun) (segments : List String) (value : Json) (file : Contents) (r : Reply)
    (e : Failure)
    → run.copy ≡ none
    → set_settings_file run segments value file ≡ ok r
    → r.result ≡ some e
    → r.file ≡ file
unfolding set_settings_file
set_settings_file-keeps run segments value file r e c h q =
    or_refuse-kept file (read_settings_file_json file) _ r h (λ fs h'.
      or_refuse-kept file (set_settings_in_json segments value (object fs)) _ r h'
        (λ j h''. save_object-kept run file r e j c q h''))
