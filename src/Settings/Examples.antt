-- ===== src/Settings/Examples.antt =====
-- A settings document with one network, changed and trimmed.
use packetd.Base.{◌≡◌, ◌↔◌, ◌⊎◌, inr, refl, String, true, none, some, List, [], ◌∷◌}
use packetd.Base.Text.{atoi}
use packetd.Settings.Document.{
  text, array, object, nil, item, Fields, end, field, get_field, set_field, get_item,
}
use packetd.Settings.{
  failed_to_save, ok, panics, get_settings_from_json, set_settings_in_json, trim_fields, then_do,
}
use packetd.Settings.File.{
  Contents, document, SyncRun, exits_zero, exits_nonzero, Reply, get_settings_file,
  set_settings_file, read_settings_file_json,
}
use packetd.Settings.Paths.{get-set_settings}
use packetd.Settings.Frames.{set_settings_elsewhere}
use packetd.Settings.Trimming.{is_absent, trim_then_get}
use packetd.Settings.Saving.{
  Succeeds, IsLeft, set_then_get_file, set_settings_file-saves, set_settings_file-keeps,
}
use packetd.Settings.Panics.{write_breaks, set_settings_file-panics}

abbrev network : Fields
network = field "name" (text "lan") end

abbrev settings : Fields
settings =
    field "network" (object network)
      (field "hosts" (array 1 (item (text "a") (item (text "b") nil))) end)

abbrev path : List String
path = "network" ∷ "name" ∷ []

abbrev renamed : Fields
renamed =
    field "network" (object (field "name" (text "wan") end))
      (field "hosts" (array 1 (item (text "a") (item (text "b") nil))) end)

renames : set_settings_in_json path (text "wan") (object settings) ≡ ok (object renamed)
unfolding set_settings_in_json set_field get_field
renames = refl

-- An index between the length and the capacity of an array panics, as does a negative one.
between_length_and_capacity : get_settings_from_json ("hosts" ∷ "2" ∷ []) (object settings) ≡ panics
unfolding get_settings_from_json get_field get_item atoi
between_length_and_capacity = refl

below_zero : get_settings_from_json ("hosts" ∷ "-1" ∷ []) (object settings) ≡ panics
unfolding get_settings_from_json get_field get_item atoi
below_zero = refl

abbrev good_run : SyncRun
good_run = record {
  temp_file = none;
  marshal_and_write = none;
  sync_exit = exits_zero;
  sync_output = "done";
  synced = λ fs. document (object fs);
  create = none;
  copy = none;
}

abbrev bad_sync : SyncRun
bad_sync = record good_run { sync_exit = exits_nonzero }

abbrev full_disk : SyncRun
full_disk = record good_run { marshal_and_write = some "no space left on device" }

good_run-Succeeds : Succeeds good_run
good_run-Succeeds = record {
  temp_file = refl;
  marshal_and_write = refl;
  sync = refl;
  create = refl;
  copy = refl;
}

abbrev file : Contents
file = document (object settings)

abbrev good_reply : Reply
good_reply = record { result = none; output = some "done"; file = document (object renamed) }

abbrev bad_reply : Reply
bad_reply = record { result = some failed_to_save; output = some "done"; file = file }

saved : set_settings_file good_run path (text "wan") file ≡ ok good_reply
saved =
    set_settings_file-saves good_run path (text "wan") settings renamed good_run-Succeeds renames

good_run-IsLeft : IsLeft good_run path (text "wan") file
good_run-IsLeft = record { left = λ fs gs same set. refl }

not_saved : set_settings_file bad_sync path (text "wan") file ≡ ok bad_reply
unfolding set_settings_file set_settings_in_json set_field get_field read_settings_file_json then_do
not_saved = refl

get-set_settings_example : get_settings_from_json path (object renamed) ≡ ok (text "wan")
get-set_settings_example =
    get-set_settings path (text "wan") (object settings) (object renamed) renames

set_settings_elsewhere_example :
    get_settings_from_json ("hosts" ∷ "1" ∷ []) (object renamed)
    ≡ get_settings_from_json ("hosts" ∷ "1" ∷ []) (object settings)
set_settings_elsewhere_example =
    set_settings_elsewhere "network" "hosts" ("name" ∷ []) ("1" ∷ []) (text "wan") settings
      (object renamed) refl renames

abbrev trimmed : Fields
trimmed =
    field "network" (object end)
      (field "hosts" (array 1 (item (text "a") (item (text "b") nil))) end)

trims : trim_fields path settings ≡ ok trimmed
unfolding trim_fields set_field get_field
trims = refl

trim_then_get_example : is_absent (get_settings_from_json path (object trimmed)) ≡ true
trim_then_get_example = trim_then_get "network" ("name" ∷ []) settings trimmed trims

set_then_get_file_example : get_settings_file path (document (object renamed)) ≡ ok (text "wan")
set_then_get_file_example =
    set_then_get_file good_run path (text "wan") file good_reply good_run-IsLeft saved refl

set_settings_file-keeps_example : bad_reply.file ≡ file
set_settings_file-keeps_example =
    set_settings_file-keeps bad_sync path (text "wan") file bad_reply failed_to_save refl not_saved
      refl

set_settings_file-panics_example : (set_settings_file full_disk path (text "wan") file ≡ panics) ↔ (
    (set_settings_in_json path (text "wan") (object settings) ≡ panics)
    ⊎ ((gs : Fields) × (set_settings_in_json path (text "wan") (object settings) ≡ ok (object gs))
        × (write_breaks full_disk ≡ true)))
set_settings_file-panics_example = set_settings_file-panics full_disk path (text "wan") settings

panics_on_full_disk : set_settings_file full_disk path (text "wan") file ≡ panics
panics_on_full_disk =
    (set_settings_file-panics full_disk path (text "wan") settings).1 (inr (renamed, renames, refl))
