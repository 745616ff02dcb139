-- ===== src/Settings/File.antt =====
-- services/settings/settings.go: the settings file. What the file system, the JSON library and the
-- program sync-settings do is an input of each operation.
use packetd.Base.{String, Option, none, some, List}
use packetd.Settings.Document.{Json, object, Fields}
use packetd.Settings.{
  Failure, from_system, failed_to_save, invalid_trim_path, invalid_global_object,
  invalid_file_format, Outcome, ok, fails, panics, then_do, get_settings_from_json,
  set_settings_in_json, trim_fields,
}

-- The contents of a file: none, a JSON document, or what a copy that broke off left.
pub data Contents : Type 0 where
  missing : Contents
  document : Json → Contents
  broken : Contents

-- `readSettingsFileJSON`: the texts of the errors come from the system.
unfoldable pub read_settings_file_json : Contents → Outcome Fields
read_settings_file_json missing = fails (from_system "no such file or directory")
read_settings_file_json broken = fails (from_system "unexpected end of JSON input")
read_settings_file_json (document (object fs)) = ok fs
read_settings_file_json (document other) = fails invalid_file_format

-- `GetSettingsFile`
unfoldable pub get_settings_file : List String → Contents → Outcome Json
unfolding then_do read_settings_file_json
get_settings_file segments file =
    then_do (read_settings_file_json file) (λ fs. get_settings_from_json segments (object fs))

-- How sync-settings ends: it exits with zero, with another status, or cannot be run.
pub data SyncExit : Type 0 where
  exits_zero : SyncExit
  exits_nonzero : SyncExit
  cannot_run : String → SyncExit

-- What the system does during one `syncAndSave`; `none` is success. `synced` is what the temporary
-- file with a document reads as once the program sync-settings, which gets its name, has run.
pub record SyncRun : Type 0 where
  pub temp_file : Option String
  pub marshal_and_write : Option String
  pub sync_exit : SyncExit
  pub sync_output : String
  pub synced : Fields → Contents
  pub create : Option String
  pub copy : Option String

-- The results of `syncAndSave`, with the file that it leaves.
pub record Saved : Type 0 where
  pub output : String
  pub error : Option Failure
  pub file : Contents

-- `runSyncSettings`
unfoldable pub run_sync_settings : SyncExit → Option Failure
run_sync_settings exits_zero = none
run_sync_settings exits_nonzero = some failed_to_save
run_sync_settings (cannot_run reason) = some (from_system reason)

unfoldable pub copy_to : SyncRun → Fields → Contents → Saved
copy_to run fs file = elim run.create [
  | some reason ↦ record {
    output = run.sync_output;
    error = some (from_system reason);
    file = file;
  }
  | none ↦ elim run.copy [
    | some reason ↦ record {
      output = run.sync_output;
      error = some (from_system reason);
      file = broken;
    }
    | none ↦ record { output = run.sync_output; error = none; file = run.synced fs }
  ]
]

-- `syncAndSave`. After a failed write it logs `err.Error()` of an error that is nil, which panics.
unfoldable pub sync_and_save : SyncRun → Fields → Contents → Outcome Saved
unfolding run_sync_settings copy_to
sync_and_save run fs file = elim run.temp_file [
  | some reason ↦ ok (record {
    output = "Failed to generate tmpfile.";
    error = some (from_system reason);
    file = file;
  })
  | none ↦ elim run.marshal_and_write [
    | some reason ↦ panics
    | none ↦ elim (run_sync_settings run.sync_exit) [
      | some e ↦ ok (record { output = run.sync_output; error = some e; file = file })
      | none ↦ ok (copy_to run fs file)
    ]
  ]
]

-- What the caller of an operation gets, with the file that it leaves.
pub record Reply : Type 0 where
  pub result : Option Failure
  pub output : Option String
  pub file : Contents

-- An error before anything is saved leaves the file.
abbrev pub refused : Contents → Failure → Reply
refused file e = record { result = some e; output = none; file = file }

unfoldable pub reply_of : Saved → Reply
reply_of s = record { result = s.error; output = some s.output; file = s.file }

-- A failure of the first steps is the reply; a panic stays one.
unfoldable pub or_refuse {ℓ} :
    {A : Type ℓ} → Contents → Outcome A → (A → Outcome Reply) → Outcome Reply
or_refuse file (ok a) next = next a
or_refuse file (fails e) next = ok (refused file e)
or_refuse file panics next = panics

unfoldable pub save_reply : SyncRun → Contents → Fields → Outcome Reply
unfolding sync_and_save reply_of
save_reply run file fs = then_do (sync_and_save run fs file) (λ s. ok (reply_of s))

abbrev pub save_object : SyncRun → Contents → Json → Outcome Reply
save_object run file (object fs) = save_reply run file fs
save_object run file other = ok (refused file invalid_global_object)

-- `SetSettingsFile`
unfoldable pub set_settings_file : SyncRun → List String → Json → Contents → Outcome Reply
unfolding or_refuse save_reply
set_settings_file run segments value file =
    or_refuse file (read_settings_file_json file) (λ fs.
      or_refuse file (set_settings_in_json segments value (object fs)) (save_object run file))

-- `TrimSettingsFile`; a nil path is `none`.
unfoldable pub trim_settings_file : SyncRun → Option (List String) → Contents → Outcome Reply
unfolding or_refuse save_reply
trim_settings_file run none file = ok (refused file invalid_trim_path)
trim_settings_file run (some segments) file =
    or_refuse file (read_settings_file_json file)
      (λ fs. or_refuse file (trim_fields segments fs) (save_reply run file))

-- `GetCurrentSettings`, on current.json and settings.json.
unfoldable pub get_current_settings : List String → Contents → Contents → Outcome Json
unfolding get_settings_file
get_current_settings segments missing settings = get_settings_file segments settings
get_current_settings segments current settings = get_settings_file segments current
