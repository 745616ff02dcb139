-- ===== src/Dispatch/Session/Fields.antt =====
-- Attachments behave as a map from names to values, with nil for a name that is not there.
use packetd.Base.{◌≡◌, String, true, false, if◌then◌else◌, arith}
use packetd.Base.Keys.{string_key}
use packetd.Base.Table.{get-put, get-remove}
use packetd.Dispatch.State.{Session, Value, nil}
use packetd.Dispatch.Session.{put_attachment, get_attachment, delete_attachment, is_nil}

-- PutAttachment makes GetAttachment return the value for its name and leaves every other name,
-- DeleteAttachment makes its name read as nil and leaves every other name, and DeleteAttachment
-- returns false exactly for a name that read as nil.
pub attachment_laws :
    (s : Session) (name other : String) (value : Value)
    → (get_attachment (put_attachment s name value) other
        ≡ (if string_key.same name other then value else get_attachment s other))
      × (get_attachment (delete_attachment s name).0 other
          ≡ (if string_key.same name other then nil else get_attachment s other))
      × ((delete_attachment s name).1 ≡ (if is_nil (get_attachment s name) then false else true))
unfolding put_attachment get_attachment delete_attachment
attachment_laws s name other value =
    ground (arith, get-put s.attachments name other value, get-remove s.attachments name other)
