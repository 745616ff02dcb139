-- ===== src/Dispatch/Attachments/Agreement.antt =====
-- A session and its entries in the dictionary say the same about a field.
use packetd.Base.{some, ℕ, ◌≡◌, refl, String, true, false, arith, ==_iff}
use packetd.Base.Keys.{string_key}
use packetd.Base.Table.{get, put, get-put}
use packetd.Base.Heap.{cell-modify}
use packetd.Dispatch.State.{text, World, Value}
use packetd.Dispatch.Session.{put_attachment, get_conntrack_id}
use packetd.Dispatch.SessionTable.{dict_add}
use packetd.Dispatch.Attachments.{attach, is_written, entry_value}

pub record Agrees (w : World) (sess ctid : ℕ) (field : String) : Type 0 where
  pub same_value : entry_value w.dict ctid field ≡ get (w.sessions.cell sess).attachments field

pub attachments-attach :
    (w : World) (sess : ℕ) (name : String) (value : Value)
    → ((attach w sess name value).sessions.cell sess).attachments
      ≡ put (w.sessions.cell sess).attachments name value
unfolding attach put_attachment
attachments-attach w sess name value =
    rw
      (
        cell-modify w.sessions sess sess (λ s. put_attachment s name value),
        (==_iff sess sess).1 refl,
      )
      refl

-- An attachment of another field changes nothing for this one.
pub attach-Agrees :
    (w : World) (sess ctid : ℕ) (name field : String) (value : Value)
    → string_key.same name field ≡ false
    → Agrees w sess ctid field
    → Agrees (attach w sess name value) sess ctid field
unfolding attach
attach-Agrees w sess ctid name field value d h = record {
  same_value = ground (
    arith,
    h.same_value,
    attachments-attach w sess name value,
    get-put (w.sessions.cell sess).attachments name field value,
  );
}

-- A value that is written to both keeps every field in agreement.
pub both-Agrees :
    (w : World) (sess ctid : ℕ) (name field : String) (value : Value)
    → is_written value ≡ true
    → Agrees w sess ctid field
    → Agrees (attach (dict_add w ctid name value) sess name value) sess ctid field
unfolding attach entry_value
both-Agrees w sess ctid name field value t h = record {
  same_value = ground (
    arith,
    h.same_value,
    ==_iff ctid ctid,
    attachments-attach w sess name value,
    get-put (w.sessions.cell sess).attachments name field value,
  );
}

pub conntrack_id-attach :
    (w : World) (sess : ℕ) (name : String) (value : Value)
    → get_conntrack_id ((attach w sess name value).sessions.cell sess)
      ≡ get_conntrack_id (w.sessions.cell sess)
unfolding attach put_attachment get_conntrack_id
conntrack_id-attach w sess name value =
    ground
      (arith, cell-modify w.sessions sess sess (λ s. put_attachment s name value), ==_iff sess sess)

-- The session has the text attached, and the dictionary holds it under the session's conntrack id.
pub record IsNamed (w : World) (sess : ℕ) (keyname : String) (names : String) : Type 0 where
  pub attached : get (w.sessions.cell sess).attachments keyname ≡ some (text names)
  pub in_dict :
      entry_value w.dict (get_conntrack_id (w.sessions.cell sess)) keyname ≡ some (text names)

-- A text that is written to both is known by both.
pub both-IsNamed :
    (w : World) (sess : ℕ) (name : String) (t : String)
    → is_written (text t) ≡ true
    → IsNamed
        (attach
          (dict_add w (get_conntrack_id (w.sessions.cell sess)) name (text t))
          sess
          name
          (text t))
        sess
        name
        t
unfolding attach entry_value
both-IsNamed w sess name t h =
    let ctid = get_conntrack_id (w.sessions.cell sess) in
    record {
      attached = ground (
        arith,
        attachments-attach w sess name (text t),
        get-put (w.sessions.cell sess).attachments name name (text t),
        string_key.same_iff name name,
      );
      in_dict = ground (
        arith,
        h,
        conntrack_id-attach w sess name (text t),
        ==_iff ctid ctid,
        string_key.same_iff name name,
      );
    }

-- What is attached under another name changes nothing.
pub attach-IsNamed :
    (w : World) (sess : ℕ) (name other : String) (t : String) (value : Value)
    → string_key.same other name ≡ false
    → IsNamed w sess name t
    → IsNamed (attach w sess other value) sess name t
unfolding attach
attach-IsNamed w sess name other t value d h = record {
  attached = ground (
    arith,
    h.attached,
    attachments-attach w sess other value,
    get-put (w.sessions.cell sess).attachments other name value,
  );
  in_dict = ground (arith, h.in_dict, conntrack_id-attach w sess other value);
}

-- Nor does what is also written to the dictionary.
pub other-IsNamed :
    (w : World) (sess ctid : ℕ) (name other : String) (t : String) (value : Value)
    → string_key.same other name ≡ false
    → IsNamed w sess name t
    → IsNamed (attach (dict_add w ctid other value) sess other value) sess name t
unfolding attach entry_value
other-IsNamed w sess ctid name other t value d h = record {
  attached = ground (
    arith,
    h.attached,
    attachments-attach w sess other value,
    get-put (w.sessions.cell sess).attachments other name value,
  );
  in_dict = ground (arith, h.in_dict, conntrack_id-attach w sess other value);
}
