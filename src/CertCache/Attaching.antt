-- ===== src/CertCache/Attaching.antt =====
-- What a session and the dictionary say of a certificate.
use Prim.Native.Char.{code}
use packetd.Base.{
  ℕ, ◌≡◌, refl, String, Bool, true, false, not, ◌&&◌, List, [], ◌∷◌, ◌==◌, Bool-cases, inl, inr,
  All,
}
use packetd.Base.Text.{join, is_empty_text}
use packetd.Base.Keys.{string_key}
use packetd.Dispatch.State.{
  World, Value, nil, text, number, flag, DictCall, add_session_entry, delete_session,
}
use packetd.Dispatch.Session.{get_conntrack_id}
use packetd.Dispatch.SessionTable.{dict_add}
use packetd.Dispatch.Attachments.{attach, is_written}
use packetd.Dispatch.Attachments.Agreement.{Agrees, attach-Agrees, both-Agrees}
use packetd.CertCache.{
  Certificate, replace_commas, set_session_entry, set_session_list, Part, one, several, set_part,
  set_parts, certificate_parts, attach_certificate_to_session,
}

-- A property of the world that every entry with a value keeps.
record IsKept {ℓ} (P : World → Type ℓ) (sess ctid : ℕ) : Type ℓ where
  by_entry :
      (w : World) (field value : String)
      → is_empty_text value ≡ false
      → P w
      → P (
          attach
            (dict_add w ctid field (text (replace_commas value)))
            sess
            field
            (text (replace_commas value)))

module _ {ℓ} (P : World → Type ℓ) (sess ctid : ℕ) (k : IsKept P sess ctid) where
  set_session_entry-kept :
      (w : World) (field value : String) → P w → P (set_session_entry w sess field value ctid)
  unfolding set_session_entry
  set_session_entry-kept w field value h = elim (Bool-cases (is_empty_text value)) [
    | inl e ↦ rw e h
    | inr e ↦ rw e (k.by_entry w field value e h)
  ]

  set_session_list-kept :
      (w : World) (field : String) (values : List String)
      → P w
      → P (set_session_list w sess field values ctid)
  unfolding set_session_list
  set_session_list-kept w field [] h = h
  set_session_list-kept w field (v ∷ values) h =
      elim (Bool-cases (is_empty_text (join (v ∷ values)))) [
        | inl e ↦ rw e h
        | inr e ↦ rw e (k.by_entry w field (join (v ∷ values)) e h)
      ]

  set_parts-kept :
      (w : World) (parts : List (String × Part)) → P w → P (set_parts w sess ctid parts)
  unfolding set_parts set_part
  set_parts-kept w [] h = h
  set_parts-kept w ((field, one value) ∷ parts) h =
      set_parts-kept (set_session_entry w sess field value ctid) parts
        (set_session_entry-kept w field value h)
  set_parts-kept w ((field, several values) ∷ parts) h =
      set_parts-kept (set_session_list w sess field values ctid) parts
        (set_session_list-kept w field values h)

written :
    (value : String) → is_empty_text value ≡ false → is_written (text (replace_commas value)) ≡ true
unfolding is_written replace_commas
written String.[] e = cc
written (String.◌∷◌ c s) e = refl

Agrees-IsKept : (sess ctid : ℕ) (field : String) → IsKept (λ w. Agrees w sess ctid field) sess ctid
Agrees-IsKept sess ctid field = record {
  by_entry = λ w name value e h.
      both-Agrees w sess ctid name field (text (replace_commas value)) (written value e) h;
}

-- AttachCertificateToSession keeps every field but "certificate" in agreement: where the dictionary
-- held under the session's conntrack id what the session had attached, it does so afterwards.
pub attach_certificate-Agrees :
    (w : World) (sess : ℕ) (boxed : Value) (c : Certificate) (field : String)
    → string_key.same "certificate" field ≡ false
    → Agrees w sess (get_conntrack_id (w.sessions.cell sess)) field
    → Agrees
        (attach_certificate_to_session w sess boxed c)
        sess
        (get_conntrack_id (w.sessions.cell sess))
        field
unfolding attach_certificate_to_session
attach_certificate-Agrees w sess boxed c field d h =
    let ctid = get_conntrack_id (w.sessions.cell sess) in
    set_parts-kept (λ v. Agrees v sess ctid field) sess ctid (Agrees-IsKept sess ctid field)
      (attach w sess "certificate" boxed) (certificate_parts c)
      (attach-Agrees w sess ctid "certificate" field boxed d h)

-- The text has no comma, which separates the tokens of a line for the dictionary.
pub no_comma : String → Bool
no_comma String.[] = true
no_comma (String.◌∷◌ c s) = not (code c == b',') && no_comma s

abbrev pub is_clean : DictCall → Bool
is_clean (add_session_entry c field (text s)) = no_comma s
is_clean (add_session_entry c field nil) = true
is_clean (add_session_entry c field (number n)) = true
is_clean (add_session_entry c field (flag b)) = true
is_clean (delete_session c) = true

pub record IsClean (calls : List DictCall) : Type 0 where
  pub clean : All (λ call. is_clean call ≡ true) calls

no_comma-replace_commas : (s : String) → no_comma (replace_commas s) ≡ true
unfolding no_comma replace_commas
no_comma-replace_commas String.[] = refl
no_comma-replace_commas (String.◌∷◌ c s) = elim (Bool-cases (code c == b',')) [
  | inl e ↦ rw (e, no_comma-replace_commas s) refl
  | inr e ↦ rw (e, e, no_comma-replace_commas s) refl
]

IsClean-IsKept : (sess ctid : ℕ) → IsKept (λ w. IsClean w.dict) sess ctid
unfolding attach
IsClean-IsKept sess ctid = record {
  by_entry = λ w field value e h. record { clean = (no_comma-replace_commas value, h.clean) };
}

-- Whatever the certificate holds, AttachCertificateToSession writes no text with a comma to the
-- dictionary: if no call before had one, none has afterwards.
pub attach_certificate-IsClean :
    (w : World) (sess : ℕ) (boxed : Value) (c : Certificate)
    → IsClean w.dict
    → IsClean (attach_certificate_to_session w sess boxed c).dict
unfolding attach_certificate_to_session attach
attach_certificate-IsClean w sess boxed c h =
    let ctid = get_conntrack_id (w.sessions.cell sess) in
    set_parts-kept (λ v. IsClean v.dict) sess ctid (IsClean-IsKept sess ctid)
      (attach w sess "certificate" boxed) (certificate_parts c) h
