-- ===== src/Settings/Frames.antt =====
-- Setting or trimming a path leaves what stands under other names.
use packetd.Base.{◌≡◌, refl, sym, ap, ◌∙◌, String, false, List, [], ◌∷◌}
use packetd.Base.Keys.{string_key}
use packetd.Settings.Document.{
  Json, null, flag, number, text, array, object, Fields, get_field, set_field, delete_field,
}
use packetd.Settings.{
  Outcome, ok, then_do, get_object_index, set_object_index, descend, get_settings_from_json,
  set_settings_in_json, or_object, trim_child, trim_fields,
}
use packetd.Settings.Paths.{get-set_field, get-delete_field, then_map-ok}

same_field :
    (fs gs : Fields) (t : String) (others : List String)
    → get_field fs t ≡ get_field gs t
    → get_settings_from_json (t ∷ others) (object fs)
      ≡ get_settings_from_json (t ∷ others) (object gs)
unfolding get_settings_from_json get_object_index then_do
same_field fs gs t [] e = ap ok e
same_field fs gs t (u ∷ more) e = ap (descend t (get_settings_from_json (u ∷ more))) e

set_field_elsewhere :
    (fs : Fields) (s t : String) (v : Json)
    → string_key.same s t ≡ false
    → get_field (set_field fs s v) t ≡ get_field fs t
set_field_elsewhere fs s t v h = get-set_field fs s t v ∙ rw h refl

-- Setting a path of an object leaves every path that starts with another name.
pub set_settings_elsewhere :
    (s t : String) (rest others : List String) (v : Json) (fs : Fields) (j' : Json)
    → string_key.same s t ≡ false
    → set_settings_in_json (s ∷ rest) v (object fs) ≡ ok j'
    → get_settings_from_json (t ∷ others) j' ≡ get_settings_from_json (t ∷ others) (object fs)
unfolding set_settings_in_json set_object_index
set_settings_elsewhere s t [] others v fs j' h e =
    let q : object (set_field fs s v) ≡ j' = cc in
    rw (← q) (same_field _ fs t others (set_field_elsewhere fs s t v h))
set_settings_elsewhere s t (u ∷ more) others v fs j' h e =
    let (a, r, q) =
      then_map-ok _ (set_settings_in_json (u ∷ more) v (or_object (get_field fs s))) j' e in
    ap (get_settings_from_json (t ∷ others)) (sym q)
    ∙ same_field _ fs t others (set_field_elsewhere fs s t a h)

trim_child_elsewhere :
    (s t : String) (next : Fields → Outcome Fields) (fs : Fields) (c : Json) (fs' : Fields)
    → string_key.same s t ≡ false
    → trim_child s next fs c ≡ ok fs'
    → get_field fs' t ≡ get_field fs t
unfolding trim_child
trim_child_elsewhere s t next fs null fs' h e =
    let q : fs ≡ fs' = cc in ap (λ g. get_field g t) (sym q)
trim_child_elsewhere s t next fs (object child) fs' h e =
    let (a, r, q) = then_map-ok _ (next child) fs' e in
    ap (λ g. get_field g t) (sym q) ∙ set_field_elsewhere fs s t (object a) h
trim_child_elsewhere s t next fs (flag b) fs' h e = cc
trim_child_elsewhere s t next fs (number n) fs' h e = cc
trim_child_elsewhere s t next fs (text n) fs' h e = cc
trim_child_elsewhere s t next fs (array n items) fs' h e = cc

-- Trimming a path leaves every path that starts with another name.
pub trim_fields_elsewhere :
    (s t : String) (rest others : List String) (fs fs' : Fields)
    → string_key.same s t ≡ false
    → trim_fields (s ∷ rest) fs ≡ ok fs'
    → get_settings_from_json (t ∷ others) (object fs')
      ≡ get_settings_from_json (t ∷ others) (object fs)
unfolding trim_fields
trim_fields_elsewhere s t [] others fs fs' h e =
    let q : delete_field fs s ≡ fs' = cc in
    same_field fs' fs t others
      (ap (λ g. get_field g t) (sym q) ∙ get-delete_field fs s t ∙ rw h refl)
trim_fields_elsewhere s t (u ∷ more) others fs fs' h e =
    same_field fs' fs t others
      (trim_child_elsewhere s t (trim_fields (u ∷ more)) fs (get_field fs s) fs' h e)
