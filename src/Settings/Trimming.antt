-- ===== src/Settings/Trimming.antt =====
-- What a trimmed path reads as.
use packetd.Base.{◌≡◌, refl, sym, ap, ◌∙◌, String, Bool, true, false, List, [], ◌∷◌}
use packetd.Base.Keys.{string_key}
use packetd.Settings.Document.{
  Json, null, flag, number, text, array, object, Fields, get_field, delete_field, is_null,
}
use packetd.Settings.{
  attribute_missing, Outcome, ok, fails, then_do, get_object_index, descend, get_settings_from_json,
  trim_child, trim_fields,
}
use packetd.Settings.Paths.{get-set_field_own, get-delete_field, then_map-ok, get_step}

-- The path has no value: it reads as null, or an attribute of it is missing.
abbrev pub is_absent : Outcome Json → Bool
is_absent (ok null) = true
is_absent (fails (attribute_missing s)) = true
is_absent other = false

missing_child :
    (fs : Fields) (s t : String) (more : List String)
    → get_field fs s ≡ null
    → is_absent (get_settings_from_json (s ∷ t ∷ more) (object fs)) ≡ true
unfolding get_settings_from_json get_object_index descend then_do
missing_child fs s t more h = rw h refl

trimmed_child :
    (s t : String) (more : List String) (fs : Fields) (c : Json) (fs' : Fields)
    → ((g g' : Fields)
        → trim_fields (t ∷ more) g ≡ ok g'
        → is_absent (get_settings_from_json (t ∷ more) (object g')) ≡ true)
    → get_field fs s ≡ c
    → trim_child s (trim_fields (t ∷ more)) fs c ≡ ok fs'
    → is_absent (get_settings_from_json (s ∷ t ∷ more) (object fs')) ≡ true
unfolding trim_child
trimmed_child s t more fs null fs' deeper q e =
    let same : fs ≡ fs' = cc in missing_child fs' s t more (ap (λ g. get_field g s) (sym same) ∙ q)
trimmed_child s t more fs (object child) fs' deeper q e =
    let (a, r, p) = then_map-ok _ (trim_fields (t ∷ more) child) fs' e in
    let own = ap (λ g. get_field g s) (sym p) ∙ get-set_field_own fs s (object a) in
    ap is_absent
      (get_step fs' s t more (ap is_null own) ∙ ap (get_settings_from_json (t ∷ more)) own)
    ∙ deeper child a r
trimmed_child s t more fs (flag b) fs' deeper q e = cc
trimmed_child s t more fs (number n) fs' deeper q e = cc
trimmed_child s t more fs (text n) fs' deeper q e = cc
trimmed_child s t more fs (array n items) fs' deeper q e = cc

-- Once a path was trimmed, reading it finds no value: it reads as null, or one of its attributes is
-- missing.
pub trim_then_get :
    (s : String) (rest : List String) (fs fs' : Fields)
    → trim_fields (s ∷ rest) fs ≡ ok fs'
    → is_absent (get_settings_from_json (s ∷ rest) (object fs')) ≡ true
unfolding trim_fields get_settings_from_json get_object_index
trim_then_get s [] fs fs' e =
    let q : delete_field fs s ≡ fs' = cc in
    let gone : get_field (delete_field fs s) s ≡ null =
      get-delete_field fs s s ∙ rw ((string_key.same_iff s s).1 refl) refl in
    ap (λ g. is_absent (ok (get_field g s))) (sym q) ∙ ap (λ c. is_absent (ok c)) gone
trim_then_get s (t ∷ more) fs fs' e =
    trimmed_child s t more fs (get_field fs s) fs' (trim_then_get t more) refl e
