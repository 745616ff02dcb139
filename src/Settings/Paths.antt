-- ===== src/Settings/Paths.antt =====
-- A value that was set is the one that is read.
use packetd.Base.{
  ℕ, zero, suc, ◌+◌, ◌<◌, ◌≡◌, refl, sym, ap, ◌∙◌, String, false, some, List, [], ◌∷◌,
  if◌then◌else◌, leb, arith, Option-cases, Bool-cases, inl, inr,
}
use packetd.Base.Integer.{ℤ, pos, negsuc}
use packetd.Base.Keys.{string_key}
use packetd.Base.Text.{atoi, codes}
use packetd.Settings.Document.{
  Json, null, flag, number, text, array, object, Items, nil, item, Fields, end, field, count,
  get_item, set_item, get_field, set_field, delete_field, is_null,
}
use packetd.Settings.{
  Outcome, ok, fails, panics, then_do, then_map, element_at, element_set, get_array_index,
  set_array_index, get_object_index, set_object_index, descend, get_settings_from_json,
  set_settings_in_json, as_fields, or_object,
}

pub get-delete_field :
    (fs : Fields) (k j : String)
    → get_field (delete_field fs k) j ≡ (if string_key.same k j then null else get_field fs j)
unfolding get_field delete_field
get-delete_field end k j = ground arith
get-delete_field (field i v fs) k j = ground (
  arith,
  get-delete_field fs k j,
  string_key.same_iff i k,
  string_key.same_iff i j,
  string_key.same_iff k j,
)

pub get-set_field :
    (fs : Fields) (k j : String) (v : Json)
    → get_field (set_field fs k v) j ≡ (if string_key.same k j then v else get_field fs j)
unfolding get_field set_field
get-set_field fs k j v = ground (arith, get-delete_field fs k j)

pub get-set_field_own : (fs : Fields) (k : String) (v : Json) → get_field (set_field fs k v) k ≡ v
get-set_field_own fs k v = get-set_field fs k k v ∙ rw ((string_key.same_iff k k).1 refl)

get-set_item :
    (items : Items) (i : ℕ) (v : Json)
    → i < count items
    → (get_item (set_item items i v) i ≡ some v) × (count (set_item items i v) ≡ count items)
unfolding get_item set_item
get-set_item nil i v h = absurd (omega arith)
get-set_item (item w items) zero v h = (refl, refl)
get-set_item (item w items) (suc i) v h =
    let rest = get-set_item items i v (omega arith) in (rest.0, ap suc rest.1)

-- What an outcome that is a result came from.
pub then_map-ok {ℓ κ} :
    {A : Type ℓ} {B : Type κ} (f : A → B) (o : Outcome A) (b : B)
    → then_map f o ≡ ok b
    → (a : A) × (o ≡ ok a) × (f a ≡ b)
unfolding then_map
then_map-ok f (ok a) b h = (a, refl, cc)
then_map-ok f (fails e) b h = cc
then_map-ok f panics b h = cc

element_set-at :
    (spare : ℕ) (items : Items) (v : Json) (i : ℤ) (j : Json)
    → element_set spare items v i ≡ ok j
    → (items' : Items) × (j ≡ array spare items') × (element_at spare items' i ≡ ok v)
unfolding element_set element_at
element_set-at spare items v (negsuc i) j h = cc
element_set-at spare items v (pos i) j h = elim (Bool-cases (leb (count items + spare) i)) [
  | inl t ↦ let refused : fails _ ≡ ok j = rw t at h in cc
  | inr f ↦ elim (Bool-cases (leb (count items) i)) [
    | inl t ↦ let refused : panics ≡ ok j = rw (f, t) at h in cc
    | inr g ↦
        let set : ok (array spare (set_item items i v)) ≡ ok j = rw (f, g) at h in
        let own = get-set_item items i v (ground arith) in
        (set_item items i v, cc, rw (own.1, f, own.0) refl)
  ]
]

set_array_index-at :
    (spare : ℕ) (items : Items) (s : String) (v : Json) (j : Json)
    → set_array_index spare items s v ≡ ok j
    → (items' : Items) × (j ≡ array spare items') × (get_array_index spare items' s ≡ ok v)
unfolding set_array_index get_array_index
set_array_index-at spare items s v j h = elim (Option-cases (atoi (codes s))) [
  | inl e ↦ let refused : fails _ ≡ ok j = rw (e, set_array_index) at h in cc
  | inr (i, e) ↦
      let set : element_set spare items v i ≡ ok j = rw (e, set_array_index) at h in
      let (items', same, own) = element_set-at spare items v i j set in
      (items', same, rw (e, get_array_index) own)
]

set_object_index_own :
    (j : Json) (s : String) (v j' : Json)
    → set_object_index j s v ≡ ok j'
    → (get_object_index j' s ≡ ok v) × (is_null j' ≡ false)
unfolding set_object_index get_object_index
set_object_index_own (object fs) s v j' h =
    let e : object (set_field fs s v) ≡ j' = cc in rw (← e) (ap ok (get-set_field_own fs s v), refl)
set_object_index_own (array spare items) s v j' h =
    let (items', same, own) = set_array_index-at spare items s v j' h in rw same (own, refl)
set_object_index_own null s v j' h = cc
set_object_index_own (flag b) s v j' h = cc
set_object_index_own (number n) s v j' h = cc
set_object_index_own (text n) s v j' h = cc

set-not_null :
    (s : String) (rest : List String) (v j j' : Json)
    → set_settings_in_json (s ∷ rest) v j ≡ ok j'
    → is_null j' ≡ false
unfolding set_settings_in_json
set-not_null s [] v j j' h = (set_object_index_own j s v j' h).1
set-not_null s (t ∷ more) v j j' h =
    let (a, e, q) = then_map-ok _ (set_settings_in_json (t ∷ more) v _) j' h in ap is_null (sym q)

-- One step of a path, to a child that is there.
pub get_step :
    (fs : Fields) (s t : String) (more : List String)
    → is_null (get_field fs s) ≡ false
    → get_settings_from_json (s ∷ t ∷ more) (object fs)
      ≡ get_settings_from_json (t ∷ more) (get_field fs s)
unfolding get_settings_from_json get_object_index descend then_do
get_step fs s t more h = rw h refl

-- Whatever setSettingsInJSON makes, getSettingsFromJSON reads the value back from it on the same
-- path.
pub get-set_settings :
    (segments : List String) (v j j' : Json)
    → set_settings_in_json segments v j ≡ ok j'
    → get_settings_from_json segments j' ≡ ok v
unfolding set_settings_in_json get_settings_from_json
get-set_settings [] v j j' h = sym h
get-set_settings (s ∷ []) v j j' h = (set_object_index_own j s v j' h).0
get-set_settings (s ∷ t ∷ more) v j j' h =
    let (a, e, q) =
      then_map-ok _ (set_settings_in_json (t ∷ more) v (or_object (get_field (as_fields j) s))) j'
        h in
    let own = get-set_field_own (as_fields j) s a in
    let solid = ap is_null own ∙ set-not_null t more v _ a e in
    ap (get_settings_from_json (s ∷ t ∷ more)) (sym q)
    ∙ get_step (set_field (as_fields j) s a) s t more solid
    ∙ ap (get_settings_from_json (t ∷ more)) own
    ∙ get-set_settings (t ∷ more) v _ a e
