-- ===== src/TypePath/Typed.antt =====
-- ctyext/typepath.go: which paths a type has, and where the others fail.
use func.Prelude.{String, ◌≡◌, ◌≢◌, ◌⊎◌, Option, none, some, [], ◌∷◌, ◌++◌, Result, ok, err, panic}
use func.Cty.{CtyPath, PathStep, get_attr_step, index_step}
use func.TypePath.{
  CtyType, list_type, map_type, object_type, AttributeTypes, no_attribute, attribute, TypePathError,
  no_attribute_named, not_nested, not_indexed,
}

-- The first attribute of the name has the type.
abbrev HasAttribute : AttributeTypes → String → CtyType → Type 0
HasAttribute no_attribute name t = ⊥
HasAttribute (attribute n u ts) name t =
    ((n ≡ name) × (u ≡ t)) ⊎ ((n ≢ name) × HasAttribute ts name t)

-- The type that a name has, or that it has none.
abbrev Finds : AttributeTypes → String → Option CtyType → Type 0
Finds ts name (some t) = HasAttribute ts name t
Finds ts name none = (v : CtyType) → ¬ HasAttribute ts name v

module _ {V : Type 0} where
  -- A step into a map, an attribute of an object, or an index of a list or a map.
  pub data HasStep : CtyType → PathStep V → CtyType → Type 0 where
    into_map : {t : CtyType} {name : String} → HasStep (map_type t) (get_attr_step name) t
    into_object :
        {ts : AttributeTypes} {name : String} {t : CtyType}
        → HasAttribute ts name t
        → HasStep (object_type ts) (get_attr_step name) t
    list_index : {t : CtyType} {key : V} → HasStep (list_type t) (index_step key) t
    map_index : {t : CtyType} {key : V} → HasStep (map_type t) (index_step key) t

  -- The type has the path, which leads to a type.
  pub data HasPath : CtyType → CtyPath V → CtyType → Type 0 where
    at_end : {t : CtyType} → HasPath t [] t
    behind :
        {t u v : CtyType} {p : PathStep V} {path : CtyPath V}
        → HasStep t p u
        → HasPath u path v
        → HasPath t (p ∷ path) v

-- What an error says of the type that it was found at, of the steps before, and of the step itself.
module _ {V : Type 0} where
  abbrev pub Reports : TypePathError V → CtyType → CtyPath V → PathStep V → Type 0
  Reports (no_attribute_named name seen) u taken p =
      (seen ≡ taken) × (p ≡ get_attr_step name) × (ts : AttributeTypes) × (u ≡ object_type ts)
  Reports (not_nested name seen) u taken p =
      (seen ≡ taken) × (p ≡ get_attr_step name) × ((ts : AttributeTypes) → u ≢ object_type ts)
  Reports (not_indexed seen) u taken p = (seen ≡ taken) × (key : V) × (p ≡ index_step key)

  -- The type at the path, or the error of the first step that the type has not, behind steps `seen`.
  pub data Outcome (seen : CtyPath V) (t : CtyType) (path : CtyPath V)
      : Result (TypePathError V) CtyType → Type 0 where
    typed : {u : CtyType} → HasPath t path u → Outcome seen t path (ok u)
    failed :
        (taken rest : CtyPath V) (p : PathStep V) (u : CtyType) {e : TypePathError V}
        → path ≡ taken ++ p ∷ rest
        → HasPath t taken u
        → ((v : CtyType) → ¬ HasStep u p v)
        → Reports e u (seen ++ taken) p
        → Outcome seen t path (err e)

  abbrev Steps : CtyPath V → CtyType → PathStep V → Result (TypePathError V) CtyType → Type 0
  Steps seen t p (ok u) = HasStep t p u
  Steps seen t p (err e) = ((v : CtyType) → ¬ HasStep t p v) × Reports e t seen p
  Steps seen t p panic = ⊥
