-- ===== src/TypePath.antt =====
-- ctyext/typepath.go: the type at a path of a type.
mod Typed
mod Tests
use func.Prelude.{
  String, Option, none, some, [], ◌∷◌, ◌++◌, Result, ok, err, ◌==◌, ◌>>=◌, if◌then◌else◌,
}
use func.Cty.{CtyPath, PathStep, get_attr_step, index_step}

-- A cty.Type, as far as the program tells types apart: `list_type` stands for lists and sets,
-- `other_type` for tuples and capsules.
mutual
  pub data CtyType : Type 0 where
    bool_type number_type string_type other_type : CtyType
    list_type : CtyType → CtyType
    map_type : CtyType → CtyType
    object_type : AttributeTypes → CtyType

  pub data AttributeTypes : Type 0 where
    no_attribute : AttributeTypes
    attribute : String → CtyType → AttributeTypes → AttributeTypes

-- The errors, with the path up to the step that cannot be taken.
pub data TypePathError (V : Type 0) : Type 0 where
  no_attribute_named not_nested : String → CtyPath V → TypePathError V
  not_indexed : CtyPath V → TypePathError V

-- HasAttribute and AttributeType
unfoldable pub attribute_type : AttributeTypes → String → Option CtyType
attribute_type no_attribute name = none
attribute_type (attribute n t ts) name = if n == name then some t else attribute_type ts name

module _ {V : Type 0} where
  -- One step, after the steps that have been taken.
  unfoldable pub step_type : CtyPath V → CtyType → PathStep V → Result (TypePathError V) CtyType
  step_type seen (map_type t) (get_attr_step name) = ok t
  step_type seen (object_type ts) (get_attr_step name) = elim (attribute_type ts name) [
    | some t ↦ ok t
    | none ↦ err (no_attribute_named name seen)
  ]
  step_type seen t (get_attr_step name) = err (not_nested name seen)
  step_type seen (list_type t) (index_step key) = ok t
  step_type seen (map_type t) (index_step key) = ok t
  step_type seen t (index_step key) = err (not_indexed seen)

  -- The loop of ApplyTypePath.
  unfoldable pub apply_from : CtyPath V → CtyType → CtyPath V → Result (TypePathError V) CtyType
  apply_from seen t [] = ok t
  apply_from seen t (p ∷ path) = step_type seen t p >>= λ u. apply_from (seen ++ p ∷ []) u path

  -- ApplyTypePath
  unfoldable pub apply_type_path : CtyType → CtyPath V → Result (TypePathError V) CtyType
  apply_type_path t path = apply_from [] t path
