-- ===== src/TypePath/Tests.antt =====
-- The type at a path in an object type.
use func.Prelude.{◌≡◌, refl, [], ◌∷◌, ok, err}
use func.Cty.{get_attr_step, index_step}
use func.TypePath.{
  CtyType, other_type, list_type, object_type, no_attribute, attribute, no_attribute_named,
  attribute_type, step_type, apply_from, apply_type_path,
}
use func.Samples.{Value, text}

-- { tags = list(string) }
abbrev tagged : CtyType
tagged = object_type (attribute "tags" (list_type other_type) no_attribute)

tag : apply_type_path tagged (get_attr_step "tags" ∷ index_step (text []) ∷ []) ≡ ok other_type
unfolding apply_type_path apply_from step_type attribute_type
tag = refl

missing :
    apply_type_path {V = Value} tagged (get_attr_step "name" ∷ [])
    ≡ err (no_attribute_named "name" [])
unfolding apply_type_path apply_from step_type attribute_type
missing = refl
