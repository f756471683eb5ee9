-- ===== src/Patch/Tests.antt =====
-- The patch operations of two small slices, and a struct of one field.
use func.Prelude.{◌≡◌, refl, true, none, ◌&&◌, not, List, [], ◌∷◌, ok}
use func.Cty.{Bytes}
use func.Patch.{
  ReflectValue, ReflectValues, none_left, field, text, struct, PatchOperation, remove, add,
  slice_values, slice_ops, sorted_ops, loop_ops, index_ops, contains, sort, insert, at_most,
  op_value, jsonpath, replace_byte,
}
use func.Patch.Resolve.{
  StructFields, no_field, struct_field, scalar_type, Field, index_of, field_indices, join_names,
  nth_value, field_from, resolve, resolve_from, changes_at,
}
use func.Patch.Slices.{removes, adds}
use func.Patch.Exact.{slice_ops-differences}
use func.Patch.Escape.{unescape, unescape-jsonpath}

abbrev before : ReflectValues
before = field (text (b'b' ∷ [])) (field (text (b'a' ∷ [])) none_left)

abbrev after : ReflectValues
after = field (text (b'c' ∷ [])) (field (text (b'b' ∷ [])) none_left)

abbrev changes : List PatchOperation
changes = remove (b'p' ∷ b'/' ∷ b'a' ∷ []) ∷ add (b'p' ∷ b'/' ∷ b'c' ∷ []) ∷ []

differences : slice_ops before after (b'p' ∷ []) ≡ ok changes
unfolding slice_ops slice_values sorted_ops loop_ops index_ops contains sort insert at_most op_value
    jsonpath replace_byte
differences = refl

slice_ops-differences_example :
    (prev : List Bytes) × (next : List Bytes) × (slice_values before (b'p' ∷ []) ≡ ok prev)
    × (slice_values after (b'p' ∷ []) ≡ ok next)
    × ((x : Bytes)
        → (removes x changes ≡ (contains x prev && not (contains x next)))
          × (adds x changes ≡ (contains x next && not (contains x prev))))
slice_ops-differences_example = slice_ops-differences before after (b'p' ∷ []) changes differences

unescape-jsonpath_example : unescape (jsonpath (b'a' ∷ b'/' ∷ b'~' ∷ [])) ≡ b'a' ∷ b'/' ∷ b'~' ∷ []
unescape-jsonpath_example = unescape-jsonpath (b'a' ∷ b'/' ∷ b'~' ∷ [])

abbrev stage : StructFields
stage = struct_field (b'N' ∷ []) true scalar_type no_field

abbrev version : ReflectValue
version = struct [] (field (text (b'x' ∷ [])) none_left)

abbrev name_field : Field
name_field = record { name = b'N' ∷ []; path = b'/' ∷ b'n' ∷ []; modifier = none }

unchanged-version : resolve (λ v u. true) stage version version (name_field ∷ []) ≡ ok []
unfolding resolve resolve_from changes_at field_from nth_value index_of field_indices join_names
unchanged-version = refl
