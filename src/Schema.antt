-- ===== src/Schema.antt =====
-- resource/schema.go and resource/ctytype.go: the fields of a resource definition and their types.
use func.Prelude.{
  ℕ, suc, String, Bool, true, false, Option, none, some, List, [], ◌∷◌, map, ◌==◌, Result, ok,
  panic, ◌>>=◌, if◌then◌else◌,
}
use func.Prelude.Maps.{put_entry}
use func.TypePath.{
  CtyType, bool_type, number_type, string_type, list_type, map_type, object_type, AttributeTypes,
  no_attribute, attribute,
}

-- What a struct type says of a field apart from its type: the name that FieldName derives from the
-- Go name, whether it is exported, and the struct tags as parseTag reads them.
pub record FieldInfo : Type 0 where
  pub derived_name : String
  pub is_exported : Bool
  pub tags : List (String × String)

-- A reflect.Type by its kind: the integers and floating point numbers are one kind, `array` stands for
-- slices and arrays where they are treated alike, and `unsupported` for functions, channels and the like.
mutual
  pub data GoType : Type 0 where
    bool number string interface unsupported : GoType
    pointer slice array map_of : GoType → GoType
    struct : StructFields → GoType

  pub data StructFields : Type 0 where
    no_fields : StructFields
    next_field : FieldInfo → GoType → StructFields → StructFields

-- resource.Field
pub record Field : Type 0 where
  pub index : ℕ
  pub type_of_field : GoType
  pub tags : List (String × String)
  pub functag : String

-- resource.FieldSet: a map from names to fields.
abbrev pub FieldSet : Type 0
FieldSet = List (String × Field)

-- The lookup `m[key]` of a map, with the empty text for a missing key.
unfoldable pub tag_of : List (String × String) → String → String
tag_of [] key = ""
tag_of ((k, v) ∷ tags) key = if k == key then v else tag_of tags key

-- delete(m, key)
unfoldable pub delete_tag : List (String × String) → String → List (String × String)
delete_tag [] key = []
delete_tag ((k, v) ∷ tags) key =
    let rest = delete_tag tags key in if k == key then rest else (k, v) ∷ rest

unfoldable pub has_tag : List (String × String) → String → Bool
has_tag [] key = false
has_tag ((k, v) ∷ tags) key = if k == key then true else has_tag tags key

-- The name of a field: that of the tag, where there is one.
unfoldable pub field_name : FieldInfo → String
field_name info = if has_tag info.tags "name" then tag_of info.tags "name" else info.derived_name

-- The loop of Fields, from the i-th field on.
unfoldable pub fields_from : ℕ → StructFields → FieldSet → FieldSet
fields_from i no_fields out = out
fields_from i (next_field info t rest) out = fields_from (suc i) rest (
    if info.is_exported
    then put_entry out (field_name info) (record {
      index = i;
      type_of_field = t;
      tags = delete_tag (delete_tag info.tags "name") "func";
      functag = tag_of (delete_tag info.tags "name") "func";
    })
    else out)

-- t.Elem() for a pointer
unfoldable pub below_pointer : GoType → GoType
below_pointer (pointer t) = t
below_pointer t = t

-- All the pointers of a type removed: `for t.Kind() == reflect.Ptr { t = t.Elem() }`.
unfoldable pub below_pointers : GoType → GoType
below_pointers (pointer t) = below_pointers t
below_pointers t = t

unfoldable pub struct_fields : {E : Type 0} → GoType → Result E FieldSet
struct_fields (struct fs) = ok (fields_from 0 fs [])
struct_fields t = panic

-- Fields
unfoldable pub fields : {E : Type 0} → GoType → Result E FieldSet
fields t = struct_fields (below_pointer t)

-- The fields with a tag `func` of the given value.
unfoldable pub with_functag : String → FieldSet → FieldSet
with_functag tag [] = []
with_functag tag ((n, f) ∷ fs) =
    let rest = with_functag tag fs in if f.functag == tag then (n, f) ∷ rest else rest

-- FieldSet.Inputs
abbrev pub inputs : FieldSet → FieldSet
inputs = with_functag "input"

-- FieldSet.Outputs
abbrev pub outputs : FieldSet → FieldSet
outputs = with_functag "output"

unfoldable pub is_interface : GoType → Bool
is_interface interface = true
is_interface t = false

-- The map that FieldSet.CtyType builds, from the type of each field; `none` for a field that it skips.
unfoldable pub sequence_types :
    {E : Type 0} → List (String × Option (Result E CtyType)) → Result E AttributeTypes
sequence_types [] = ok no_attribute
sequence_types ((name, none) ∷ entries) = sequence_types entries
sequence_types ((name, some typed) ∷ entries) =
    typed >>= λ t. sequence_types entries >>= λ ts. ok (attribute name t ts)

unfoldable mutual
  -- CtyType
  pub cty_type : {E : Type 0} → GoType → Result E CtyType
  cty_type bool = ok bool_type
  cty_type number = ok number_type
  cty_type string = ok string_type
  cty_type (pointer t) = cty_type t
  cty_type (slice t) = cty_type t >>= λ u. ok (list_type u)
  cty_type (array t) = cty_type t >>= λ u. ok (list_type u)
  cty_type (map_of t) = cty_type t >>= λ u. ok (map_type u)
  cty_type (struct fs) = sequence_types (struct_types fs []) >>= λ ts. ok (object_type ts)
  cty_type interface = panic
  cty_type unsupported = panic

  -- The types of the fields that Fields extracts from a struct.
  pub struct_types :
      {E : Type 0}
      → StructFields
      → List (String × Option (Result E CtyType))
      → List (String × Option (Result E CtyType))
  struct_types no_fields entries = entries
  struct_types (next_field info t rest) entries =
      let typed = cty_type t in
      struct_types rest (
        if info.is_exported
        then put_entry entries (field_name info) (if is_interface t then none else some typed)
        else entries)

-- FieldSet.CtyType, of which the attributes are used.
unfoldable pub attribute_types : {E : Type 0} → FieldSet → Result E AttributeTypes
attribute_types fs = sequence_types (
    map
      (λ (n, f).
        (n, if is_interface f.type_of_field then none else some (cty_type f.type_of_field)))
      fs)
