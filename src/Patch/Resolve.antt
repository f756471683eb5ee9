-- ===== src/Patch/Resolve.antt =====
-- Resolve: the fields of a struct type by their names, and the operations for those that differ.
use func.Prelude.{
  ℕ, zero, suc, Bool, true, false, Option, none, some, List, [], ◌∷◌, ◌++◌, map, Result, ok, err,
  panic, ◌>>=◌, if◌then◌else◌,
}
use func.Prelude.Texts.{same_text}
use func.Cty.{Bytes}
use func.Patch.{
  ReflectValue, ReflectValues, nil_pointer, pointer, slice, struct, none_left, field,
  PatchOperation, replace, op_value, Call, slice_ops,
}

-- A reflect.Type.
mutual
  pub data ReflectType : Type 0 where
    scalar_type : ReflectType
    pointer_type : ReflectType → ReflectType
    slice_type : ReflectType
    struct_type : StructFields → ReflectType

  pub data StructFields : Type 0 where
    no_field : StructFields
    struct_field : (name : Bytes) (exported : Bool) → ReflectType → StructFields → StructFields

-- apigatewaypatch.Field
pub record Field : Type 0 where
  pub name : Bytes
  pub path : Bytes
  pub modifier : Option (List PatchOperation → List PatchOperation)

-- strings.Join(name, ".")
unfoldable pub join_names : List Bytes → Bytes
join_names [] = []
join_names (name ∷ []) = name
join_names (name ∷ names) = name ++ b'.' ∷ join_names names

-- The fields of a struct with their index in front.
abbrev pub below : ℕ → List (Bytes × List ℕ) → List (Bytes × List ℕ)
below i = map (λ entry. (entry.0, i ∷ entry.1))

unfoldable mutual
  -- The entries for a field, by its type or what this points to.
  pub field_entries : List Bytes → ℕ → ReflectType → List (Bytes × List ℕ)
  field_entries names i (struct_type fs) = below i (field_indices names 0 fs)
  field_entries names i (pointer_type t) = pointed_entries names i t
  field_entries names i scalar_type = (join_names names, i ∷ []) ∷ []
  field_entries names i slice_type = (join_names names, i ∷ []) ∷ []

  pub pointed_entries : List Bytes → ℕ → ReflectType → List (Bytes × List ℕ)
  pointed_entries names i (struct_type fs) = below i (field_indices names 0 fs)
  pointed_entries names i (pointer_type t) = (join_names names, i ∷ []) ∷ []
  pointed_entries names i scalar_type = (join_names names, i ∷ []) ∷ []
  pointed_entries names i slice_type = (join_names names, i ∷ []) ∷ []

  -- The loop of fieldIndices, from the i-th field; later entries override earlier ones.
  pub field_indices : List Bytes → ℕ → StructFields → List (Bytes × List ℕ)
  field_indices prefix i no_field = []
  field_indices prefix i (struct_field name exported t fs) =
      let rest = field_indices prefix (suc i) fs in
      let here = field_entries (prefix ++ name ∷ []) i t in if exported then here ++ rest else rest

-- indices[name]
unfoldable pub index_of : List (Bytes × List ℕ) → Bytes → Option (List ℕ)
index_of [] name = none
index_of ((n, index) ∷ entries) name = elim (index_of entries name) [
  | some later ↦ some later
  | none ↦ if same_text n name then some index else none
]

unfoldable pub nth_value : ReflectValues → ℕ → Option ReflectValue
nth_value none_left i = none
nth_value (field v vs) zero = some v
nth_value (field v vs) (suc i) = nth_value vs i

-- The loop of fieldByIndex, after the first index if `inner`; `none` is the empty value, and the fields
-- of a value that is no struct are a panic.
unfoldable pub field_from : Bool → ReflectValue → List ℕ → Call (Option ReflectValue)
field_from inner v [] = ok (some v)
field_from inner (struct s vs) (i ∷ index) = elim (nth_value vs i) [
  | none ↦ ok none
  | some v ↦ field_from true v index
]
field_from true nil_pointer (i ∷ index) = ok none
field_from true (pointer (struct s vs)) (i ∷ index) = elim (nth_value vs i) [
  | none ↦ ok none
  | some v ↦ field_from true v index
]
field_from inner v (i ∷ index) = panic

-- fieldByIndex
abbrev pub field_by_index : ReflectValue → List ℕ → Call (Option ReflectValue)
field_by_index = field_from false

unfoldable pub nth_type : StructFields → ℕ → Option ReflectType
nth_type no_field i = none
nth_type (struct_field name exported t fs) zero = some t
nth_type (struct_field name exported t fs) (suc i) = nth_type fs i

-- reflect.Type.FieldByIndex; `none` is a panic
unfoldable pub type_by_index : ReflectType → List ℕ → Option ReflectType
type_by_index t [] = some t
type_by_index (struct_type fs) (i ∷ index) = elim (nth_type fs i) [
  | none ↦ none
  | some t ↦ type_by_index t index
]
type_by_index (pointer_type (struct_type fs)) (i ∷ index) = elim (nth_type fs i) [
  | none ↦ none
  | some t ↦ type_by_index t index
]
type_by_index t (i ∷ index) = none

-- What sliceValues ranges over. A value that is not valid has no elements.
abbrev pub elements : Option ReflectValue → Call ReflectValues
elements none = ok none_left
elements (some (slice s vs)) = ok vs
elements (some v) = panic

-- Value.Elem, which panics for the empty value.
abbrev pub elem : Option ReflectValue → Call (Option ReflectValue)
elem (some nil_pointer) = ok none
elem (some (pointer v)) = ok (some v)
elem v = panic

-- The operations for a field that differs, by its type. opValue panics for the empty value.
unfoldable pub field_ops :
    ReflectType → Option ReflectValue → Option ReflectValue → Bytes → Call (List PatchOperation)
field_ops slice_type src dst path =
    elements src >>= λ prev. elements dst >>= λ next. slice_ops prev next path
field_ops (pointer_type slice_type) src dst path = elem src >>= λ src'. elem dst >>= λ dst'.
    elements src' >>= λ prev. elements dst' >>= λ next. slice_ops prev next path
field_ops t src none path = panic
field_ops t src (some v) path = ok (replace path (op_value v) ∷ [])

-- f.Modifier(fieldOps), if there is one and there are operations
abbrev pub modified : Field → List PatchOperation → List PatchOperation
modified f [] = []
modified f (op ∷ ops) = elim f.modifier [ none ↦ op ∷ ops | some m ↦ m (op ∷ ops) ]

-- The error of Resolve: the field does not exist on the struct.
pub data ResolveError : Type 0 where
  no_such_field : Bytes → ResolveError

abbrev pub lift : {A : Type 0} → Call A → Result ResolveError A
lift (ok a) = ok a
lift (err e) = absurd e
lift panic = panic

-- `deep_equal` is reflect.DeepEqual. Both versions are structs of the type.
module _ (deep_equal : ReflectValue → ReflectValue → Bool) where
  -- srcVal.IsValid() && dstVal.IsValid() && reflect.DeepEqual(…)
  abbrev pub unchanged : Option ReflectValue → Option ReflectValue → Bool
  unchanged (some v) (some u) = deep_equal v u
  unchanged v u = false

  -- The operations of one field with the index.
  unfoldable pub changes_at :
      ReflectType
      → ReflectValue
      → ReflectValue
      → Field
      → List ℕ
      → Result ResolveError (List PatchOperation)
  changes_at t prev next f index = lift (field_by_index prev index) >>= λ src.
      lift (field_by_index next index) >>= λ dst.
      if unchanged src dst then ok [] else elim (type_by_index t index) [
        | none ↦ panic
        | some u ↦ lift (field_ops u src dst f.path) >>= λ ops. ok (modified f ops)
      ]

  -- The loop of Resolve over the fields.
  unfoldable pub resolve_from :
      List (Bytes × List ℕ)
      → ReflectType
      → ReflectValue
      → ReflectValue
      → List Field
      → Result ResolveError (List PatchOperation)
  resolve_from indices t prev next [] = ok []
  resolve_from indices t prev next (f ∷ fs) = elim (index_of indices f.name) [
    | none ↦ err (no_such_field f.name)
    | some index ↦ changes_at t prev next f index >>= λ ops.
        resolve_from indices t prev next fs >>= λ rest. ok (ops ++ rest)
  ]

  -- Resolve, with its two versions given without the pointers to them.
  unfoldable pub resolve :
      StructFields
      → ReflectValue
      → ReflectValue
      → List Field
      → Result ResolveError (List PatchOperation)
  resolve fs prev next fields =
      resolve_from (field_indices [] 0 fs) (struct_type fs) prev next fields
