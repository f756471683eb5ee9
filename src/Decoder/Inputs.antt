-- ===== src/Decoder/Inputs.antt =====
-- resource/hcldecoder/decoder.go, decodeInputs: the inputs of a resource from its body.
pub mod Entries
pub mod SetAttributes
pub mod SetBlocks
pub mod Complete
use func.Prelude.{
  ℕ, suc, String, Bool, true, false, Option, none, some, List, [], ◌∷◌, ◌++◌, ◌==◌, ◌||◌, ◌&&◌,
  Result, ok, panic, ◌>>=◌, if◌then◌else◌,
}
use func.TypePath.{CtyType, list_type, map_type}
use func.Schema.{Field, FieldSet, GoType, pointer, slice, struct, map_of, fields, cty_type}
use func.Decoder.{
  Value, static, reference, object, Attributes, no_attributes, attribute_of, Elements, no_elements,
  next_element, unsuitable_type, is_converted, duplicate_block, missing_block, Diagnostics, Cell,
  Store, write, Library, list_val, validate,
}
use func.Decoder.Expr.{HclExpression, HclLibrary, must_convert}

-- An hcl.Body: its attributes, and its blocks with their types.
mutual
  pub data Body (S : Type 0) : Type 0 where
    body : List (String × HclExpression S) → Blocks S → Body S

  pub data Blocks (S : Type 0) : Type 0 where
    no_blocks : Blocks S
    next_block : String → Body S → Blocks S → Blocks S

-- hcl.BodySchema: the names of attributes, with whether they are required, and the types of blocks.
pub record BodySchema : Type 0 where
  pub attributes : List (String × Bool)
  pub blocks : List String

-- The expressions that capsules point to, and the next address.
pub record Heap (S : Type 0) : Type 0 where
  pub next : ℕ
  pub cells : Store S

-- The map of inputs as it is filled, the diagnostics so far, and the heap.
pub record Decoding (S : Type 0) : Type 0 where
  pub entries : List (String × Value S)
  pub diagnostics : Diagnostics S
  pub heap : Heap S

-- What decoding calls outside of the repository.
pub record DecodeLibrary (S G : Type 0) : Type 0 where
  pub base : Library S G
  pub hcl : HclLibrary S
  -- The diagnostics of body.Content and of expr.Value(nil)
  pub content_diagnostics : Body S → BodySchema → Diagnostics S
  pub value_diagnostics : HclExpression S → Diagnostics S
  -- cty.NullVal and cty.ListValEmpty
  pub null_val : CtyType → S
  pub list_val_empty : CtyType → S
  -- v.Type().Equals(t)
  pub has_type : S → CtyType → Bool
  -- convert.GetConversion of the value's type, with the conversion; `some none` where it fails
  pub get_conversion : S → CtyType → Option (Option S)
  -- v.Type().IsTupleType() and v.Type().IsObjectType()
  pub is_tuple : S → Bool
  pub is_object : S → Bool

-- Decoder.isRequired
unfoldable pub is_required : GoType → Bool
is_required (pointer t) = false
is_required (slice t) = false
is_required (map_of t) = false
is_required t = true

unfoldable pub is_struct : GoType → Bool
is_struct (struct fs) = true
is_struct t = false

-- A struct, or a slice of structs or of pointers to structs.
unfoldable pub is_block_type : GoType → Bool
is_block_type (struct fs) = true
is_block_type (slice (pointer t)) = is_struct t
is_block_type (slice t) = is_struct t
is_block_type t = false

-- Decoder.isBlock
unfoldable pub is_block : GoType → Bool
is_block (pointer t) = is_block_type t
is_block t = is_block_type t

-- Decoder.bodySchema
unfoldable pub body_schema : FieldSet → BodySchema
body_schema [] = record { attributes = []; blocks = [] }
body_schema ((name, f) ∷ ff) =
    let rest = body_schema ff in
    if is_block f.type_of_field
    then record rest { blocks = name ∷ rest.blocks }
    else record rest { attributes = (name, is_required f.type_of_field) ∷ rest.attributes }

unfoldable pub is_list_type : CtyType → Bool
is_list_type (list_type t) = true
is_list_type t = false

unfoldable pub is_map_type : CtyType → Bool
is_map_type (map_type t) = true
is_map_type t = false

unfoldable pub attribute_named :
    {S : Type 0} → List (String × HclExpression S) → String → Option (HclExpression S)
attribute_named [] name = none
attribute_named ((n, x) ∷ attributes) name =
    if n == name then some x else attribute_named attributes name

module _ {S : Type 0} where
  abbrev pub with_entry : Decoding S → String → Value S → Decoding S
  with_entry d name v = record d { entries = d.entries ++ (name, v) ∷ [] }

  abbrev pub with_diagnostics : Decoding S → Diagnostics S → Decoding S
  with_diagnostics d ds = record d { diagnostics = d.diagnostics ++ ds }

  -- in[name] = cty.CapsuleVal(exprType, &expression{...})
  unfoldable pub with_capsule : Decoding S → String → Cell S → Decoding S
  with_capsule d name cell = record d {
    entries = d.entries ++ (name, reference d.heap.next) ∷ [];
    heap = record { next = suc d.heap.next; cells = write d.heap.cells d.heap.next cell };
  }

  -- cty.ObjectVal(inputs)
  unfoldable pub attributes_of : List (String × Value S) → Attributes S
  attributes_of [] = no_attributes
  attributes_of ((name, v) ∷ entries) = attribute_of name v (attributes_of entries)

module _ {S G : Type 0} (library : DecodeLibrary S G) where
  -- Decoder.convertVal: the value, if it can be converted, and the diagnostics
  unfoldable pub convert_val : S → CtyType → Result (Diagnostics S) (Option S × Diagnostics S)
  convert_val input want = elim (library.get_conversion input want) [
    | none ↦ ok (none, unsuitable_type want ∷ [])
    | some none ↦ panic
    | some (some converted) ↦
        if (library.is_tuple input && is_list_type want)
          || (library.is_object input && is_map_type want)
        then ok (some converted, [])
        else ok (some converted, is_converted want ∷ [])
  ]

  -- A static value of an attribute, behind its evaluation.
  unfoldable pub with_static :
      Decoding S → String → Field → CtyType → S → Result (Diagnostics S) (Decoding S)
  with_static d name f typ v =
      let checked : S → Diagnostics S → Result (Diagnostics S) (Decoding S) = λ w ds.
        validate library.base (static w) f >>= λ invalid.
        ok (with_entry (with_diagnostics d (ds ++ invalid)) name (static w)) in
      let converted = convert_val v typ >>= λ (w, ds). elim w [
        | none ↦ ok (with_diagnostics d ds)
        | some w ↦ checked w ds
      ] in
      if library.has_type v typ then checked v [] else converted

  -- An attribute that is set.
  unfoldable pub with_attribute :
      Decoding S → String → Field → CtyType → HclExpression S → Result (Diagnostics S) (Decoding S)
  with_attribute d name f typ x =
      let dynamic = must_convert library.hcl x >>= λ e.
      ok (with_capsule d name (record { field = f; input_type = typ; expression = e })) in
      let d' = with_diagnostics d (library.value_diagnostics x) in
      let evaluated : Result (Diagnostics S) (Decoding S) = elim (library.hcl.static_value x) [
        | none ↦ ok d'
        | some v ↦ with_static d' name f typ v
      ] in
      if library.hcl.has_variables x then dynamic else evaluated

  -- Decoder.decodeAttributes
  unfoldable pub decode_attributes :
      List (String × HclExpression S) → FieldSet → Decoding S → Result (Diagnostics S) (Decoding S)
  decode_attributes attributes [] d = ok d
  decode_attributes attributes ((name, f) ∷ ff) d =
      let set = cty_type f.type_of_field >>= λ typ.
      elim (attribute_named attributes name) [
        | none ↦ ok (with_entry d name (static (library.null_val typ)))
        | some x ↦ with_attribute d name f typ x
      ]
      >>= decode_attributes attributes ff in
      let skipped = decode_attributes attributes ff d in
      if is_block f.type_of_field then skipped else set

-- What decodeInputs does to the body of a block: the inputs, the diagnostics and the heap.
abbrev pub BodyDecoder : Type 0 → Type 0
BodyDecoder S = FieldSet → Heap S → Result (Diagnostics S) (Attributes S × Diagnostics S × Heap S)

-- cont.Blocks.ByType()[name]
unfoldable pub blocks_named :
    {S : Type 0} → List (String × BodyDecoder S) → String → List (BodyDecoder S)
blocks_named [] name = []
blocks_named ((typename, decoder) ∷ blocks) name =
    let rest = blocks_named blocks name in if typename == name then decoder ∷ rest else rest

module _ {S G : Type 0} (library : DecodeLibrary S G) where
  -- One block, with the fields of a type.
  unfoldable pub decode_block :
      GoType → BodyDecoder S → Decoding S → Result (Diagnostics S) (Attributes S × Decoding S)
  decode_block t decoder d = fields t >>= λ ff. decoder ff d.heap >>= λ (input, ds, heap).
      ok (input, record (with_diagnostics d ds) { heap = heap })

  -- The blocks of a slice.
  unfoldable pub decode_slice :
      GoType → List (BodyDecoder S) → Decoding S → Result (Diagnostics S) (Elements S × Decoding S)
  decode_slice elem [] d = ok (no_elements, d)
  decode_slice elem (decoder ∷ decoders) d = decode_block elem decoder d >>= λ (input, d').
      decode_slice elem decoders d' >>= λ (es, d''). ok (next_element (object input) es, d'')

  -- The blocks of a field of slice type.
  unfoldable pub decode_many :
      String → GoType → List (BodyDecoder S) → Decoding S → Result (Diagnostics S) (Decoding S)
  decode_many name elem [] d =
      cty_type elem >>= λ t. ok (with_entry d name (static (library.list_val_empty t)))
  decode_many name elem decoders d = decode_slice elem decoders d >>= λ (es, d').
      list_val library.base.same_type es >>= λ v. ok (with_entry d' name v)

  -- The block of a field of another type.
  unfoldable pub decode_one :
      String → GoType → List (BodyDecoder S) → Decoding S → Result (Diagnostics S) (Decoding S)
  decode_one name t [] d =
      let optional = cty_type t >>= λ u. ok (with_entry d name (static (library.null_val u))) in
      if is_required t then ok (with_diagnostics d (missing_block name ∷ [])) else optional
  decode_one name t (decoder ∷ []) d =
      decode_block t decoder d >>= λ (input, d'). ok (with_entry d' name (object input))
  decode_one name t decoders d = ok (with_diagnostics d (duplicate_block name ∷ []))

  unfoldable pub decode_field :
      String → GoType → List (BodyDecoder S) → Decoding S → Result (Diagnostics S) (Decoding S)
  decode_field name (slice elem) decoders d = decode_many name elem decoders d
  decode_field name t decoders d = decode_one name t decoders d

  -- Decoder.decodeBlocks
  unfoldable pub decode_blocks :
      List (String × BodyDecoder S) → FieldSet → Decoding S → Result (Diagnostics S) (Decoding S)
  decode_blocks blocks [] d = ok d
  decode_blocks blocks ((name, f) ∷ ff) d =
      let decoded =
        decode_field name f.type_of_field (blocks_named blocks name) d
        >>= decode_blocks blocks ff in
      let skipped = decode_blocks blocks ff d in
      if is_block f.type_of_field then decoded else skipped

  unfoldable mutual
    -- Decoder.decodeInputs
    pub decode_inputs : Body S → BodyDecoder S
    decode_inputs (body attributes blocks) ff heap =
        decode_attributes library attributes ff (record {
          entries = [];
          diagnostics = library.content_diagnostics (body attributes blocks) (body_schema ff);
          heap = heap;
        })
        >>= decode_blocks (block_decoders blocks) ff
        >>= λ d. ok (attributes_of d.entries, d.diagnostics, d.heap)

    -- The blocks of a body, each with its decoding.
    pub block_decoders : Blocks S → List (String × BodyDecoder S)
    block_decoders no_blocks = []
    block_decoders (next_block typename block blocks) =
        (typename, decode_inputs block) ∷ block_decoders blocks
