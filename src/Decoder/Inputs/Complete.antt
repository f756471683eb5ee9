-- ===== src/Decoder/Inputs/Complete.antt =====
-- resource/hcldecoder/decoder.go, decodeInputs: without an error every field has its value.
use mathlib.Core.List.{Memᴰ}
use func.Prelude.{◌⊎◌, String, ◌≡◌, true, false, none, some, List}
use func.Schema.{Field}
use func.Decoder.{Value}
use func.Decoder.Expr.{HclExpression}
use func.Decoder.Inputs.{
  Body, body, DecodeLibrary, is_required, is_block, attribute_named, blocks_named, block_decoders,
  BodySchema,
}
use func.Decoder.Inputs.SetAttributes.{IsAttribute}
use func.Decoder.Inputs.SetBlocks.{IsBlock}

-- An attribute that is required by the schema and not set.
abbrev pub IsMissing : {S : Type 0} → List (String × HclExpression S) → BodySchema → String → Type 0
IsMissing attributes schema name =
    Memᴰ (name, true) schema.attributes × (attribute_named attributes name ≡ none)

-- The schema has a field that is a required attribute.
abbrev Listed : BodySchema → String × Field → Type 0
Listed schema x =
    is_block x.1.type_of_field ≡ false
    → is_required x.1.type_of_field ≡ true
    → Memᴰ (x.0, true) schema.attributes

module _ {S G : Type 0} (library : DecodeLibrary S G) where
  -- The value of a field: the one of an attribute, which is optional or set, or the one of a block.
  abbrev pub IsInput : Body S → String → Field → Value S → Type 0
  IsInput (body attributes blocks) name f v =
      ((is_block f.type_of_field ≡ false)
        × IsAttribute library attributes name f v
        × ((is_required f.type_of_field ≡ false)
            ⊎ ((x : HclExpression S) × (attribute_named attributes name ≡ some x))))
      ⊎ ((is_block f.type_of_field ≡ true)
          × IsBlock library f.type_of_field (blocks_named (block_decoders library blocks) name) v)
