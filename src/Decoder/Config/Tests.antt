-- ===== src/Decoder/Config/Tests.antt =====
-- resource/hcldecoder/decoder.go, DecodeBody: the theorem at a configuration of two resources.
use func.Prelude.{String, Bool, Option, none, some, List, [], ◌∷◌, true, false, if◌then◌else◌}
use func.Cty.{Bytes}
use func.Schema.{FieldSet}
use func.Decoder.{Attributes, static, attribute_of, no_attributes, from_hcl, Diagnostics}
use func.Decoder.Expr.{HclExpression, literal}
use func.Decoder.Inputs.{Body, body, BodySchema, DecodeLibrary, no_blocks, Heap, attribute_named}
use func.Graph.{empty}
use func.Decoder.Samples.{cells, text_field}
use func.Decoder.Config.Samples.{
  library, types, queue_block, dead_letters, names, result, decoded_of, result-eq,
}
use func.Decoder.Config.Valid.{GraphKept, decode_body-GraphKept}

decode_body-GraphKept_example : GraphKept empty (decoded_of result)
decode_body-GraphKept_example =
    decode_body-GraphKept library (λ t. []) types cells (names ∷ []) names empty
      (queue_block ∷ dead_letters ∷ []) [] (decoded_of result) result-eq

abbrev queue_fields : FieldSet
queue_fields = ("name", text_field) ∷ []

abbrev queue_body : Body Bytes
queue_body = body (("name", literal (b'q' ∷ [])) ∷ []) no_blocks

abbrev fresh : Heap Bytes
fresh = record { next = 0; cells = cells }

abbrev queue_attributes : Attributes Bytes
queue_attributes = attribute_of "name" (static (b'q' ∷ [])) no_attributes

-- Content reports every required attribute of the schema that is not set.
abbrev is_unset : Bool → Option (HclExpression Bytes) → Bool
is_unset required (some x) = false
is_unset required none = required

unfoldable missing_in :
    List (String × HclExpression Bytes) → List (String × Bool) → Diagnostics Bytes
missing_in attributes [] = []
missing_in attributes ((n, required) ∷ schema) =
    let rest = missing_in attributes schema in
    if is_unset required (attribute_named attributes n) then from_hcl true ∷ rest else rest

abbrev content : Body Bytes → BodySchema → Diagnostics Bytes
content (body attributes bs) schema = missing_in attributes schema.attributes

abbrev checking : DecodeLibrary Bytes Bytes
checking = record library { content_diagnostics = content }
