-- ===== src/Decoder/Config/Samples.antt =====
-- A configuration of two queues, and what it is decoded to.
use func.Prelude.{
  String, ◌≡◌, refl, Bool, true, false, Option, none, some, List, [], ◌∷◌, Result, ok, ◌==◌,
  if◌then◌else◌,
}
use func.Cty.{Bytes}
use func.Graph.{empty}
use func.Prelude.Maps.{put_entry}
use func.Schema.{GoType, StructFields, struct, string, no_fields, next_field}
use func.Decoder.{Diagnostics, from_hcl}
use func.Source.{
  decode_source_string, decode_parts, split_from, parse_int, append, parse_uint, parse_digits,
  digit_value, lower, signed,
}
use func.Schema.{
  fields, struct_fields, below_pointer, fields_from, field_name, has_tag, tag_of, delete_tag,
  with_functag, attribute_types, sequence_types, is_interface, cty_type,
}
use func.TypePath.{attribute_type, apply_type_path, apply_from}
use func.Expression.{references, merge_literals, merge_from, join}
use func.Graph.{find, add_resource, add_dependency, check_references}
use func.Decoder.{
  has_errors, is_error, write, validate, put_res, transform_attributes, input_of, is_capsule,
}
use func.Decoder.Expr.{
  must_convert, unless_static, convert_syntax, traversal_step, static_expression,
}
use func.Decoder.Inputs.{
  decode_inputs, decode_attributes, decode_blocks, is_block, is_block_type, is_struct,
  attribute_named, with_attribute, with_static, with_capsule, attributes_of, body_schema,
}
use func.Decoder.Resolve.{
  resolve_values, resolve_all, first_round, resolve_res, visit, resolve_parts, fate, field_fate,
  output_fate, input_fate, asserted, settle, settled_value,
}
use func.Decoder.Config.{
  after_blocks, decode_resources, decode_resource, with_source, with_type, with_resource,
  start_state, after_resolve, fill_graph, collect, add_nodes, add_edges, add_resources,
}
use func.Decoder.Samples.{texts, cells}
use func.Decoder.Expr.{
  HclExpression, literal, scope_traversal, traverse_root, traverse_attr, unparsable, packed,
  relative_traversal, index_expr, template_wrap, template, other,
}
use func.Decoder.Inputs.{body, no_blocks, DecodeLibrary}
use func.Decoder.Config.{ResourceBlock, Decoded, decode_body}

abbrev is_dynamic : HclExpression Bytes → Bool
is_dynamic (literal v) = false
is_dynamic x = true

abbrev static_text : HclExpression Bytes → Option Bytes
static_text (literal v) = some v
static_text x = none

abbrev failing : HclExpression Bytes → Diagnostics Bytes
failing (literal v) = []
failing x = from_hcl true ∷ []

abbrev pub library : DecodeLibrary Bytes Bytes
library = record {
  base = texts;
  hcl = record { has_variables = is_dynamic; static_value = static_text };
  content_diagnostics = λ b schema. [];
  value_diagnostics = failing;
  null_val = λ t. [];
  list_val_empty = λ t. [];
  has_type = λ v t. true;
  get_conversion = λ v t. none;
  is_tuple = λ v. false;
  is_object = λ v. false;
}

-- An expression that has no static value has an error.
pub library-fails :
    (x : HclExpression Bytes)
    → library.hcl.static_value x ≡ none
    → has_errors (library.value_diagnostics x) ≡ true
unfolding has_errors is_error
library-fails (literal v) h = cc
library-fails unparsable h = refl
library-fails (packed x) h = refl
library-fails (relative_traversal x t) h = refl
library-fails (scope_traversal t) h = refl
library-fails (index_expr x y) h = refl
library-fails (template_wrap x) h = refl
library-fails (template xs) h = refl
library-fails other h = refl

abbrev tagged : String → String → StructFields → StructFields
tagged name tag rest =
    next_field (record { derived_name = name; is_exported = true; tags = ("func", tag) ∷ [] })
      string rest

abbrev pub types : String → Option GoType
types n =
    if n == "aws_queue"
    then some (struct (tagged "name" "input" (tagged "url" "output" no_fields)))
    else none

abbrev pub queue_block : ResourceBlock Bytes
queue_block = record {
  label = "queue";
  resource_config = record {
    typename = "aws_queue";
    source = "ff:abc=:key";
    config = body (("name", literal (b'q' ∷ [])) ∷ []) no_blocks;
  };
  config_diagnostics = [];
}

-- A queue whose name is the address of the other.
abbrev pub dead_letters : ResourceBlock Bytes
dead_letters = record {
  label = "dead_letters";
  resource_config = record {
    typename = "aws_queue";
    source = "";
    config =
        body (("name", scope_traversal (traverse_root "queue" ∷ traverse_attr "url" ∷ [])) ∷ [])
          no_blocks;
  };
  config_diagnostics = [];
}

abbrev pub names : List String
names = "dead_letters" ∷ "queue" ∷ []

abbrev pub result : Option (Result (Diagnostics Bytes) (Decoded Bytes))
result =
    decode_body library (λ t. []) types cells (names ∷ []) names empty
      (queue_block ∷ dead_letters ∷ []) []

abbrev pub decoded_of : Option (Result (Diagnostics Bytes) (Decoded Bytes)) → Decoded Bytes
decoded_of (some (ok r)) = r
decoded_of o = record { graph = empty; sources = []; diagnostics = [] }

pub result-eq : result ≡ some (ok (decoded_of result))
unfolding decode_body has_errors after_blocks decode_resources decode_resource with_source
    decode_source_string decode_parts split_from parse_int append parse_uint parse_digits
    digit_value lower signed with_type with_resource fields struct_fields below_pointer fields_from
    put_entry field_name has_tag tag_of delete_tag with_functag decode_inputs decode_attributes
    decode_blocks attribute_types sequence_types is_interface cty_type is_block is_block_type
    is_struct attribute_named with_attribute with_static must_convert unless_static convert_syntax
    traversal_step with_capsule write validate attributes_of put_res start_state resolve_values
    resolve_all first_round resolve_res transform_attributes visit resolve_parts fate field_fate
    attribute_type output_fate apply_type_path apply_from asserted merge_literals merge_from join
    settle settled_value after_resolve fill_graph is_error add_resources add_nodes collect
    add_resource find add_edges add_dependency check_references references body_schema
    static_expression input_fate input_of is_capsule
result-eq = refl
