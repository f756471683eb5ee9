-- ===== src/Decoder/Samples.antt =====
-- A small instance of the libraries of the decoder, and resources whose inputs refer to each other.
use func.Prelude.{
  ℕ, zero, suc, String, refl, true, Option, none, some, [], ◌∷◌, err, ◌==◌, if◌then◌else◌,
}
use func.Cty.{get_attr_step, Bytes, apply_failed}
use func.TypePath.{string_type, no_attribute, attribute}
use func.Expression.{expr_reference}
use func.Expression.Kept.{MadeHave}
use func.Schema.{string, Field}
use func.Decoder.{
  Value, static, reference, no_attributes, attribute_of, Cell, Store, Res, Resources, Library,
  is_capsule,
}
use func.Decoder.Resolve.{State}
use func.Decoder.Resolve.Parts.{IsPlain}

abbrev text_in : Value Bytes → Option Bytes
text_in (static s) = some s
text_in v = none

abbrev pub texts : Library Bytes Bytes
texts = record {
  cty = record {
    nil_val = static [];
    object_val = λ fields. static [];
    apply = λ step v. err apply_failed;
    is_wholly_known = λ v. true;
    get_conversion = λ v. none;
    as_string = text_in;
    string_val = static;
    unknown_string = static [];
  };
  number_int_val = λ n. n ∷ [];
  same_type = λ v w. true;
  from_cty_value = λ t v. text_in v;
  accepts = λ value rule. true;
}

pub texts-MadeHave : MadeHave texts.cty IsPlain
unfolding is_capsule
texts-MadeHave = record {
  have-nil_val = refl;
  have-string_val = λ s. refl;
  have-unknown_string = refl;
}

abbrev pub text_field : Field
text_field = record { index = 0; type_of_field = string; tags = []; functag = "input" }

abbrev cell : String → String → Cell Bytes
cell name field = record {
  field = text_field;
  input_type = string_type;
  expression = expr_reference (get_attr_step name ∷ get_attr_step field ∷ []) ∷ [];
}

-- The inputs of `worker` and `alarm`: references to `queue.name` and to `worker.title`.
unfoldable pub cells : Store Bytes
cells zero = cell "queue" "name"
cells (suc a) = cell "worker" "title"

abbrev pub queue : Res Bytes
queue = record {
  typename = "aws_queue";
  sources = [];
  input = attribute_of "name" (static (b'q' ∷ [])) no_attributes;
  outputs = attribute "url" string_type no_attribute;
}

abbrev pub worker : Res Bytes
worker = record {
  typename = "aws_worker";
  sources = [];
  input = attribute_of "title" (reference 0) no_attributes;
  outputs = no_attribute;
}

abbrev pub alarm : Res Bytes
alarm = record {
  typename = "aws_alarm";
  sources = [];
  input = attribute_of "text" (reference 1) no_attributes;
  outputs = no_attribute;
}

unfoldable pub project : Resources Bytes
project n =
    if n == "queue"
    then some queue
    else if n == "worker"
    then some worker
    else if n == "alarm"
    then some alarm
    else none

abbrev pub before : State Bytes
before = record { resources = project; progress = record { store = cells; remaining_refs = 0 } }

-- The order in which the inputs can be resolved.
unfoldable pub rank : String → String → ℕ
rank n f = if n == "queue" then 0 else if n == "worker" then 1 else 2

-- `logger.sink` refers to the output of the queue, and `alarm.text` to `logger.sink`.
unfoldable pub output_cells : Store Bytes
output_cells zero = cell "queue" "url"
output_cells (suc a) = cell "logger" "sink"

abbrev pub logger : Res Bytes
logger = record {
  typename = "aws_logger";
  sources = [];
  input = attribute_of "sink" (reference 0) no_attributes;
  outputs = no_attribute;
}

unfoldable pub two_resources : Resources Bytes
two_resources n = if n == "queue" then some queue else if n == "logger" then some logger else none

abbrev pub with_output : State Bytes
with_output = record {
  resources = two_resources;
  progress = record { store = output_cells; remaining_refs = 0 };
}

unfoldable pub three_resources : Resources Bytes
three_resources n = if n == "alarm" then some alarm else two_resources n

abbrev pub with_chain : State Bytes
with_chain = record {
  resources = three_resources;
  progress = record { store = output_cells; remaining_refs = 0 };
}
