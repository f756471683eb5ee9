-- ===== src/Graph/Samples.antt =====
-- A graph of two resources: a worker whose input refers to an output of a queue.
use func.Prelude.{[], ◌∷◌}
use func.Cty.{get_attr_step}
use func.Expression.{expr_reference}
use func.Graph.{Desired, Dependency, Graph}
use func.Samples.{Value, text, unknown}

abbrev pub queue : Desired Value
queue = record {
  name = "queue";
  typename = "aws_sqs_queue";
  input = text (b'i' ∷ []);
  sources = [];
}

abbrev pub worker : Desired Value
worker = record {
  name = "worker";
  typename = "aws_lambda_function";
  input = unknown;
  sources = "abc" ∷ [];
}

abbrev pub reference : Dependency Value
reference = record {
  child = "worker";
  field = get_attr_step "url" ∷ [];
  expression = expr_reference (get_attr_step "queue" ∷ get_attr_step "url" ∷ []) ∷ [];
}

abbrev pub one : Graph Value
one = record { resources = queue ∷ []; dependencies = [] }

abbrev pub two : Graph Value
two = record { resources = queue ∷ worker ∷ []; dependencies = [] }

abbrev pub linked : Graph Value
linked = record { resources = queue ∷ worker ∷ []; dependencies = reference ∷ [] }
