-- ===== src/Decoder/Config.antt =====
-- resource/hcldecoder/decoder.go, DecodeBody: from the blocks of a configuration to the graph.
pub mod Valid
pub mod Samples
mod Tests
use func.Prelude.{
  ℕ, String, Bool, true, false, Option, none, some, List, [], ◌∷◌, ◌++◌, ◌==◌, Result, ok, err,
  panic, ◌>>=◌, if◌then◌else◌,
}
use func.Cty.{CtyPath}
use func.TypePath.{CtyType}
use func.Schema.{GoType, inputs, outputs, fields, attribute_types}
use func.Source.{SourceInfo, decode_source_string}
use func.Graph.{Desired, Dependency, Graph, GraphError, add_resource, add_dependency}
use func.Decoder.{
  Value, static, object, Attributes, Diagnostic, name_not_set, duplicate_resource,
  source_not_decoded, cannot_add, not_supported, Diagnostics, has_errors, Cell, Store, Res,
  Resources, put_res, Library, transform_attributes,
}
use func.Decoder.Inputs.{Body, Heap, DecodeLibrary, decode_inputs}
use func.Decoder.Resolve.{State, resolve_values}

-- config.Resource
pub record ResourceConfig (S : Type 0) : Type 0 where
  pub typename : String
  pub source : String
  pub config : Body S

-- A resource block: its label, and what gohcl.DecodeBody makes of its body.
pub record ResourceBlock (S : Type 0) : Type 0 where
  pub label : String
  pub resource_config : ResourceConfig S
  pub config_diagnostics : Diagnostics S

-- Decoder, with the expressions that capsules point to.
pub record Decoder (S : Type 0) : Type 0 where
  pub resources : Resources S
  pub sources : List SourceInfo
  pub heap : Heap S

-- What addResources returns: an error of Transform, or one of the graph, with the graph as it is then.
pub data AddError (S : Type 0) : Type 0 where
  transform_error : Graph (Value S) → Diagnostics S → AddError S
  graph_error : Graph (Value S) → GraphError → AddError S

-- diags[:1]
unfoldable pub first_diagnostic : {S : Type 0} → Diagnostics S → Diagnostics S
first_diagnostic [] = []
first_diagnostic (d ∷ ds) = d ∷ []

module _ {S G : Type 0} (library : DecodeLibrary S G) (type_named : String → Option GoType) where
  -- The end of decodeResource: the inputs and outputs of a known type.
  unfoldable pub with_resource :
      Decoder S
      → String
      → ResourceConfig S
      → List String
      → Diagnostics S
      → GoType
      → Result (Diagnostics S) (Decoder S × Diagnostics S)
  with_resource d name config sources diags t = fields t >>= λ ff.
      decode_inputs library config.config (inputs ff) d.heap >>= λ (input, more, heap).
      attribute_types (outputs ff) >>= λ types. ok (
        record d {
          resources = put_res d.resources name (record {
            typename = config.typename;
            sources = sources;
            input = input;
            outputs = types;
          });
          heap = heap;
        },
        diags ++ more,
      )

  -- The lookup of the type.
  unfoldable pub with_type :
      Decoder S
      → String
      → ResourceConfig S
      → List String
      → Diagnostics S
      → Result (Diagnostics S) (Decoder S × Diagnostics S)
  with_type d name config sources diags = elim (type_named config.typename) [
    | none ↦ ok (d, not_supported config.typename ∷ [])
    | some t ↦ with_resource d name config sources diags t
  ]

  -- The source of the resource, where it has one.
  unfoldable pub with_source :
      Decoder S
      → String
      → ResourceConfig S
      → Diagnostics S
      → Result (Diagnostics S) (Decoder S × Diagnostics S)
  with_source d name config diags =
      let decoded : Result (Diagnostics S) (Decoder S × Diagnostics S) =
        elim (decode_source_string config.source) [
          | ok src ↦
              with_type (record d { sources = d.sources ++ src ∷ [] }) name config (src.key ∷ [])
                diags
          | err e ↦ ok (d, source_not_decoded ∷ [])
          | panic ↦ panic
        ] in
      if config.source == "" then with_type d name config [] diags else decoded

  -- Decoder.decodeResource
  unfoldable pub decode_resource :
      Decoder S → ResourceBlock S → Result (Diagnostics S) (Decoder S × Diagnostics S)
  decode_resource d block = elim (d.resources block.label) [
    | some ex ↦ ok (d, duplicate_resource ∷ [])
    | none ↦
        let decoded = with_source d block.label block.resource_config block.config_diagnostics in
        if has_errors block.config_diagnostics
        then ok (d, first_diagnostic block.config_diagnostics)
        else decoded
  ]

  -- The loop over the blocks.
  unfoldable pub decode_resources :
      Decoder S
      → Diagnostics S
      → List (ResourceBlock S)
      → Result (Diagnostics S) (Decoder S × Diagnostics S)
  decode_resources d diags [] = ok (d, diags)
  decode_resources d diags (block ∷ blocks) =
      let unnamed = if block.label == "" then name_not_set ∷ [] else [] in
      decode_resource d block >>= λ (d', more).
      decode_resources d' (diags ++ unnamed ++ more) blocks

-- A result with an error of its own.
abbrev pub lift_error : {E F A : Type 0} → (E → F) → Result E A → Result F A
lift_error f (ok a) = ok a
lift_error f (err e) = err (f e)
lift_error f panic = panic

-- The loop of addResources over the dependencies.
unfoldable pub add_edges :
    {S : Type 0}
    → Graph (Value S)
    → List (Dependency (Value S))
    → Result (AddError S) (Graph (Value S))
add_edges g [] = ok g
add_edges g (dep ∷ deps) =
    lift_error (graph_error g) (add_dependency g dep) >>= λ g'. add_edges g' deps

module _ {S G : Type 0} (library : Library S G) (unknown_val : CtyType → S) where
  -- The callback of addResources: a capsule becomes a dependency and an unknown value.
  unfoldable pub collect :
      Store S
      → String
      → CtyPath (Value S)
      → ℕ
      → List (Dependency (Value S))
      → Result (Diagnostics S) (Value S × List (Dependency (Value S)))
  collect cells name path a deps = ok (
    static (unknown_val (cells a).input_type),
    deps ++ record { child = name; field = path; expression = (cells a).expression } ∷ [],
  )

  -- The loop over the resources.
  unfoldable pub add_nodes :
      Resources S
      → Store S
      → List String
      → Graph (Value S)
      → List (Dependency (Value S))
      → Result (AddError S) (Graph (Value S) × List (Dependency (Value S)))
  add_nodes resources cells [] g deps = ok (g, deps)
  add_nodes resources cells (name ∷ names) g deps = elim (resources name) [
    | none ↦ add_nodes resources cells names g deps
    | some r ↦
        lift_error (transform_error g)
          (transform_attributes library (collect cells name) [] r.input deps)
        >>= λ (input, deps').
            lift_error (graph_error g) (
              add_resource g (record {
                name = name;
                typename = r.typename;
                input = object input;
                sources = r.sources;
              }))
            >>= λ g'. add_nodes resources cells names g' deps'
  ]

  -- Decoder.addResources, with the order in which it ranges over the map.
  unfoldable pub add_resources :
      Resources S → Store S → List String → Graph (Value S) → Result (AddError S) (Graph (Value S))
  add_resources resources cells names g =
      add_nodes resources cells names g [] >>= λ (g', deps). add_edges g' deps

-- What DecodeBody returns, with the graph behind it.
pub record Decoded (S : Type 0) : Type 0 where
  pub graph : Graph (Value S)
  pub sources : List SourceInfo
  pub diagnostics : Diagnostics S

abbrev pub initial : {S : Type 0} → Store S → Decoder S
initial cells = record {
  resources = λ name. none;
  sources = [];
  heap = record { next = 0; cells = cells };
}

unfoldable pub start_state : {S : Type 0} → Decoder S → State S
start_state d = record {
  resources = d.resources;
  progress = record { store = d.heap.cells; remaining_refs = 0 };
}

unfoldable pub graph_then : {S : Type 0} → AddError S → Graph (Value S)
graph_then (transform_error g ds) = g
graph_then (graph_error g e) = g

module _ {S G : Type 0} (library : DecodeLibrary S G) (unknown_val : CtyType → S) where
  -- The end of DecodeBody, behind resolveValues: the graph is filled if no diagnostic is an error.
  unfoldable pub fill_graph :
      List String
      → Graph (Value S)
      → Decoder S
      → Diagnostics S
      → State S
      → Result (Diagnostics S) (Decoded S)
  fill_graph names target d diags s =
      let filled : Result (Diagnostics S) (Decoded S) =
        elim (add_resources library.base unknown_val s.resources s.progress.store names target) [
          | ok g ↦ ok (record { graph = g; sources = d.sources; diagnostics = diags })
          | err e ↦ ok (record {
            graph = graph_then e;
            sources = d.sources;
            diagnostics = diags ++ cannot_add ∷ [];
          })
          | panic ↦ panic
        ] in
      if has_errors diags
      then ok (record { graph = target; sources = d.sources; diagnostics = diags })
      else filled

  -- What follows on resolveValues; `none` stands for a loop that has not ended.
  unfoldable pub after_resolve :
      List String
      → Graph (Value S)
      → Decoder S
      → Diagnostics S
      → Option (Result (Diagnostics S) (State S))
      → Option (Result (Diagnostics S) (Decoded S))
  after_resolve names target d diags none = none
  after_resolve names target d diags (some panic) = some panic
  after_resolve names target d diags (some (err ds)) =
      some (ok (record { graph = target; sources = d.sources; diagnostics = diags ++ ds }))
  after_resolve names target d diags (some (ok s)) = some (fill_graph names target d diags s)

  unfoldable pub after_blocks :
      List (List String)
      → List String
      → Graph (Value S)
      → Result (Diagnostics S) (Decoder S × Diagnostics S)
      → Option (Result (Diagnostics S) (Decoded S))
  after_blocks rounds names target (ok (d, diags)) =
      after_resolve names target d diags (resolve_values library.base rounds (start_state d))
  after_blocks rounds names target (err ds) = some (err ds)
  after_blocks rounds names target panic = some panic

  -- Decoder.DecodeBody, for the content of a body and its diagnostics. The rounds of resolveValues and
  -- addResources range over the resources in the given orders; `cells` is the memory before.
  unfoldable pub decode_body :
      (String → Option GoType)
      → Store S
      → List (List String)
      → List String
      → Graph (Value S)
      → List (ResourceBlock S)
      → Diagnostics S
      → Option (Result (Diagnostics S) (Decoded S))
  decode_body type_named cells rounds names target blocks diags =
      let decoded =
        after_blocks rounds names target
          (decode_resources library type_named (initial cells) diags blocks) in
      if has_errors diags
      then some (ok (record { graph = target; sources = []; diagnostics = diags }))
      else decoded
