-- ===== src/Decoder/Config/Valid.antt =====
-- resource/hcldecoder/decoder.go, DecodeBody: the graph is valid, whatever happens.
use func.Prelude.{
  String, ◌≡◌, refl, sym, subst, true, false, inl, inr, Bool-cases, Option, none, some, List, [],
  ◌∷◌, ◌++◌, Result, ok, err, panic, ◌>>=◌, arith,
}
use func.TypePath.{CtyType}
use func.Schema.{GoType}
use func.Graph.{Desired, Dependency, Graph, GraphError, add_resource, add_dependency}
use func.Graph.Validity.{IsValid, add_resource-IsValid, add_dependency-IsValid}
use func.Decoder.{
  Value, object, Attributes, cannot_add, Diagnostics, Store, Res, Resources, Library,
  transform_attributes, has_errors, is_error,
}
use func.Decoder.Inputs.{DecodeLibrary}
use func.Decoder.Resolve.{State, resolve_values}
use func.Decoder.Config.{
  Decoder, ResourceBlock, AddError, transform_error, graph_error, graph_then, collect, lift_error,
  add_nodes, add_edges, add_resources, Decoded, fill_graph, after_resolve, after_blocks,
  decode_body, initial, decode_resources, start_state,
}

module _ {S : Type 0} where
  -- The graph of a result, which an error has as well, is valid.
  abbrev GraphIsValid : {A : Type 0} → (A → Graph (Value S)) → Result (AddError S) A → Type 0
  GraphIsValid graph_in (ok a) = IsValid (graph_in a)
  GraphIsValid graph_in (err e) = IsValid (graph_then e)
  GraphIsValid graph_in panic = Unit

  add_edges-IsValid :
      (g : Graph (Value S)) (deps : List (Dependency (Value S)))
      → IsValid g
      → GraphIsValid (λ g. g) (add_edges g deps)
  unfolding add_edges graph_then
  add_edges-IsValid g [] v = v
  add_edges-IsValid g (dep ∷ deps) v =
      go (add_dependency g dep) refl (λ g'. add_edges-IsValid g' deps)
    where
      go :
          (r : Result GraphError (Graph (Value S)))
          → add_dependency g dep ≡ r
          → ((g' : Graph (Value S)) → IsValid g' → GraphIsValid (λ g. g) (add_edges g' deps))
          → GraphIsValid (λ g. g) (lift_error (graph_error g) r >>= λ g'. add_edges g' deps)
      go (ok g') e rest = rest g' (add_dependency-IsValid dep v e)
      go (err x) e rest = v
      go panic e rest = tt

module _ {S G : Type 0} (library : Library S G) (unknown_val : CtyType → S) where
  abbrev NodesValid : Result (AddError S) (Graph (Value S) × List (Dependency (Value S))) → Type 0
  NodesValid = GraphIsValid (λ x. x.0)

  -- One resource and the rest of the loop.
  module _
      (rest : Graph (Value S)
        → List (Dependency (Value S))
        → Result (AddError S) (Graph (Value S) × List (Dependency (Value S))))
      (rest-valid : (g : Graph (Value S)) (deps : List (Dependency (Value S)))
        → IsValid g
        → NodesValid (rest g deps))
      (g : Graph (Value S)) (v : IsValid g) where
    node-IsValid :
        (node : Desired (Value S)) (deps : List (Dependency (Value S)))
        (r : Result GraphError (Graph (Value S)))
        → add_resource g node ≡ r
        → NodesValid (lift_error (graph_error g) r >>= λ g'. rest g' deps)
    unfolding graph_then
    node-IsValid node deps (ok g') e = rest-valid g' deps (add_resource-IsValid node v e)
    node-IsValid node deps (err x) e = v
    node-IsValid node deps panic e = tt

    transformed-IsValid :
        (node : Attributes S → Desired (Value S))
        (r : Result (Diagnostics S) (Attributes S × List (Dependency (Value S))))
        → NodesValid (
            lift_error (transform_error g) r >>= λ (input, deps).
            lift_error (graph_error g) (add_resource g (node input)) >>= λ g'. rest g' deps)
    unfolding graph_then
    transformed-IsValid node (ok (input, deps)) = node-IsValid (node input) deps _ refl
    transformed-IsValid node (err ds) = v
    transformed-IsValid node panic = tt

  add_nodes-IsValid :
      (resources : Resources S) (cells : Store S) (names : List String) (g : Graph (Value S))
      (deps : List (Dependency (Value S)))
      → IsValid g
      → NodesValid (add_nodes library unknown_val resources cells names g deps)
  unfolding add_nodes
  add_nodes-IsValid resources cells [] g deps v = v
  add_nodes-IsValid resources cells (name ∷ names) g deps v =
      go (resources name) (add_nodes-IsValid resources cells names)
    where
      go :
          (o : Option (Res S))
          → ((g : Graph (Value S)) (deps : List (Dependency (Value S)))
              → IsValid g
              → NodesValid (add_nodes library unknown_val resources cells names g deps))
          → NodesValid (elim o [
            | none ↦ add_nodes library unknown_val resources cells names g deps
            | some r ↦
                lift_error (transform_error g) (
                  transform_attributes library
                    (collect library unknown_val cells name)
                    []
                    r.input
                    deps)
                >>= λ (input, deps').
                    lift_error (graph_error g) (
                      add_resource g (record {
                        name = name;
                        typename = r.typename;
                        input = object input;
                        sources = r.sources;
                      }))
                    >>= λ g'. add_nodes library unknown_val resources cells names g' deps'
          ])
      go none rest = rest g deps v
      go (some r) rest =
          transformed-IsValid (add_nodes library unknown_val resources cells names) rest g v
            (λ input. record {
              name = name;
              typename = r.typename;
              input = object input;
              sources = r.sources;
            })
            _

  add_resources-IsValid :
      (resources : Resources S) (cells : Store S) (names : List String) (g : Graph (Value S))
      → IsValid g
      → GraphIsValid (λ g. g) (add_resources library unknown_val resources cells names g)
  unfolding add_resources
  add_resources-IsValid resources cells names g v =
      go (add_nodes library unknown_val resources cells names g [])
        (add_nodes-IsValid resources cells names g [] v)
    where
      go :
          (r : Result (AddError S) (Graph (Value S) × List (Dependency (Value S))))
          → NodesValid r
          → GraphIsValid (λ g. g) (r >>= λ (g', deps). add_edges g' deps)
      go (ok (g', deps)) valid = add_edges-IsValid g' deps valid
      go (err e) valid = valid
      go panic valid = tt

-- What is shown of the graph behind a call.
abbrev pub GraphKept : {S : Type 0} → Graph (Value S) → Decoded S → Type 0
GraphKept target r =
    (IsValid target → IsValid r.graph) × (has_errors r.diagnostics ≡ true → r.graph ≡ target)

module _ {S G : Type 0} (library : DecodeLibrary S G) (unknown_val : CtyType → S) where
  fill_graph-IsValid :
      (names : List String) (target : Graph (Value S)) (d : Decoder S) (diags : Diagnostics S)
      (s : State S) (r : Decoded S)
      → IsValid target
      → fill_graph library unknown_val names target d diags s ≡ ok r
      → IsValid r.graph
  unfolding fill_graph
  fill_graph-IsValid names target d diags s r v h = elim (Bool-cases (has_errors diags)) [
    | inl failed ↦
        let e = rw failed at h in let is : target ≡ r.graph = ground arith in subst IsValid is v
    | inr fine ↦
        go _
          (add_resources-IsValid library.base unknown_val s.resources s.progress.store names target
            v)
          (rw fine at h)
  ]
    where
      go :
          (added : Result (AddError S) (Graph (Value S)))
          → GraphIsValid (λ g. g) added
          → elim added as (λ _. Result (Diagnostics S) (Decoded S)) [
            | ok g ↦ ok (record { graph = g; sources = d.sources; diagnostics = diags })
            | err e ↦ ok (record {
              graph = graph_then e;
              sources = d.sources;
              diagnostics = diags ++ cannot_add ∷ [];
            })
            | panic ↦ panic
          ]
            ≡ ok r
          → IsValid r.graph
      go (ok g) valid e = let is : g ≡ r.graph = ground arith in subst IsValid is valid
      go (err x) valid e = let is : graph_then x ≡ r.graph = ground arith in subst IsValid is valid
      go panic valid e = cc

  has_errors-snoc :
      (diags : Diagnostics S)
      → has_errors diags ≡ false
      → has_errors (diags ++ cannot_add ∷ []) ≡ false
  unfolding has_errors is_error
  has_errors-snoc [] h = refl
  has_errors-snoc (d ∷ diags) h = ground (arith, has_errors-snoc diags)

  fill_graph-target :
      (names : List String) (target : Graph (Value S)) (d : Decoder S) (diags : Diagnostics S)
      (s : State S) (r : Decoded S)
      → fill_graph library unknown_val names target d diags s ≡ ok r
      → has_errors r.diagnostics ≡ true
      → r.graph ≡ target
  unfolding fill_graph
  fill_graph-target names target d diags s r h failing = elim (Bool-cases (has_errors diags)) [
    | inl failed ↦ let e = rw failed at h in ground arith
    | inr fine ↦
        go fine (add_resources library.base unknown_val s.resources s.progress.store names target)
          (rw fine at h)
  ]
    where
      go :
          has_errors diags ≡ false
          → (added : Result (AddError S) (Graph (Value S)))
          → elim added as (λ _. Result (Diagnostics S) (Decoded S)) [
            | ok g ↦ ok (record { graph = g; sources = d.sources; diagnostics = diags })
            | err e ↦ ok (record {
              graph = graph_then e;
              sources = d.sources;
              diagnostics = diags ++ cannot_add ∷ [];
            })
            | panic ↦ panic
          ]
            ≡ ok r
          → r.graph ≡ target
      go fine (ok g) e = let is : diags ≡ r.diagnostics = ground arith in cc
      go fine (err x) e =
          let is : diags ++ cannot_add ∷ [] ≡ r.diagnostics = ground arith in
          let without_errors = has_errors-snoc diags fine in cc
      go fine panic e = cc

  after_resolve-GraphKept :
      (names : List String) (target : Graph (Value S)) (d : Decoder S) (diags : Diagnostics S)
      (o : Option (Result (Diagnostics S) (State S))) (r : Decoded S)
      → after_resolve library unknown_val names target d diags o ≡ some (ok r)
      → GraphKept target r
  unfolding after_resolve
  after_resolve-GraphKept names target d diags none r h = cc
  after_resolve-GraphKept names target d diags (some panic) r h = cc
  after_resolve-GraphKept names target d diags (some (err ds)) r h =
      let is : target ≡ r.graph = ground arith in (subst IsValid is, λ failing. sym is)
  after_resolve-GraphKept names target d diags (some (ok s)) r h =
      let e : fill_graph library unknown_val names target d diags s ≡ ok r = cc in
      (
        λ v. fill_graph-IsValid names target d diags s r v e,
        fill_graph-target names target d diags s r e,
      )

  -- When decoding returns, the graph is valid if it was before, whatever the configuration, its errors
  -- and the orders in which the loops range over the resources; and a diagnostic that is an error means
  -- that nothing has been added to the graph.
  pub decode_body-GraphKept :
      (type_named : String → Option GoType) (cells : Store S) (rounds : List (List String))
      (names : List String) (target : Graph (Value S)) (blocks : List (ResourceBlock S))
      (diags : Diagnostics S) (r : Decoded S)
      → decode_body library unknown_val type_named cells rounds names target blocks diags
        ≡ some (ok r)
      → GraphKept target r
  unfolding decode_body after_blocks
  decode_body-GraphKept type_named cells rounds names target blocks diags r h =
      elim (Bool-cases (has_errors diags)) [
        | inl failed ↦
            let e = rw failed at h in
            let is : target ≡ r.graph = ground arith in (subst IsValid is, λ failing. sym is)
        | inr fine ↦
            go (decode_resources library type_named (initial cells) diags blocks) (rw fine at h)
      ]
    where
      go :
          (decoded : Result (Diagnostics S) (Decoder S × Diagnostics S))
          → after_blocks library unknown_val rounds names target decoded ≡ some (ok r)
          → GraphKept target r
      go (ok (d, ds)) e =
          after_resolve-GraphKept names target d ds
            (resolve_values library.base rounds (start_state d)) r e
      go (err ds) e = cc
      go panic e = cc
