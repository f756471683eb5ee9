-- ===== src/Reconciler/Process.antt =====
-- resource/reconciler/reconciler.go: processResource after its dependencies have been processed.
pub mod Quiet
pub mod Failure
pub mod Resolve
pub mod Success
pub mod Matching
pub mod Changes
pub mod Existing
use func.Prelude.{
  ℕ, ◌+◌, String, ◌≡◌, Bool, true, false, Option, none, some, List, [], ◌∷◌, ◌++◌, Result, ok, err,
  panic, ◌==◌, if◌then◌else◌, ◌&&◌, ◌||◌, not, eqb,
}
use func.Cty.{Cty, CtyPath, CtyError}
use func.Expression.{value}
use func.Graph.{Desired, Dependency, Graph, GraphError, parent_resources, dependencies_of}
use func.Reconciler.{
  Deployed, RunError, acquire_failed, set_input_failed, set_previous_failed, change_failed,
  convert_outputs_failed, store_failed, transform_failed, type_not_registered, dependency_not_found,
  Op, create, update, World, Run, Exec, add_uint32, pure, raise, crash, modify, gets, lift, check,
  ◌>>=◌, ◌>>◌,
}

module _ {V : Type 0} where
  -- The names of the parents. A nil among them is dereferenced.
  unfoldable pub parent_names : List (Option (Desired V)) → Result GraphError (List String)
  parent_names [] = ok []
  parent_names (none ∷ ps) = panic
  parent_names (some p ∷ ps) = elim (parent_names ps) [
    | ok ns ↦ ok (p.name ∷ ns)
    | err e ↦ err e
    | panic ↦ panic
  ]

  -- ex.Type == res.Type && ex.Name == res.Name
  unfoldable pub same_resource : Desired V → Deployed V → Bool
  same_resource res ex = ex.typename == res.typename && ex.name == res.name

  unfoldable pub find_existing : Desired V → List (Deployed V) → Option (Deployed V)
  find_existing res [] = none
  find_existing res (ex ∷ exs) = if same_resource res ex then some ex else find_existing res exs

  -- append(r.existing[:i], r.existing[i+1:]...) at the first match
  unfoldable pub drop_existing : Desired V → List (Deployed V) → List (Deployed V)
  drop_existing res [] = []
  drop_existing res (ex ∷ exs) =
      let rest = drop_existing res exs in if same_resource res ex then exs else ex ∷ rest

module _ {V E S : Type 0} where
  -- Graph.ParentResources(name), and the names of what it returns.
  unfoldable pub names_of_parents : Graph V → String → Exec V E S (List String)
  names_of_parents g name r = elim (parent_resources g name) [
    | ok ps ↦ elim (parent_names ps) [
      | ok ns ↦ (ok ns, r)
      | err e ↦ (panic, r)
      | panic ↦ (panic, r)
    ]
    | err e ↦ (panic, r)
    | panic ↦ (panic, r)
  ]

  -- The search for the existing resource, under the lock.
  unfoldable pub take_existing : Desired V → Exec V E S (Option (Deployed V))
  take_existing res r =
      (ok (find_existing res r.existing), record r { existing = drop_existing res r.existing })

  -- r.outputs[name] = v
  unfoldable pub set_output : String → V → Exec V E S (Unit {0})
  set_output name v = modify (λ r. record r { outputs = (name, v) ∷ r.outputs })

  unfoldable pub call : Op → Exec V E S (Unit {0})
  call op = modify (λ r. record r { log = r.log ++ op ∷ [] })

  -- The storage after a write to it.
  unfoldable pub stored : Result E (Unit {0}) × S → Exec V E S (Unit {0})
  stored (ok u, s) r = (ok u, record r { store = s })
  stored (err e, s) r = (err (store_failed e), record r { store = s })
  stored (panic, s) r = (panic, record r { store = s })

module _ {V D E S : Type 0} (w : World V D E S) where
  -- outputs[name], the zero Value where there is none
  unfoldable pub output_of : List (String × V) → String → V
  output_of [] name = w.cty.nil_val
  output_of ((n, v) ∷ outputs) name = if n == name then v else output_of outputs name

  -- The variables of the EvalContext.
  unfoldable pub variables : List (String × V) → List String → List (String × V)
  variables outputs [] = []
  variables outputs (n ∷ ns) = (n, output_of outputs n) ∷ variables outputs ns

  -- The callback of cty.Transform for one dependency, with the flag `processed`.
  unfoldable pub replace_field :
      List (String × V) → Dependency V → CtyPath V → V → Bool → Result CtyError V × Bool
  replace_field vars dep path val processed =
      if w.path_equals path dep.field
      then elim (value w.cty vars dep.expression) [
        | ok v ↦ (ok v, true)
        | err e ↦ (err e, processed)
        | panic ↦ (panic, processed)
      ]
      else (ok val, processed)

  -- The loop of resolveDependencies, on the input of the resource.
  unfoldable pub resolve_fields : List (String × V) → List (Dependency V) → V → Exec V E S V
  resolve_fields vars [] input = pure input
  resolve_fields vars (dep ∷ ds) input =
      let (result, processed) = w.transform input (replace_field vars dep) false in
      lift transform_failed result >>= λ cfg.
      if processed then resolve_fields vars ds cfg else raise dependency_not_found

  -- resolveDependencies, given the names of the parents.
  unfoldable pub resolve_with : Graph V → Desired V → List String → Exec V E S (Desired V)
  resolve_with g res [] = pure res
  resolve_with g res (p ∷ ps) = do
    outputs ← gets (λ r. r.outputs)
    let deps = dependencies_of g.dependencies res.name
    input ← resolve_fields (variables outputs (p ∷ ps)) deps res.input
    pure (record res { input = input })

  -- resolveDependencies; the resource comes back with its new input.
  unfoldable pub resolve_dependencies : Graph V → Desired V → Exec V E S (Desired V)
  resolve_dependencies g res = do parents ← names_of_parents g res.name; resolve_with g res parents

  -- r.Resources.PutResource
  unfoldable pub put_resource : Deployed V → Exec V E S (Unit {0})
  unfolding stored
  put_resource d r = stored (w.put_resource r.store d) r

  -- From the captured outputs to the counters.
  unfoldable pub record_change : Graph V → Desired V → String → Bool → D → Exec V E S (Unit {0})
  record_change g res id updated def = do
    output ← lift convert_outputs_failed (w.output_value res.typename def)
    set_output res.name output
    deps ← names_of_parents g res.name
    put_resource (record { desired = res; id = id; output = output; deps = deps })
    modify (λ r.
        if updated
        then record r { updates = add_uint32 r.updates }
        else record r { creates = add_uint32 r.creates })

  -- The previous definition: the outputs, and then the inputs.
  unfoldable pub previous_definition : Deployed V → Result E D
  previous_definition ex = elim (w.from_cty_value ex.output (w.new_definition ex.typename)) [
    | ok d ↦ w.from_cty_value ex.input d
    | err e ↦ err e
    | panic ↦ panic
  ]

  unfoldable pub update_existing :
      Graph V → Desired V → D → Bool → Bool → Deployed V → Exec V E S (Unit {0})
  update_existing g res def config source ex =
      if not config && not source then set_output res.name ex.output else do
        prev ← lift set_previous_failed (previous_definition ex)
        call (update res.name)
        def' ← lift change_failed (w.update_definition def prev config source res.sources)
        record_change g res ex.id true def'

  -- GenerateID
  unfoldable pub next_id : Exec V E S String
  next_id r = (ok (w.generate_id r.ids), record r { ids = r.ids + 1 })

  unfoldable pub create_new : Graph V → Desired V → D → Exec V E S (Unit {0})
  create_new g res def = do
    id ← next_id
    call (create res.name)
    def' ← lift change_failed (w.create_definition def res.sources)
    record_change g res id false def'

  -- Existing resources of the same type and name are compared with the desired one.
  unfoldable pub apply_change :
      Graph V → Desired V → D → Option (Deployed V) → Exec V E S (Unit {0})
  apply_change g res def none = create_new g res def
  apply_change g res def (some ex) =
      update_existing g res def (not (eqb (w.hash ex.input) (w.hash res.input)))
        (not (w.sources_equal ex.sources res.sources)) ex

  -- The rest, once the dependencies are resolved: insert the config, find the existing version,
  -- and change what needs to be changed.
  unfoldable pub change_resolved : Graph V → Desired V → Exec V E S (Unit {0})
  change_resolved g res = do
    def ← lift set_input_failed (w.from_cty_value res.input (w.new_definition res.typename))
    existing ← take_existing res
    apply_change g res def existing

  -- The function that processResource gives to the task group, after processDependencies.
  unfoldable pub process_resource : Graph V → Desired V → Exec V E S (Unit {0})
  unfolding change_resolved
  process_resource g res = do
    check acquire_failed (w.acquire res.name)
    if w.registered res.typename then pure tt else raise (type_not_registered res.typename)
    resolved ← resolve_dependencies g res
    change_resolved g resolved
