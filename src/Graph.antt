-- ===== src/Graph.antt =====
-- resource/graph.go, resource/dependency.go, resource/resource.go: the desired resources of a
-- project and the dependencies between their fields.
pub mod Names
pub mod Validity
pub mod Adding
pub mod Parents
pub mod Leaves
pub mod Children
pub mod Samples
mod Tests
use func.Prelude.{
  ℕ, suc, String, ◌≡◌, Bool, true, false, Option, none, some, List, [], ◌∷◌, ◌++◌, map, length, ltb,
  Result, ok, err, panic, ◌>>=◌, map_result, if◌then◌else◌, ◌==◌,
}
use func.Prelude.Members.{contains}
use func.Cty.{CtyPath, PathStep, get_attr_step, index_step}
use func.Expression.{Expression, references}

-- resource.Desired
pub record Desired (V : Type 0) : Type 0 where
  pub name : String
  pub typename : String
  pub input : V
  pub sources : List String

-- resource.Dependency
pub record Dependency (V : Type 0) : Type 0 where
  pub child : String
  pub field : CtyPath V
  pub expression : Expression V

-- resource.Graph
pub record Graph (V : Type 0) : Type 0 where
  pub resources : List (Desired V)
  pub dependencies : List (Dependency V)

-- The errors of the methods of Graph.
pub data GraphError : Type 0 where
  no_name no_type already_exists child_missing : GraphError
  not_a_name : ℕ → GraphError
  parent_missing : ℕ → String → GraphError

-- The two results of the loops of ParentResources: the parents, and the names in `added`.
pub record Collected (V : Type 0) : Type 0 where
  pub found : List (Option (Desired V))
  pub added : List String

-- The names that the first loops of LeafResources put into `parents`.
unfoldable pub mark_names : List String → List String → List String
mark_names marked [] = marked
mark_names marked (name ∷ names) =
    mark_names (if contains name marked then marked else marked ++ name ∷ []) names

module _ {V : Type 0} where
  abbrev pub empty : Graph V
  empty = record { resources = []; dependencies = [] }

  unfoldable pub find : List (Desired V) → String → Option (Desired V)
  find [] name = none
  find (r ∷ rs) name = if r.name == name then some r else find rs name

  -- Graph.Resource; `none` is nil
  abbrev pub resource : Graph V → String → Option (Desired V)
  resource g name = find g.resources name

  -- Graph.AddResource
  unfoldable pub add_resource : Graph V → Desired V → Result GraphError (Graph V)
  add_resource g res =
      if res.name == ""
      then err no_name
      else if res.typename == ""
      then err no_type
      else elim (resource g res.name) [
        | some ex ↦ err already_exists
        | none ↦ ok (record g { resources = g.resources ++ res ∷ [] })
      ]

  -- The loop of AddDependency over the references. An empty path is an index out of range.
  unfoldable pub check_references : Graph V → ℕ → List (CtyPath V) → Result GraphError (Unit {0})
  check_references g i [] = ok tt
  check_references g i ([] ∷ refs) = panic
  check_references g i ((index_step key ∷ steps) ∷ refs) = err (not_a_name i)
  check_references g i ((get_attr_step name ∷ steps) ∷ refs) =
      let rest = check_references g (suc i) refs in
      elim (resource g name) [ none ↦ err (parent_missing i name) | some res ↦ rest ]

  -- Graph.AddDependency
  unfoldable pub add_dependency : Graph V → Dependency V → Result GraphError (Graph V)
  add_dependency g dep = elim (resource g dep.child) [
    | none ↦ err child_missing
    | some res ↦ check_references g 0 (references dep.expression) >>= λ _.
        ok (record g { dependencies = g.dependencies ++ dep ∷ [] })
  ]

  -- ref[0].(cty.GetAttrStep).Name, with its two panics
  unfoldable pub root_name : CtyPath V → Result GraphError String
  root_name (get_attr_step name ∷ steps) = ok name
  root_name (index_step key ∷ steps) = panic
  root_name [] = panic

  -- Dependency.Parents
  unfoldable pub parents : Dependency V → Result GraphError (List String)
  parents d = map_result root_name (references d.expression)

  -- The inner loop of ParentResources.
  unfoldable pub add_parents : Graph V → Collected V → List String → Collected V
  add_parents g acc [] = acc
  add_parents g acc (parent ∷ names) =
      add_parents g
        (if contains parent acc.added then acc else record {
          found = acc.found ++ resource g parent ∷ [];
          added = acc.added ++ parent ∷ [];
        })
        names

  -- The outer loop of ParentResources.
  unfoldable pub scan_dependencies :
      Graph V → String → Collected V → List (Dependency V) → Result GraphError (Collected V)
  scan_dependencies g child acc [] = ok acc
  scan_dependencies g child acc (d ∷ ds) =
      let next = parents d >>= λ names. scan_dependencies g child (add_parents g acc names) ds in
      let skipped = scan_dependencies g child acc ds in if d.child == child then next else skipped

  -- Graph.ParentResources
  unfoldable pub parent_resources : Graph V → String → Result GraphError (List (Option (Desired V)))
  parent_resources g child =
      scan_dependencies g child (record { found = []; added = [] }) g.dependencies >>= λ acc.
      ok acc.found

  -- Graph.DependenciesOf
  unfoldable pub dependencies_of : List (Dependency V) → String → List (Dependency V)
  dependencies_of [] child = []
  dependencies_of (d ∷ ds) child =
      let rest = dependencies_of ds child in if d.child == child then d ∷ rest else rest

  unfoldable pub mark_parents : List String → List (Dependency V) → Result GraphError (List String)
  mark_parents marked [] = ok marked
  mark_parents marked (d ∷ ds) = parents d >>= λ names. mark_parents (mark_names marked names) ds

  unfoldable pub unmarked : List String → List (Desired V) → List (Desired V)
  unmarked marked [] = []
  unmarked marked (res ∷ rs) =
      let rest = unmarked marked rs in if contains res.name marked then rest else res ∷ rest

  -- Graph.LeafResources. The slice is made with capacity len(g.Resources) - len(parents), which
  -- panics below zero.
  unfoldable pub leaf_resources : Graph V → Result GraphError (List (Desired V))
  leaf_resources g = mark_parents [] g.dependencies >>= λ marked.
      if ltb (length g.resources) (length marked) then panic else ok (unmarked marked g.resources)
