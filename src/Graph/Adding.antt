-- ===== src/Graph/Adding.antt =====
-- resource/graph.go: what a lookup finds after AddResource, and when AddDependency succeeds.
use func.Prelude.{
  ℕ, suc, String, ◌≡◌, refl, sym, ap, ◌∙◌, ◌↔◌, none, some, List, [], ◌∷◌, ◌++◌, arith, ◌==◌,
  eq_iff, if◌then◌else◌, All, ok,
}
use func.Cty.{CtyPath, get_attr_step, index_step}
use func.Expression.{references}
use func.Graph.{
  Desired, Dependency, Graph, find, resource, add_resource, add_dependency, check_references,
}
use func.Graph.Names.{names, find_of_contains}
use func.Graph.Validity.{RootIn, Resolves, add_dependency-eq-ok}

module _ {V : Type 0} where
  find-snoc :
      (rs : List (Desired V)) (r : Desired V) (n : String)
      → find rs r.name ≡ none
      → find (rs ++ r ∷ []) n ≡ (if r.name == n then some r else find rs n)
  unfolding find
  find-snoc [] r n h = refl
  find-snoc (s ∷ rs) r n h =
      ground (arith, find-snoc rs r n, eq_iff s.name n, eq_iff r.name n, eq_iff s.name r.name)

  -- After a successful AddResource the graph returns the resource under its name, and under every
  -- other name what it returned before.
  pub resource-add_resource :
      (g g' : Graph V) (res : Desired V) (n : String)
      → add_resource g res ≡ ok g'
      → resource g' n ≡ (if res.name == n then some res else resource g n)
  unfolding add_resource
  resource-add_resource g g' res n h = ground (arith, find-snoc g.resources res n)

  check_references_of_RootIn :
      (g : Graph V) (i : ℕ) (refs : List (CtyPath V))
      → All (RootIn (names g.resources)) refs
      → check_references g i refs ≡ ok tt
  unfolding check_references
  check_references_of_RootIn g i [] h = refl
  check_references_of_RootIn g i ([] ∷ refs) h = absurd h.0
  check_references_of_RootIn g i ((index_step key ∷ steps) ∷ refs) h = absurd h.0
  check_references_of_RootIn g i ((get_attr_step n ∷ steps) ∷ refs) h =
      let (r, e) = find_of_contains g.resources n h.0 in
      rw (e, check_references) (check_references_of_RootIn g (suc i) refs h.1)

  abbrev pub with_dependency : Graph V → Dependency V → Graph V
  with_dependency g dep = record g { dependencies = g.dependencies ++ dep ∷ [] }

  add_dependency_of_Resolves :
      (g : Graph V) (dep : Dependency V)
      → Resolves (names g.resources) dep
      → add_dependency g dep ≡ ok (with_dependency g dep)
  unfolding add_dependency
  add_dependency_of_Resolves g dep h =
      let (r, e) = find_of_contains g.resources dep.child h.0 in
      rw (e, add_dependency)
        (rw (check_references_of_RootIn g 0 (references dep.expression) h.1) refl)

  -- AddDependency succeeds with a graph exactly when the child and the first step of every reference
  -- name resources of the graph before, and the new graph is the old one with the dependency appended
  -- and nothing else changed.
  pub add_dependency_iff :
      (g g' : Graph V) (dep : Dependency V)
      → (add_dependency g dep ≡ ok g')
        ↔ (Resolves (names g.resources) dep × (g' ≡ with_dependency g dep))
  add_dependency_iff g g' dep = (
    λ h.
        let (resolves, same, appended) = add_dependency-eq-ok g g' dep h in
        (
          resolves,
          ap (λ rs. record g' { resources = rs }) same
              ∙ ap (λ ds. record g { dependencies = ds }) appended,
        ),
    λ (resolves, is). add_dependency_of_Resolves g dep resolves ∙ ap ok (sym is),
  )
