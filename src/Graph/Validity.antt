-- ===== src/Graph/Validity.antt =====
-- resource/graph.go: what AddResource and AddDependency establish and keep.
use func.Prelude.{
  ℕ, suc, String, ◌≡◌, ap, ◌∙◌, true, false, List, [], ◌∷◌, ◌++◌, arith, ◌==◌, inl, inr, All,
  All-append, All-map, ok, >>=-eq-ok,
}
use func.Prelude.Members.{contains, contains-append, IsDistinct, IsDistinct-snoc}
use func.Cty.{CtyPath, get_attr_step, index_step}
use func.Expression.{references}
use func.Graph.{Desired, Dependency, Graph, empty, add_resource, add_dependency, check_references}
use func.Graph.Names.{names, names-append, find-eq-none, find_cases}

module _ {V : Type 0} where
  -- The path begins with a name of the list.
  abbrev pub RootIn : List String → CtyPath V → Type 0
  RootIn ns (get_attr_step n ∷ steps) = contains n ns ≡ true
  RootIn ns (index_step key ∷ steps) = ⊥
  RootIn ns [] = ⊥

  abbrev pub Resolves : List String → Dependency V → Type 0
  Resolves ns d = (contains d.child ns ≡ true) × All (RootIn ns) (references d.expression)

  abbrev pub IsNamed : Desired V → Type 0
  IsNamed r = ((r.name == "") ≡ false) × ((r.typename == "") ≡ false)

  -- Every resource has a name of its own and a type, and every dependency goes from a resource of
  -- the graph to resources of the graph.
  pub record IsValid (g : Graph V) : Type 0 where
    pub named : All IsNamed g.resources
    pub distinct : IsDistinct (names g.resources)
    pub resolved : All (Resolves (names g.resources)) g.dependencies

  RootIn-append : (ns ms : List String) (p : CtyPath V) → RootIn ns p → RootIn (ns ++ ms) p
  RootIn-append ns ms (get_attr_step n ∷ steps) h = ground (arith, contains-append n ns ms)
  RootIn-append ns ms (index_step key ∷ steps) h = h
  RootIn-append ns ms [] h = h

  Resolves-append : (ns ms : List String) (d : Dependency V) → Resolves ns d → Resolves (ns ++ ms) d
  Resolves-append ns ms d h = (
    ground (arith, contains-append d.child ns ms),
    All-map (RootIn ns) (RootIn (ns ++ ms)) (RootIn-append ns ms) (references d.expression) h.1,
  )

  pub IsValid-empty : IsValid (empty {V = V})
  IsValid-empty = record { named = tt; distinct = tt; resolved = tt }

  -- What a successful AddResource has checked and done.
  pub add_resource-eq-ok :
      (g g' : Graph V) (res : Desired V)
      → add_resource g res ≡ ok g'
      → IsNamed res
        × (contains res.name (names g.resources) ≡ false)
        × (g'.resources ≡ g.resources ++ res ∷ [])
        × (g'.dependencies ≡ g.dependencies)
  unfolding add_resource
  add_resource-eq-ok g g' res h = ground (arith, find-eq-none g.resources res.name)

  -- A resource that AddResource accepts keeps the graph valid.
  pub add_resource-IsValid :
      {g g' : Graph V} (res : Desired V) → IsValid g → add_resource g res ≡ ok g' → IsValid g'
  add_resource-IsValid {g} {g'} res v h =
      let (named, fresh, rs, ds) = add_resource-eq-ok g g' res h in
      let ns : names g'.resources ≡ names g.resources ++ res.name ∷ [] =
        ap names rs ∙ names-append g.resources (res ∷ []) in
      record {
        named = rw rs (All-append IsNamed g.resources (res ∷ []) v.named (named, tt));
        distinct = rw ns (IsDistinct-snoc (names g.resources) res.name v.distinct fresh);
        resolved =
            rw (ds, ns)
              (All-map (Resolves (names g.resources))
                (Resolves (names g.resources ++ res.name ∷ []))
                (Resolves-append (names g.resources) (res.name ∷ [])) g.dependencies v.resolved);
      }

  check_references-RootIn :
      (g : Graph V) (i : ℕ) (refs : List (CtyPath V))
      → check_references g i refs ≡ ok tt
      → All (RootIn (names g.resources)) refs
  unfolding check_references
  check_references-RootIn g i [] h = tt
  check_references-RootIn g i ([] ∷ refs) h = cc
  check_references-RootIn g i ((index_step key ∷ steps) ∷ refs) h = cc
  check_references-RootIn g i ((get_attr_step n ∷ steps) ∷ refs) h =
      elim (find_cases g.resources n) [
        | inl (e, _) ↦ cc (rw (e, check_references) at h)
        | inr (r, e, c, _) ↦
            (c, check_references-RootIn g (suc i) refs (rw (e, check_references) at h))
      ]

  -- What a successful AddDependency has checked and done.
  pub add_dependency-eq-ok :
      (g g' : Graph V) (dep : Dependency V)
      → add_dependency g dep ≡ ok g'
      → Resolves (names g.resources) dep
        × (g'.resources ≡ g.resources)
        × (g'.dependencies ≡ g.dependencies ++ dep ∷ [])
  unfolding add_dependency
  add_dependency-eq-ok g g' dep h = elim (find_cases g.resources dep.child) [
    | inl (e, _) ↦ cc (rw (e, add_dependency) at h)
    | inr (r, e, c, _) ↦
        let (u, checked, added) =
          >>=-eq-ok (check_references g 0 (references dep.expression)) _
            (rw (e, add_dependency) at h) in
        (
          (c, check_references-RootIn g 0 (references dep.expression) checked),
          ground arith,
          ground arith,
        )
  ]

  -- A dependency that AddDependency accepts keeps the graph valid.
  pub add_dependency-IsValid :
      {g g' : Graph V} (dep : Dependency V) → IsValid g → add_dependency g dep ≡ ok g' → IsValid g'
  add_dependency-IsValid {g} {g'} dep v h =
      let (resolves, rs, ds) = add_dependency-eq-ok g g' dep h in
      record {
        named = rw rs v.named;
        distinct = rw rs v.distinct;
        resolved =
            rw (ds, rs)
              (All-append (Resolves (names g.resources)) g.dependencies (dep ∷ []) v.resolved
                (resolves, tt));
      }
