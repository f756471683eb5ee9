-- ===== src/Graph/Parents.antt =====
-- resource/graph.go: ParentResources against its description.
use func.Prelude.{
  String, ◌≡◌, refl, sym, ap, ◌∙◌, Bool, true, false, some, List, [], ◌∷◌, ◌++◌, map, arith, ◌==◌,
  eq_iff, ◌&&◌, ◌||◌, Bool-cases, inl, inr, All, All-append, ok, map_result,
}
use func.Prelude.Members.{contains, contains-append, IsDistinct, IsDistinct-snoc}
use func.Cty.{CtyPath, get_attr_step, index_step}
use func.Expression.{references}
use func.Graph.{
  Desired, Dependency, Graph, Collected, resource, root_name, parents, add_parents,
  scan_dependencies, parent_resources,
}
use func.Graph.Names.{names, names-append, find_cases}
use func.Graph.Validity.{RootIn, Resolves, IsValid}

module _ {V : Type 0} where
  -- The first names of the references.
  unfoldable pub roots : List (CtyPath V) → List String
  roots [] = []
  roots ((get_attr_step n ∷ steps) ∷ refs) = n ∷ roots refs
  roots ((index_step key ∷ steps) ∷ refs) = roots refs
  roots ([] ∷ refs) = roots refs

  -- Some dependency of the child refers to the name.
  unfoldable pub needs : List (Dependency V) → String → String → Bool
  needs [] child n = false
  needs (d ∷ ds) child n =
      (d.child == child && contains n (roots (references d.expression))) || needs ds child n

  root_names :
      (ns : List String) (refs : List (CtyPath V))
      → All (RootIn ns) refs
      → (map_result root_name refs ≡ ok (roots refs)) × All (λ n. contains n ns ≡ true) (roots refs)
  unfolding root_name roots
  root_names ns [] h = (refl, tt)
  root_names ns ([] ∷ refs) h = absurd h.0
  root_names ns ((index_step key ∷ steps) ∷ refs) h = absurd h.0
  root_names ns ((get_attr_step n ∷ steps) ∷ refs) h =
      let (e, all) = root_names ns refs h.1 in (rw e refl, (h.0, all))

  pub parents-eq-roots :
      (ns : List String) (d : Dependency V)
      → Resolves ns d
      → (parents d ≡ ok (roots (references d.expression)))
        × All (λ n. contains n ns ≡ true) (roots (references d.expression))
  unfolding parents
  parents-eq-roots ns d h = root_names ns (references d.expression) h.1

  -- The loops hold distinct resources of the graph, and the names of these in `added`.
  record IsCollected (g : Graph V) (acc : Collected V) : Type 0 where
    distinct : IsDistinct acc.added
    ps : List (Desired V)
    found : acc.found ≡ map some ps
    added : acc.added ≡ names ps
    present : All (λ p. resource g p.name ≡ some p) ps

  map-append_some : (ps qs : List (Desired V)) → map some (ps ++ qs) ≡ map some ps ++ map some qs
  map-append_some [] qs = refl
  map-append_some (p ∷ ps) qs = ap (λ l. some p ∷ l) (map-append_some ps qs)

  abbrev collect : Graph V → Collected V → String → Collected V
  collect g acc n = record { found = acc.found ++ resource g n ∷ []; added = acc.added ++ n ∷ [] }

  IsCollected-snoc :
      (g : Graph V) (acc : Collected V) (n : String)
      → IsCollected g acc
      → contains n acc.added ≡ false
      → contains n (names g.resources) ≡ true
      → IsCollected g (collect g acc n)
  IsCollected-snoc g acc n c fresh has = elim (find_cases g.resources n) [
    | inl (_, lacks) ↦ cc
    | inr (p, e, _, named) ↦ record {
      distinct = IsDistinct-snoc acc.added n c.distinct fresh;
      ps = c.ps ++ p ∷ [];
      found = rw (e, c.found) (sym (map-append_some c.ps (p ∷ [])));
      added = rw (c.added, ← named) (sym (names-append c.ps (p ∷ [])));
      present =
          All-append (λ q. resource g q.name ≡ some q) c.ps (p ∷ []) c.present
            (ap (resource g) named ∙ e, tt);
    }
  ]

  add_parents-IsCollected :
      (g : Graph V) (acc : Collected V) (ns : List String)
      → IsCollected g acc
      → All (λ n. contains n (names g.resources) ≡ true) ns
      → IsCollected g (add_parents g acc ns)
        × ((m : String)
            → contains m (add_parents g acc ns).added ≡ (contains m acc.added || contains m ns))
  unfolding add_parents contains
  add_parents-IsCollected g acc [] c h = (c, λ m. ground arith)
  add_parents-IsCollected g acc (n ∷ ns) c h = elim (Bool-cases (contains n acc.added)) [
    | inl old ↦
        let (c', e) = add_parents-IsCollected g acc ns c h.1 in
        rw old (c', λ m. ground (arith, e m, eq_iff n m))
    | inr new ↦
        let (c', e) =
          add_parents-IsCollected g (collect g acc n) ns (IsCollected-snoc g acc n c new h.0) h.1 in
        rw new (c', λ m. ground (arith, e m, contains-append m acc.added (n ∷ [])))
  ]

  scan_dependencies-IsCollected :
      (g : Graph V) (child : String) (acc : Collected V) (ds : List (Dependency V))
      → IsCollected g acc
      → All (Resolves (names g.resources)) ds
      → (acc' : Collected V) × (scan_dependencies g child acc ds ≡ ok acc')
        × IsCollected g acc'
        × ((m : String) → contains m acc'.added ≡ (contains m acc.added || needs ds child m))
  unfolding scan_dependencies needs
  scan_dependencies-IsCollected g child acc [] c h = (acc, refl, c, λ m. ground arith)
  scan_dependencies-IsCollected g child acc (d ∷ ds) c h = elim (Bool-cases (d.child == child)) [
    | inl mine ↦
        let (e, known) = parents-eq-roots (names g.resources) d h.0 in
        let (c', added) = add_parents-IsCollected g acc (roots (references d.expression)) c known in
        let (acc', scanned, c'', all) =
          scan_dependencies-IsCollected g child
            (add_parents g acc (roots (references d.expression))) ds c' h.1 in
        (acc', rw mine (rw e scanned), c'', λ m. ground (arith, all m, added m))
    | inr other ↦
        let (acc', scanned, c', all) = scan_dependencies-IsCollected g child acc ds c h.1 in
        (acc', rw other scanned, c', λ m. ground (arith, all m))
  ]

  -- What ParentResources returns for a child: resources of the graph, with no nil among them, each
  -- once, and exactly those that some dependency of the child refers to.
  pub record IsParents (g : Graph V) (child : String) (ps : List (Desired V)) : Type 0 where
    pub returned : parent_resources g child ≡ ok (map some ps)
    pub distinct : IsDistinct (names ps)
    pub present : All (λ p. resource g p.name ≡ some p) ps
    pub exact : (n : String) → contains n (names ps) ≡ needs g.dependencies child n

  -- In a valid graph ParentResources does not panic, and returns the resources that IsParents
  -- describes.
  pub parent_resources-IsParents :
      (g : Graph V) (child : String) → IsValid g → (ps : List (Desired V)) × IsParents g child ps
  unfolding parent_resources contains
  parent_resources-IsParents g child v =
      let start : IsCollected g (record { found = []; added = [] }) = record {
        distinct = tt;
        ps = [];
        found = refl;
        added = refl;
        present = tt;
      } in
      let (acc, scanned, c, all) =
        scan_dependencies-IsCollected g child _ g.dependencies start v.resolved in
      (
        c.ps,
        record {
          returned = rw scanned (rw c.found refl);
          distinct = rw c.added at c.distinct;
          present = c.present;
          exact = λ n. rw c.added at (all n);
        },
      )
