-- ===== src/Graph/Leaves.antt =====
-- resource/graph.go: LeafResources against its description.
use func.Prelude.{
  String, ◌≡◌, refl, ap, Bool, true, false, List, [], ◌∷◌, ◌++◌, arith, eq_iff, ◌||◌, Bool-cases,
  inl, inr, All, ok, if◌then◌else◌, length, ltb,
}
use func.Prelude.Members.{
  contains, contains-append, IsDistinct, IsDistinct-snoc, Within, length-le-length_of_Within,
}
use func.Expression.{references}
use func.Graph.{Desired, Dependency, Graph, mark_names, mark_parents, unmarked, leaf_resources}
use func.Graph.Names.{names, length-names}
use func.Graph.Validity.{Resolves, IsValid}
use func.Graph.Parents.{roots, parents-eq-roots}

-- The names that the marking holds: distinct ones, all of them of the given list.
record IsMarking (ns marked : List String) : Type 0 where
  distinct : IsDistinct marked
  within : Within marked ns

Within-snoc :
    (ms ns : List String) (n : String)
    → Within ms ns
    → contains n ns ≡ true
    → Within (ms ++ n ∷ []) ns
Within-snoc [] ns n w h = (h, tt)
Within-snoc (m ∷ ms) ns n w h = (w.0, Within-snoc ms ns n w.1 h)

mark_names-IsMarking :
    (ns marked new : List String)
    → IsMarking ns marked
    → All (λ n. contains n ns ≡ true) new
    → IsMarking ns (mark_names marked new)
      × ((m : String) → contains m (mark_names marked new) ≡ (contains m marked || contains m new))
unfolding mark_names contains
mark_names-IsMarking ns marked [] k h = (k, λ m. ground arith)
mark_names-IsMarking ns marked (n ∷ new) k h = elim (Bool-cases (contains n marked)) [
  | inl old ↦
      let (k', e) = mark_names-IsMarking ns marked new k h.1 in
      rw old (k', λ m. ground (arith, e m, eq_iff n m))
  | inr fresh ↦
      let grown : IsMarking ns (marked ++ n ∷ []) = record {
        distinct = IsDistinct-snoc marked n k.distinct fresh;
        within = Within-snoc marked ns n k.within h.0;
      } in
      let (k', e) = mark_names-IsMarking ns (marked ++ n ∷ []) new grown h.1 in
      rw fresh (k', λ m. ground (arith, e m, contains-append m marked (n ∷ [])))
]

module _ {V : Type 0} where
  -- Some dependency refers to the name.
  unfoldable pub is_parent : List (Dependency V) → String → Bool
  is_parent [] n = false
  is_parent (d ∷ ds) n = contains n (roots (references d.expression)) || is_parent ds n

  mark_parents-IsMarking :
      (ns marked : List String) (ds : List (Dependency V))
      → IsMarking ns marked
      → All (Resolves ns) ds
      → (marked' : List String) × (mark_parents marked ds ≡ ok marked')
        × IsMarking ns marked'
        × ((m : String) → contains m marked' ≡ (contains m marked || is_parent ds m))
  unfolding mark_parents is_parent
  mark_parents-IsMarking ns marked [] k h = (marked, refl, k, λ m. ground arith)
  mark_parents-IsMarking ns marked (d ∷ ds) k h =
      let (e, known) = parents-eq-roots ns d h.0 in
      let (k', new) = mark_names-IsMarking ns marked (roots (references d.expression)) k known in
      let (marked', done, k'', all) =
        mark_parents-IsMarking ns (mark_names marked (roots (references d.expression))) ds k' h.1 in
      (marked', rw e done, k'', λ m. ground (arith, all m, new m))

  -- The resources that no dependency refers to, in their order.
  unfoldable pub childless : List (Dependency V) → List (Desired V) → List (Desired V)
  childless ds [] = []
  childless ds (r ∷ rs) =
      let rest = childless ds rs in if is_parent ds r.name then rest else r ∷ rest

  unmarked-eq-childless :
      (ds : List (Dependency V)) (marked : List String) (rs : List (Desired V))
      → ((m : String) → contains m marked ≡ is_parent ds m)
      → unmarked marked rs ≡ childless ds rs
  unfolding unmarked childless
  unmarked-eq-childless ds marked [] h = refl
  unmarked-eq-childless ds marked (r ∷ rs) h =
      ground (arith, h r.name, unmarked-eq-childless ds marked rs h)

  -- In a valid graph LeafResources does not panic, its slice capacity being at least zero, and
  -- returns exactly the resources that no dependency refers to.
  pub leaf_resources-eq-childless :
      (g : Graph V) → IsValid g → leaf_resources g ≡ ok (childless g.dependencies g.resources)
  unfolding leaf_resources contains
  leaf_resources-eq-childless g v =
      let start : IsMarking (names g.resources) [] = record { distinct = tt; within = tt } in
      let (marked, done, k, all) =
        mark_parents-IsMarking (names g.resources) [] g.dependencies start v.resolved in
      let fits = length-le-length_of_Within marked (names g.resources) k.distinct k.within in
      let room : ltb (length g.resources) (length marked) ≡ false =
        ground (arith, fits, length-names g.resources) in
      rw done (rw room (ap ok (unmarked-eq-childless g.dependencies marked g.resources all)))
