-- ===== src/Graph/Children.antt =====
-- resource/graph.go: leaves and children as members of the graph.
use func.Prelude.{
  String, ◌≡◌, refl, subst, Bool, map, sym, ap, ◌∙◌, inl, inr, true, false, some, List, [], ◌∷◌,
  ◌==◌, eq_iff, arith, All, Bool-cases,
}
use mathlib.Core.List.{Memᴰ}
use func.Prelude.Members.{contains, IsDistinct}
use func.Expression.{references}
use func.Graph.{Desired, Dependency, Graph, find, resource}
use func.Graph.Names.{names}
use func.Graph.Validity.{Resolves}
use func.Graph.Parents.{roots, needs}
use func.Graph.Leaves.{is_parent, childless}

module _ {V : Type 0} where
  pub Mem-childless :
      (ds : List (Dependency V)) (res : Desired V) (rs : List (Desired V))
      → is_parent ds res.name ≡ false
      → Memᴰ res rs
      → Memᴰ res (childless ds rs)
  unfolding childless
  Mem-childless ds res [] h m = elim m [ ]
  Mem-childless ds res (r ∷ rs) h (Memᴰ.head e) =
      let leaf : is_parent ds r.name ≡ false = ap (λ x. is_parent ds x.name) (sym e) ∙ h in
      rw leaf (Memᴰ.head e)
  Mem-childless ds res (r ∷ rs) h (Memᴰ.tail m) = elim (Bool-cases (is_parent ds r.name)) [
    | inl parent ↦ rw parent (Mem-childless ds res rs h m)
    | inr leaf ↦ rw leaf (Memᴰ.tail (Mem-childless ds res rs h m))
  ]

  -- A name that some dependency refers to has a child.
  pub child_of :
      (ns : List String) (ds : List (Dependency V)) (n : String)
      → All (Resolves ns) ds
      → is_parent ds n ≡ true
      → (child : String) × (needs ds child n ≡ true) × (contains child ns ≡ true)
  unfolding is_parent needs
  child_of ns [] n h p = cc
  child_of ns (d ∷ ds) n h p = elim (Bool-cases (contains n (roots (references d.expression)))) [
    | inl here ↦ (d.child, ground (arith, eq_iff d.child d.child), h.0.0)
    | inr other ↦
        let (child, need, known) = child_of ns ds n h.1 (ground arith) in
        (child, ground arith, known)
  ]

  pub Mem_of_find :
      (rs : List (Desired V)) (n : String) {r : Desired V} → find rs n ≡ some r → Memᴰ r rs
  unfolding find
  Mem_of_find [] n h = cc
  Mem_of_find (x ∷ rs) n h = elim (Bool-cases (x.name == n)) [
    | inl same ↦ Memᴰ.head (let e = rw same at h in cc)
    | inr other ↦ Memᴰ.tail (Mem_of_find rs n (rw other at h))
  ]

  pub Mem_of_childless :
      (ds : List (Dependency V)) (res : Desired V) (rs : List (Desired V))
      → Memᴰ res (childless ds rs)
      → Memᴰ res rs
  unfolding childless
  Mem_of_childless ds res [] m = elim m [ ]
  Mem_of_childless ds res (r ∷ rs) m = elim (Bool-cases (is_parent ds r.name)) [
    | inl parent ↦ Memᴰ.tail (Mem_of_childless ds res rs (rw (parent, childless) at m))
    | inr leaf ↦ head_or_tail ds res r rs (Mem_of_childless ds res rs) (rw (leaf, childless) at m)
  ]
    where
      head_or_tail :
          (ds : List (Dependency V)) (res r : Desired V) (rs : List (Desired V))
          → (Memᴰ res (childless ds rs) → Memᴰ res rs)
          → Memᴰ res (r ∷ childless ds rs)
          → Memᴰ res (r ∷ rs)
      head_or_tail ds res r rs below (Memᴰ.head e) = Memᴰ.head e
      head_or_tail ds res r rs below (Memᴰ.tail m) = Memᴰ.tail (below m)

  contains_of_Mem :
      (rs : List (Desired V)) (res : Desired V) → Memᴰ res rs → contains res.name (names rs) ≡ true
  unfolding contains
  contains_of_Mem [] res m = elim m [ ]
  contains_of_Mem (r ∷ rs) res (Memᴰ.head e) =
      let n : res.name ≡ r.name = ap (λ x. x.name) e in ground (arith, eq_iff r.name res.name)
  contains_of_Mem (r ∷ rs) res (Memᴰ.tail m) = ground (arith, contains_of_Mem rs res m)

  -- Among resources of distinct names each is found under its own.
  pub find_of_Mem :
      (rs : List (Desired V)) (res : Desired V)
      → IsDistinct (names rs)
      → Memᴰ res rs
      → find rs res.name ≡ some res
  unfolding find
  find_of_Mem [] res d m = elim m [ ]
  find_of_Mem (r ∷ rs) res d (Memᴰ.head e) =
      subst (λ x. find (x ∷ rs) res.name ≡ some res) e (rw ((eq_iff res.name res.name).1 refl) refl)
  find_of_Mem (r ∷ rs) res d (Memᴰ.tail m) = elim (Bool-cases (r.name == res.name)) [
    | inl same ↦
        let there : contains r.name (names rs) ≡ true =
          ap (λ n. contains n (names rs)) ((eq_iff r.name res.name).0 same)
          ∙ contains_of_Mem rs res m in
        absurd (clash there d.0)
    | inr other ↦ rw other (find_of_Mem rs res d.1 m)
  ]
    where
      clash : {b : Bool} → b ≡ true → b ≡ false → ⊥
      clash h k = cc

  -- What is returned as a parent is the resource of its name.
  pub present_of_Mem :
      (g : Graph V) (res : Desired V) (ps : List (Desired V))
      → All (λ p. resource g p.name ≡ some p) ps
      → Memᴰ (some res) (map some ps)
      → resource g res.name ≡ some res
  present_of_Mem g res [] all m = elim m [ ]
  present_of_Mem g res (p ∷ ps) all (Memᴰ.head e) =
      let same : res ≡ p = cc in subst (λ x. resource g x.name ≡ some x) (sym same) all.0
  present_of_Mem g res (p ∷ ps) all (Memᴰ.tail m) = present_of_Mem g res ps all.1 m
