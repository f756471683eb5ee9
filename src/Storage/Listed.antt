-- ===== src/Storage/Listed.antt =====
-- storage/teststore/store.go: what ListResources returns.
use mathlib.Core.List.{Memᴰ}
use func.Prelude.{
  String, ◌≡◌, refl, sym, ap, subst, ◌∙◌, ◌↔◌, true, false, inl, inr, Bool-cases, none, some, List,
  [], ◌∷◌, map, arith, ◌==◌, eq_iff,
}
use func.Prelude.Maps.{GoMap, lookup, entry_of}
use func.Prelude.Sorting.{IsSorted, sort_by-IsSorted, sort_by-Mem}
use func.Reconciler.{Deployed}
use func.Storage.{Memory, inner, values_of, list_resources}
use func.Storage.Refines.{IsKeyed, Contents, Represents}

module _ {V : Type 0} where
  Mem-values :
      (m : List (String × Deployed V)) (r : Deployed V) (i : String)
      → entry_of m i ≡ some r
      → Memᴰ r (map (λ x. x.1) m)
  unfolding entry_of
  Mem-values [] r i h = cc
  Mem-values ((k, x) ∷ m) r i h = elim (Bool-cases (k == i)) [
    | inl is ↦ let e = rw is at h in let same : x ≡ r = cc in Memᴰ.head (sym same)
    | inr other ↦ Memᴰ.tail (Mem-values m r i (rw other at h))
  ]

  entry_of-Mem :
      (m : List (String × Deployed V)) (r : Deployed V)
      → IsKeyed (some m)
      → Memᴰ r (map (λ x. x.1) m)
      → entry_of m r.id ≡ some r
  unfolding entry_of
  entry_of-Mem [] r keyed mem = elim mem [ ]
  entry_of-Mem ((k, x) ∷ m) r (distinct, keys) (Memᴰ.head e) =
      let own : (k == k) ≡ true = ground (arith, eq_iff k k) in
      let key : k ≡ x.id = keys k x (rw own refl) in
      let is : (k == r.id) ≡ true = ground (arith, eq_iff k r.id, key, ap (λ q. q.id) e) in
      rw is (ap some (sym e))
  entry_of-Mem ((k, x) ∷ m) r (distinct, keys) (Memᴰ.tail mem) =
      let rest =
        entry_of-Mem m r
          (distinct.1, λ i q h. let other : (k == i) ≡ false = apart i q h in keys i q (rw other h))
          mem in
      rw (apart r.id r rest) rest
    where
      apart : (i : String) (q : Deployed V) → entry_of m i ≡ some q → (k == i) ≡ false
      apart i q h = elim (Bool-cases (k == i)) [
        | inl is ↦
            let same : k ≡ i = ground (arith, eq_iff k i) in
            let nothing = subst (λ n. entry_of m n ≡ none) same distinct.0 in cc
        | inr other ↦ other
      ]

  -- What a store that represents some contents lists for a project are the resources that it has for
  -- the project, each under its own ID, in the order of their IDs.
  pub list_resources-IsSorted :
      (s : Memory V) (c : Contents V) (project : String)
      → Represents s c
      → IsSorted (λ q. q.id) (list_resources s project)
        × ((r : Deployed V)
            → Memᴰ r (list_resources s project) ↔ (c.resource_of project r.id ≡ some r))
  unfolding list_resources values_of lookup
  list_resources-IsSorted s c project rep = (
    sort_by-IsSorted (λ q. q.id) (values_of (inner (lookup s.resources project))),
    λ r.
        let (there, back) =
          sort_by-Mem (λ q. q.id) r (values_of (inner (lookup s.resources project))) in
        let (into, out) = values (inner (lookup s.resources project)) r (rep.keyed project) in
        (
          λ m. sym (rep.same_resources project r.id) ∙ into (back m),
          λ h. there (out (rep.same_resources project r.id ∙ h)),
        ),
  )
    where
      values :
          (m : GoMap (Deployed V)) (r : Deployed V)
          → IsKeyed m
          → (Memᴰ r (values_of m) → lookup m r.id ≡ some r)
            × (lookup m r.id ≡ some r → Memᴰ r (values_of m))
      values none r keyed = (λ m. elim m [ ], λ h. cc)
      values (some m) r keyed = (entry_of-Mem m r keyed, Mem-values m r r.id)
