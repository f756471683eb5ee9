-- ===== src/Storage/Refines.antt =====
-- storage/teststore/store.go: the store is a map from projects and IDs to resources.
use func.Prelude.{
  String, ◌≡◌, refl, sym, ap, subst, ◌∙◌, inl, inr, Bool-cases, Option, none, some, List, [], ◌∷◌,
  Result, ok, err, panic, ◌>>=◌, arith, ◌==◌, eq_iff, if◌then◌else◌,
}
use func.Prelude.Maps.{
  GoMap, lookup, assign, remove, made, entry_of, put_entry, drop_entry, AreDistinct,
  entry_of-put_entry, put_entry-AreDistinct, entry_of-drop_entry, drop_entry-AreDistinct,
}
use func.Graph.{Graph}
use func.Reconciler.{Deployed}
use func.Storage.{
  Memory, StoreError, not_stored, inner, empty_memory, project_map, put_resource, put_resources,
  delete_resource, put_graph, get_graph,
}

-- A method that changes the store.
pub data Method (V : Type 0) : Type 0 where
  put delete : String → Deployed V → Method V
  seed : String → List (Deployed V) → Method V
  put_project_graph : String → Graph V → Method V

-- What a store promises: the resource of a project and an ID, and the graph of a project.
pub record Contents (V : Type 0) : Type 0 where
  pub resource_of : String → String → Option (Deployed V)
  pub graph_of : String → Option (Graph V)

made-lookup :
    {A : Type 0} (x : GoMap A)
    → (m : List (String × A)) × (made x ≡ some m) × ((n : String) → entry_of m n ≡ lookup x n)
unfolding made lookup entry_of
made-lookup none = ([], refl, λ n. refl)
made-lookup (some m) = (m, refl, λ n. refl)

module _ {V : Type 0} where
  unfoldable pub call : Memory V → Method V → Result StoreError (Memory V)
  call s (put project res) = put_resource s project res
  call s (delete project res) = delete_resource s project res
  call s (seed project rs) = put_resources s project rs
  call s (put_project_graph project g) = put_graph s project g

  abbrev with_stored : Contents V → String → Deployed V → Contents V
  with_stored c project res = record c {
    resource_of = λ p i.
        if project == p
        then if res.id == i then some res else c.resource_of p i
        else c.resource_of p i;
  }

  abbrev with_all_stored : Contents V → String → List (Deployed V) → Contents V
  with_all_stored c project [] = c
  with_all_stored c project (res ∷ rs) = with_all_stored (with_stored c project res) project rs

  abbrev without : Contents V → String → String → Contents V
  without c project id = record c {
    resource_of = λ p i.
        if project == p then if id == i then none else c.resource_of p i else c.resource_of p i;
  }

  -- The contents that the comments of the methods promise. Deleting a resource that does not exist
  -- changes nothing.
  abbrev pub promised : Contents V → Method V → Contents V
  promised c (put project res) = with_stored c project res
  promised c (seed project rs) = with_all_stored c project rs
  promised c (put_project_graph project g) = record c {
    graph_of = λ p. if project == p then some g else c.graph_of p;
  }
  promised c (delete project res) = without c project res.id

  -- The method deletes a resource that does not exist.
  abbrev pub DeletesMissing : Contents V → Method V → Type 0
  DeletesMissing c (delete project res) = c.resource_of project res.id ≡ none
  DeletesMissing c m = ⊥

  -- The resource that the maps have for a project and an ID.
  abbrev pub stored_at : Memory V → String → String → Option (Deployed V)
  stored_at s project id = lookup (inner (lookup s.resources project)) id

  -- Every key of a map stands once, and a resource stands under its ID.
  abbrev pub IsKeyed : GoMap (Deployed V) → Type 0
  IsKeyed none = Unit
  IsKeyed (some m) =
      AreDistinct m × ((i : String) (r : Deployed V) → entry_of m i ≡ some r → i ≡ r.id)

  pub record Represents (s : Memory V) (c : Contents V) : Type 0 where
    pub same_resources : (p i : String) → stored_at s p i ≡ c.resource_of p i
    pub same_graphs : (p : String) → get_graph s p ≡ c.graph_of p
    pub keyed : (p : String) → IsKeyed (inner (lookup s.resources p))

  -- Two results agree: both are new states of which the first represents the second, or both are the
  -- same error.
  abbrev pub Agrees : Result StoreError (Memory V) → Result StoreError (Contents V) → Type 0
  Agrees (ok s) (ok c) = Represents s c
  Agrees (err e) (err f) = e ≡ f
  Agrees r q = ⊥

  made-IsKeyed : (x : GoMap (Deployed V)) → IsKeyed x → IsKeyed (made x)
  unfolding made entry_of
  made-IsKeyed none k = (tt, λ i r h. cc)
  made-IsKeyed (some m) k = k

  put_entry-IsKeyed :
      (m : List (String × Deployed V)) (res : Deployed V)
      → IsKeyed (some m)
      → IsKeyed (some (put_entry m res.id res))
  put_entry-IsKeyed m res (distinct, keys) = (
    put_entry-AreDistinct m res.id res distinct,
    λ i r h.
        let h' = sym (entry_of-put_entry m res.id res i) ∙ h in
        elim (Bool-cases (res.id == i)) [
          | inl is ↦
              let e = rw is at h' in
              let same : res ≡ r = cc in
              let key : res.id ≡ i = ground (arith, eq_iff res.id i) in
              sym key ∙ ap (λ r. r.id) same
          | inr other ↦ keys i r (rw other at h')
        ],
  )

  drop_entry-IsKeyed :
      (m : List (String × Deployed V)) (id : String)
      → IsKeyed (some m)
      → IsKeyed (some (drop_entry m id))
  drop_entry-IsKeyed m id (distinct, keys) = (
    drop_entry-AreDistinct m id distinct,
    λ i r h.
        let h' = sym (entry_of-drop_entry m id i distinct) ∙ h in
        elim (Bool-cases (id == i)) [
          | inl is ↦ cc (rw is at h')
          | inr other ↦ keys i r (rw other at h')
        ],
  )

  -- The maps after the map of one project has been replaced.
  module _ (s : Memory V) (c : Contents V) (rep : Represents s c) (project : String)
      (m : List (String × Deployed V)) (all all' : List (String × GoMap (Deployed V)))
      (before : (p : String) → entry_of all p ≡ lookup s.resources p)
      (after : all' ≡ put_entry all project (some m)) (keyed : IsKeyed (some m)) where
    replaced-lookup :
        (p : String)
        → lookup (some all') p ≡ (if project == p then some (some m) else lookup s.resources p)
    unfolding lookup
    replaced-lookup p = rw (after, entry_of-put_entry all project (some m) p, before p) refl

    replaced-Represents :
        (contents : String → String → Option (Deployed V))
        → ((p i : String)
            → contents p i ≡ (if project == p then entry_of m i else c.resource_of p i))
        → Represents (record s { resources = some all' }) (record c { resource_of = contents })
    unfolding inner lookup get_graph
    replaced-Represents contents h = record {
      same_resources = λ p i. elim (Bool-cases (project == p)) [
        | inl is ↦ rw (h p i, after, entry_of-put_entry all project (some m) p) (rw is refl)
        | inr other ↦
            rw (h p i, after, entry_of-put_entry all project (some m) p, before p)
              (rw other (rep.same_resources p i))
      ];
      same_graphs = rep.same_graphs;
      keyed = λ p. elim (Bool-cases (project == p)) [
        | inl is ↦ rw (after, entry_of-put_entry all project (some m) p) (rw is keyed)
        | inr other ↦
            rw (after, entry_of-put_entry all project (some m) p, before p) (rw other (rep.keyed p))
      ];
    }

  module _ (s : Memory V) (c : Contents V) (rep : Represents s c) where
    put_resource-Represents :
        (project : String) (res : Deployed V)
        → Agrees (put_resource s project res) (ok (with_stored c project res))
    unfolding put_resource project_map assign
    put_resource-Represents project res =
        let (m, made_m, same_m) = made-lookup (inner (lookup s.resources project)) in
        let (all, made_all, same_all) = made-lookup s.resources in
        let keyed : IsKeyed (some m) =
          subst IsKeyed made_m
            (made-IsKeyed (inner (lookup s.resources project)) (rep.keyed project)) in
        rw (made_m, made_all)
          (replaced-Represents s c rep project (put_entry m res.id res) all
            (put_entry all project (some (put_entry m res.id res))) same_all refl
            (put_entry-IsKeyed m res keyed) _
            (λ p i. elim (Bool-cases (project == p)) [
              | inl is ↦
                  let key : project ≡ p = ground (arith, eq_iff project p) in
                  let old =
                    same_m i ∙ rep.same_resources project i ∙ ap (λ p. c.resource_of p i) key in
                  rw (entry_of-put_entry m res.id res i, old) (rw is refl)
              | inr other ↦ rw other refl
            ]))

    drop_stored :
        (project id : String) (r : Deployed V)
        → stored_at s project id ≡ some r
        → Agrees
            (assign s.resources project (remove (inner (lookup s.resources project)) id)
              >>= λ resources. ok (record s { resources = resources }))
            (ok (without c project id))
    unfolding assign remove lookup inner
    drop_stored project id r e = go s.resources refl (inner (lookup s.resources project)) refl
      where
        go :
            (x : GoMap (GoMap (Deployed V)))
            → s.resources ≡ x
            → (y : GoMap (Deployed V)) → inner (lookup s.resources project) ≡ y
            → Agrees
                (assign x project (remove y id) >>= λ resources.
                  ok (record s { resources = resources }))
                (ok (without c project id))
        go none xe y ye = let h = rw xe at e in cc
        go (some all) xe none ye = let h = rw ye at e in cc
        go (some all) xe (some m) ye =
            let keyed : IsKeyed (some m) = subst IsKeyed ye (rep.keyed project) in
            replaced-Represents s c rep project (drop_entry m id) all
              (put_entry all project (some (drop_entry m id))) (λ p. ap (λ x. lookup x p) (sym xe))
              refl (drop_entry-IsKeyed m id keyed) _
              (λ p i. elim (Bool-cases (project == p)) [
                | inl is ↦
                    let key : project ≡ p = ground (arith, eq_iff project p) in
                    let old =
                      ap (λ y. lookup y i) (sym ye)
                      ∙ rep.same_resources project i
                      ∙ ap (λ p. c.resource_of p i) key in
                    rw (entry_of-drop_entry m id i keyed.0, old) (rw is refl)
                | inr other ↦ rw other refl
              ])

    delete_resource-Represents :
        (project : String) (res r : Deployed V)
        → stored_at s project res.id ≡ some r
        → Agrees (delete_resource s project res) (ok (without c project res.id))
    unfolding delete_resource
    delete_resource-Represents project res r e =
        rw (e, delete_resource) (drop_stored project res.id r e)

    delete_resource-missing :
        (project : String) (res : Deployed V)
        → stored_at s project res.id ≡ none
        → delete_resource s project res ≡ err (not_stored res.id project)
    unfolding delete_resource
    delete_resource-missing project res e = rw (e, delete_resource) refl

    put_graph-Represents :
        (project : String) (g : Graph V)
        → Agrees (put_graph s project g) (ok (promised c (put_project_graph project g)))
    unfolding put_graph assign get_graph lookup
    put_graph-Represents project g =
        let (all, made_all, same_all) = made-lookup s.graphs in
        rw made_all record {
          same_resources = rep.same_resources;
          same_graphs =
              λ p. entry_of-put_entry all project g p ∙ rw (same_all p ∙ rep.same_graphs p) refl;
          keyed = rep.keyed;
        }

  pub put_resources-Represents :
      (s : Memory V) (c : Contents V) (project : String) (rs : List (Deployed V))
      → Represents s c
      → Agrees (put_resources s project rs) (ok (with_all_stored c project rs))
  unfolding put_resources
  put_resources-Represents s c project [] rep = rep
  put_resources-Represents s c project (res ∷ rs) rep =
      go (put_resource s project res) (put_resource-Represents s c rep project res)
        (λ t. put_resources-Represents t (with_stored c project res) project rs)
    where
      go :
          (r : Result StoreError (Memory V))
          → Agrees r (ok (with_stored c project res))
          → ((t : Memory V)
              → Represents t (with_stored c project res)
              → Agrees
                  (put_resources t project rs)
                  (ok (with_all_stored (with_stored c project res) project rs)))
          → Agrees
              (r >>= λ t. put_resources t project rs)
              (ok (with_all_stored (with_stored c project res) project rs))
      go (ok t) agrees rest = rest t agrees
      go (err e) agrees rest = agrees
      go panic agrees rest = agrees

  pub empty_memory-Represents :
      Represents empty_memory (record { resource_of = λ p i. none; graph_of = λ p. none })
  unfolding lookup inner get_graph
  empty_memory-Represents = record {
    same_resources = λ p i. refl;
    same_graphs = λ p. refl;
    keyed = λ p. tt;
  }

  -- How a method on a store goes, against what is promised of the contents that it represents.
  pub data Performs (s : Memory V) (c : Contents V) (m : Method V) : Type 0 where
    performed :
        (t : Memory V)
        → ¬ DeletesMissing c m
        → call s m ≡ ok t
        → Represents t (promised c m)
        → Performs s c m
    refused :
        (project : String) (res : Deployed V)
        → m ≡ delete project res
        → c.resource_of project res.id ≡ none
        → call s m ≡ err (not_stored res.id project)
        → Performs s c m

  performed_of_Agrees :
      (s : Memory V) (c : Contents V) (m : Method V) (r : Result StoreError (Memory V))
      → ¬ DeletesMissing c m
      → call s m ≡ r
      → Agrees r (ok (promised c m))
      → Performs s c m
  performed_of_Agrees s c m (ok t) exists e agrees = performed t exists e agrees
  performed_of_Agrees s c m (err x) exists e agrees = absurd agrees
  performed_of_Agrees s c m panic exists e agrees = absurd agrees

  -- A method on a store that represents some contents never panics. It succeeds, with a store that
  -- represents the contents that the comment of the method promises, with one exception: where the
  -- comment of DeleteResource promises that deleting a resource that does not exist does nothing, it
  -- returns an error.
  pub call-Performs :
      (s : Memory V) (c : Contents V) (m : Method V) → Represents s c → Performs s c m
  unfolding call
  call-Performs s c (put project res) rep =
      performed_of_Agrees s c (put project res) _ (λ h. h) refl
        (put_resource-Represents s c rep project res)
  call-Performs s c (seed project rs) rep =
      performed_of_Agrees s c (seed project rs) _ (λ h. h) refl
        (put_resources-Represents s c project rs rep)
  call-Performs s c (put_project_graph project g) rep =
      performed_of_Agrees s c (put_project_graph project g) _ (λ h. h) refl
        (put_graph-Represents s c rep project g)
  call-Performs s c (delete project res) rep = go (stored_at s project res.id) refl
    where
      go :
          (o : Option (Deployed V))
          → stored_at s project res.id ≡ o
          → Performs s c (delete project res)
      go none e =
          refused project res refl (sym (rep.same_resources project res.id) ∙ e)
            (delete_resource-missing s c rep project res e)
      go (some r) e =
          performed_of_Agrees s c (delete project res) _
            (λ missing. let h = sym e ∙ rep.same_resources project res.id ∙ missing in cc) refl
            (delete_resource-Represents s c rep project res r e)
