-- ===== src/Storage.antt =====
-- storage/teststore/store.go: the store in memory.
mod Refines
mod Listed
mod Tests
use func.Prelude.{
  String, Bool, true, false, Option, none, some, List, [], ◌∷◌, map, Result, ok, err, panic, ◌>>=◌,
  if◌then◌else◌,
}
use func.Prelude.Maps.{GoMap, lookup, assign, remove, made}
use func.Prelude.Sorting.{sort_by}
use func.Graph.{Graph}
use func.Reconciler.{Deployed}

-- Store; the lock makes each method one step.
pub record Memory (V : Type 0) : Type 0 where
  pub resources : GoMap (GoMap (Deployed V))
  pub graphs : GoMap (Graph V)

pub data StoreError : Type 0 where
  not_stored : String → String → StoreError

-- A map of the map of all projects; nil if there is none.
unfoldable pub inner {ℓ} : {A : Type ℓ} → Option (GoMap A) → GoMap A
inner none = none
inner (some m) = m

module _ {V : Type 0} where
  -- The zero value of Store
  abbrev pub empty_memory : Memory V
  empty_memory = record { resources = none; graphs = none }

  -- The map of a project, made where it is nil.
  unfoldable pub project_map : GoMap (GoMap (Deployed V)) → String → GoMap (Deployed V)
  project_map resources project = made (inner (lookup resources project))

  -- Store.PutResource
  unfoldable pub put_resource : Memory V → String → Deployed V → Result StoreError (Memory V)
  put_resource s project res = assign (project_map s.resources project) res.id res >>= λ m.
      assign (made s.resources) project m >>= λ resources. ok (record s { resources = resources })

  -- The loop of SeedResources.
  unfoldable pub put_resources :
      Memory V → String → List (Deployed V) → Result StoreError (Memory V)
  put_resources s project [] = ok s
  put_resources s project (res ∷ rs) =
      put_resource s project res >>= λ t. put_resources t project rs

  -- Store.DeleteResource
  unfoldable pub delete_resource : Memory V → String → Deployed V → Result StoreError (Memory V)
  delete_resource s project res = elim (lookup (inner (lookup s.resources project)) res.id) [
    | none ↦ err (not_stored res.id project)
    | some r ↦
        assign s.resources project (remove (inner (lookup s.resources project)) res.id)
        >>= λ resources. ok (record s { resources = resources })
  ]

  -- The values of a map, in the order of the list.
  unfoldable pub values_of : GoMap (Deployed V) → List (Deployed V)
  values_of none = []
  values_of (some m) = map (λ x. x.1) m

  -- Store.ListResources
  unfoldable pub list_resources : Memory V → String → List (Deployed V)
  list_resources s project = sort_by (λ r. r.id) (values_of (inner (lookup s.resources project)))

  -- Store.PutGraph, and Store.SeedGraph
  unfoldable pub put_graph : Memory V → String → Graph V → Result StoreError (Memory V)
  put_graph s project g =
      assign (made s.graphs) project g >>= λ graphs. ok (record s { graphs = graphs })

  -- Store.GetGraph
  unfoldable pub get_graph : Memory V → String → Option (Graph V)
  get_graph s project = lookup s.graphs project
