-- ===== src/Reconciler/Tasks/Success.antt =====
-- CreateUpdate: when it returns nil, every resource of the graph has been processed with success.
use func.Prelude.{
  ℕ, zero, suc, ◌+◌, ◌≤◌, ◌<◌, String, ◌≡◌, ap, subst, ◌∙◌, true, some, List, map, ok, arith, All,
  Bool-cases, inl, inr, upper_bound, All-of_Mem,
}
use mathlib.Core.List.{Memᴰ}
use mathlib.Core.List.Memᴰ
use func.Graph.{Desired, Graph, leaf_resources}
use func.Graph.Names.{names, find-eq-some, find_of_contains}
use func.Graph.Validity.{IsValid}
use func.Graph.Parents.{needs}
use func.Graph.Leaves.{is_parent, childless, leaf_resources-eq-childless}
use func.Graph.Children.{Mem-childless, child_of, Mem_of_find}
use func.Reconciler.{World, Run}
use func.Reconciler.Tasks.{ended, all_done, outcome, Schedule, Reach}
use func.Reconciler.Tasks.Outcomes.{Succeeded, outcome-all_done}
use func.Reconciler.Tasks.Order.{succeeded, Reach-Succeeded}

module _ {V D E S : Type 0} (w : World V D E S) (g : Graph V) (rank : String → ℕ)
    (ranked : (n m : String) → needs g.dependencies n m ≡ true → rank m < rank n) (v : IsValid g)
    (r : Run V S) (s : Schedule V E S) (p : Reach w g r s)
    (waited : outcome s.tasks (map some (childless g.dependencies g.resources)) ≡ all_done) where
  leaf-Succeeded :
      (res : Desired V)
      → Memᴰ res (childless g.dependencies g.resources)
      → s.tasks res.name ≡ some (ended (ok tt))
  leaf-Succeeded res m = succeeded g s.tasks res (
      All-of_Mem (Succeeded s.tasks) (map some (childless g.dependencies g.resources))
        (outcome-all_done s.tasks (map some (childless g.dependencies g.resources)) waited)
        (Memᴰ.map some m))

  -- A resource is a leaf, or the parent of one that has succeeded.
  climb-Succeeded :
      (bound : ℕ)
      → All (λ (res : Desired V). rank res.name ≤ bound) g.resources
      → (k : ℕ) (res : Desired V) → bound < rank res.name + k
      → Memᴰ res g.resources
      → s.tasks res.name ≡ some (ended (ok tt))
  climb-Succeeded bound u zero res l m =
      absurd (omega (arith, All-of_Mem (λ (x : Desired V). rank x.name ≤ bound) g.resources u m))
  climb-Succeeded bound u (suc k) res l m = elim (Bool-cases (is_parent g.dependencies res.name)) [
    | inr leaf ↦ leaf-Succeeded res (Mem-childless g.dependencies res g.resources leaf m)
    | inl parent ↦
        let (n, need, known) =
          child_of (names g.resources) g.dependencies res.name v.resolved parent in
        let (child, found) = find_of_contains g.resources n known in
        let need' : needs g.dependencies child.name res.name ≡ true =
          ap (λ c. needs g.dependencies c res.name) (find-eq-some g.resources n found).1 ∙ need in
        let higher : rank res.name < rank child.name = ranked child.name res.name need' in
        Reach-Succeeded w g r s v p child.name res.name need'
          (climb-Succeeded bound u k child (omega arith) (Mem_of_find g.resources n found))
  ]

module _ {V D E S : Type 0} (w : World V D E S) (g : Graph V) where
  -- When the calls of CreateUpdate for the leaves have all returned nil, on a valid graph without a cycle
  -- of dependencies, the task of every resource of the graph has succeeded.
  pub Reach-all_done :
      (rank : String → ℕ)
      → IsValid g
      → ((n m : String) → needs g.dependencies n m ≡ true → rank m < rank n)
      → (r : Run V S) (s : Schedule V E S) → Reach w g r s
      → (leaves : List (Desired V)) → leaf_resources g ≡ ok leaves
      → outcome s.tasks (map some leaves) ≡ all_done
      → (res : Desired V) → Memᴰ res g.resources
      → s.tasks res.name ≡ some (ended (ok tt))
  Reach-all_done rank v ranked r s p leaves found waited res m =
      let (bound, u) = upper_bound (λ (x : Desired V). rank x.name) g.resources in
      let same : leaves ≡ childless g.dependencies g.resources =
        cc (leaf_resources-eq-childless g v) in
      climb-Succeeded w g rank ranked v r s p
        (subst (λ ls. outcome s.tasks (map some ls) ≡ all_done) same waited) bound u (suc bound) res
        (omega arith) m
