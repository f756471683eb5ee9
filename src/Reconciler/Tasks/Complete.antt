-- ===== src/Reconciler/Tasks/Complete.antt =====
-- CreateUpdate: without cycles and panics, every resource is processed before it ends.
use func.Prelude.{
  ℕ, zero, suc, ◌+◌, ◌≤◌, ◌<◌, String, ◌≡◌, ◌≢◌, refl, sym, ap, subst, ◌∙◌, ◌⊎◌, inl, inr, true,
  Option, none, some, List, map, Result, ok, err, arith, All, Bool-cases, upper_bound, All-of_Mem,
}
use mathlib.Core.List.{Memᴰ}
use func.Graph.{Desired, Graph, parent_resources}
use func.Graph.Names.{names, find-eq-some, find_of_contains}
use func.Graph.Validity.{IsValid}
use func.Graph.Parents.{needs, parent_resources-IsParents}
use func.Graph.Leaves.{is_parent, childless, leaf_resources-eq-childless}
use func.Reconciler.{RunError, World, Run}
use func.Reconciler.Tasks.{
  Task, running, ended, Outcome, blocked, all_done, some_failed, outcome, Schedule, Step,
  start_leaf, start_parent, fail, process, Reach,
}
use func.Reconciler.Tasks.Outcomes.{Returned}
use func.Reconciler.Tasks.Order.{Justifies, Reach-Justifies, at_parent}
use func.Graph.Children.{Mem-childless, child_of, Mem_of_find}
use func.Reconciler.Tasks.Open.{NoPanic, Open-or_known}

module _ {V D E S : Type 0} (w : World V D E S) (g : Graph V) where
  abbrev pub CanStep : Schedule V E S → Type 0
  CanStep s = (t : Schedule V E S) × Step w g s t

  known-CanStep :
      (s : Schedule V E S) (res : Desired V) (ps : List (Option (Desired V))) (o : Outcome)
      → s.tasks res.name ≡ some (running res)
      → parent_resources g res.name ≡ ok ps
      → outcome s.tasks ps ≡ o
      → o ≢ blocked
      → CanStep s
  known-CanStep s res ps blocked h l e k = absurd (k refl)
  known-CanStep s res ps all_done h l e k = (_, process res ps h l e refl)
  known-CanStep s res ps some_failed h l e k = (_, fail res ps h l e refl)

module _ {V D E S : Type 0} (w : World V D E S) (g : Graph V) (rank : String → ℕ)
    (ranked : (n m : String) → needs g.dependencies n m ≡ true → rank m < rank n)
    (s : Schedule V E S) (v : IsValid g) (j : Justifies g s.tasks) (np : NoPanic s.tasks) where
  -- Below a running task there is one that can move.
  descend :
      (k : ℕ) (n : String) (res : Desired V)
      → rank n < k
      → s.tasks n ≡ some (running res)
      → CanStep w g s
  descend zero n res l h = absurd (omega arith)
  descend (suc k) n res l h =
      let same : res.name ≡ n = j n (running res) h in
      let runs : s.tasks res.name ≡ some (running res) = ap s.tasks same ∙ h in
      let (ps, is) = parent_resources-IsParents g res.name v in
      elim (Open-or_known s.tasks np ps) [
        | inl (p, m, c, inl absent) ↦
            (_, start_parent res (map some ps) p runs is.returned m absent refl)
        | inl (p, m, c, inr (q, below)) ↦
            let lower : rank p.name < rank res.name =
              ranked res.name p.name (sym (is.exact p.name) ∙ c) in
            descend k p.name q (omega (arith, ap rank same)) below
        | inr known ↦ known-CanStep w g s res (map some ps) _ runs is.returned refl known
      ]

  abbrev Processed : String → Type 0
  Processed n = (x : Result (RunError E) (Unit {0})) × (s.tasks n ≡ some (ended x))

  Returned-Processed : (p : Desired V) → Returned s.tasks (some p) → Processed p.name
  Returned-Processed p (q, e, inl h) =
      let same : q ≡ p = cc in (ok tt, subst (λ x. s.tasks x.name ≡ some (ended (ok tt))) same h)
  Returned-Processed p (q, e, inr (x, h)) =
      let same : q ≡ p = cc in (err x, subst (λ z. s.tasks z.name ≡ some (ended (err x))) same h)

  -- A parent's task has ended before its child's.
  Processed-parent :
      (child n : String) → needs g.dependencies child n ≡ true → Processed child → Processed n
  Processed-parent child n need (x, h) =
      let (ps, e, returned, all) = j child (ended x) h in
      at_parent w g Processed (Returned s.tasks) Returned-Processed child ps v e returned n need

  -- Where no step is possible, the task of a resource has ended, or the resource has a child.
  ended_or_child :
      (CanStep w g s → ⊥)
      → (res : Desired V) → Memᴰ res g.resources
      → Processed res.name
        ⊎ ((child : Desired V) × Memᴰ child g.resources
            × (needs g.dependencies child.name res.name ≡ true))
  ended_or_child stuck res m = go (s.tasks res.name) refl
    where
      go :
          (o : Option (Task V E))
          → s.tasks res.name ≡ o
          → Processed res.name
            ⊎ ((child : Desired V) × Memᴰ child g.resources
                × (needs g.dependencies child.name res.name ≡ true))
      go (some (ended x)) e = inl (x, e)
      go (some (running r)) e =
          absurd (stuck (descend (suc (rank res.name)) res.name r (omega arith) e))
      go none e = elim (Bool-cases (is_parent g.dependencies res.name)) [
        | inl parent ↦
            let (n, need, known) =
              child_of (names g.resources) g.dependencies res.name v.resolved parent in
            let (child, found) = find_of_contains g.resources n known in
            let same : child.name ≡ n = (find-eq-some g.resources n found).1 in
            inr (
              child,
              Mem_of_find g.resources n found,
              ap (λ c. needs g.dependencies c res.name) same ∙ need,
            )
        | inr leaf ↦ absurd (
            stuck (
              _,
              start_leaf (childless g.dependencies g.resources) res
                  (leaf_resources-eq-childless g v)
                  (Mem-childless g.dependencies res g.resources leaf m) e refl,
            ))
      ]

  climb :
      (CanStep w g s → ⊥)
      → (bound : ℕ) → All (λ (res : Desired V). rank res.name ≤ bound) g.resources
      → (k : ℕ) (res : Desired V) → bound < rank res.name + k
      → Memᴰ res g.resources
      → Processed res.name
  climb stuck bound u zero res l m =
      absurd (omega (arith, All-of_Mem (λ (x : Desired V). rank x.name ≤ bound) g.resources u m))
  climb stuck bound u (suc k) res l m = elim (ended_or_child stuck res m) [
    | inl done ↦ done
    | inr (child, n, need) ↦
        let higher : rank res.name < rank child.name = ranked child.name res.name need in
        Processed-parent child.name res.name need (climb stuck bound u k child (omega arith) n)
  ]

module _ {V D E S : Type 0} (w : World V D E S) (g : Graph V) where
  -- When a valid graph has no cycle of dependencies, and CreateUpdate has come to a state from which no
  -- goroutine can move, without a panic, then every resource of the graph, whether it is a leaf or not,
  -- has been processed, with success or an error.
  pub Reach-Processed :
      (rank : String → ℕ)
      → IsValid g
      → ((n m : String) → needs g.dependencies n m ≡ true → rank m < rank n)
      → (r : Run V S) (s : Schedule V E S) → Reach w g r s
      → NoPanic s.tasks
      → (CanStep w g s → ⊥)
      → (res : Desired V) → Memᴰ res g.resources
      → (x : Result (RunError E) (Unit {0})) × (s.tasks res.name ≡ some (ended x))
  Reach-Processed rank v ranked r s p np stuck res m =
      let (bound, u) = upper_bound (λ (x : Desired V). rank x.name) g.resources in
      climb w g rank ranked s v (Reach-Justifies w g r s p) np stuck bound u (suc bound) res
        (omega arith) m
