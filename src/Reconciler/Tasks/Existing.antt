-- ===== src/Reconciler/Tasks/Existing.antt =====
-- CreateUpdate: what it leaves among the existing resources for RemovePrevious.
use func.Prelude.{
  String, ◌≡◌, sym, ap, subst, true, some, map, ◌==◌, eq_iff, arith, Bool-cases, inl, inr,
}
use mathlib.Core.List.{Memᴰ}
use func.Prelude.Members.{contains}
use func.Graph.{Desired, Graph, resource}
use func.Graph.Names.{names, find-eq-some}
use func.Graph.Validity.{IsValid}
use func.Graph.Parents.{parent_resources-IsParents}
use func.Graph.Leaves.{childless, leaf_resources-eq-childless}
use func.Graph.Children.{Mem_of_childless, find_of_Mem, present_of_Mem}
use func.Reconciler.{World, Run}
use func.Reconciler.Tasks.{
  Task, running, ended, Group, set_task, Schedule, Step, start_leaf, start_parent, fail, process,
  Reach, begin, then_step,
}

module _ {V E : Type 0} (g : Graph V) where
  -- A task of the group is for a resource of the graph.
  abbrev pub OfGraph : String → Task V E → Type 0
  OfGraph n (running res) = resource g n ≡ some res
  OfGraph n (ended x) = contains n (names g.resources) ≡ true

  abbrev pub AllOfGraph : Group V E → Type 0
  AllOfGraph group = (n : String) (t : Task V E) → group n ≡ some t → OfGraph n t

  set_task-AllOfGraph :
      (group : Group V E) (name : String) (t : Task V E)
      → AllOfGraph group
      → OfGraph name t
      → AllOfGraph (set_task group name t)
  unfolding set_task
  set_task-AllOfGraph group name t all new n u e = elim (Bool-cases (name == n)) [
    | inl same ↦
        let here : t ≡ u = ground arith in
        subst (OfGraph n) here (subst (λ m. OfGraph m t) ((eq_iff name n).0 same) new)
    | inr other ↦ all n u (ground arith)
  ]

module _ {V D E S : Type 0} (w : World V D E S) (g : Graph V) (v : IsValid g) where
  known :
      (n : String) (res : Desired V)
      → resource g n ≡ some res
      → contains n (names g.resources) ≡ true
  known n res h = (find-eq-some g.resources n h).0

  Step-AllOfGraph :
      {s t : Schedule V E S} → Step w g s t → AllOfGraph g s.tasks → AllOfGraph g t.tasks
  Step-AllOfGraph {s = s} (start_leaf leaves res l m e f) all =
      let same : leaves ≡ childless g.dependencies g.resources =
        cc (leaf_resources-eq-childless g v) in
      subst (AllOfGraph g) (sym (ap (λ u. u.tasks) f)) (
        set_task-AllOfGraph g s.tasks res.name (running res) all (
          find_of_Mem g.resources res v.distinct
            (Mem_of_childless g.dependencies res g.resources (subst (Memᴰ res) same m))))
  Step-AllOfGraph {s = s} (start_parent child ps res c l m e f) all =
      let (qs, is) = parent_resources-IsParents g child.name v in
      let same : ps ≡ map some qs = cc is.returned in
      subst (AllOfGraph g) (sym (ap (λ u. u.tasks) f)) (
        set_task-AllOfGraph g s.tasks res.name (running res) all
          (present_of_Mem g res qs is.present (subst (Memᴰ (some res)) same m)))
  Step-AllOfGraph {s = s} (fail res ps e l o f) all =
      subst (AllOfGraph g) (sym (ap (λ u. u.tasks) f)) (
        set_task-AllOfGraph g s.tasks res.name _ all
          (known res.name res (all res.name (running res) e)))
  Step-AllOfGraph {s = s} (process res ps e l o f) all =
      subst (AllOfGraph g) (sym (ap (λ u. u.tasks) f)) (
        set_task-AllOfGraph g s.tasks res.name _ all
          (known res.name res (all res.name (running res) e)))

  pub Reach-AllOfGraph : (r : Run V S) (s : Schedule V E S) → Reach w g r s → AllOfGraph g s.tasks
  Reach-AllOfGraph r s begin = λ n t e. cc
  Reach-AllOfGraph r s (then_step {s = now} p q) = Step-AllOfGraph q (Reach-AllOfGraph r now p)
