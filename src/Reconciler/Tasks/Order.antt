-- ===== src/Reconciler/Tasks/Order.antt =====
-- CreateUpdate: a resource is processed after its parents.
use func.Prelude.{
  String, ◌≡◌, refl, sym, ap, subst, ◌∙◌, inl, inr, true, false, Option, some, List, [], ◌∷◌, map,
  ok, ◌==◌, eq_iff, arith, All, All-map, Bool-cases,
}
use func.Prelude.Members.{contains}
use func.Graph.{Desired, Graph, parent_resources}
use func.Graph.Names.{names}
use func.Graph.Validity.{IsValid}
use func.Graph.Parents.{needs, parent_resources-IsParents}
use func.Reconciler.{World, Run}
use func.Reconciler.Tasks.{
  Task, running, ended, Group, set_task, Schedule, Step, start_leaf, start_parent, fail, process,
  Reach, begin, then_step,
}
use func.Reconciler.Tasks.Outcomes.{
  Succeeded, Returned, Succeeded-Returned, outcome-all_done, outcome-some_failed, Keeps,
  set_task-Keeps, Keeps-Succeeded, Keeps-Returned,
}

module _ {V E : Type 0} (g : Graph V) where
  -- Why a task is in its state: a running one runs for its resource, and one that has ended was
  -- preceded by the calls for its parents, all of them with success if it succeeded.
  abbrev pub Justified : Group V E → String → Task V E → Type 0
  Justified group n (running res) = res.name ≡ n
  Justified group n (ended x) =
      (ps : List (Option (Desired V))) × (parent_resources g n ≡ ok ps)
      × All (Returned group) ps
      × (x ≡ ok tt → All (Succeeded group) ps)

  abbrev pub Justifies : Group V E → Type 0
  Justifies group = (n : String) (t : Task V E) → group n ≡ some t → Justified group n t

  Justified-Keeps :
      (before after : Group V E)
      → Keeps before after
      → (n : String) (t : Task V E) → Justified before n t
      → Justified after n t
  Justified-Keeps before after k n (running res) h = h
  Justified-Keeps before after k n (ended x) (ps, e, r, f) = (
    ps,
    e,
    All-map (Returned before) (Returned after) (Keeps-Returned before after k) ps r,
    λ h. All-map (Succeeded before) (Succeeded after) (Keeps-Succeeded before after k) ps (f h),
  )

  set_task-Justifies :
      (group : Group V E) (name : String) (t : Task V E)
      → Keeps group (set_task group name t)
      → Justifies group
      → Justified group name t
      → Justifies (set_task group name t)
  unfolding set_task
  set_task-Justifies group name t k j new n u e = elim (Bool-cases (name == n)) [
    | inl same ↦ Justified-Keeps group (set_task group name t) k n u (replaced same)
    | inr other ↦ Justified-Keeps group (set_task group name t) k n u (j n u (kept other))
  ]
    where
      replaced : (name == n) ≡ true → Justified group n u
      replaced same =
          let here : t ≡ u = ground arith in
          subst (Justified group n) here
            (subst (λ m. Justified group m t) ((eq_iff name n).0 same) new)

      kept : (name == n) ≡ false → group n ≡ some u
      kept other = ground arith

  pub succeeded :
      (group : Group V E) (p : Desired V)
      → Succeeded group (some p)
      → group p.name ≡ some (ended (ok tt))
  succeeded group p (q, e, h) =
      let same : p ≡ q = cc in subst (λ x. group x.name ≡ some (ended (ok tt))) (sym same) h

module _ {V : Type 0} where
  named :
      (P : String → Type 0) (Q : Option (Desired V) → Type 0)
      → ((p : Desired V) → Q (some p) → P p.name)
      → (m : String) (ps : List (Desired V)) → All Q (map some ps)
      → contains m (names ps) ≡ true
      → P m
  unfolding contains
  named P Q f m [] all h = cc
  named P Q f m (p ∷ ps) all h = elim (Bool-cases (p.name == m)) [
    | inl same ↦ subst P ((eq_iff p.name m).0 same) (f p all.0)
    | inr other ↦ named P Q f m ps all.1 (ground arith)
  ]

module _ {V D E S : Type 0} (w : World V D E S) (g : Graph V) where
  pub Step-Keeps : {s t : Schedule V E S} → Step w g s t → Keeps s.tasks t.tasks
  Step-Keeps {s = s} (start_leaf leaves res l m e f) =
      subst (Keeps s.tasks) (sym (ap (λ u. u.tasks) f)) (set_task-Keeps s.tasks res.name _ (inl e))
  Step-Keeps {s = s} (start_parent child ps res c l m e f) =
      subst (Keeps s.tasks) (sym (ap (λ u. u.tasks) f)) (set_task-Keeps s.tasks res.name _ (inl e))
  Step-Keeps {s = s} (fail res ps e l o f) =
      subst (Keeps s.tasks) (sym (ap (λ u. u.tasks) f))
        (set_task-Keeps s.tasks res.name _ (inr (res, e)))
  Step-Keeps {s = s} (process res ps e l o f) =
      subst (Keeps s.tasks) (sym (ap (λ u. u.tasks) f))
        (set_task-Keeps s.tasks res.name _ (inr (res, e)))

  Step-Justifies : {s t : Schedule V E S} → Step w g s t → Justifies g s.tasks → Justifies g t.tasks
  Step-Justifies {s = s} (start_leaf leaves res l m e f) j =
      subst (Justifies g) (sym (ap (λ u. u.tasks) f))
        (set_task-Justifies g s.tasks res.name _ (set_task-Keeps s.tasks res.name _ (inl e)) j refl)
  Step-Justifies {s = s} (start_parent child ps res c l m e f) j =
      subst (Justifies g) (sym (ap (λ u. u.tasks) f))
        (set_task-Justifies g s.tasks res.name _ (set_task-Keeps s.tasks res.name _ (inl e)) j refl)
  Step-Justifies {s = s} (fail res ps e l o f) j = subst (Justifies g) (sym (ap (λ u. u.tasks) f)) (
      set_task-Justifies g s.tasks res.name _ (set_task-Keeps s.tasks res.name _ (inr (res, e))) j
        (ps, l, outcome-some_failed s.tasks ps o, λ h. cc))
  Step-Justifies {s = s} (process res ps e l o f) j =
      let all = outcome-all_done s.tasks ps o in
      subst (Justifies g) (sym (ap (λ u. u.tasks) f)) (
        set_task-Justifies g s.tasks res.name _ (set_task-Keeps s.tasks res.name _ (inr (res, e))) j
          (
            ps,
            l,
            All-map (Succeeded s.tasks) (Returned s.tasks) (Succeeded-Returned s.tasks) ps all,
            λ h. all,
          ))

  pub Reach-Justifies : (r : Run V S) (s : Schedule V E S) → Reach w g r s → Justifies g s.tasks
  Reach-Justifies r s begin = λ n t e. cc
  Reach-Justifies r s (then_step {s = now} p q) = Step-Justifies q (Reach-Justifies r now p)

  -- What holds of every parent holds of a name that a dependency of the child refers to.
  pub at_parent :
      (P : String → Type 0) (Q : Option (Desired V) → Type 0)
      → ((p : Desired V) → Q (some p) → P p.name)
      → (n : String) (ps : List (Option (Desired V))) → IsValid g
      → parent_resources g n ≡ ok ps
      → All Q ps
      → (m : String) → needs g.dependencies n m ≡ true
      → P m
  at_parent P Q f n ps v e all m need =
      let (qs, is) = parent_resources-IsParents g n v in
      let same : ps ≡ map some qs = cc in
      named P Q f m qs (subst (All Q) same all) (is.exact m ∙ need)

  -- In every state that CreateUpdate reaches on a valid graph, whatever the order of its goroutines,
  -- if the task of a resource has succeeded then so has the task of every resource that its
  -- dependencies refer to.
  pub Reach-Succeeded :
      (r : Run V S) (s : Schedule V E S)
      → IsValid g
      → Reach w g r s
      → (n m : String) → needs g.dependencies n m ≡ true
      → s.tasks n ≡ some (ended (ok tt))
      → s.tasks m ≡ some (ended (ok tt))
  Reach-Succeeded r s v p n m need done =
      let (ps, e, returned, all) = Reach-Justifies r s p n (ended (ok tt)) done in
      at_parent (λ m. s.tasks m ≡ some (ended (ok tt))) (Succeeded s.tasks) (succeeded g s.tasks) n
        ps v e (all refl) m need
