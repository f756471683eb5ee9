-- ===== src/Reconciler/Tasks/Outcomes.antt =====
-- processDependencies: what its outcomes say of the parents' tasks, and that ended tasks stay.
use func.Prelude.{
  String, ◌≡◌, refl, ◌⊎◌, inl, inr, Option, none, some, List, [], ◌∷◌, Result, ok, err, panic,
  eq_iff, arith, All, All-map,
}
use func.Graph.{Desired}
use func.Reconciler.{RunError}
use func.Reconciler.Tasks.{
  Task, running, ended, Group, set_task, Outcome, blocked, all_done, some_failed, and_task, outcome,
}

module _ {V E : Type 0} where
  -- The call for the parent has returned nil.
  abbrev pub Succeeded : Group V E → Option (Desired V) → Type 0
  Succeeded group o = (p : Desired V) × (o ≡ some p) × (group p.name ≡ some (ended (ok tt)))

  -- The call for the parent has returned, nil or an error.
  abbrev pub Returned : Group V E → Option (Desired V) → Type 0
  Returned group o =
      (p : Desired V) × (o ≡ some p)
      × ((group p.name ≡ some (ended (ok tt)))
          ⊎ ((e : RunError E) × (group p.name ≡ some (ended (err e)))))

  pub Succeeded-Returned :
      (group : Group V E) (o : Option (Desired V)) → Succeeded group o → Returned group o
  Succeeded-Returned group o (p, e, h) = (p, e, inl h)

  and_task-all_done :
      (o : Option (Task V E)) (rest : Outcome)
      → and_task o rest ≡ all_done
      → (o ≡ some (ended (ok tt))) × (rest ≡ all_done)
  and_task-all_done (some (ended (ok tt))) rest h = (refl, h)
  and_task-all_done (some (ended (err e))) blocked h = cc
  and_task-all_done (some (ended (err e))) all_done h = cc
  and_task-all_done (some (ended (err e))) some_failed h = cc
  and_task-all_done (some (ended panic)) rest h = cc
  and_task-all_done (some (running res)) rest h = cc
  and_task-all_done none rest h = cc

  and_task-some_failed :
      (o : Option (Task V E)) (rest : Outcome)
      → and_task o rest ≡ some_failed
      → ((o ≡ some (ended (ok tt))) × (rest ≡ some_failed))
        ⊎ ((e : RunError E) × (o ≡ some (ended (err e)))
            × ((rest ≡ all_done) ⊎ (rest ≡ some_failed)))
  and_task-some_failed (some (ended (ok tt))) rest h = inl (refl, h)
  and_task-some_failed (some (ended (err e))) blocked h = cc
  and_task-some_failed (some (ended (err e))) all_done h = inr (e, refl, inl refl)
  and_task-some_failed (some (ended (err e))) some_failed h = inr (e, refl, inr refl)
  and_task-some_failed (some (ended panic)) rest h = cc
  and_task-some_failed (some (running res)) rest h = cc
  and_task-some_failed none rest h = cc

  pub outcome-all_done :
      (group : Group V E) (ps : List (Option (Desired V)))
      → outcome group ps ≡ all_done
      → All (Succeeded group) ps
  unfolding outcome
  outcome-all_done group [] h = tt
  outcome-all_done group (none ∷ ps) h = cc
  outcome-all_done group (some p ∷ ps) h =
      let (e, rest) = and_task-all_done (group p.name) (outcome group ps) h in
      ((p, refl, e), outcome-all_done group ps rest)

  pub outcome-some_failed :
      (group : Group V E) (ps : List (Option (Desired V)))
      → outcome group ps ≡ some_failed
      → All (Returned group) ps
  unfolding outcome
  outcome-some_failed group [] h = cc
  outcome-some_failed group (none ∷ ps) h = cc
  outcome-some_failed group (some p ∷ ps) h =
      elim (and_task-some_failed (group p.name) (outcome group ps) h) [
        | inl (e, rest) ↦ ((p, refl, inl e), outcome-some_failed group ps rest)
        | inr (x, e, inl rest) ↦ (
          (p, refl, inr (x, e)),
          All-map (Succeeded group) (Returned group) (Succeeded-Returned group) ps
              (outcome-all_done group ps rest),
        )
        | inr (x, e, inr rest) ↦ ((p, refl, inr (x, e)), outcome-some_failed group ps rest)
      ]

  -- Tasks that have ended stay as they are.
  abbrev pub Keeps : Group V E → Group V E → Type 0
  Keeps before after =
      (n : String) (x : Result (RunError E) (Unit {0}))
      → before n ≡ some (ended x)
      → after n ≡ some (ended x)

  pub set_task-Keeps :
      (group : Group V E) (name : String) (t : Task V E)
      → ((group name ≡ none) ⊎ ((res : Desired V) × (group name ≡ some (running res))))
      → Keeps group (set_task group name t)
  unfolding set_task
  set_task-Keeps group name t (inl h) n x e = ground (arith, eq_iff name n)
  set_task-Keeps group name t (inr (res, h)) n x e = ground (arith, eq_iff name n)

  pub Keeps-Succeeded :
      (before after : Group V E)
      → Keeps before after
      → (o : Option (Desired V)) → Succeeded before o
      → Succeeded after o
  Keeps-Succeeded before after k o (p, e, h) = (p, e, k p.name (ok tt) h)

  pub Keeps-Returned :
      (before after : Group V E)
      → Keeps before after
      → (o : Option (Desired V)) → Returned before o
      → Returned after o
  Keeps-Returned before after k o (p, e, inl h) = (p, e, inl (k p.name (ok tt) h))
  Keeps-Returned before after k o (p, e, inr (x, h)) = (p, e, inr (x, k p.name (err x) h))
