-- ===== src/Reconciler/Reconcile/Deletes.antt =====
-- resource/reconciler/reconciler.go: what Reconcile has done before it deletes a resource.
use func.Prelude.{
  ℕ, ◌<◌, String, true, ◌≡◌, ◌≢◌, refl, sym, ap, ◌∙◌, some, List, [], ◌∷◌, map, Result, ok, err,
  panic,
}
use mathlib.Core.List.{Memᴰ}
use func.Graph.{Desired, Graph}
use func.Graph.Validity.{IsValid}
use func.Graph.Parents.{needs}
use func.Reconciler.{Deployed, RunError, World, Run}
use func.Reconciler.Process.{process_resource}
use func.Reconciler.Process.Failure.{process_resource-Failed}
use func.Reconciler.Process.Changes.{Changed, kept, updated, created, process_resource-Changed}
use func.Reconciler.Tasks.{
  running, ended, start_leaf, start_parent, fail, process, begin, then_step, all_done, some_failed,
  outcome, Schedule,
}
use func.Reconciler.Tasks.Success.{Reach-all_done}
use func.Reconciler.Tasks as Tasks
use func.Reconciler.Remove.{Removal, Phase, Routine, start}
use func.Reconciler.Remove as Remove
use func.Reconciler.Reconcile.{
  new_run, listed, get_existing, Reconciles, not_listed, not_created, removed,
}

-- RemovePrevious starts one goroutine for each existing resource.
start-existing :
    {V S : Type 0} (E : Type 0) (r : Run V S)
    → map (λ routine. routine.resource) (start {E = E} r).routines ≡ r.existing
unfolding start
start-existing {V = V} E r = go r.existing
  where
    go :
        (ds : List (Deployed V))
        → map
            (λ (routine : Routine V). routine.resource)
            (map {B = Routine V} (λ d. record { resource = d; phase = Phase.waiting }) ds)
          ≡ ds
    go [] = refl
    go (d ∷ ds) = ap (λ l. d ∷ l) (go ds)

module _ {V D E S : Type 0} (w : World V D E S) (g : Graph V) where
  process_resource-deletes :
      (res : Desired V) (r : Run V S) → (process_resource w g res r).1.deletes ≡ r.deletes
  process_resource-deletes res r = go (process_resource w g res r).0 refl
    where
      of_changed :
          (resolved : Desired V) (def : D) (r' : Run V S)
          → Changed w g resolved def r r'
          → r'.deletes ≡ r.deletes
      of_changed resolved def r' (kept ex e h k after) = ap (λ x. x.deletes) after
      of_changed resolved def r' (updated ex e h u) = ap (λ x. x.deletes) u.after
      of_changed resolved def r' (created e c) = ap (λ x. x.deletes) c.after

      go :
          (x : Result (RunError E) (Unit {0}))
          → (process_resource w g res r).0 ≡ x
          → (process_resource w g res r).1.deletes ≡ r.deletes
      go (err e) h = (process_resource-Failed w g res r (λ a k. cc)).deletes
      go panic h = (process_resource-Failed w g res r (λ a k. cc)).deletes
      go (ok u) h =
          let done : process_resource w g res r ≡ (ok tt, (process_resource w g res r).1) =
            ap (λ x. (x, (process_resource w g res r).1)) h in
          let (resolved, def, e, same, decoded, changed) =
            process_resource-Changed w g res r (process_resource w g res r).1 done in
          of_changed resolved def (process_resource w g res r).1 changed

  Reach-deletes :
      (r : Run V S) (s : Schedule V E S) → Tasks.Reach w g r s → s.run.deletes ≡ r.deletes
  Reach-deletes r s begin = refl
  Reach-deletes r s (then_step {s = now} p (start_leaf leaves res l m e f)) =
      ap (λ u. u.run.deletes) f ∙ Reach-deletes r now p
  Reach-deletes r s (then_step {s = now} p (start_parent child ps res c l m e f)) =
      ap (λ u. u.run.deletes) f ∙ Reach-deletes r now p
  Reach-deletes r s (then_step {s = now} p (fail res ps e l o f)) =
      ap (λ u. u.run.deletes) f ∙ Reach-deletes r now p
  Reach-deletes r s (then_step {s = now} p (process res ps e l o f)) =
      ap (λ u. u.run.deletes) f ∙ process_resource-deletes res now.run ∙ Reach-deletes r now p

  listed-deletes :
      (x : Result E (List (Deployed V))) (r : Run V S) → (listed {E = E} x r).1.deletes ≡ r.deletes
  listed-deletes (ok ex) r = refl
  listed-deletes (err e) r = refl
  listed-deletes panic r = refl

  get_existing-deletes :
      (r r' : Run V S) (x : Result (RunError E) (Unit {0}))
      → get_existing w r ≡ (x, r')
      → r'.deletes ≡ r.deletes
  unfolding get_existing
  get_existing-deletes r r' x h =
      sym (ap (λ y. y.1.deletes) h) ∙ listed-deletes (w.list_resources r.store) r

  -- If Reconcile ends with a deletion counted, whatever its result, then on a valid graph without a
  -- cycle of dependencies there is a state of CreateUpdate, reached from the existing resources as
  -- they were listed, in which the task of every resource of the graph had succeeded and no deletion
  -- was counted yet; and RemovePrevious went on from the run of that very state, with one goroutine
  -- for each resource that was left in it, to the run that Reconcile ended with.
  pub Reconciles-deletes :
      (rank : String → ℕ)
      → IsValid g
      → ((n m : String) → needs g.dependencies n m ≡ true → rank m < rank n)
      → (store : S) (ids : ℕ) (x : Result (RunError E) (Unit {0})) (r : Run V S)
      → Reconciles w g store ids x r
      → r.deletes ≢ 0
      → (r₁ : Run V S) × (s : Schedule V E S) × (get_existing w (new_run store ids) ≡ (ok tt, r₁))
        × Tasks.Reach w g r₁ s
        × ((res : Desired V) → Memᴰ res g.resources → s.tasks res.name ≡ some (ended (ok tt)))
        × (s.run.deletes ≡ 0)
        × (u : Removal V E S) × Remove.Reach w (start s.run) u
        × (u.run ≡ r)
        × (map (λ routine. routine.resource) (start {E = E} s.run).routines ≡ s.run.existing)
  Reconciles-deletes rank v ranked store ids x r (not_listed e h k) deleted =
      absurd (deleted (get_existing-deletes (new_run store ids) r (err e) h))
  Reconciles-deletes rank v ranked store ids x r (not_created r₁ s leaves leaf e h p l o m t k same)
        deleted =
      absurd (
        deleted (
          ap (λ u. u.deletes) same
          ∙ Reach-deletes r₁ s p
          ∙ get_existing-deletes (new_run store ids) r₁ (ok tt) h))
  Reconciles-deletes rank v ranked store ids x r (removed r₁ s leaves u h p l o q all k same)
        deleted =
      (
        r₁,
        s,
        h,
        p,
        λ res m. Reach-all_done w g rank v ranked r₁ s p leaves l o res m,
        Reach-deletes r₁ s p ∙ get_existing-deletes (new_run store ids) r₁ (ok tt) h,
        u,
        q,
        sym same,
        start-existing E s.run,
      )
