-- ===== src/Reconciler/ReconcileTests.antt =====
-- Reconcile on a queue, with a worker left of a previous deployment.
use func.Prelude.{
  ◌<◌, String, ◌≡◌, ◌≢◌, refl, ap, sym, subst, true, some, List, [], ◌∷◌, map, ok, arith,
}
use mathlib.Core.List.{Memᴰ}
use func.Prelude.Members.{contains}
use func.Graph.{
  Desired, empty, add_resource, find, leaf_resources, mark_parents, mark_names, unmarked,
  parent_resources, scan_dependencies,
}
use func.Graph.Samples.{queue, one}
use func.Graph.Validity.{IsValid, IsValid-empty, add_resource-IsValid}
use func.Graph.Parents.{needs}
use func.Reconciler.{Deployed, Run, create}
use func.Reconciler.Process.{
  process_resource, change_resolved, resolve_dependencies, resolve_with, names_of_parents,
  parent_names, take_existing, find_existing, drop_existing, same_resource, apply_change,
  create_new, next_id, call, record_change, set_output, put_resource, stored, previous_definition,
}
use func.Reconciler.Tasks.{
  running, ended, new_group, set_task, all_done, and_task, outcome, Schedule, start_leaf, process,
  begin, then_step,
}
use func.Reconciler.Tasks as Tasks
use func.Reconciler.Tasks.Success.{Reach-all_done}
use func.Reconciler.Remove.{
  Removal, Routine, Phase, start, add_all, done_all, count_dependents, first_result,
  remove_resource, delete_resource, proceed, finish, at_start, after_step,
}
use func.Reconciler.Remove as Remove
use func.Reconciler.Reconcile.{new_run, get_existing, Reconciles}
use func.Reconciler.Reconcile as Reconcile
use func.Reconciler.Reconcile.Deletes.{Reconciles-deletes}
use func.Reconciler.Samples.{world, fresh, old_worker}
use func.Samples.{Value, object}

abbrev Store : Type 0
Store = List (Deployed Value)

-- A worker is left of a previous deployment; the graph has the queue alone.
abbrev listed_run : Run Value Store
listed_run = record fresh { existing = old_worker ∷ []; store = old_worker ∷ [] }

abbrev created : Schedule Value String Store
created = record {
  tasks =
      set_task (set_task new_group "queue" (running queue)) "queue"
        (ended (process_resource world one queue listed_run).0);
  run = (process_resource world one queue listed_run).1;
}

added_one : add_resource empty queue ≡ ok one
unfolding add_resource find
added_one = refl

one-IsValid : IsValid one
one-IsValid = add_resource-IsValid queue IsValid-empty added_one

one-ranked : (n m : String) → needs one.dependencies n m ≡ true → 0 < 0
unfolding needs
one-ranked n m h = cc

existing_listed : get_existing world (new_run (old_worker ∷ []) 0) ≡ (ok tt, listed_run)
unfolding get_existing
existing_listed = refl

one_leaves : leaf_resources one ≡ ok (queue ∷ [])
unfolding leaf_resources mark_parents mark_names unmarked contains
one_leaves = refl

created-Reach : Tasks.Reach world one listed_run created
unfolding set_task outcome parent_resources scan_dependencies
created-Reach =
    then_step
      (then_step begin (start_leaf (queue ∷ []) queue one_leaves (Memᴰ.head refl) refl refl))
      (process queue [] refl refl refl refl)

abbrev created_run : Run Value Store
created_run = record listed_run {
  outputs = ("queue", object (λ n. queue.input)) ∷ [];
  creates = 1;
  store =
      record { desired = queue; id = "id0"; output = object (λ n. queue.input); deps = [] }
      ∷ old_worker
      ∷ [];
  ids = 1;
  log = create "queue" ∷ [];
}

queue_created : process_resource world one queue listed_run ≡ (ok tt, created_run)
unfolding process_resource change_resolved resolve_dependencies resolve_with names_of_parents
    parent_names take_existing find_existing drop_existing same_resource apply_change create_new
    next_id call record_change set_output put_resource stored parent_resources scan_dependencies
queue_created = refl

leaf_waited : outcome created.tasks (some queue ∷ []) ≡ all_done
unfolding outcome set_task
leaf_waited = ap (λ x. and_task {V = Value} (some (ended x.0)) all_done) queue_created

Reach-all_done_example : created.tasks "queue" ≡ some (ended (ok tt))
Reach-all_done_example =
    Reach-all_done world one (λ n. 0) one-IsValid one-ranked listed_run created created-Reach
      (queue ∷ []) one_leaves leaf_waited queue (Memᴰ.head refl)

abbrev worker_removed : Removal Value String Store
worker_removed = record {
  routines = record { resource = old_worker; phase = Phase.ended } ∷ [];
  wgs = done_all (start {E = String} created_run).wgs old_worker.deps;
  run = (remove_resource world old_worker created_run).1;
  result = first_result (ok tt) (remove_resource world old_worker created_run).0;
}

worker_removed-Reach : Remove.Reach world (start created_run) worker_removed
unfolding start count_dependents add_all
worker_removed-Reach =
    after_step (after_step at_start (proceed [] [] old_worker refl refl refl))
      (finish [] [] old_worker refl refl)

worker_removed-ok : ok tt ≡ worker_removed.result
unfolding remove_resource delete_resource Remove.removed previous_definition
worker_removed-ok = refl

reconciled : Reconciles world one (old_worker ∷ []) 0 (ok tt) worker_removed.run
reconciled =
    Reconcile.removed listed_run created (queue ∷ []) worker_removed existing_listed created-Reach
      one_leaves leaf_waited
      (subst (λ r. Remove.Reach world (start r) worker_removed) (sym (ap (λ x. x.1) queue_created))
        worker_removed-Reach)
      (refl, tt) worker_removed-ok refl

one_deleted : worker_removed.run.deletes ≢ 0
unfolding remove_resource delete_resource Remove.removed previous_definition
one_deleted h = absurd (omega arith)

Reconciles-deletes_example :
    (r₁ : Run Value Store) × (s : Schedule Value String Store) × (get_existing world
        (new_run (old_worker ∷ []) 0)
      ≡ (ok tt, r₁))
    × Tasks.Reach world one r₁ s
    × ((res : Desired Value) → Memᴰ res one.resources → s.tasks res.name ≡ some (ended (ok tt)))
    × (s.run.deletes ≡ 0)
    × (u : Removal Value String Store) × Remove.Reach world (start s.run) u
    × (u.run ≡ worker_removed.run)
    × (map (λ routine. routine.resource) (start {E = String} s.run).routines ≡ s.run.existing)
Reconciles-deletes_example =
    Reconciles-deletes world one (λ n. 0) one-IsValid one-ranked (old_worker ∷ []) 0 (ok tt)
      worker_removed.run reconciled one_deleted
