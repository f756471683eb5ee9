-- ===== src/Reconciler/Tests.antt =====
-- Runs of the reconciler on a queue and a worker.
use func.Prelude.{
  ℕ, ◌≤◌, ◌<◌, String, ◌≡◌, refl, List, [], ◌∷◌, ok, err, ◌⊎◌, ◌≢◌, ◌==◌, arith, if◌then◌else◌,
}
use func.Graph.Samples.{queue, linked}
use func.Reconciler.{Deployed, Run, create, type_not_registered}
use func.Reconciler.Process.{process_resource, put_resource}
use func.Reconciler.Process.Quiet.{Failed}
use func.Reconciler.Process.Failure.{process_resource-Failed}
use func.Reconciler.Remove.{
  Removal, waiting, removing, start, Step, proceed, Reach, at_start, after_step, occurrences,
  count_dependents, add_all,
}
use func.Reconciler.Remove.Order.{DependentsEnded, Reach-DependentsEnded}
use func.Reconciler.Remove.Progress.{pending, Reach-Step}
use func.Reconciler.Samples.{world, fresh, leftover, old_queue, old_worker, stranger}
use func.Samples.{Value, object}

-- The type of the stranger is not registered.
stranger_refused :
    process_resource world linked stranger fresh ≡ (err (type_not_registered "unknown"), fresh)
unfolding process_resource
stranger_refused = refl

abbrev after_queue : Run Value (List (Deployed Value))
after_queue = record fresh {
  outputs = ("queue", object (λ n. queue.input)) ∷ [];
  creates = 1;
  store =
      record { desired = queue; id = "id0"; output = object (λ n. queue.input); deps = [] } ∷ [];
  ids = 1;
  log = create "queue" ∷ [];
}

stranger_fails : (a : Unit {0}) → (process_resource world linked stranger fresh).0 ≢ ok a
unfolding process_resource
stranger_fails a h = cc

process_resource-Failed_example :
    Failed world.put_resource fresh (process_resource world linked stranger fresh).1
process_resource-Failed_example = process_resource-Failed world linked stranger fresh stranger_fails

-- The goroutine of the worker is past its wait, that of the queue waits for it.
abbrev moved : Removal Value String (List (Deployed Value))
moved = record (start leftover) {
  routines =
      record { resource = old_queue; phase = waiting }
      ∷ record { resource = old_worker; phase = removing }
      ∷ [];
}

moved-Reach : Reach world (start leftover) moved
unfolding start count_dependents add_all
moved-Reach =
    after_step at_start
      (proceed (record { resource = old_queue; phase = waiting } ∷ []) [] old_worker refl refl refl)

Reach-DependentsEnded_example :
    DependentsEnded "worker" moved.routines
    × ((n : String) → occurrences n ("queue" ∷ []) ≤ moved.wgs n)
Reach-DependentsEnded_example =
    Reach-DependentsEnded world leftover moved moved-Reach
      (record { resource = old_queue; phase = waiting } ∷ []) [] old_worker refl

abbrev rank : String → ℕ
rank n = if n == "worker" then 1 else 0

Reach-Step_example :
    ((pending moved.routines ≡ 0)
      ⊎ ((t : Removal Value String (List (Deployed Value))) × Step world moved t))
    × ((t : Removal Value String (List (Deployed Value)))
        → Step world moved t
        → pending t.routines < pending moved.routines)
Reach-Step_example = Reach-Step world rank leftover (tt, ((omega arith, tt), tt)) moved moved-Reach
