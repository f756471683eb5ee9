-- ===== src/Reconciler/TaskTests.antt =====
-- CreateUpdate on a queue and a worker.
use func.Prelude.{
  ◌<◌, String, ◌≡◌, refl, true, ap, subst, none, some, List, [], ◌∷◌, Result, ok, ◌==◌, arith,
  Bool-cases, inl, inr,
}
use mathlib.Core.List.{Memᴰ}
use func.Expression.{references}
use func.Prelude.Members.{contains}
use func.Expression.{value, part_value, walk, join_values}
use func.Graph.{
  empty, add_dependency, check_references, dependencies_of, Desired, parent_resources,
  leaf_resources, find, parents, add_parents, scan_dependencies, mark_parents, mark_names, unmarked,
  root_name, add_resource,
}
use func.Graph.Samples.{queue, worker, reference, one, two, linked}
use func.Graph.Validity.{IsValid, IsValid-empty, add_resource-IsValid, add_dependency-IsValid}
use func.Graph.Parents.{needs, roots}
use func.Reconciler.{Deployed, RunError}
use func.Reconciler.Tasks.{
  running, ended, new_group, set_task, Schedule, start_leaf, start_parent, fail, process, Reach,
  begin, then_step, outcome,
}
use func.Reconciler.Tasks.Open.{NoPanic}
use func.Reconciler.Tasks.Order.{Reach-Succeeded}
use func.Reconciler.Tasks.Complete.{CanStep, Reach-Processed}
use func.Reconciler.Process.{
  process_resource, change_resolved, resolve_dependencies, resolve_with, names_of_parents,
  parent_names, take_existing, find_existing, drop_existing, apply_change, create_new, next_id,
  call, record_change, set_output, put_resource, stored, resolve_fields, replace_field, variables,
  output_of,
}
use func.Reconciler.Samples.{world, fresh}
use func.Samples.{Value}

abbrev States : Type 0
States = Schedule Value String (List (Deployed Value))

-- The goroutines on the two resources: the worker's task starts the queue's and waits for it.
abbrev worker_started : States
worker_started = record { tasks = set_task new_group "worker" (running worker); run = fresh }

abbrev queue_started : States
queue_started = record worker_started {
  tasks = set_task worker_started.tasks "queue" (running queue);
}

abbrev queue_processed : States
queue_processed = record {
  tasks =
      set_task queue_started.tasks "queue" (ended (process_resource world linked queue fresh).0);
  run = (process_resource world linked queue fresh).1;
}

abbrev worker_processed : States
worker_processed = record {
  tasks =
      set_task queue_processed.tasks "worker"
        (ended (process_resource world linked worker queue_processed.run).0);
  run = (process_resource world linked worker queue_processed.run).1;
}

linked_leaves : leaf_resources linked ≡ ok (worker ∷ [])
unfolding leaf_resources mark_parents mark_names unmarked parents root_name references contains
linked_leaves = refl

parents_of_worker : parent_resources linked "worker" ≡ ok (some queue ∷ [])
unfolding parent_resources scan_dependencies add_parents parents root_name references contains find
parents_of_worker = refl

parents_of_queue : parent_resources linked "queue" ≡ ok []
unfolding parent_resources scan_dependencies
parents_of_queue = refl

queue-ok : (process_resource world linked queue fresh).0 ≡ ok tt
unfolding process_resource change_resolved resolve_dependencies resolve_with names_of_parents
    parent_names take_existing find_existing apply_change create_new next_id call record_change
    set_output put_resource stored parent_resources scan_dependencies
queue-ok = refl

worker-ok : (process_resource world linked worker queue_processed.run).0 ≡ ok tt
unfolding process_resource change_resolved resolve_dependencies resolve_with names_of_parents
    parent_names take_existing find_existing apply_change create_new next_id call record_change
    set_output put_resource stored parent_resources scan_dependencies drop_existing add_parents
    parents root_name references contains find resolve_fields replace_field variables output_of
    dependencies_of value part_value walk join_values
worker-ok = refl

worker_processed-Reach : Reach world linked fresh worker_processed
unfolding set_task outcome
worker_processed-Reach =
    then_step
      (then_step
        (then_step
          (then_step begin
            (start_leaf (worker ∷ []) worker linked_leaves (Memᴰ.head refl) refl refl))
          (start_parent worker (some queue ∷ []) queue refl parents_of_worker (Memᴰ.head refl) refl
            refl))
        (process queue [] refl parents_of_queue refl refl))
      (process worker (some queue ∷ []) refl parents_of_worker (rw queue-ok refl) refl)

linked-IsValid : IsValid linked
unfolding add_resource add_dependency find check_references references
linked-IsValid =
    add_dependency-IsValid reference
      (add_resource-IsValid worker (add_resource-IsValid queue IsValid-empty added_queue)
        added_worker)
      added_reference
  where
    added_queue : add_resource empty queue ≡ ok one
    added_queue = refl

    added_worker : add_resource one worker ≡ ok two
    added_worker = refl

    added_reference : add_dependency two reference ≡ ok linked
    added_reference = refl

worker-needs-queue : needs linked.dependencies "worker" "queue" ≡ true
unfolding needs roots contains references
worker-needs-queue = refl

worker-ended : worker_processed.tasks "worker" ≡ some (ended (ok tt))
unfolding set_task
worker-ended = ap (λ x. some (ended x)) worker-ok

Reach-Succeeded_example : worker_processed.tasks "queue" ≡ some (ended (ok tt))
Reach-Succeeded_example =
    Reach-Succeeded world linked fresh worker_processed linked-IsValid worker_processed-Reach
      "worker" "queue" worker-needs-queue worker-ended

abbrev last : States
last = record {
  tasks =
      set_task (set_task new_group "queue" (running queue)) "queue"
        (ended (process_resource world one queue fresh).0);
  run = (process_resource world one queue fresh).1;
}

added_one : add_resource empty queue ≡ ok one
unfolding add_resource find
added_one = refl

one_leaves : leaf_resources one ≡ ok (queue ∷ [])
unfolding leaf_resources mark_parents mark_names unmarked contains
one_leaves = refl

last-Reach : Reach world one fresh last
unfolding set_task outcome parent_resources scan_dependencies
last-Reach =
    then_step
      (then_step begin (start_leaf (queue ∷ []) queue one_leaves (Memᴰ.head refl) refl refl))
      (process queue [] refl parents_of_none refl refl)
  where
    parents_of_none : parent_resources one "queue" ≡ ok []
    parents_of_none = refl

not_running : (n : String) (res : Desired Value) → last.tasks n ≡ some (running res) → ⊥
unfolding set_task
not_running n res h = elim (Bool-cases ("queue" == n)) [
  | inl same ↦ ground arith
  | inr other ↦ ground arith
]

not_absent : (res : Desired Value) → Memᴰ res (queue ∷ []) → last.tasks res.name ≡ none → ⊥
unfolding set_task
not_absent res (Memᴰ.head e) h =
    let found : last.tasks res.name ≡ last.tasks "queue" = ap (λ x. last.tasks x.name) e in cc
not_absent res (Memᴰ.tail m) h = elim m [ ]

last-stuck : CanStep world one last → ⊥
last-stuck (t, start_leaf leaves res l m e f) =
    let same : leaves ≡ queue ∷ [] = cc one_leaves in not_absent res (subst (Memᴰ res) same m) e
last-stuck (t, start_parent child ps res c l m e f) = not_running child.name child c
last-stuck (t, fail res ps e l o f) = not_running res.name res e
last-stuck (t, process res ps e l o f) = not_running res.name res e

queue_alone-ok : (process_resource world one queue fresh).0 ≡ ok tt
unfolding process_resource change_resolved resolve_dependencies resolve_with names_of_parents
    parent_names take_existing find_existing apply_change create_new next_id call record_change
    set_output put_resource stored parent_resources scan_dependencies
queue_alone-ok = refl

last-NoPanic : NoPanic last.tasks
unfolding set_task
last-NoPanic n h = elim (Bool-cases ("queue" == n)) [
  | inl same ↦ absurd (ground (arith, queue_alone-ok))
  | inr other ↦ absurd (ground arith)
]

one-ranked : (n m : String) → needs one.dependencies n m ≡ true → 0 < 0
unfolding needs
one-ranked n m h = cc

Reach-Processed_example :
    (x : Result (RunError String) (Unit {0})) × (last.tasks "queue" ≡ some (ended x))
Reach-Processed_example =
    Reach-Processed world one (λ n. 0) (add_resource-IsValid queue IsValid-empty added_one)
      one-ranked fresh last last-Reach last-NoPanic last-stuck queue (Memᴰ.head refl)
