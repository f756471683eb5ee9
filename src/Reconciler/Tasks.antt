-- ===== src/Reconciler/Tasks.antt =====
-- resource/reconciler/internal/task/group.go and, of resource/reconciler/reconciler.go, CreateUpdate,
-- processDependencies and the call of the task group in processResource.
pub mod Outcomes
pub mod Order
pub mod Open
pub mod Complete
pub mod Success
pub mod Existing
pub mod Left
use func.Prelude.{
  String, ◌≡◌, Bool, Option, none, some, List, [], ◌∷◌, Result, ok, err, panic, ◌==◌, if◌then◌else◌,
}
use mathlib.Core.List.{Memᴰ}
use func.Graph.{Desired, Graph, GraphError, parent_resources, leaf_resources}
use func.Reconciler.{RunError, dependencies_failed, World, Run}
use func.Reconciler.Process.{process_resource}

-- A task of the group: its function is running, for a resource, or it has ended with the error that every call of
-- Do for its key returns. A panic in it ends the program.
pub data Task (V E : Type 0) : Type 0 where
  running : Desired V → Task V E
  ended : Result (RunError E) (Unit {0}) → Task V E

-- The map of the group.
abbrev pub Group : Type 0 → Type 0 → Type 0
Group V E = String → Option (Task V E)

module _ {V E : Type 0} where
  abbrev pub new_group : Group V E
  new_group name = none

  -- The task of one name is replaced.
  unfoldable pub set_task : Group V E → String → Task V E → Group V E
  set_task group name t n = if name == n then some t else group n

-- What the calls for the parents come to: one has not returned, all have returned nil, or all have
-- returned and one has returned an error.
pub data Outcome : Type 0 where
  blocked all_done some_failed : Outcome

module _ {V E : Type 0} where
  -- The outcome with the result of one more call.
  abbrev pub and_task : Option (Task V E) → Outcome → Outcome
  and_task (some (ended (ok u))) rest = rest
  and_task (some (ended (err e))) blocked = blocked
  and_task (some (ended (err e))) rest = some_failed
  and_task (some (ended panic)) rest = blocked
  and_task (some (running res)) rest = blocked
  and_task none rest = blocked

module _ {V E : Type 0} where
  -- g.Wait() of processDependencies. A nil parent is dereferenced, so that nothing returns.
  unfoldable pub outcome : Group V E → List (Option (Desired V)) → Outcome
  outcome group [] = all_done
  outcome group (none ∷ ps) = blocked
  outcome group (some p ∷ ps) = and_task (group p.name) (outcome group ps)

pub record Schedule (V E S : Type 0) : Type 0 where
  pub tasks : Group V E
  pub run : Run V S

module _ {V D E S : Type 0} (w : World V D E S) (g : Graph V) where
  -- CreateUpdate starts a task for every leaf, and a running task one for each parent, unless the
  -- group has it. When the calls for its parents have returned, the task fails with the first error
  -- among theirs, or else processes its resource. What that changes is seen by the others when the
  -- task has ended.
  pub data Step (s t : Schedule V E S) : Type 0 where
    start_leaf :
        (leaves : List (Desired V)) (res : Desired V)
        → leaf_resources g ≡ ok leaves
        → Memᴰ res leaves
        → s.tasks res.name ≡ none
        → t ≡ record s { tasks = set_task s.tasks res.name (running res) }
        → Step s t
    start_parent :
        (child : Desired V) (ps : List (Option (Desired V))) (res : Desired V)
        → s.tasks child.name ≡ some (running child)
        → parent_resources g child.name ≡ ok ps
        → Memᴰ (some res) ps
        → s.tasks res.name ≡ none
        → t ≡ record s { tasks = set_task s.tasks res.name (running res) }
        → Step s t
    fail :
        (res : Desired V) (ps : List (Option (Desired V)))
        → s.tasks res.name ≡ some (running res)
        → parent_resources g res.name ≡ ok ps
        → outcome s.tasks ps ≡ some_failed
        → t ≡ record s { tasks = set_task s.tasks res.name (ended (err dependencies_failed)) }
        → Step s t
    process :
        (res : Desired V) (ps : List (Option (Desired V)))
        → s.tasks res.name ≡ some (running res)
        → parent_resources g res.name ≡ ok ps
        → outcome s.tasks ps ≡ all_done
        → t ≡ record {
          tasks = set_task s.tasks res.name (ended (process_resource w g res s.run).0);
          run = (process_resource w g res s.run).1;
        }
        → Step s t

  -- CreateUpdate, from its new task group on.
  pub data Reach (r : Run V S) : Schedule V E S → Type 0 where
    begin : Reach r (record { tasks = new_group; run = r })
    then_step : {s t : Schedule V E S} → Reach r s → Step s t → Reach r t
