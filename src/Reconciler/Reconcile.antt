-- ===== src/Reconciler/Reconcile.antt =====
-- resource/reconciler/reconciler.go: Reconcile, its three phases in their order.
pub mod Deletes
use func.Prelude.{
  ℕ, zero, suc, ◌+◌, ◌<◌, String, ◌≡◌, ◌≢◌, refl, sym, ap, subst, ◌∙◌, Option, none, some, List, [],
  ◌∷◌, ◌++◌, map, Result, ok, err, panic, All, arith,
}
use mathlib.Core.List.{Memᴰ}
use func.Graph.{Desired, Graph, leaf_resources}
use func.Graph.Validity.{IsValid}
use func.Graph.Parents.{needs}
use func.Reconciler.{Deployed, RunError, list_failed, World, Run, Exec, Op}
use func.Reconciler.Process.{process_resource}
use func.Reconciler.Process.Changes.{
  Changed, kept, updated, created, Created, Updated, process_resource-Changed,
}
use func.Reconciler.Tasks.{running, ended, all_done, some_failed, outcome, Schedule}
use func.Reconciler.Tasks.Success.{Reach-all_done}
use func.Reconciler.Remove.{Removal, Routine, Phase, start}
use func.Reconciler.Tasks as Tasks
use func.Reconciler.Remove as Remove

module _ {V S : Type 0} where
  -- The run that Reconcile makes, on the storage and the calls of IDGen before.
  abbrev pub new_run : S → ℕ → Run V S
  new_run store ids = record {
    existing = [];
    outputs = [];
    creates = 0;
    updates = 0;
    deletes = 0;
    store = store;
    ids = ids;
    log = [];
  }

module _ {V E S : Type 0} where
  abbrev pub listed : Result E (List (Deployed V)) → Exec V E S (Unit {0})
  listed (ok ex) r = (ok tt, record r { existing = ex })
  listed (err e) r = (err (list_failed e), r)
  listed panic r = (panic, r)

module _ {V D E S : Type 0} (w : World V D E S) where
  -- GetExisting
  unfoldable pub get_existing : Exec V E S (Unit {0})
  get_existing r = listed (w.list_resources r.store) r

module _ {V D E S : Type 0} (w : World V D E S) (g : Graph V) where
  -- How Reconcile ends, with its result, less its own wrapping of errors, and the run: it fails to
  -- list the existing resources, or a leaf fails, or else the goroutines of RemovePrevious have all
  -- ended. Without a leaf or an existing resource there is nothing to wait for.
  pub data Reconciles (store : S) (ids : ℕ) (x : Result (RunError E) (Unit {0})) (r : Run V S)
      : Type 0 where
    not_listed :
        (e : RunError E)
        → get_existing w (new_run store ids) ≡ (err e, r)
        → x ≡ err e
        → Reconciles store ids x r
    not_created :
        (r₁ : Run V S) (s : Schedule V E S) (leaves : List (Desired V)) (leaf : Desired V)
        (e : RunError E)
        → get_existing w (new_run store ids) ≡ (ok tt, r₁)
        → Tasks.Reach w g r₁ s
        → leaf_resources g ≡ ok leaves
        → outcome s.tasks (map some leaves) ≡ some_failed
        → Memᴰ leaf leaves
        → s.tasks leaf.name ≡ some (ended (err e))
        → x ≡ err e
        → r ≡ s.run
        → Reconciles store ids x r
    removed :
        (r₁ : Run V S) (s : Schedule V E S) (leaves : List (Desired V)) (u : Removal V E S)
        → get_existing w (new_run store ids) ≡ (ok tt, r₁)
        → Tasks.Reach w g r₁ s
        → leaf_resources g ≡ ok leaves
        → outcome s.tasks (map some leaves) ≡ all_done
        → Remove.Reach w (start s.run) u
        → All (λ routine. routine.phase ≡ Phase.ended) u.routines
        → x ≡ u.result
        → r ≡ u.run
        → Reconciles store ids x r
