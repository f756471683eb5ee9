-- ===== src/Reconciler/Tasks/Left.antt =====
-- CreateUpdate: exactly the existing resources that the graph does not declare are left.
use func.Prelude.{String, ◌≡◌, false, some, List, Result, ok}
use mathlib.Core.List.{Memᴰ}
use mathlib.Core.List.Memᴰ
use func.Graph.{Desired, Graph, resource}
use func.Reconciler.{Deployed, RunError, Run}
use func.Reconciler.Process.{same_resource}
use func.Reconciler.Process.Existing.{Unmatched, Separate}
use func.Reconciler.Tasks.{ended, Group, Schedule}

module _ {V E S : Type 0} (g : Graph V) where
  -- What is left of the existing resources of the run `r`.
  record Left (r : Run V S) (s : Schedule V E S) : Type 0 where
    pub separate : Separate s.run.existing
    pub gone :
        (n : String) (res : Desired V)
        → s.tasks n ≡ some (ended (ok tt))
        → resource g n ≡ some res
        → Unmatched res s.run.existing
    pub from_before : (ex : Deployed V) → Memᴰ ex s.run.existing → Memᴰ ex r.existing
    pub undeclared :
        (ex : Deployed V)
        → Memᴰ ex r.existing
        → ((res : Desired V) → Memᴰ res g.resources → same_resource res ex ≡ false)
        → Memᴰ ex s.run.existing

module _ {V E : Type 0} where
  abbrev AllOk : Group V E → Type 0
  AllOk group =
      (n : String) (x : Result (RunError E) (Unit {0})) → group n ≡ some (ended x) → x ≡ ok tt
