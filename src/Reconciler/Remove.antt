-- ===== src/Reconciler/Remove.antt =====
-- resource/reconciler/reconciler.go: RemovePrevious. Each resource that is left over has a
-- goroutine, which waits until the goroutines of its dependents have ended.
mod Counts
pub mod Order
pub mod Progress
use func.Prelude.{
  ℕ, suc, ◌+◌, ◌-◌, String, ◌≡◌, Bool, true, false, Option, none, some, List, [], ◌∷◌, ◌++◌, map,
  Result, ok, err, panic, ◌==◌, if◌then◌else◌,
}
use func.Reconciler.{
  Deployed, RunError, acquire_failed, set_previous_failed, delete_failed, delete_resource_failed,
  Op, delete, World, Run, Exec, add_uint32, pure, crash, modify, lift, check, ◌>>=◌, ◌>>◌,
}
use func.Reconciler.Process.{previous_definition}

module _ {V E S : Type 0} where
  -- The storage after a removal from it.
  unfoldable pub removed : Result E (Unit {0}) × S → Exec V E S (Unit {0})
  removed (ok u, s) r = (ok u, record r { store = s })
  removed (err e, s) r = (err (delete_resource_failed e), record r { store = s })
  removed (panic, s) r = (panic, record r { store = s })

module _ {V D E S : Type 0} (w : World V D E S) where
  -- r.Resources.DeleteResource
  unfoldable pub delete_resource : Deployed V → Exec V E S (Unit {0})
  unfolding removed
  delete_resource d r = removed (w.delete_resource r.store d) r

  -- removeResource. A value of no registered type cannot be made: reflect.New(nil) panics.
  unfoldable pub remove_resource : Deployed V → Exec V E S (Unit {0})
  remove_resource d = do
    check acquire_failed (w.acquire d.name)
    if w.registered d.typename then pure tt else crash
    def ← lift set_previous_failed (previous_definition w d)
    modify (λ r. record r { log = r.log ++ delete d.id ∷ [] })
    check delete_failed (w.delete_definition def)
    modify (λ r. record r { deletes = add_uint32 r.deletes })
    delete_resource d

-- How often a name stands in a list.
unfoldable pub occurrences : String → List String → ℕ
occurrences n [] = 0
occurrences n (m ∷ ms) = if m == n then suc (occurrences n ms) else occurrences n ms

-- wgs: the counter of the wait group of each name; a name with no wait group counts 0.
abbrev pub WaitGroups : Type 0
WaitGroups = String → ℕ

-- wg.Add(1) for every name of the list
unfoldable pub add_all : WaitGroups → List String → WaitGroups
add_all wgs [] = wgs
add_all wgs (dep ∷ deps) = add_all (λ n. if dep == n then suc (wgs n) else wgs n) deps

-- pwg.Done() for every name of the list
unfoldable pub done_all : WaitGroups → List String → WaitGroups
done_all wgs [] = wgs
done_all wgs (dep ∷ deps) = done_all (λ n. if dep == n then wgs n - 1 else wgs n) deps

-- Where a goroutine stands: before wg.Wait() returns, after it, and at its end.
pub data Phase : Type 0 where
  waiting removing ended : Phase

pub record Routine (V : Type 0) : Type 0 where
  pub resource : Deployed V
  pub phase : Phase

pub record Removal (V E S : Type 0) : Type 0 where
  pub routines : List (Routine V)
  pub wgs : WaitGroups
  pub run : Run V S
  -- What g.Wait() is to return: the first error of a goroutine. A panic ends the program.
  pub result : Result (RunError E) (Unit {0})

module _ {V : Type 0} where
  -- The first loop of RemovePrevious.
  unfoldable pub count_dependents : WaitGroups → List (Deployed V) → WaitGroups
  count_dependents wgs [] = wgs
  count_dependents wgs (d ∷ ds) = count_dependents (add_all wgs d.deps) ds

-- The first result that is not nil.
abbrev pub first_result {ℓ} :
    {F : Type ℓ} → Result F (Unit {0}) → Result F (Unit {0}) → Result F (Unit {0})
first_result (ok u) later = later
first_result (err e) later = err e
first_result panic later = panic

module _ {V E S : Type 0} where
  -- The state after the loops: the wait groups are counted and every goroutine is started.
  unfoldable pub start : Run V S → Removal V E S
  start r = record {
    routines = map (λ d. record { resource = d; phase = waiting }) r.existing;
    wgs = count_dependents (λ n. 0) r.existing;
    run = r;
    result = ok tt;
  }

module _ {V D E S : Type 0} (w : World V D E S) where
  -- One goroutine moves. Its wait returns when the counter of its name is zero. Then it removes its
  -- resource and, whatever the result, counts itself off for each of its dependencies. What the
  -- removal changes is seen by the others when it has ended.
  pub data Step (s t : Removal V E S) : Type 0 where
    proceed :
        (front back : List (Routine V)) (d : Deployed V)
        → s.routines ≡ front ++ record { resource = d; phase = waiting } ∷ back
        → s.wgs d.name ≡ 0
        → t ≡ record s { routines = front ++ record { resource = d; phase = removing } ∷ back }
        → Step s t
    finish :
        (front back : List (Routine V)) (d : Deployed V)
        → s.routines ≡ front ++ record { resource = d; phase = removing } ∷ back
        → t ≡ record {
          routines = front ++ record { resource = d; phase = ended } ∷ back;
          wgs = done_all s.wgs d.deps;
          run = (remove_resource w d s.run).1;
          result = first_result s.result (remove_resource w d s.run).0;
        }
        → Step s t

  pub data Reach (s : Removal V E S) : Removal V E S → Type 0 where
    at_start : Reach s s
    after_step : {now later : Removal V E S} → Reach s now → Step now later → Reach s later
