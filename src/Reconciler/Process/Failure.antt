-- ===== src/Reconciler/Process/Failure.antt =====
-- resource/reconciler/reconciler.go: a resource that fails leaves nothing in the storage.
use func.Prelude.{
  refl, sym, ap, ◌∙◌, ◌≡◌, ◌≢◌, Bool, Option, none, some, Result, ok, err, panic, List, [], ◌∷◌,
  String, ◌⊎◌, inl, inr, arith,
}
use func.Graph.{Desired, Dependency, Graph}
use func.Reconciler.{Deployed, World, Run, Op, modify, ◌>>◌}
use func.Reconciler.Process.{
  names_of_parents, resolve_fields, resolve_with, resolve_dependencies, take_existing, set_output,
  call, stored, put_resource, record_change, update_existing, next_id, create_new, apply_change,
  process_resource,
}
use func.Reconciler.Process.Quiet.{
  Failed, Quiet, FailsQuietly, FailsQuietly-of_Quiet, FailsQuietly-if, FailsQuietly-bind,
  quiet_rules,
}

module _ {V E S : Type 0} where
  names_of_parents-Quiet :
      (g : Graph V) (name : String) → Quiet (names_of_parents {E = E} {S = S} g name)
  unfolding names_of_parents
  names_of_parents-Quiet g name = record {
    at = λ r. record {
      store = ground arith;
      creates = ground arith;
      updates = ground arith;
      deletes = ground arith;
    };
  }

  take_existing-Quiet : (res : Desired V) → Quiet (take_existing {E = E} {S = S} res)
  unfolding take_existing
  take_existing-Quiet res = record {
    at = λ r. record { store = refl; creates = refl; updates = refl; deletes = refl };
  }

  set_output-Quiet : (name : String) (v : V) → Quiet (set_output {E = E} {S = S} name v)
  unfolding set_output
  set_output-Quiet name v = record {
    at = λ r. record { store = refl; creates = refl; updates = refl; deletes = refl };
  }

  call-Quiet : (op : Op) → Quiet (call {V = V} {E = E} {S = S} op)
  unfolding call
  call-Quiet op = record {
    at = λ r. record { store = refl; creates = refl; updates = refl; deletes = refl };
  }

ruleset step_rules =
    (quiet_rules, names_of_parents-Quiet, take_existing-Quiet, set_output-Quiet, call-Quiet)

module _ {V D E S : Type 0} (w : World V D E S) where
  next_id-Quiet : Quiet (next_id w)
  unfolding next_id
  next_id-Quiet = record {
    at = λ r. record { store = refl; creates = refl; updates = refl; deletes = refl };
  }

  resolve_fields-Quiet :
      (vars : List (String × V)) (ds : List (Dependency V)) (input : V)
      → Quiet (resolve_fields w vars ds input)
  unfolding resolve_fields
  resolve_fields-Quiet vars [] input = search step_rules
  resolve_fields-Quiet vars (d ∷ ds) input = search (step_rules, resolve_fields-Quiet vars ds)

  resolve_with-Quiet :
      (g : Graph V) (res : Desired V) (parents : List String) → Quiet (resolve_with w g res parents)
  unfolding resolve_with
  resolve_with-Quiet g res [] = search step_rules
  resolve_with-Quiet g res (p ∷ ps) = search (step_rules, resolve_fields-Quiet)

  resolve_dependencies-Quiet :
      (g : Graph V) (res : Desired V) → Quiet (resolve_dependencies w g res)
  unfolding resolve_dependencies
  resolve_dependencies-Quiet g res = search (step_rules, resolve_with-Quiet)

  -- What follows a write does not fail.
  store_change-FailsQuietly :
      (d : Deployed V) (count : Run V S → Run V S)
      → FailsQuietly w.put_resource (put_resource w d >> modify count)
  unfolding put_resource stored
  store_change-FailsQuietly d count = record { at = λ r. go r (w.put_resource r.store d) refl }
    where
      failed :
          (r : Run V S) (x : Result E (Unit {0})) (s : S)
          → w.put_resource r.store d ≡ (x, s)
          → x ≢ ok tt
          → Failed w.put_resource r (record r { store = s })
      failed r x s e fails = record {
        store = inr (d, (λ h. fails (sym (ap (λ y. y.0) e) ∙ h)), sym (ap (λ y. y.1) e));
        creates = refl;
        updates = refl;
        deletes = refl;
      }

      go :
          (r : Run V S) (x : Result E (Unit {0}) × S)
          → w.put_resource r.store d ≡ x
          → Failed w.put_resource r ((stored x >> modify count) r).1
            ⊎ ((a : Unit {0}) × (((stored x >> modify count) r).0 ≡ ok a))
      go r (ok u, s) e = inr (tt, refl)
      go r (err x, s) e = inl (failed r (err x) s e (λ h. cc))
      go r (panic, s) e = inl (failed r panic s e (λ h. cc))

  record_change-FailsQuietly :
      (g : Graph V) (res : Desired V) (id : String) (updated : Bool) (def : D)
      → FailsQuietly w.put_resource (record_change w g res id updated def)
  unfolding record_change
  record_change-FailsQuietly g res id updated def =
      search (step_rules, FailsQuietly-bind, store_change-FailsQuietly)

  ruleset failure_rules = (
    step_rules, FailsQuietly-bind, FailsQuietly-if, FailsQuietly-of_Quiet, next_id-Quiet,
    record_change-FailsQuietly,
  )

  create_new-FailsQuietly :
      (g : Graph V) (res : Desired V) (def : D)
      → FailsQuietly w.put_resource (create_new w g res def)
  unfolding create_new
  create_new-FailsQuietly g res def = search failure_rules

  update_existing-FailsQuietly :
      (g : Graph V) (res : Desired V) (def : D) (config source : Bool) (ex : Deployed V)
      → FailsQuietly w.put_resource (update_existing w g res def config source ex)
  unfolding update_existing
  update_existing-FailsQuietly g res def config source ex = search failure_rules

  apply_change-FailsQuietly :
      (g : Graph V) (res : Desired V) (def : D) (existing : Option (Deployed V))
      → FailsQuietly w.put_resource (apply_change w g res def existing)
  unfolding apply_change
  apply_change-FailsQuietly g res def none = create_new-FailsQuietly g res def
  apply_change-FailsQuietly g res def (some ex) = update_existing-FailsQuietly g res def _ _ ex

  process_resource-FailsQuietly :
      (g : Graph V) (res : Desired V) → FailsQuietly w.put_resource (process_resource w g res)
  unfolding process_resource
  process_resource-FailsQuietly g res =
      search (failure_rules, apply_change-FailsQuietly, resolve_dependencies-Quiet) depth 12

  -- A resource whose processing fails, at whatever step and in whatever state of the run, has not
  -- changed the counters, and has changed the storage at most by one call of PutResource that has
  -- itself failed.
  pub process_resource-Failed :
      (g : Graph V) (res : Desired V) (r : Run V S)
      → ((a : Unit {0}) → (process_resource w g res r).0 ≢ ok a)
      → Failed w.put_resource r (process_resource w g res r).1
  process_resource-Failed g res r fails = elim ((process_resource-FailsQuietly g res).at r) [
    | inl same ↦ same
    | inr (a, done) ↦ absurd (fails a done)
  ]
