-- ===== src/Reconciler/Process/Changes.antt =====
-- resource/reconciler/reconciler.go: the three ways in which processing a resource succeeds.
use func.Prelude.{
  ◌+◌, refl, sym, ◌∙◌, ◌≡◌, ◌≢◌, Bool, true, false, Bool-cases, Option, none, some, Result, ok, err,
  panic, [], ◌∷◌, ◌++◌, String, ◌⊎◌, inl, inr, not, eqb, arith, if◌then◌else◌, ◌&&◌,
}
use mathlib.Core.Path.{subst, ap}
use func.Graph.{Desired, Graph}
use func.Reconciler.{
  Deployed, RunError, World, Run, Exec, create, update, set_previous_failed, change_failed,
  set_input_failed, acquire_failed, type_not_registered, add_uint32, pure, raise, lift, check,
  ◌>>=◌, ◌>>◌,
}
use func.Reconciler.Process.{
  resolve_dependencies, find_existing, drop_existing, take_existing, set_output, call,
  record_change, previous_definition, update_existing, next_id, create_new, apply_change,
  change_resolved, process_resource,
}
use func.Reconciler.Process.Matching.{
  Match, NoMatch, SameName, resolve_dependencies-SameName, find_existing-Match,
  find_existing-NoMatch,
}
use func.Reconciler.Process.Resolve.{resolve_dependencies-Still}
use func.Reconciler.Process.Success.{bind-eq-ok, Stored, counted, record_change-eq-ok}

module _ {V D E S : Type 0} (w : World V D E S) where
  -- The provider's call succeeded, and what it made was stored.
  record_new-eq-ok :
      (g : Graph V) (res : Desired V) (id : String) (updated : Bool) (x : Result E D)
      (r r' : Run V S)
      → (lift change_failed x >>= record_change w g res id updated) r ≡ (ok tt, r')
      → (def : D) × (x ≡ ok def)
        × (s : S) × (done : Stored w g res id def r.store s) × (r'
            ≡ counted updated
                (record r { outputs = (res.name, done.output) ∷ r.outputs; store = s }))
  record_new-eq-ok g res id updated (ok def) r r' h =
      let (s, done, after) = record_change-eq-ok w g res id updated def r r' h in
      (def, refl, s, done, after)
  record_new-eq-ok g res id updated (err e) r r' h = absurd (ground arith)
  record_new-eq-ok g res id updated panic r r' h = absurd (ground arith)

  -- The resource was created: one call of Create, a new id, and the storage has it.
  pub record Created (g : Graph V) (res : Desired V) (def : D) (r r' : Run V S) : Type 0 where
    pub new_def : D
    pub made : w.create_definition def res.sources ≡ ok new_def
    pub store : S
    pub done : Stored w g res (w.generate_id r.ids) new_def r.store store
    pub after : r' ≡ record r {
      outputs = (res.name, done.output) ∷ r.outputs;
      creates = add_uint32 r.creates;
      store = store;
      ids = r.ids + 1;
      log = r.log ++ create res.name ∷ [];
    }

  create_new-Created :
      (g : Graph V) (res : Desired V) (def : D) (r r' : Run V S)
      → create_new w g res def r ≡ (ok tt, r')
      → Created g res def r r'
  unfolding create_new next_id call
  create_new-Created g res def r r' h =
      let r₁ = record r { ids = r.ids + 1; log = r.log ++ create res.name ∷ [] } in
      let (def', made, s, done, after) =
        record_new-eq-ok g res (w.generate_id r.ids) false (w.create_definition def res.sources) r₁
          r' h in
      record { new_def = def'; made = made; store = s; done = done; after = after }

  -- The resource was updated: one call of Update with the previous definition, under the id of the
  -- existing resource, and the storage has it.
  pub record Updated (g : Graph V) (res : Desired V) (def : D) (config source : Bool)
      (ex : Deployed V) (r r' : Run V S) : Type 0 where
    pub previous : D
    pub rebuilt : previous_definition w ex ≡ ok previous
    pub new_def : D
    pub made : w.update_definition def previous config source res.sources ≡ ok new_def
    pub store : S
    pub done : Stored w g res ex.id new_def r.store store
    pub after : r' ≡ record r {
      outputs = (res.name, done.output) ∷ r.outputs;
      updates = add_uint32 r.updates;
      store = store;
      log = r.log ++ update res.name ∷ [];
    }

  update_existing-Updated :
      (g : Graph V) (res : Desired V) (def : D) (config source : Bool) (ex : Deployed V)
      (r r' : Run V S)
      → (not config && not source) ≡ false
      → update_existing w g res def config source ex r ≡ (ok tt, r')
      → Updated g res def config source ex r r'
  unfolding update_existing call
  update_existing-Updated g res def config source ex r r' changed h =
      go (previous_definition w ex) refl (rw changed at h)
    where
      r₁ : Run V S
      r₁ = record r { log = r.log ++ update res.name ∷ [] }

      rest : D → Exec V E S (Unit {0})
      rest prev r₀ =
          (lift change_failed (w.update_definition def prev config source res.sources)
              >>= record_change w g res ex.id true)
            (record r₀ { log = r₀.log ++ update res.name ∷ [] })

      go :
          (x : Result E D)
          → previous_definition w ex ≡ x
          → (lift set_previous_failed x >>= rest) r ≡ (ok tt, r')
          → Updated g res def config source ex r r'
      go (ok prev) rebuilt h =
          let (def', made, s, done, after) =
            record_new-eq-ok g res ex.id true
              (w.update_definition def prev config source res.sources) r₁ r' h in
          record {
            previous = prev;
            rebuilt = rebuilt;
            new_def = def';
            made = made;
            store = s;
            done = done;
            after = after;
          }
      go (err e) rebuilt h = absurd (ground arith)
      go panic rebuilt h = absurd (ground arith)

  update_existing-kept :
      (g : Graph V) (res : Desired V) (def : D) (config source : Bool) (ex : Deployed V)
      (r r' : Run V S)
      → (not config && not source) ≡ true
      → update_existing w g res def config source ex r ≡ (ok tt, r')
      → r' ≡ record r { outputs = (res.name, ex.output) ∷ r.outputs }
  unfolding update_existing set_output
  update_existing-kept g res def config source ex r r' same h = ground arith

  abbrev pub config_changed : Desired V → Deployed V → Bool
  config_changed res ex = not (eqb (w.hash ex.input) (w.hash res.input))

  abbrev pub source_changed : Desired V → Deployed V → Bool
  source_changed res ex = not (w.sources_equal ex.sources res.sources)

  -- What has happened to a resource with its dependencies resolved.
  pub data Changed (g : Graph V) (res : Desired V) (def : D) (r r' : Run V S) : Type 0 where
    kept :
        (ex : Deployed V)
        → Match res r.existing ex (drop_existing res r.existing)
        → w.hash ex.input ≡ w.hash res.input
        → w.sources_equal ex.sources res.sources ≡ true
        → r' ≡ record r {
          existing = drop_existing res r.existing;
          outputs = (res.name, ex.output) ∷ r.outputs;
        }
        → Changed g res def r r'
    updated :
        (ex : Deployed V)
        → Match res r.existing ex (drop_existing res r.existing)
        → (w.hash ex.input ≢ w.hash res.input) ⊎ (w.sources_equal ex.sources res.sources ≡ false)
        → Updated g res def
            (config_changed res ex)
            (source_changed res ex)
            ex
            (record r { existing = drop_existing res r.existing })
            r'
        → Changed g res def r r'
    created :
        NoMatch res r.existing (drop_existing res r.existing)
        → Created g res def (record r { existing = drop_existing res r.existing }) r'
        → Changed g res def r r'

  apply_change-Changed :
      (g : Graph V) (res : Desired V) (def : D) (r r' : Run V S) (found : Option (Deployed V))
      → find_existing res r.existing ≡ found
      → apply_change w g res def found (record r { existing = drop_existing res r.existing })
        ≡ (ok tt, r')
      → Changed g res def r r'
  unfolding apply_change
  apply_change-Changed g res def r r' none e h =
      created (find_existing-NoMatch res r.existing e) (create_new-Created g res def _ r' h)
  apply_change-Changed g res def r r' (some ex) e h =
      elim (Bool-cases (not (config_changed res ex) && not (source_changed res ex))) [
        | inl same ↦
            kept ex (find_existing-Match res r.existing ex e) (ground arith) (ground arith)
              (update_existing-kept g res def _ _ ex _ r' same h)
        | inr differs ↦
            updated ex (find_existing-Match res r.existing ex e) (ground arith)
              (update_existing-Updated g res def _ _ ex _ r' differs h)
      ]

  decoded-Changed :
      (g : Graph V) (res : Desired V) (x : Result E D) (r r' : Run V S)
      → (lift set_input_failed x >>= λ def.
            take_existing res >>= λ found. apply_change w g res def found)
          r
        ≡ (ok tt, r')
      → (def : D) × (x ≡ ok def) × Changed g res def r r'
  unfolding take_existing
  decoded-Changed g res (ok def) r r' h = (def, refl, apply_change-Changed g res def r r' _ refl h)
  decoded-Changed g res (err e) r r' h = absurd (ground arith)
  decoded-Changed g res panic r r' h = absurd (ground arith)

  -- Acquiring the semaphore and finding the type change nothing.
  admitted :
      (o : Option E) (b : Bool) (e : RunError E) (m : Exec V E S (Unit {0})) (r r' : Run V S)
      → (check acquire_failed o >> ((if b then pure tt else raise e) >> m)) r ≡ (ok tt, r')
      → m r ≡ (ok tt, r')
  admitted none true e m r r' h = h
  admitted none false e m r r' h = absurd (ground arith)
  admitted (some d) b e m r r' h = absurd (ground arith)

  pub process_resource-Changed :
      (g : Graph V) (res : Desired V) (r r' : Run V S)
      → process_resource w g res r ≡ (ok tt, r')
      → (resolved : Desired V) × (def : D) × ((resolve_dependencies w g res r).0 ≡ ok resolved)
        × SameName resolved res
        × (w.from_cty_value resolved.input (w.new_definition resolved.typename) ≡ ok def)
        × Changed g resolved def r r'
  unfolding process_resource
  process_resource-Changed g res r r' h =
      let (resolved, r₁, e, h₁) =
        bind-eq-ok (resolve_dependencies w g res) (change_resolved w g) r r' tt (
          admitted (w.acquire res.name) (w.registered res.typename)
            (type_not_registered res.typename)
            (resolve_dependencies w g res >>= change_resolved w g) r r' h) in
      let same : r₁ ≡ r = sym (ap (λ x. x.1) e) ∙ (resolve_dependencies-Still w g res).at r in
      let (def, decoded, changed) =
        decoded-Changed g resolved
          (w.from_cty_value resolved.input (w.new_definition resolved.typename)) r₁ r' h₁ in
      (
        resolved,
        def,
        ap (λ x. x.0) e,
        resolve_dependencies-SameName w g res resolved r (ap (λ x. x.0) e),
        decoded,
        subst (λ x. Changed g resolved def x r') same changed,
      )
