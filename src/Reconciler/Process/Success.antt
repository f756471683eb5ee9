-- ===== src/Reconciler/Process/Success.antt =====
-- resource/reconciler/reconciler.go: what processing a resource has done when it succeeds.
use func.Prelude.{
  refl, ◌≡◌, Bool, Option, Result, ok, err, panic, List, ◌∷◌, String, arith, if◌then◌else◌,
}
use func.Graph.{Desired, Graph, parent_resources}
use func.Reconciler.{
  Deployed, RunError, World, Run, Exec, convert_outputs_failed, add_uint32, lift, continue, ◌>>=◌,
}
use func.Reconciler.Process.{
  names_of_parents, parent_names, set_output, stored, put_resource, record_change,
}

module _ {V E S A B : Type 0} where
  -- Inversion of a bind that has returned.
  pub bind-eq-ok :
      (m : Exec V E S A) (f : A → Exec V E S B) (r r' : Run V S) (b : B)
      → (m >>= f) r ≡ (ok b, r')
      → (a : A) × (r₁ : Run V S) × (m r ≡ (ok a, r₁)) × (f a r₁ ≡ (ok b, r'))
  bind-eq-ok m f r r' b h = go (m r) refl h
    where
      go :
          (x : Result (RunError E) A × Run V S)
          → m r ≡ x
          → continue x.0 f x.1 ≡ (ok b, r')
          → (a : A) × (r₁ : Run V S) × (m r ≡ (ok a, r₁)) × (f a r₁ ≡ (ok b, r'))
      go (ok a, r₁) e h = (a, r₁, e, h)
      go (err d, r₁) e h = ground arith
      go (panic, r₁) e h = ground arith

module _ {V E S A F : Type 0} where
  pub lift-eq-ok :
      (wrap : F → RunError E) (x : Result F A) (r r' : Run V S) (a : A)
      → lift wrap x r ≡ (ok a, r')
      → (x ≡ ok a) × (r' ≡ r)
  lift-eq-ok wrap (ok b) r r' a h = (ground arith, ground arith)
  lift-eq-ok wrap (err e) r r' a h = (ground arith, ground arith)
  lift-eq-ok wrap panic r r' a h = (ground arith, ground arith)

module _ {V : Type 0} where
  -- The names of the parents of a resource.
  abbrev pub AreParents : Graph V → String → List String → Type 0
  AreParents g name deps =
      (ps : List (Option (Desired V))) × (parent_resources g name ≡ ok ps)
      × (parent_names ps ≡ ok deps)

module _ {V E S : Type 0} where
  pub names_of_parents-eq-ok :
      (g : Graph V) (name : String) (r r' : Run V S) (deps : List String)
      → names_of_parents {E = E} g name r ≡ (ok deps, r')
      → AreParents g name deps × (r' ≡ r)
  unfolding names_of_parents
  names_of_parents-eq-ok g name r r' deps h = ground arith

  stored-eq-ok :
      (x : Result E (Unit {0}) × S) (r r' : Run V S) (a : Unit {0})
      → stored x r ≡ (ok a, r')
      → (s : S) × (x ≡ (ok tt, s)) × (r' ≡ record r { store = s })
  unfolding stored
  stored-eq-ok (ok u, s) r r' a h = (s, refl, ground arith)
  stored-eq-ok (err e, s) r r' a h = ground arith
  stored-eq-ok (panic, s) r r' a h = ground arith

module _ {V S : Type 0} where
  abbrev pub counted : Bool → Run V S → Run V S
  counted updated r =
      if updated
      then record r { updates = add_uint32 r.updates }
      else record r { creates = add_uint32 r.creates }

module _ {V D E S : Type 0} (w : World V D E S) where
  abbrev pub deployed : Desired V → String → V → List String → Deployed V
  deployed res id output deps = record { desired = res; id = id; output = output; deps = deps }

  -- The storage accepted the resource with the outputs of its new definition and the names of its
  -- parents.
  pub record Stored (g : Graph V) (res : Desired V) (id : String) (def : D) (before after : S)
      : Type 0 where
    pub output : V
    pub deps : List String
    pub converted : w.output_value res.typename def ≡ ok output
    pub parents : AreParents g res.name deps
    pub accepted : w.put_resource before (deployed res id output deps) ≡ (ok tt, after)

  pub record_change-eq-ok :
      (g : Graph V) (res : Desired V) (id : String) (updated : Bool) (def : D) (r r' : Run V S)
      → record_change w g res id updated def r ≡ (ok tt, r')
      → (s : S) × (done : Stored g res id def r.store s) × (r'
          ≡ counted updated (record r { outputs = (res.name, done.output) ∷ r.outputs; store = s }))
  unfolding record_change set_output put_resource
  record_change-eq-ok g res id updated def r r' h =
      let convert = lift convert_outputs_failed (w.output_value res.typename def) in
      let (output, r₁, e₁, h₁) = bind-eq-ok convert _ r r' tt h in
      let (converted, same₁) = lift-eq-ok convert_outputs_failed _ r r₁ output e₁ in
      let r₂ = record r₁ { outputs = (res.name, output) ∷ r₁.outputs } in
      let (deps, r₃, e₃, h₃) = bind-eq-ok (names_of_parents {E = E} g res.name) _ r₂ r' tt h₁ in
      let (parents, same₃) = names_of_parents-eq-ok g res.name r₂ r₃ deps e₃ in
      let write = put_resource w (deployed res id output deps) in
      let (u', r₄, e₄, h₄) = bind-eq-ok write _ r₃ r' tt h₃ in
      let (s, accepted, same₄) = stored-eq-ok _ r₃ r₄ u' e₄ in
      (
        s,
        record {
          output = output;
          deps = deps;
          converted = converted;
          parents = parents;
          accepted = ground arith;
        },
        ground arith,
      )
