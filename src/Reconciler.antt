-- ===== src/Reconciler.antt =====
-- resource/reconciler/reconciler.go: the state of one run, and what it takes from outside.
pub mod Process
pub mod Remove
pub mod Tasks
pub mod Reconcile
pub mod Samples
mod Tests
mod TaskTests
mod ReconcileTests
use func.Prelude.{
  ℕ, ◌+◌, ◌%◌, ◌^◌, String, ◌≡◌, Bool, Option, none, some, List, [], ◌∷◌, ◌++◌, Result, ok, err,
  panic, ◌==◌, if◌then◌else◌,
}
use func.Cty.{Cty, CtyPath, CtyError}
use func.Graph.{Desired, Graph, GraphError}

-- resource.Deployed, with the embedded *Desired as a field
pub record Deployed (V : Type 0) : Type 0 where
  pub desired : Desired V
  pub open desired use {name, typename, input, sources}
  pub id : String
  pub output : V
  pub deps : List String

-- The wrappings of the errors that a run returns. `E` is an error from outside.
pub data RunError (E : Type 0) : Type 0 where
  list_failed acquire_failed set_input_failed set_previous_failed change_failed : E → RunError E
  convert_outputs_failed store_failed delete_failed delete_resource_failed : E → RunError E
  transform_failed : CtyError → RunError E
  type_not_registered : String → RunError E
  dependency_not_found dependencies_failed : RunError E

-- A call of a provider.
pub data Op : Type 0 where
  create update : (name : String) → Op
  delete : (id : String) → Op

-- What a run gets from the registry, the providers, the storage and the libraries. `D` are the
-- values of resource.Definition, `S` the states of the storage.
pub record World (V D E S : Type 0) : Type 0 where
  pub cty : Cty V
  -- Sem.Acquire for the named resource; `some` is its error
  pub acquire : String → Option E
  -- Registry.Type(typename) != nil
  pub registered : String → Bool
  -- Value.Hash
  pub hash : V → ℕ
  -- a new value of the registered type, and FromCtyValue into a definition
  pub new_definition : String → D
  pub from_cty_value : V → D → Result E D
  -- ToCtyValue of the outputs of the type
  pub output_value : String → D → Result E V
  -- cmp.Equal of two source lists, with SortSlices and EquateEmpty
  pub sources_equal : List String → List String → Bool
  -- Definition.Create, Update and Delete under RetryNotify; the definition comes back changed
  pub create_definition : D → List String → Result E D
  pub update_definition : D → D → Bool → Bool → List String → Result E D
  pub delete_definition : D → Option E
  -- IDGen, by the number of calls before
  pub generate_id : ℕ → String
  -- cty.Transform with a callback that keeps one flag, and Path.Equals
  pub transform :
      V → (CtyPath V → V → Bool → Result CtyError V × Bool) → Bool → Result CtyError V × Bool
  pub path_equals : CtyPath V → CtyPath V → Bool
  -- ResourceStorage for the run's project; a call may have changed the storage and return an error
  pub put_resource : S → Deployed V → Result E (Unit {0}) × S
  pub delete_resource : S → Deployed V → Result E (Unit {0}) × S
  pub list_resources : S → Result E (List (Deployed V))

-- The fields of `run` that change, with the storage behind it and the calls made so far.
pub record Run (V S : Type 0) : Type 0 where
  pub existing : List (Deployed V)
  pub outputs : List (String × V)
  pub creates : ℕ
  pub updates : ℕ
  pub deletes : ℕ
  pub store : S
  pub ids : ℕ
  pub log : List Op

-- atomic.AddUint32(&n, 1)
abbrev pub add_uint32 : ℕ → ℕ
add_uint32 n = (n + 1) % 2 ^ 32

-- A step of a run. What it changed before an error stays changed.
abbrev pub Exec : Type 0 → Type 0 → Type 0 → Type 0 → Type 0
Exec V E S A = Run V S → Result (RunError E) A × Run V S

module _ {V E S : Type 0} where
  abbrev pub pure : {A : Type 0} → A → Exec V E S A
  pure a r = (ok a, r)

  abbrev pub raise : {A : Type 0} → RunError E → Exec V E S A
  raise e r = (err e, r)

  abbrev pub crash : {A : Type 0} → Exec V E S A
  crash r = (panic, r)

  abbrev pub modify : (Run V S → Run V S) → Exec V E S (Unit {0})
  modify f r = (ok tt, f r)

  abbrev pub gets : {A : Type 0} → (Run V S → A) → Exec V E S A
  gets f r = (ok (f r), r)

  -- A result from outside, its error wrapped.
  abbrev pub lift : {F A : Type 0} → (F → RunError E) → Result F A → Exec V E S A
  lift wrap (ok a) r = (ok a, r)
  lift wrap (err e) r = (err (wrap e), r)
  lift wrap panic r = (panic, r)

  abbrev pub check : (E → RunError E) → Option E → Exec V E S (Unit {0})
  check wrap none r = (ok tt, r)
  check wrap (some e) r = (err (wrap e), r)

  abbrev pub continue :
      {A B : Type 0}
      → Result (RunError E) A
      → (A → Exec V E S B)
      → Run V S
      → Result (RunError E) B × Run V S
  continue (ok a) f r = f a r
  continue (err e) f r = (err e, r)
  continue panic f r = (panic, r)

  infixl 5 ◌>>=◌ ◌>>◌
  abbrev pub ◌>>=◌ : {A B : Type 0} → Exec V E S A → (A → Exec V E S B) → Exec V E S B
  ◌>>=◌ m f r = continue (m r).0 f (m r).1

  abbrev pub ◌>>◌ : {B : Type 0} → Exec V E S (Unit {0}) → Exec V E S B → Exec V E S B
  first >> second = first >>= λ nothing. second
