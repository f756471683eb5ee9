-- ===== src/Decoder/Resolve.antt =====
-- resource/hcldecoder/decoder.go, resolveValues: references to inputs are replaced by their values.
pub mod Parts
pub mod Visit
pub mod Round
pub mod Ends
pub mod Settled
pub mod Stuck
use func.Prelude.{
  ℕ, suc, ◌+◌, String, Bool, true, false, Option, none, some, List, [], ◌∷◌, ◌==◌, eqb, Result, ok,
  err, panic, ◌>>=◌, if◌then◌else◌,
}
use func.Cty.{Cty, CtyPath, PathStep, get_attr_step, index_step, CtyError}
use func.Expression.{ExprPart, Expression, expr_literal, expr_reference, merge_literals, value}
use func.TypePath.{CtyType, attribute_type, apply_type_path}
use func.Decoder.{
  Value, static, reference, Attributes, Diagnostic, first_step_not_object, second_step_not_field,
  value_not_found, invalid_reference, no_such_field, Diagnostics, Cell, Store, write, Res,
  Resources, put_res, input_of, is_capsule, Library, validate, transform_attributes,
}

-- What becomes of a reference: it stays, it stays and is counted in remainingRefs, or it is replaced.
pub data Fate (S : Type 0) : Type 0 where
  kept waits : Fate S
  replaced : Value S → Fate S

-- The parts of an expression after the loop over them, with exprRefs and what is added to
-- remainingRefs.
pub record Resolved (S : Type 0) : Type 0 where
  pub parts : Expression (Value S)
  pub expr_refs : ℕ
  pub remaining : ℕ

-- What the callback changes: the expressions, and remainingRefs.
pub record Progress (S : Type 0) : Type 0 where
  pub store : Store S
  pub remaining_refs : ℕ

pub record State (S : Type 0) : Type 0 where
  pub resources : Resources S
  pub progress : Progress S

module _ {S : Type 0} where
  -- A reference to an input.
  unfoldable pub input_fate : Res S → String → Result (Diagnostics S) (Fate S)
  input_fate parent name = elim (input_of parent.input name) [
    | none ↦ err (no_such_field parent.typename name ∷ [])
    | some v ↦ ok (if is_capsule v then waits else replaced v)
  ]

  -- A reference to an output, with the rest of the path.
  unfoldable pub output_fate :
      CtyType → String → CtyPath (Value S) → Result (Diagnostics S) (Fate S)
  output_fate t parent_name path = elim (apply_type_path t path) [
    | ok u ↦ ok kept
    | err e ↦ err (invalid_reference parent_name e ∷ [])
    | panic ↦ panic
  ]

  -- The field that is named by the second step.
  unfoldable pub field_fate : Res S → String → CtyPath (Value S) → Result (Diagnostics S) (Fate S)
  field_fate parent parent_name [] = panic
  field_fate parent parent_name (index_step key ∷ path) = err (second_step_not_field ∷ [])
  field_fate parent parent_name (get_attr_step name ∷ path) =
      elim (attribute_type parent.outputs name) [
        | some t ↦ output_fate t parent_name path
        | none ↦ input_fate parent name
      ]

  unfoldable pub fate : Resources S → CtyPath (Value S) → Result (Diagnostics S) (Fate S)
  fate resources [] = panic
  fate resources (index_step key ∷ path) = err (first_step_not_object ∷ [])
  fate resources (get_attr_step name ∷ path) = elim (resources name) [
    | none ↦ err (value_not_found name ∷ [])
    | some parent ↦ field_fate parent name path
  ]

  unfoldable pub settle : CtyPath (Value S) → Fate S → Resolved S → Resolved S
  settle path kept rest = record rest {
    parts = expr_reference path ∷ rest.parts;
    expr_refs = suc rest.expr_refs;
  }
  settle path waits rest = record {
    parts = expr_reference path ∷ rest.parts;
    expr_refs = suc rest.expr_refs;
    remaining = suc rest.remaining;
  }
  settle path (replaced v) rest = record rest { parts = expr_literal v ∷ rest.parts }

  -- The loop over the parts of an expression.
  unfoldable pub resolve_parts :
      Resources S → Expression (Value S) → Result (Diagnostics S) (Resolved S)
  resolve_parts resources [] = ok (record { parts = []; expr_refs = 0; remaining = 0 })
  resolve_parts resources (expr_literal v ∷ es) =
      resolve_parts resources es >>= λ r. ok (record r { parts = expr_literal v ∷ r.parts })
  resolve_parts resources (expr_reference path ∷ es) =
      fate resources path >>= λ x. resolve_parts resources es >>= λ r. ok (settle path x r)

  -- An error of the cty library is not of type hcl.Diagnostics: the type assertion behind Transform
  -- panics.
  unfoldable pub asserted : {A : Type 0} → Result CtyError A → Result (Diagnostics S) A
  asserted (ok a) = ok a
  asserted (err e) = panic
  asserted panic = panic

  -- `remainingRefs = 0`
  unfoldable pub first_round : State S → State S
  first_round s = record s { progress = record s.progress { remaining_refs = 0 } }

module _ {S G : Type 0} (library : Library S G) where
  -- The value in place of a capsule: that of its expression when no reference is left.
  unfoldable pub settled_value : ℕ → Cell S → Resolved S → Result (Diagnostics S) (Value S)
  settled_value a cell r =
      let evaluated = asserted (value library.cty [] cell.expression) >>= λ v.
      validate library v cell.field >>= λ ds. elim ds [ [] ↦ ok v | d ∷ more ↦ err (d ∷ more) ] in
      if eqb r.expr_refs 0 then evaluated else ok (reference a)

  -- The callback, for the capsule of an address.
  unfoldable pub visit :
      Resources S
      → CtyPath (Value S)
      → ℕ
      → Progress S
      → Result (Diagnostics S) (Value S × Progress S)
  visit resources path a p = resolve_parts resources (p.store a).expression >>= λ r.
      asserted (merge_literals library.cty r.parts) >>= λ merged.
      let cell = record (p.store a) { expression = merged } in
      settled_value a cell r >>= λ v.
      ok (
        v,
        record { store = write p.store a cell; remaining_refs = p.remaining_refs + r.remaining },
      )

  -- One resource of the inner loop.
  unfoldable pub resolve_res : State S → String → Res S → Result (Diagnostics S) (State S)
  resolve_res s name r =
      transform_attributes library (visit s.resources) [] r.input s.progress
      >>= λ (input, progress). ok (record {
        resources = put_res s.resources name (record r { input = input });
        progress = progress;
      })

  -- The inner loop, over the keys of the map in the order in which they come.
  unfoldable pub resolve_all : List String → State S → Result (Diagnostics S) (State S)
  resolve_all [] s = ok s
  resolve_all (name ∷ names) s = elim (s.resources name) [
    | none ↦ resolve_all names s
    | some r ↦ resolve_res s name r >>= resolve_all names
  ]

  -- Decoder.resolveValues, with the order in which each round ranges over the map; `none` stands for a
  -- loop that has not ended after these rounds.
  unfoldable pub resolve_values :
      List (List String) → State S → Option (Result (Diagnostics S) (State S))
  resolve_values [] s = none
  resolve_values (names ∷ rounds) s = elim (resolve_all names (first_round s)) [
    | ok t ↦
        let next = resolve_values rounds t in
        if eqb t.progress.remaining_refs 0 then some (ok t) else next
    | err ds ↦ some (err ds)
    | panic ↦ some panic
  ]
