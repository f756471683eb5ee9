-- ===== src/Expression.antt =====
-- resource/expression.go: expressions of literals and references, and how they are evaluated.
mod Text
mod Loop
pub mod Merge
pub mod Parts
pub mod Kept
mod Tests
use func.Prelude.{
  String, ◌≡◌, Bool, true, false, Option, none, some, List, [], ◌∷◌, ◌++◌, Result, ok, err, panic,
  ◌>>=◌, map_result, if◌then◌else◌,
}
use func.Cty.{Cty, CtyPath, PathStep, CtyError, Bytes}

-- exprPart: ExprLiteral and ExprReference, the only two implementations of the closed interface.
pub data ExprPart (V : Type 0) : Type 0 where
  expr_literal : V → ExprPart V
  expr_reference : CtyPath V → ExprPart V

abbrev pub Expression : Type 0 → Type 0
Expression V = List (ExprPart V)

module _ {V : Type 0} where
  -- Expression.References
  unfoldable pub references : Expression V → List (CtyPath V)
  references [] = []
  references (expr_literal v ∷ es) = references es
  references (expr_reference p ∷ es) = p ∷ references es

module _ {V : Type 0} (c : Cty V) where
  -- `val` after the steps of the path have been applied to it.
  unfoldable pub walk : CtyPath V → V → Result CtyError V
  walk [] val = ok val
  walk (p ∷ ps) val = c.apply p val >>= λ v. walk ps v

  -- The value of one part. The variables are those of the EvalContext, none for a nil context.
  unfoldable pub part_value : List (String × V) → ExprPart V → Result CtyError V
  part_value variables (expr_literal v) = ok v
  part_value variables (expr_reference path) = walk path (c.object_val variables)

  -- `v` after its conversion to a string, where there is one.
  abbrev pub convert : V → Result CtyError V
  convert v = elim (c.get_conversion v) [ none ↦ ok v | some conv ↦ conv v ]

  -- v.AsString(), with its panic.
  abbrev pub text : V → Result CtyError Bytes
  text v = elim (c.as_string v) [ none ↦ panic | some s ↦ ok s ]

  -- The loop that writes the parts to the buffer.
  unfoldable pub concat : Bytes → List V → Result CtyError V
  concat buf [] = ok (c.string_val buf)
  concat buf (v ∷ vs) =
      let rest = convert v >>= λ w. text w >>= λ s. concat (buf ++ s) vs in
      if c.is_wholly_known v then rest else ok c.unknown_string

  unfoldable pub join_values : List V → Result CtyError V
  join_values [] = ok c.nil_val
  join_values (v ∷ []) = ok v
  join_values vs = concat [] vs

  -- Expression.Value
  unfoldable pub value : List (String × V) → Expression V → Result CtyError V
  value variables expr = map_result (part_value variables) expr >>= join_values

  -- The closure `join` of MergeLiterals: an error of the evaluation panics.
  unfoldable pub join : Expression V → Result CtyError (Expression V)
  join [] = ok []
  join expr = elim (value [] expr) [
    | ok v ↦ ok (expr_literal v ∷ [])
    | err e ↦ panic
    | panic ↦ panic
  ]

  -- The loop of MergeLiterals over the remaining parts, with the literals that are pending.
  unfoldable pub merge_from : Expression V → Expression V → Result CtyError (Expression V)
  merge_from pending [] = join pending
  merge_from pending (expr_literal v ∷ es) = merge_from (pending ++ expr_literal v ∷ []) es
  merge_from pending (expr_reference p ∷ es) =
      join pending >>= λ joined. merge_from [] es >>= λ rest. ok (joined ++ expr_reference p ∷ rest)

  -- Expression.MergeLiterals
  unfoldable pub merge_literals : Expression V → Result CtyError (Expression V)
  merge_literals (e ∷ []) = ok (e ∷ [])
  merge_literals expr = merge_from [] expr
