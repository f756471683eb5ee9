-- ===== src/Decoder/Expr.antt =====
-- resource/hcldecoder/internal/expr/expression.go: HCL expressions as expressions of the graph.
use func.Prelude.{
  String, Bool, true, false, Option, none, some, List, [], ◌∷◌, ◌++◌, Result, ok, panic, ◌>>=◌,
  map_result, if◌then◌else◌,
}
use func.Cty.{CtyPath, PathStep, get_attr_step, index_step}
use func.Expression.{Expression, expr_literal, expr_reference}
use func.Decoder.{Value, static, Diagnostics}

-- A step of an hcl.Traversal; `splat` stands for those that are not supported.
pub data Traverser (S : Type 0) : Type 0 where
  traverse_root traverse_attr : String → Traverser S
  traverse_index : S → Traverser S
  splat : Traverser S

-- An hcl.Expression by its dynamic type. `packed` is a hclpack.Expression with what Parse returns, and
-- `other` any type that MustConvert does not tell.
mutual
  pub data HclExpression (S : Type 0) : Type 0 where
    unparsable : HclExpression S
    packed : HclExpression S → HclExpression S
    relative_traversal : HclExpression S → List (Traverser S) → HclExpression S
    scope_traversal : List (Traverser S) → HclExpression S
    index_expr : HclExpression S → HclExpression S → HclExpression S
    template_wrap : HclExpression S → HclExpression S
    template : HclParts S → HclExpression S
    literal : S → HclExpression S
    other : HclExpression S

  pub data HclParts (S : Type 0) : Type 0 where
    no_parts : HclParts S
    next_part : HclExpression S → HclParts S → HclParts S

-- The methods of an hcl.Expression: whether Variables() is not empty, and Value(nil), with `none` where
-- it has errors.
pub record HclLibrary (S : Type 0) : Type 0 where
  pub has_variables : HclExpression S → Bool
  pub static_value : HclExpression S → Option S

module _ {S : Type 0} where
  -- traversalAsPath
  unfoldable pub traversal_step : Traverser S → Result (Diagnostics S) (PathStep (Value S))
  traversal_step (traverse_root name) = ok (get_attr_step name)
  traversal_step (traverse_attr name) = ok (get_attr_step name)
  traversal_step (traverse_index key) = ok (index_step (static key))
  traversal_step splat = panic

  abbrev pub traversal_as_path : List (Traverser S) → Result (Diagnostics S) (CtyPath (Value S))
  traversal_as_path = map_result traversal_step

  -- e[0].(resource.ExprReference).Path, with its two panics
  unfoldable pub first_path : Expression (Value S) → Result (Diagnostics S) (CtyPath (Value S))
  first_path [] = panic
  first_path (expr_literal v ∷ es) = panic
  first_path (expr_reference path ∷ es) = ok path

  -- The keys of an index as steps; a reference among them fails the type assertion.
  unfoldable pub index_path :
      CtyPath (Value S) → Expression (Value S) → Result (Diagnostics S) (CtyPath (Value S))
  index_path path [] = ok path
  index_path path (expr_literal v ∷ keys) = index_path (path ++ index_step v ∷ []) keys
  index_path path (expr_reference p ∷ keys) = panic

  unfoldable pub static_expression : Option S → Result (Diagnostics S) (Expression (Value S))
  static_expression none = panic
  static_expression (some v) = ok (expr_literal (static v) ∷ [])

module _ {S : Type 0} (hcl : HclLibrary S) where
  -- The first case of MustConvert, for an expression without variables, and the others.
  unfoldable pub unless_static :
      HclExpression S
      → Result (Diagnostics S) (Expression (Value S))
      → Result (Diagnostics S) (Expression (Value S))
  unless_static x converted =
      if hcl.has_variables x then converted else static_expression (hcl.static_value x)

  unfoldable mutual
    -- The cases for the dynamic type of an expression that has variables: `true` before Parse, `false`
    -- behind it.
    pub convert_syntax : Bool → HclExpression S → Result (Diagnostics S) (Expression (Value S))
    convert_syntax unparsed unparsable = panic
    convert_syntax true (packed x) = convert_syntax false x
    convert_syntax false (packed x) = panic
    convert_syntax unparsed (relative_traversal source traversal) =
        unless_static source (convert_syntax true source) >>= first_path >>= λ path.
        traversal_as_path traversal >>= λ rest. ok (expr_reference (path ++ rest) ∷ [])
    convert_syntax unparsed (scope_traversal traversal) =
        traversal_as_path traversal >>= λ path. ok (expr_reference path ∷ [])
    convert_syntax unparsed (index_expr collection key) =
        unless_static collection (convert_syntax true collection) >>= λ col.
        unless_static key (convert_syntax true key) >>= λ keys. first_path col >>= λ path.
        index_path path keys >>= λ indexed. ok (expr_reference indexed ∷ [])
    convert_syntax unparsed (template_wrap wrapped) =
        unless_static wrapped (convert_syntax true wrapped)
    convert_syntax unparsed (template parts) = convert_parts parts
    convert_syntax unparsed (literal v) = panic
    convert_syntax unparsed other = panic

    -- The loop over the parts of a template.
    pub convert_parts : HclParts S → Result (Diagnostics S) (Expression (Value S))
    convert_parts no_parts = ok []
    convert_parts (next_part x xs) = unless_static x (convert_syntax true x) >>= λ first.
        convert_parts xs >>= λ rest. ok (first ++ rest)

  -- MustConvert
  unfoldable pub must_convert : HclExpression S → Result (Diagnostics S) (Expression (Value S))
  must_convert x = unless_static x (convert_syntax true x)
