-- ===== src/Expression/Tests.antt =====
-- Merging on concrete expressions.
use func.Prelude.{◌≡◌, refl, List, [], ◌∷◌, ok, String}
use func.Cty.{get_attr_step}
use func.Expression.{
  Expression, expr_literal, expr_reference, references, value, merge_literals, merge_from, join,
  join_values, part_value, concat, walk,
}
use func.Expression.Merge.{merge_literals-value}
use func.Expression.Parts.{IsMerged, merge_literals-parts}
use func.Samples.{Value, text, values, values-StringLaws}

abbrev given : Expression Value
given =
    expr_literal (text (b'a' ∷ []))
    ∷ expr_literal (text (b'b' ∷ []))
    ∷ expr_reference (get_attr_step "queue" ∷ [])
    ∷ expr_literal (text (b'c' ∷ []))
    ∷ []

abbrev merged : Expression Value
merged =
    expr_literal (text (b'a' ∷ b'b' ∷ []))
    ∷ expr_reference (get_attr_step "queue" ∷ [])
    ∷ expr_literal (text (b'c' ∷ []))
    ∷ []

merge_given : merge_literals values given ≡ ok merged
unfolding merge_literals merge_from join value join_values part_value concat
merge_given = refl

abbrev outputs : List (String × Value)
outputs = ("queue", text (b'q' ∷ [])) ∷ []

value-given : value values outputs given ≡ ok (text (b'a' ∷ b'b' ∷ b'q' ∷ b'c' ∷ []))
unfolding value part_value walk join_values concat
value-given = refl

merge_literals-value_example : value values outputs merged ≡ value values outputs given
merge_literals-value_example =
    merge_literals-value values values-StringLaws outputs given merged merge_given

merge_literals-parts_example : (references merged ≡ references given) × IsMerged merged
merge_literals-parts_example = merge_literals-parts values given merged merge_given
