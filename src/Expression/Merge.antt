-- ===== src/Expression/Merge.antt =====
-- resource/expression.go: MergeLiterals keeps the value and the references of an expression, and
-- leaves no two literals side by side.
use mathlib.Core.List.{append_assoc, append-nil}
use func.Prelude.{
  ◌+◌, ◌≤◌, String, ◌≡◌, refl, sym, ap, ◌∙◌, List, [], ◌∷◌, ◌++◌, length, length-append, Result, ok,
  err, panic, ◌>>=◌, >>=-eq-ok, arith,
}
use func.Cty.{Cty, CtyPath, CtyError, StringLaws}
use func.Expression.{
  Expression, expr_literal, expr_reference, join_values, part_value, value, join, merge_from,
  merge_literals,
}
use func.Expression.Text.{literals}
use func.Expression.Loop.{
  part_values, texts, join-literals, part_values-literals, literals-snoc, merge_from-texts,
}

module _ {V : Type 0} (c : Cty V) where
  -- What is left of the loop's input: literals alone, one reference alone, or at least two parts
  -- of output.
  data Shape (vs : List V) (es e' : Expression V) : Type 0 where
    all_literals : (us : List V) → es ≡ literals c us → Shape vs es e'
    lone : (p : CtyPath V) → vs ≡ [] → es ≡ expr_reference p ∷ [] → Shape vs es e'
    several : 2 ≤ length e' → Shape vs es e'

  join-nonempty :
      (v : V) (vs : List V) (j : Expression V) → join c (literals c (v ∷ vs)) ≡ ok j → 1 ≤ length j
  join-nonempty v vs j h = let (w, _, e) = join-literals c v vs j h in rw e (omega arith)

  merge_from-nonempty :
      (vs : List V) (es e' : Expression V)
      → merge_from c (literals c vs) es ≡ ok e'
      → 1 ≤ length vs + length es
      → 1 ≤ length e'
  unfolding merge_from
  merge_from-nonempty [] [] e' h n = absurd (omega arith)
  merge_from-nonempty (v ∷ vs) [] e' h n = join-nonempty v vs e' h
  merge_from-nonempty vs (expr_literal v ∷ es) e' h n =
      merge_from-nonempty (vs ++ v ∷ []) es e' (rw (literals-snoc c) at h)
        (omega (arith, length-append vs (v ∷ [])))
  merge_from-nonempty vs (expr_reference p ∷ es) e' h n =
      let (j, joined, h₁) = >>=-eq-ok (join c (literals c vs)) _ h in
      let (rest, merged, h₂) = >>=-eq-ok (merge_from c [] es) _ h₁ in
      let e : e' ≡ j ++ expr_reference p ∷ rest = cc in
      rw e (omega (arith, length-append j (expr_reference p ∷ rest)))

  merge_from-Shape :
      (vs : List V) (es e' : Expression V)
      → merge_from c (literals c vs) es ≡ ok e'
      → Shape vs es e'
  unfolding merge_from
  merge_from-Shape vs [] e' h = all_literals [] refl
  merge_from-Shape vs (expr_literal v ∷ es) e' h =
      elim (merge_from-Shape (vs ++ v ∷ []) es e' (rw (literals-snoc c) at h)) [
        | all_literals us e ↦ all_literals (v ∷ us) (ap (λ l. expr_literal v ∷ l) e)
        | lone p e _ ↦ absurd (omega (arith, length-append vs (v ∷ []), ap length e))
        | several n ↦ several n
      ]
  merge_from-Shape (v ∷ vs) (expr_reference p ∷ es) e' h =
      let (j, joined, h₁) = >>=-eq-ok (join c (literals c (v ∷ vs))) _ h in
      let (rest, merged, h₂) = >>=-eq-ok (merge_from c [] es) _ h₁ in
      let e : e' ≡ j ++ expr_reference p ∷ rest = cc in
      several (
        rw e
          (omega (arith, length-append j (expr_reference p ∷ rest), join-nonempty v vs j joined)))
  merge_from-Shape [] (expr_reference p ∷ []) e' h = lone p refl refl
  merge_from-Shape [] (expr_reference p ∷ x ∷ es) e' h =
      let (j, joined, h₁) = >>=-eq-ok (join c []) _ h in
      let (rest, merged, h₂) = >>=-eq-ok (merge_from c [] (x ∷ es)) _ h₁ in
      let e : e' ≡ j ++ expr_reference p ∷ rest = cc in
      several (
        rw e (
          omega (
            arith,
            length-append j (expr_reference p ∷ rest),
            merge_from-nonempty [] (x ∷ es) rest merged,
          )))

  -- Two or more parts are written to the buffer.
  value_several :
      (vars : List (String × V)) (e : Expression V)
      → 2 ≤ length e
      → value c vars e ≡ (texts c (part_values c vars e) >>= λ k. k [])
  unfolding value join_values
  value_several vars [] n = absurd (omega arith)
  value_several vars (x ∷ []) n = absurd (omega arith)
  value_several vars (x ∷ y ∷ es) n =
      go (part_value c vars x) (part_value c vars y) (part_values c vars es)
    where
      go :
          (a b : Result CtyError V) (r : Result CtyError (List V))
          → ((a >>= λ v. (b >>= λ w. r >>= λ ws. ok (w ∷ ws)) >>= λ vs. ok (v ∷ vs))
              >>= join_values c)
            ≡ (texts c (a >>= λ v. (b >>= λ w. r >>= λ ws. ok (w ∷ ws)) >>= λ vs. ok (v ∷ vs))
                >>= λ k. k [])
      go (ok v) (ok w) (ok vs) = refl
      go (ok v) (ok w) (err e) = refl
      go (ok v) (ok w) panic = refl
      go (ok v) (err e) r = refl
      go (ok v) panic r = refl
      go (err e) b r = refl
      go panic b r = refl

  merge_from-literals :
      (vs us : List V)
      → merge_from c (literals c vs) (literals c us) ≡ join c (literals c (vs ++ us))
  unfolding merge_from
  merge_from-literals vs [] = rw append-nil refl
  merge_from-literals vs (u ∷ us) =
      ap (λ l. merge_from c l (literals c us)) (literals-snoc c vs u)
      ∙ merge_from-literals (vs ++ u ∷ []) us
      ∙ ap (λ l. join c (literals c l)) (append_assoc vs (u ∷ []) us)

  -- An expression of literals alone becomes the literal of its value.
  value-literals :
      (vars : List (String × V)) (vs : List V) → value c vars (literals c vs) ≡ join_values c vs
  unfolding value
  value-literals vars vs = rw (part_values-literals c)

  nothing : (e' : Expression V) → merge_from c [] [] ≡ ok e' → e' ≡ []
  unfolding merge_from join
  nothing e' h = ground arith

  value-join :
      (vars : List (String × V)) (v : V) (vs : List V) (e' : Expression V)
      → merge_from c [] (literals c (v ∷ vs)) ≡ ok e'
      → value c vars e' ≡ value c vars (literals c (v ∷ vs))
  unfolding join_values
  value-join vars v vs e' h =
      let (w, joined, e) = join-literals c v vs e' (sym (merge_from-literals [] (v ∷ vs)) ∙ h) in
      rw e (value-literals vars (w ∷ []) ∙ sym joined ∙ sym (value-literals vars (v ∷ vs)))

  value-all_literals :
      (vars : List (String × V)) (us : List V) (es e' : Expression V)
      → es ≡ literals c us
      → 1 ≤ length es
      → merge_from c [] es ≡ ok e'
      → value c vars e' ≡ value c vars es
  value-all_literals vars [] es e' e n h = absurd (omega (arith, ap length e))
  value-all_literals vars (u ∷ us) es e' e n h = rw e (value-join vars u us e' (rw e at h))

  -- Merging the literals of an expression does not change what it evaluates to, whatever the
  -- variables and also where the evaluation fails or is unknown.
  pub merge_literals-value :
      (laws : StringLaws c) (vars : List (String × V)) (e e' : Expression V)
      → merge_literals c e ≡ ok e'
      → value c vars e' ≡ value c vars e
  unfolding merge_literals
  merge_literals-value laws vars [] e' h = let e : e' ≡ [] = nothing e' h in rw e
  merge_literals-value laws vars (x ∷ []) e' h = let e : e' ≡ x ∷ [] = cc in rw e
  merge_literals-value laws vars (x ∷ y ∷ es) e' h = elim (merge_from-Shape [] (x ∷ y ∷ es) e' h) [
    | all_literals us e ↦ value-all_literals vars us (x ∷ y ∷ es) e' e (omega arith) h
    | lone p _ e ↦ absurd (omega (arith, ap length e))
    | several n ↦
        value_several vars e' n
        ∙ ap (λ t. t >>= λ k. k []) (merge_from-texts c laws vars [] (x ∷ y ∷ es) e' h)
        ∙ sym (value_several vars (x ∷ y ∷ es) (omega arith))
  ]
