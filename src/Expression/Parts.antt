-- ===== src/Expression/Parts.antt =====
-- resource/expression.go: the parts that MergeLiterals leaves in an expression.
use func.Prelude.{◌≡◌, refl, ap, ◌∙◌, List, [], ◌∷◌, ◌++◌, ok, >>=-eq-ok, arith}
use func.Cty.{Cty, CtyPath}
use func.Expression.{
  Expression, expr_literal, expr_reference, references, join, merge_from, merge_literals,
}
use func.Expression.Text.{literals}
use func.Expression.Loop.{join-literals, literals-snoc}

module _ {V : Type 0} where
  references-append :
      (es fs : Expression V) → references (es ++ fs) ≡ references es ++ references fs
  unfolding references
  references-append [] fs = refl
  references-append (expr_literal v ∷ es) fs = references-append es fs
  references-append (expr_reference p ∷ es) fs = ap (λ l. p ∷ l) (references-append es fs)

  -- No two literals stand side by side.
  abbrev pub IsMerged : Expression V → Type 0
  IsMerged [] = Unit
  IsMerged (e ∷ []) = Unit
  IsMerged (expr_literal v ∷ expr_literal w ∷ es) = ⊥
  IsMerged (e ∷ f ∷ es) = IsMerged (f ∷ es)

  IsMerged-reference :
      (p : CtyPath V) (es : Expression V) → IsMerged es → IsMerged (expr_reference p ∷ es)
  IsMerged-reference p [] h = tt
  IsMerged-reference p (e ∷ es) h = h

module _ {V : Type 0} (c : Cty V) where
  references-literals : (vs : List V) → references (literals c vs) ≡ []
  unfolding references
  references-literals [] = refl
  references-literals (v ∷ vs) = references-literals vs

  join-references :
      (vs : List V) (j : Expression V) → join c (literals c vs) ≡ ok j → references j ≡ []
  unfolding join references
  join-references [] j h = let e : j ≡ [] = ground arith in rw e
  join-references (v ∷ vs) j h = let (w, _, e) = join-literals c v vs j h in rw e

  merge_from-references :
      (vs : List V) (es e' : Expression V)
      → merge_from c (literals c vs) es ≡ ok e'
      → references e' ≡ references es
  unfolding merge_from references
  merge_from-references vs [] e' h = join-references vs e' h
  merge_from-references vs (expr_literal v ∷ es) e' h =
      merge_from-references (vs ++ v ∷ []) es e' (rw (literals-snoc c) at h)
  merge_from-references vs (expr_reference p ∷ es) e' h =
      let (j, joined, h₁) = >>=-eq-ok (join c (literals c vs)) _ h in
      let (rest, merged, h₂) = >>=-eq-ok (merge_from c [] es) _ h₁ in
      let e : e' ≡ j ++ expr_reference p ∷ rest = cc in
      rw e (
        references-append j (expr_reference p ∷ rest)
        ∙ ap (λ l. l ++ p ∷ references rest) (join-references vs j joined)
        ∙ ap (λ l. p ∷ l) (merge_from-references [] es rest merged))

  merge_from-IsMerged :
      (vs : List V) (es e' : Expression V) → merge_from c (literals c vs) es ≡ ok e' → IsMerged e'
  unfolding merge_from join
  merge_from-IsMerged [] [] e' h = let e : e' ≡ [] = ground arith in rw e tt
  merge_from-IsMerged (v ∷ vs) [] e' h = let (w, _, e) = join-literals c v vs e' h in rw e tt
  merge_from-IsMerged vs (expr_literal v ∷ es) e' h =
      merge_from-IsMerged (vs ++ v ∷ []) es e' (rw (literals-snoc c) at h)
  merge_from-IsMerged [] (expr_reference p ∷ es) e' h =
      let (rest, merged, h₂) = >>=-eq-ok (merge_from c [] es) _ h in
      let e : e' ≡ expr_reference p ∷ rest = cc in
      rw e (IsMerged-reference p rest (merge_from-IsMerged [] es rest merged))
  merge_from-IsMerged (v ∷ vs) (expr_reference p ∷ es) e' h =
      let (j, joined, h₁) = >>=-eq-ok (join c (literals c (v ∷ vs))) _ h in
      let (rest, merged, h₂) = >>=-eq-ok (merge_from c [] es) _ h₁ in
      let (w, _, one) = join-literals c v vs j joined in
      let e : e' ≡ expr_literal w ∷ expr_reference p ∷ rest = cc in
      rw e (IsMerged-reference p rest (merge_from-IsMerged [] es rest merged))

  -- Merging keeps the references of an expression, in their order, and leaves no two literals side
  -- by side.
  pub merge_literals-parts :
      (e e' : Expression V)
      → merge_literals c e ≡ ok e'
      → (references e' ≡ references e) × IsMerged e'
  unfolding merge_literals
  merge_literals-parts [] e' h = (merge_from-references [] [] e' h, merge_from-IsMerged [] [] e' h)
  merge_literals-parts (x ∷ []) e' h = let e : e' ≡ x ∷ [] = cc in rw e (refl, tt)
  merge_literals-parts (x ∷ y ∷ es) e' h =
      (merge_from-references [] (x ∷ y ∷ es) e' h, merge_from-IsMerged [] (x ∷ y ∷ es) e' h)
