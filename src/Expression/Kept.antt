-- ===== src/Expression/Kept.antt =====
-- resource/expression.go: a predicate of the literals of an expression, kept by MergeLiterals and
-- true of the value.
use func.Prelude.{
  String, ◌≡◌, inl, inr, Bool-cases, List, [], ◌∷◌, ◌++◌, ok, >>=-eq-ok, All, All-append,
}
use func.Cty.{Cty, Bytes}
use func.Expression.{
  Expression, expr_literal, expr_reference, convert, text, references, part_value, concat,
  join_values, value, join, merge_from, merge_literals,
}
use func.Expression.Text.{literals}
use func.Expression.Loop.{join-literals, literals-snoc, part_values}

-- The literals of an expression have the property.
abbrev pub AllLiterals : {V : Type 0} → (V → Type 0) → Expression V → Type 0
AllLiterals P [] = Unit
AllLiterals P (expr_literal v ∷ es) = P v × AllLiterals P es
AllLiterals P (expr_reference p ∷ es) = AllLiterals P es

-- The values that the cty library makes for an expression have it.
pub record MadeHave {V : Type 0} (c : Cty V) (P : V → Type 0) : Type 0 where
  pub have-nil_val : P c.nil_val
  pub have-string_val : (s : Bytes) → P (c.string_val s)
  pub have-unknown_string : P c.unknown_string

module _ {V : Type 0} (c : Cty V) (P : V → Type 0) (made : MadeHave c P) where
  concat-P : (buf : Bytes) (vs : List V) (w : V) → concat c buf vs ≡ ok w → P w
  unfolding concat
  concat-P buf [] w h = let e : w ≡ c.string_val buf = cc in rw e (made.have-string_val buf)
  concat-P buf (v ∷ vs) w h = elim (Bool-cases (c.is_wholly_known v)) [
    | inl known ↦
        let (x, converted, h₁) = >>=-eq-ok (convert c v) _ (rw known at h) in
        let (t, read, h₂) = >>=-eq-ok (text c x) _ h₁ in concat-P (buf ++ t) vs w h₂
    | inr unknown ↦
        let stopped = rw unknown at h in
        let e : w ≡ c.unknown_string = cc in rw e made.have-unknown_string
  ]

  join_values-P : (vs : List V) (w : V) → All P vs → join_values c vs ≡ ok w → P w
  unfolding join_values
  join_values-P [] w all h = let e : w ≡ c.nil_val = cc in rw e made.have-nil_val
  join_values-P (v ∷ []) w all h = let e : w ≡ v = cc in rw e all.0
  join_values-P (v ∷ x ∷ vs) w all h = concat-P [] (v ∷ x ∷ vs) w h

  part_values-P :
      (vars : List (String × V)) (e : Expression V) (vs : List V)
      → references e ≡ []
      → AllLiterals P e
      → part_values c vars e ≡ ok vs
      → All P vs
  unfolding part_value references
  part_values-P vars [] vs none all h = let e : vs ≡ [] = cc in rw e tt
  part_values-P vars (expr_literal v ∷ es) vs none all h =
      let (ws, rest, h₁) = >>=-eq-ok (part_values c vars es) _ h in
      let e : vs ≡ v ∷ ws = cc in rw e (all.0, part_values-P vars es ws none all.1 rest)
  part_values-P vars (expr_reference p ∷ es) vs none all h = cc

  -- The value of an expression without references.
  pub value-P :
      (vars : List (String × V)) (e : Expression V) (w : V)
      → references e ≡ []
      → AllLiterals P e
      → value c vars e ≡ ok w
      → P w
  unfolding value
  value-P vars e w none all h =
      let (vs, parts, joined) = >>=-eq-ok (part_values c vars e) _ h in
      join_values-P vs w (part_values-P vars e vs none all parts) joined

  join-P :
      (vs : List V) (e : Expression V) → All P vs → join c (literals c vs) ≡ ok e → AllLiterals P e
  unfolding join
  join-P [] e all h = let nothing : e ≡ [] = cc in rw nothing tt
  join-P (v ∷ vs) e all h =
      let (w, joined, one) = join-literals c v vs e h in
      rw one (join_values-P (v ∷ vs) w all joined, tt)

  AllLiterals-append :
      (es fs : Expression V) → AllLiterals P es → AllLiterals P fs → AllLiterals P (es ++ fs)
  AllLiterals-append [] fs first rest = rest
  AllLiterals-append (expr_literal v ∷ es) fs first rest =
      (first.0, AllLiterals-append es fs first.1 rest)
  AllLiterals-append (expr_reference p ∷ es) fs first rest = AllLiterals-append es fs first rest

  merge_from-P :
      (vs : List V) (es e : Expression V)
      → All P vs
      → AllLiterals P es
      → merge_from c (literals c vs) es ≡ ok e
      → AllLiterals P e
  unfolding merge_from
  merge_from-P vs [] e before all h = join-P vs e before h
  merge_from-P vs (expr_literal v ∷ es) e before all h =
      merge_from-P (vs ++ v ∷ []) es e (All-append P vs (v ∷ []) before (all.0, tt)) all.1
        (rw (literals-snoc c) at h)
  merge_from-P vs (expr_reference p ∷ es) e before all h =
      let (j, joined, h₁) = >>=-eq-ok (join c (literals c vs)) _ h in
      let (rest, merged, h₂) = >>=-eq-ok (merge_from c [] es) _ h₁ in
      let parts : e ≡ j ++ expr_reference p ∷ rest = cc in
      rw parts (
        AllLiterals-append j (expr_reference p ∷ rest) (join-P vs j before joined)
          (merge_from-P [] es rest tt all merged))

  pub merge_literals-P :
      (es e : Expression V) → AllLiterals P es → merge_literals c es ≡ ok e → AllLiterals P e
  unfolding merge_literals
  merge_literals-P [] e all h = merge_from-P [] [] e tt all h
  merge_literals-P (x ∷ []) e all h = let same : e ≡ x ∷ [] = cc in rw same all
  merge_literals-P (x ∷ y ∷ es) e all h = merge_from-P [] (x ∷ y ∷ es) e tt all h
