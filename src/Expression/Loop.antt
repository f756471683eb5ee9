-- ===== src/Expression/Loop.antt =====
-- resource/expression.go: what the loop of MergeLiterals does to the text that the parts write.
use mathlib.Core.Path.{fun_ext}
use mathlib.Core.List.{append_assoc, append-nil}
use func.Prelude.{
  String, ◌≡◌, refl, sym, ap, ◌∙◌, List, [], ◌∷◌, ◌++◌, Result, ok, err, panic, ◌>>=◌, >>=-eq-ok,
  map_result, arith, if◌then◌else◌,
}
use func.Cty.{Cty, CtyError, Bytes, StringLaws}
use func.Expression.{
  Expression, ExprPart, expr_literal, expr_reference, convert, text, concat, join_values,
  part_value, value, join, merge_from,
}
use func.Expression.Text.{literals, concat-joined}

module _ {V : Type 0} (c : Cty V) where
  abbrev pub part_values : List (String × V) → Expression V → Result CtyError (List V)
  part_values vars = map_result (part_value c vars)

  part_values-append :
      (vars : List (String × V)) (vs : List V) (es : Expression V)
      → part_values vars (literals c vs ++ es) ≡ (part_values vars es >>= λ ws. ok (vs ++ ws))
  unfolding part_value
  part_values-append vars [] es = ground arith
  part_values-append vars (v ∷ vs) es = ground (arith, part_values-append vars vs es)

  pub part_values-literals :
      (vars : List (String × V)) (vs : List V) → part_values vars (literals c vs) ≡ ok vs
  unfolding part_value
  part_values-literals vars [] = refl
  part_values-literals vars (v ∷ vs) = rw (part_values-literals vars vs)

  -- What `join` returns: nothing for no literals, and one literal otherwise.
  pub join-literals :
      (v : V) (vs : List V) (e : Expression V)
      → join c (literals c (v ∷ vs)) ≡ ok e
      → (w : V) × (join_values c (v ∷ vs) ≡ ok w) × (e ≡ expr_literal w ∷ [])
  unfolding join value part_value
  join-literals v vs e h = ground (arith, part_values-literals [] (v ∷ vs))

  -- What the values of some parts do to a buffer.
  abbrev pub Writer : Type 0
  Writer = Bytes → Result CtyError V

  abbrev pub texts : Result CtyError (List V) → Result CtyError Writer
  texts r = r >>= λ xs. ok (λ buf. concat c buf xs)

  abbrev prepend : List V → Result CtyError (List V) → Result CtyError (List V)
  prepend vs r = r >>= λ xs. ok (vs ++ xs)

  -- One value more in front of the loop.
  step : V → Writer → Writer
  step v k buf =
      let rest = convert c v >>= λ w. text c w >>= λ s. k (buf ++ s) in
      if c.is_wholly_known v then rest else ok c.unknown_string

  texts-prepend-step :
      (v : V) (r : Result CtyError (List V))
      → texts (prepend (v ∷ []) r) ≡ (texts r >>= λ k. ok (step v k))
  unfolding concat step
  texts-prepend-step v (ok xs) = refl
  texts-prepend-step v (err e) = refl
  texts-prepend-step v panic = refl

  prepend-nil : (r : Result CtyError (List V)) → prepend [] r ≡ r
  prepend-nil (ok xs) = refl
  prepend-nil (err e) = refl
  prepend-nil panic = refl

  prepend-cons :
      (v : V) (vs : List V) (r : Result CtyError (List V))
      → prepend (v ∷ vs) r ≡ prepend (v ∷ []) (prepend vs r)
  prepend-cons v vs (ok xs) = refl
  prepend-cons v vs (err e) = refl
  prepend-cons v vs panic = refl

  texts-prepend :
      (vs : List V) (r r' : Result CtyError (List V))
      → texts r ≡ texts r'
      → texts (prepend vs r) ≡ texts (prepend vs r')
  texts-prepend [] r r' h = ap texts (prepend-nil r) ∙ h ∙ sym (ap texts (prepend-nil r'))
  texts-prepend (v ∷ vs) r r' h =
      ap texts (prepend-cons v vs r)
      ∙ texts-prepend-step v (prepend vs r)
      ∙ ap (λ t. t >>= λ k. ok (step v k)) (texts-prepend vs r r' h)
      ∙ sym (texts-prepend-step v (prepend vs r'))
      ∙ sym (ap texts (prepend-cons v vs r'))

  texts-joined :
      (laws : StringLaws c) (v : V) (vs : List V) (w : V)
      → join_values c (v ∷ vs) ≡ ok w
      → (r : Result CtyError (List V)) → texts (prepend (w ∷ []) r) ≡ texts (prepend (v ∷ vs) r)
  texts-joined laws v vs w h (ok xs) =
      ap (λ (k : Writer). ok k) (fun_ext (λ buf. concat-joined c laws v vs w h buf xs))
  texts-joined laws v vs w h (err e) = refl
  texts-joined laws v vs w h panic = refl

  part_values-cons :
      (vars : List (String × V)) (e : ExprPart V) (es : Expression V)
      → part_values vars (e ∷ es)
        ≡ (part_value c vars e >>= λ x. prepend (x ∷ []) (part_values vars es))
  part_values-cons vars e es = refl

  -- A part in front keeps the equality of what is written.
  texts-cons :
      (vars : List (String × V)) (e : ExprPart V) (es es' : Expression V)
      → texts (part_values vars es) ≡ texts (part_values vars es')
      → texts (part_values vars (e ∷ es)) ≡ texts (part_values vars (e ∷ es'))
  texts-cons vars e es es' h = go (part_value c vars e)
    where
      go :
          (x : Result CtyError V)
          → texts (x >>= λ y. prepend (y ∷ []) (part_values vars es))
            ≡ texts (x >>= λ y. prepend (y ∷ []) (part_values vars es'))
      go (ok y) = texts-prepend (y ∷ []) _ _ h
      go (err d) = refl
      go panic = refl

  texts-append :
      (vars : List (String × V)) (front es es' : Expression V)
      → texts (part_values vars es) ≡ texts (part_values vars es')
      → texts (part_values vars (front ++ es)) ≡ texts (part_values vars (front ++ es'))
  texts-append vars [] es es' h = h
  texts-append vars (e ∷ front) es es' h =
      texts-cons vars e (front ++ es) (front ++ es') (texts-append vars front es es' h)

  pub literals-snoc :
      (vs : List V) (v : V) → literals c vs ++ expr_literal v ∷ [] ≡ literals c (vs ++ v ∷ [])
  literals-snoc [] v = refl
  literals-snoc (u ∷ vs) v = ap (λ l. expr_literal u ∷ l) (literals-snoc vs v)

  -- What `join` returns writes what the pending literals write.
  join-texts :
      (laws : StringLaws c) (vars : List (String × V)) (vs : List V) (j es : Expression V)
      → join c (literals c vs) ≡ ok j
      → texts (part_values vars (j ++ es)) ≡ texts (part_values vars (literals c vs ++ es))
  unfolding join part_value
  join-texts laws vars [] j es h = let e : j ≡ [] = ground arith in rw e
  join-texts laws vars (v ∷ vs) j es h =
      let (w, joined, e) = join-literals v vs j h in
      rw e (
        texts-joined laws v vs w joined (part_values vars es)
        ∙ sym (ap texts (part_values-append vars (v ∷ vs) es)))

  -- The loop keeps what the parts write to the buffer.
  pub merge_from-texts :
      (laws : StringLaws c) (vars : List (String × V)) (vs : List V) (es e' : Expression V)
      → merge_from c (literals c vs) es ≡ ok e'
      → texts (part_values vars e') ≡ texts (part_values vars (literals c vs ++ es))
  unfolding merge_from
  merge_from-texts laws vars vs [] e' h =
      ap (λ l. texts (part_values vars l)) (sym (append-nil e')) ∙ join-texts laws vars vs e' [] h
  merge_from-texts laws vars vs (expr_literal v ∷ es) e' h =
      merge_from-texts laws vars (vs ++ v ∷ []) es e' (rw literals-snoc at h)
      ∙ ap (λ l. texts (part_values vars l))
          (rw (← literals-snoc) (append_assoc (literals c vs) (expr_literal v ∷ []) es))
  merge_from-texts laws vars vs (expr_reference p ∷ es) e' h =
      let (j, joined, h₁) = >>=-eq-ok (join c (literals c vs)) _ h in
      let (rest, merged, h₂) = >>=-eq-ok (merge_from c [] es) _ h₁ in
      let e : e' ≡ j ++ expr_reference p ∷ rest = cc in
      rw e (
        join-texts laws vars vs j (expr_reference p ∷ rest) joined
        ∙ texts-append vars (literals c vs) _ _ (
            texts-cons vars (expr_reference p) rest es
              (merge_from-texts laws vars [] es rest merged)))
