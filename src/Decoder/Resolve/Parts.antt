-- ===== src/Decoder/Resolve/Parts.antt =====
-- resource/hcldecoder/decoder.go, resolveValues: what the loop over the parts of an expression does.
use func.Prelude.{
  suc, String, ◌≡◌, ◌≢◌, refl, ap, ◌⊎◌, inl, inr, false, Option, none, some, [], ◌∷◌, length, ok,
  err, >>=-eq-ok, All, arith,
}
use func.Cty.{CtyPath, get_attr_step, index_step}
use func.Expression.{Expression, expr_literal, expr_reference, references}
use func.Expression.Kept.{AllLiterals}
use func.TypePath.{CtyType, attribute_type}
use func.Decoder.{Value, Res, Resources, value_not_found, is_capsule}
use func.Decoder.Resolve.{
  Fate, kept, waits, replaced, Resolved, input_fate, output_fate, field_fate, fate, settle,
  resolve_parts,
}

module _ {S : Type 0} where
  -- The value is not a capsule.
  abbrev pub IsPlain : Value S → Type 0
  IsPlain v = is_capsule v ≡ false

  input_fate-IsPlain :
      (parent : Res S) (name : String) (v : Value S)
      → input_fate parent name ≡ ok (replaced v)
      → IsPlain v
  unfolding input_fate
  input_fate-IsPlain parent name v h = ground arith

  output_fate-kept :
      (t : CtyType) (name : String) (path : CtyPath (Value S)) (x : Fate S)
      → output_fate t name path ≡ ok x
      → x ≡ kept
  unfolding output_fate
  output_fate-kept t name path x h = ground arith

  field_fate-IsPlain :
      (parent : Res S) (n f : String) (path : CtyPath (Value S)) (v : Value S)
      → field_fate parent n (get_attr_step f ∷ path) ≡ ok (replaced v)
      → IsPlain v
  unfolding field_fate
  field_fate-IsPlain parent n f path v h = go (attribute_type parent.outputs f) h
    where
      go :
          (o : Option CtyType)
          → elim o [ some t ↦ output_fate t n path | none ↦ input_fate parent f ] ≡ ok (replaced v)
          → IsPlain v
      go none e = input_fate-IsPlain parent f v e
      go (some t) e = let impossible = output_fate-kept t n path (replaced v) e in cc

  pub fate-IsPlain :
      (rs : Resources S) (path : CtyPath (Value S)) (v : Value S)
      → fate rs path ≡ ok (replaced v)
      → IsPlain v
  unfolding fate field_fate
  fate-IsPlain rs [] v h = cc
  fate-IsPlain rs (index_step key ∷ path) v h = cc
  fate-IsPlain rs (get_attr_step n ∷ path) v h = go (rs n) path h
    where
      go :
          (o : Option (Res S)) (path : CtyPath (Value S))
          → elim o [ none ↦ err (value_not_found n ∷ []) | some parent ↦ field_fate parent n path ]
            ≡ ok (replaced v)
          → IsPlain v
      go none path e = cc
      go (some parent) [] e = cc
      go (some parent) (index_step key ∷ path) e = cc
      go (some parent) (get_attr_step f ∷ path) e = field_fate-IsPlain parent n f path v e

  -- The loop over the parts as a relation, with the fate of each reference.
  pub data Resolves (rs : Resources S) : Expression (Value S) → Resolved S → Type 0 where
    at_end : Resolves rs [] (record { parts = []; expr_refs = 0; remaining = 0 })
    pass :
        (v : Value S) {es : Expression (Value S)} {r : Resolved S}
        → Resolves rs es r
        → Resolves rs (expr_literal v ∷ es) (record r { parts = expr_literal v ∷ r.parts })
    decide :
        (path : CtyPath (Value S)) (x : Fate S) {es : Expression (Value S)} {r : Resolved S}
        → fate rs path ≡ ok x
        → Resolves rs es r
        → Resolves rs (expr_reference path ∷ es) (settle path x r)

  pub resolve_parts-Resolves :
      (rs : Resources S) (es : Expression (Value S)) (r : Resolved S)
      → resolve_parts rs es ≡ ok r
      → Resolves rs es r
  unfolding resolve_parts
  resolve_parts-Resolves rs [] r h =
      let e : r ≡ record { parts = []; expr_refs = 0; remaining = 0 } = cc in rw e at_end
  resolve_parts-Resolves rs (expr_literal v ∷ es) r h =
      let (q, rest, h₁) = >>=-eq-ok (resolve_parts rs es) _ h in
      let e : r ≡ record q { parts = expr_literal v ∷ q.parts } = cc in
      rw e (pass v (resolve_parts-Resolves rs es q rest))
  resolve_parts-Resolves rs (expr_reference path ∷ es) r h =
      let (x, decided, h₁) = >>=-eq-ok (fate rs path) _ h in
      let (q, rest, h₂) = >>=-eq-ok (resolve_parts rs es) _ h₁ in
      let e : r ≡ settle path x q = cc in
      rw e (decide path x decided (resolve_parts-Resolves rs es q rest))

  module _ (rs : Resources S) where
    -- The references that are left stay or wait.
    abbrev pub Stays : CtyPath (Value S) → Type 0
    Stays p = (fate rs p ≡ ok kept) ⊎ (fate rs p ≡ ok waits)

    pub Resolves-Stays :
        {es : Expression (Value S)} {r : Resolved S}
        → Resolves rs es r
        → All Stays (references r.parts) × (r.expr_refs ≡ length (references r.parts))
    unfolding references settle
    Resolves-Stays at_end = (tt, refl)
    Resolves-Stays (pass v h) = Resolves-Stays h
    Resolves-Stays (decide p kept e h) = let (all, n) = Resolves-Stays h in ((inl e, all), ap suc n)
    Resolves-Stays (decide p waits e h) =
        let (all, n) = Resolves-Stays h in ((inr e, all), ap suc n)
    Resolves-Stays (decide p (replaced v) e h) = Resolves-Stays h

    -- Nothing is counted exactly if no reference waits.
    pub Resolves-quiet :
        {es : Expression (Value S)} {r : Resolved S}
        → Resolves rs es r
        → r.remaining ≡ 0
        → All (λ p. fate rs p ≡ ok kept) (references r.parts)
    unfolding references settle
    Resolves-quiet at_end z = tt
    Resolves-quiet (pass v h) z = Resolves-quiet h z
    Resolves-quiet (decide p kept e h) z = (e, Resolves-quiet h z)
    Resolves-quiet (decide p waits e h) z = absurd (omega arith)
    Resolves-quiet (decide p (replaced v) e h) z = Resolves-quiet h z

    pub Resolves-none_waits :
        {es : Expression (Value S)} {r : Resolved S}
        → Resolves rs es r
        → All (λ p. fate rs p ≢ ok waits) (references es)
        → r.remaining ≡ 0
    unfolding references settle
    Resolves-none_waits at_end all = refl
    Resolves-none_waits (pass v h) all = Resolves-none_waits h all
    Resolves-none_waits (decide p kept e h) all = Resolves-none_waits h all.1
    Resolves-none_waits (decide p waits e h) all = absurd (all.0 e)
    Resolves-none_waits (decide p (replaced v) e h) all = Resolves-none_waits h all.1

    -- No reference is added.
    pub Resolves-references :
        (Q : CtyPath (Value S) → Type 0) {es : Expression (Value S)} {r : Resolved S}
        → Resolves rs es r
        → All Q (references es)
        → All Q (references r.parts)
    unfolding references settle
    Resolves-references Q at_end all = tt
    Resolves-references Q (pass v h) all = Resolves-references Q h all
    Resolves-references Q (decide p kept e h) all = (all.0, Resolves-references Q h all.1)
    Resolves-references Q (decide p waits e h) all = (all.0, Resolves-references Q h all.1)
    Resolves-references Q (decide p (replaced v) e h) all = Resolves-references Q h all.1

    pub Resolves-AllLiterals :
        {es : Expression (Value S)} {r : Resolved S}
        → Resolves rs es r
        → AllLiterals IsPlain es
        → AllLiterals IsPlain r.parts
    unfolding settle
    Resolves-AllLiterals at_end all = tt
    Resolves-AllLiterals (pass v h) all = (all.0, Resolves-AllLiterals h all.1)
    Resolves-AllLiterals (decide p kept e h) all = Resolves-AllLiterals h all
    Resolves-AllLiterals (decide p waits e h) all = Resolves-AllLiterals h all
    Resolves-AllLiterals (decide p (replaced v) e h) all =
        (fate-IsPlain rs p v e, Resolves-AllLiterals h all)
