-- ===== src/Validation/Rules.antt =====
-- resource/validation: what Validate accepts, and what the built-in rules accept.
use func.Prelude.{
  ℕ, suc, ◌≡◌, ◌∙◌, ◌≢◌, ◌↔◌, ◌⊎◌, inl, inr, refl, ap, Option, none, some, List, [], ◌∷◌, Result,
  ok, err, panic, >>=-eq-ok, All, arith,
}
use func.Cty.{Bytes}
use func.Validation.{
  Input, RuleError, Rule, Validator, split, split_first, param_of, rule_of, append_error, call_rule,
  validate_parts, validate,
}

module _ {F : Type 0} (v : Validator F) (value : Input F) where
  -- The rule of the name is registered and returns nil.
  abbrev pub AcceptsRule : Bytes → Bytes → Type 0
  AcceptsRule name param =
      (fn : Rule F) × (name ≢ []) × (rule_of v name ≡ some fn) × (fn value param ≡ ok tt)

  abbrev pub Accepts : Bytes → Type 0
  Accepts part = AcceptsRule (split_first b'=' part).0 (param_of (split_first b'=' part).1)

  append_error-eq-nil :
      (errs : List (RuleError F)) (x : Result (RuleError F) (Unit {0}))
      → append_error errs x ≡ ok []
      → (errs ≡ []) × (x ≡ ok tt)
  append_error-eq-nil errs (ok tt) h = (cc, refl)
  append_error-eq-nil [] (err e) h = cc
  append_error-eq-nil (x ∷ errs) (err e) h = cc
  append_error-eq-nil errs panic h = cc

  call_rule-eq-nil :
      (i : ℕ) (errs : List (RuleError F)) (name param : Bytes)
      → call_rule v value i errs name param ≡ ok []
      → (errs ≡ []) × AcceptsRule name param
  unfolding call_rule
  call_rule-eq-nil i errs [] param h = cc
  call_rule-eq-nil i errs (b ∷ bs) param h = go (rule_of v (b ∷ bs)) refl
    where
      go : (o : Option (Rule F)) → rule_of v (b ∷ bs) ≡ o → (errs ≡ []) × AcceptsRule (b ∷ bs) param
      go none e = absurd (ground arith)
      go (some fn) e =
          let (empty, returned) =
            append_error-eq-nil errs (fn value param) (rw (e, call_rule) at h) in
          (empty, (fn, (λ x. cc), e, returned))

  validate_parts-eq-nil :
      (i : ℕ) (errs : List (RuleError F)) (ps : List Bytes)
      → validate_parts v value i errs ps ≡ ok []
      → (errs ≡ []) × All Accepts ps
  unfolding validate_parts
  validate_parts-eq-nil i errs [] h = (cc, tt)
  validate_parts-eq-nil i errs (p ∷ ps) h =
      let (more, called, rest) =
        >>=-eq-ok
          (call_rule v value i errs (split_first b'=' p).0 (param_of (split_first b'=' p).1))
          (λ more. validate_parts v value (suc i) more ps) h in
      let (nil, all) = validate_parts-eq-nil (suc i) more ps rest in
      let (empty, first) =
        call_rule-eq-nil i errs (split_first b'=' p).0 (param_of (split_first b'=' p).1)
          (called ∙ ap ok nil) in
      (empty, (first, all))

  call_rule-of_AcceptsRule :
      (i : ℕ) (name param : Bytes)
      → AcceptsRule name param
      → call_rule v value i [] name param ≡ ok []
  unfolding call_rule
  call_rule-of_AcceptsRule i [] param (fn, named, e, h) = absurd (named refl)
  call_rule-of_AcceptsRule i (b ∷ bs) param (fn, named, e, h) = rw (e, call_rule) (rw h refl)

  validate_parts-of_Accepts :
      (i : ℕ) (ps : List Bytes) → All Accepts ps → validate_parts v value i [] ps ≡ ok []
  unfolding validate_parts
  validate_parts-of_Accepts i [] h = refl
  validate_parts-of_Accepts i (p ∷ ps) h =
      rw (call_rule-of_AcceptsRule i (split_first b'=' p).0 (param_of (split_first b'=' p).1) h.0)
        (validate_parts-of_Accepts (suc i) ps h.1)

  -- Validate returns nil exactly when the rules are empty or each part between the commas names, before
  -- its first `=`, a registered rule that returns nil for the value and the text after the `=`.
  pub validate_iff :
      (rules : Bytes)
      → (validate v value rules ≡ ok []) ↔ ((rules ≡ []) ⊎ All Accepts (split b',' rules))
  unfolding validate
  validate_iff [] = (λ h. inl refl, λ h. refl)
  validate_iff (b ∷ bs) = (
    λ h. inr (validate_parts-eq-nil 0 [] (split b',' (b ∷ bs)) h).1,
    λ h. elim h [
      | inl e ↦ absurd (ground arith)
      | inr all ↦ validate_parts-of_Accepts 0 (split b',' (b ∷ bs)) all
    ],
  )
