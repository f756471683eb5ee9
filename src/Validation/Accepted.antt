-- ===== src/Validation/Accepted.antt =====
-- resource/validation/builtin.go: the values that the built-in rules accept.
use func.Prelude.{
  ℕ, zero, suc, ◌%◌, ◌*◌, ◌/◌, ◌≤◌, ◌≡◌, ◌∙◌, ◌≢◌, ◌↔◌, inl, inr, refl, sym, ap, subst, Bool, true,
  false, not, List, [], ◌∷◌, ok, arith, Bool-cases, eqb, ltb, length,
}
use mathlib.Core.List.{Memᴰ}
use native.Mathlib.Nat.{mod-add-div, mul-mod_right}
use func.Prelude.Texts.{same_text, same_text_refl, eq_of_same_text}
use func.Cty.{Bytes}
use func.Validation.{
  ℤ, pos, negsuc, Input, int, string, RuleError, invalid, oneof_syntax, not_divisible, not_one_of,
  Validator, new, split, split_first, rule_of, add, call_rule, validate_parts, validate,
}
use func.Validation.Builtin.{
  Floats, atoi, abs, any, fail_if, divisible, div_value, oneof, min, max, add_builtin,
}

Mem_of_any : (s : Bytes) (ts : List Bytes) → any (same_text s) ts ≡ true → Memᴰ s ts
unfolding any
Mem_of_any s [] h = absurd (ground arith)
Mem_of_any s (t ∷ ts) h = elim (Bool-cases (same_text s t)) [
  | inl same ↦ Memᴰ.head (eq_of_same_text s t same)
  | inr other ↦ Memᴰ.tail (Mem_of_any s ts (ground arith))
]

any_of_Mem : (s : Bytes) (ts : List Bytes) → Memᴰ s ts → any (same_text s) ts ≡ true
unfolding any
any_of_Mem s [] m = elim m [ ]
any_of_Mem s (t ∷ ts) (Memᴰ.head e) =
    let same : same_text s t ≡ true = subst (λ x. same_text s x ≡ true) e (same_text_refl s) in
    ground arith
any_of_Mem s (t ∷ ts) (Memᴰ.tail m) = ground (arith, any_of_Mem s ts m)

module _ {F : Type 0} where
  fail_if-eq-ok : (b : Bool) (e : RuleError F) → fail_if b e ≡ ok tt → b ≡ false
  fail_if-eq-ok true e h = cc
  fail_if-eq-ok false e h = refl

  div_value-int :
      (n x : ℤ)
      → abs n ≢ 0
      → div_value {F = F} n (int x) ≡ fail_if (not (eqb (abs x % abs n) 0)) (not_divisible n)
  div_value-int (pos zero) x k = absurd (k refl)
  div_value-int (pos (suc m)) x k = refl
  div_value-int (negsuc m) x k = refl

  -- The rule `div` accepts an integer exactly when it is a multiple of the parameter, which is an
  -- integer other than zero.
  pub divisible_iff :
      (x n : ℤ) (param : Bytes)
      → atoi param ≡ ok n
      → abs n ≢ 0
      → (divisible {F = F} (int x) param ≡ ok tt) ↔ ((k : ℕ) × (abs x ≡ abs n * k))
  unfolding divisible
  divisible_iff x n param e nonzero = (
    λ h.
        let test : fail_if {F = F} (not (eqb (abs x % abs n) 0)) (not_divisible n) ≡ ok tt =
          sym (div_value-int n x nonzero) ∙ (rw e at h) in
        let exact : abs x % abs n ≡ 0 =
          let passed = fail_if-eq-ok (not (eqb (abs x % abs n) 0)) (not_divisible n) test in
          ground arith in
        (abs x / abs n, omega (arith, mod-add-div (abs x) (abs n))),
    λ h.
        let exact : abs x % abs n ≡ 0 = ap (λ y. y % abs n) h.1 ∙ mul-mod_right (abs n) h.0 in
        rw e (div_value-int n x nonzero ∙ ground arith),
  )

  -- The rule `oneof` accepts a text exactly when the parameter lists at least two values and the text is
  -- one of them.
  pub oneof_iff :
      (fl : Floats F) (s param : Bytes)
      → (oneof fl (string s) param ≡ ok tt)
        ↔ ((2 ≤ length (split b' ' param)) × Memᴰ s (split b' ' param))
  unfolding oneof
  oneof_iff fl s param = (
    λ h. elim (Bool-cases (ltb (length (split b' ' param)) 2)) [
      | inl short ↦ absurd (ground arith)
      | inr enough ↦ (
        ground arith,
        Mem_of_any s (split b' ' param) (
            let passed =
              fail_if-eq-ok (not (any (same_text s) (split b' ' param)))
                (not_one_of (split b' ' param)) (rw enough at h) in
            ground arith),
      )
    ],
    λ h. ground (arith, any_of_Mem s (split b' ' param) h.1),
  )

  -- The validator that AddBuiltin makes of an empty one.
  abbrev builtins : Floats F → Validator F
  builtins fl =
      ((b'd' ∷ b'i' ∷ b'v' ∷ []), divisible)
      ∷ ((b'r' ∷ b'e' ∷ b'q' ∷ b'u' ∷ b'i' ∷ b'r' ∷ b'e' ∷ b'd' ∷ []), oneof fl)
      ∷ ((b'o' ∷ b'n' ∷ b'e' ∷ b'o' ∷ b'f' ∷ []), oneof fl)
      ∷ ((b'm' ∷ b'a' ∷ b'x' ∷ []), max fl)
      ∷ ((b'm' ∷ b'i' ∷ b'n' ∷ []), min fl)
      ∷ []

  pub add_builtin-new : (fl : Floats F) → add_builtin fl new ≡ ok (builtins fl)
  unfolding add_builtin add rule_of
  add_builtin-new fl = refl

  -- AddBuiltin succeeds on an empty validator, and with the rules it registers `required` without a
  -- parameter accepts no value: Validate returns the syntax error of `oneof`.
  pub validate-required :
      (fl : Floats F) (value : Input F)
      → (v : Validator F) × (add_builtin fl new ≡ ok v)
        × (validate v value (b'r' ∷ b'e' ∷ b'q' ∷ b'u' ∷ b'i' ∷ b'r' ∷ b'e' ∷ b'd' ∷ [])
            ≡ ok (invalid oneof_syntax ∷ []))
  unfolding validate validate_parts call_rule rule_of split split_first oneof
  validate-required fl value = (builtins fl, add_builtin-new fl, refl)
