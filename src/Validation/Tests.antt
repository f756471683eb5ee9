-- ===== src/Validation/Tests.antt =====
-- The rules on concrete values.
use func.Prelude.{ℕ, ◌*◌, ◌≤◌, ◌≡◌, ◌↔◌, ◌⊎◌, refl, [], ◌∷◌, ok, length, All, eqb, ltb}
use mathlib.Core.List.{Memᴰ}
use func.Cty.{Bytes}
use func.Validation.{
  pos, int, string, invalid, oneof_syntax, too_large, Validator, new, validate, split,
  validate_parts, split_first, call_rule, rule_of,
}
use func.Validation.Builtin.{
  Floats, atoi, unsigned, digits, divisible, oneof, min, max, add_builtin,
}
use func.Validation.Rules.{Accepts, validate_iff}
use func.Validation.Accepted.{divisible_iff, oneof_iff, validate-required}

-- Numbers in place of floating point ones.
abbrev naturals : Floats ℕ
naturals = record { parse_float = unsigned; lt = ltb; eq = eqb; zero = 0 }

abbrev bounds : Validator ℕ
bounds = ((b'm' ∷ b'a' ∷ b'x' ∷ []), max naturals) ∷ ((b'm' ∷ b'i' ∷ b'n' ∷ []), min naturals) ∷ []

-- min=2,max=5
abbrev between : Bytes
between = b'm' ∷ b'i' ∷ b'n' ∷ b'=' ∷ b'2' ∷ b',' ∷ b'm' ∷ b'a' ∷ b'x' ∷ b'=' ∷ b'5' ∷ []

three-valid : validate bounds (int (pos 3)) between ≡ ok []
unfolding validate validate_parts split split_first call_rule rule_of min max atoi unsigned digits
three-valid = refl

six-invalid : validate bounds (int (pos 6)) between ≡ ok (too_large (pos 5) ∷ [])
unfolding validate validate_parts split split_first call_rule rule_of min max atoi unsigned digits
six-invalid = refl

validate_iff_example :
    (validate bounds (int (pos 3)) between ≡ ok [])
    ↔ ((between ≡ []) ⊎ All (Accepts bounds (int (pos 3))) (split b',' between))
validate_iff_example = validate_iff bounds (int (pos 3)) between

four : atoi (b'4' ∷ []) ≡ ok (pos 4)
unfolding atoi unsigned digits
four = refl

divisible_iff_example :
    (divisible {F = ℕ} (int (pos 12)) (b'4' ∷ []) ≡ ok tt) ↔ ((k : ℕ) × (12 ≡ 4 * k))
divisible_iff_example = divisible_iff {F = ℕ} (pos 12) (pos 4) (b'4' ∷ []) four (λ e. cc)

oneof_iff_example : (oneof naturals (string (b'b' ∷ [])) (b'a' ∷ b' ' ∷ b'b' ∷ []) ≡ ok tt) ↔ (
    (2 ≤ length (split b' ' (b'a' ∷ b' ' ∷ b'b' ∷ [])))
    × Memᴰ (b'b' ∷ []) (split b' ' (b'a' ∷ b' ' ∷ b'b' ∷ [])))
oneof_iff_example = oneof_iff naturals (b'b' ∷ []) (b'a' ∷ b' ' ∷ b'b' ∷ [])

validate-required_example :
    (v : Validator ℕ) × (add_builtin naturals new ≡ ok v)
    × (validate v (int (pos 3)) (b'r' ∷ b'e' ∷ b'q' ∷ b'u' ∷ b'i' ∷ b'r' ∷ b'e' ∷ b'd' ∷ [])
        ≡ ok (invalid oneof_syntax ∷ []))
validate-required_example = validate-required naturals (int (pos 3))
