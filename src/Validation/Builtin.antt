-- ===== src/Validation/Builtin.antt =====
-- resource/validation/builtin.go: the built-in rules, and strconv.Atoi.
use func.Prelude.{
  ℕ, zero, suc, ◌+◌, ◌*◌, ◌-◌, ◌%◌, ◌^◌, Bool, true, false, ◌||◌, not, List, [], ◌∷◌, Result, ok,
  err, panic, length, ltb, leb, eqb, ◌>>=◌, map_result, if◌then◌else◌,
}
use func.Prelude.Texts.{same_text}
use func.Cty.{Bytes}
use func.Validation.{
  ℤ, pos, negsuc, Input, string, int, float, list, struct, nil_pointer, pointer, other, NumError,
  syntax, out_of_range, bad_number, cannot_check, oneof_syntax, RuleError, invalid, too_short,
  too_small, too_long, too_large, not_divisible, float_too_small, float_too_large, not_one_of,
  not_set, Rule, Validator, split, add,
}

abbrev pub less : ℤ → ℤ → Bool
less (pos a) (pos b) = ltb a b
less (pos a) (negsuc b) = false
less (negsuc a) (pos b) = true
less (negsuc a) (negsuc b) = ltb b a

abbrev pub same_int : ℤ → ℤ → Bool
same_int (pos a) (pos b) = eqb a b
same_int (negsuc a) (negsuc b) = eqb a b
same_int a b = false

abbrev pub abs : ℤ → ℕ
abs (pos a) = a
abs (negsuc a) = suc a

-- - n
abbrev pub negate : ℕ → ℤ
negate zero = pos 0
negate (suc n) = negsuc n

-- The loop of strconv.ParseUint in base 10, with the digits before as a number.
unfoldable pub digits : ℕ → Bytes → Result NumError ℕ
digits n [] = ok n
digits n (c ∷ cs) =
    let rest = digits (n * 10 + (c - b'0')) cs in
    if ltb c b'0' || ltb b'9' c
    then err syntax
    else if leb (2 ^ 64) (n * 10 + (c - b'0'))
    then err out_of_range
    else rest

unfoldable pub unsigned : Bytes → Result NumError ℕ
unsigned [] = err syntax
unsigned (c ∷ cs) = digits 0 (c ∷ cs)

-- strconv.Atoi, for an int of 64 bits
unfoldable pub atoi : Bytes → Result NumError ℤ
atoi [] = err syntax
atoi (c ∷ cs) =
    if eqb c b'-'
    then (unsigned cs >>= λ n. if ltb (2 ^ 63) n then err out_of_range else ok (negate n))
    else (if eqb c b'+' then unsigned cs else unsigned (c ∷ cs)) >>= λ n.
        if leb (2 ^ 63) n then err out_of_range else ok (pos n)

-- Some value of the list passes the test.
unfoldable pub any : {A : Type 0} → (A → Bool) → List A → Bool
any test [] = false
any test (x ∷ xs) = test x || any test xs

-- The floating point numbers: strconv.ParseFloat, `<`, `==` and 0.
pub record Floats (F : Type 0) : Type 0 where
  pub parse_float : Bytes → Result NumError F
  pub lt : F → F → Bool
  pub eq : F → F → Bool
  pub zero : F

module _ {F : Type 0} where
  -- The parameter as a number, or numErr.
  abbrev pub parsed : {A : Type 0} → Result NumError A → Result (RuleError F) A
  parsed (ok n) = ok n
  parsed (err e) = err (invalid (bad_number e))
  parsed panic = panic

  -- An error if the test succeeds.
  abbrev pub fail_if : Bool → RuleError F → Result (RuleError F) (Unit {0})
  fail_if true e = err e
  fail_if false e = ok tt

  -- reflect.Indirect
  abbrev pub indirect : Input F → Input F
  indirect nil_pointer = other
  indirect (pointer v) = v
  indirect v = v

  -- The remainder is zero exactly if that of the absolute values is; dividing by zero panics.
  abbrev pub div_value : ℤ → Input F → Result (RuleError F) (Unit {0})
  div_value (pos zero) (int v) = panic
  div_value n (int v) = fail_if (not (eqb (abs v % abs n) 0)) (not_divisible n)
  div_value n v = err (invalid cannot_check)

  unfoldable pub divisible : Rule F
  divisible input param = parsed (atoi param) >>= λ n. div_value n (indirect input)

  unfoldable pub required : Floats F → Rule F
  required fl nil_pointer param = err not_set
  required fl (pointer v) param = required fl v param
  required fl struct param = ok tt
  required fl (string s) param = fail_if (eqb (length s) 0) not_set
  required fl (list n) param = fail_if (eqb n 0) not_set
  required fl (int v) param = fail_if (same_int v (pos 0)) not_set
  required fl (float v) param = fail_if (fl.eq v fl.zero) not_set
  required fl other param = err (invalid cannot_check)

module _ {F : Type 0} (fl : Floats F) where
  abbrev pub min_value : Input F → Bytes → Result (RuleError F) (Unit {0})
  min_value (string s) param =
      parsed (atoi param) >>= λ n. fail_if (less (pos (length s)) n) (too_short n)
  min_value (int v) param = parsed (atoi param) >>= λ n. fail_if (less v n) (too_small n)
  min_value (float v) param =
      parsed (fl.parse_float param) >>= λ f. fail_if (fl.lt v f) (float_too_small f)
  min_value (list k) param = parsed (atoi param) >>= λ n. fail_if (less (pos k) n) (too_short n)
  min_value v param = err (invalid cannot_check)

  unfoldable pub min : Rule F
  min input param = min_value (indirect input) param

  abbrev pub max_value : Input F → Bytes → Result (RuleError F) (Unit {0})
  max_value (string s) param =
      parsed (atoi param) >>= λ n. fail_if (less n (pos (length s))) (too_long n)
  max_value (int v) param = parsed (atoi param) >>= λ n. fail_if (less n v) (too_large n)
  max_value (float v) param =
      parsed (fl.parse_float param) >>= λ f. fail_if (fl.lt f v) (float_too_large f)
  max_value (list k) param = parsed (atoi param) >>= λ n. fail_if (less n (pos k)) (too_long n)
  max_value v param = err (invalid cannot_check)

  unfoldable pub max : Rule F
  max input param = max_value (indirect input) param

  abbrev pub one_of_values : Input F → List Bytes → Result (RuleError F) (Unit {0})
  one_of_values (string s) values = fail_if (not (any (same_text s) values)) (not_one_of values)
  one_of_values (int v) values = parsed (map_result atoi values) >>= λ vv.
      fail_if (not (any (same_int v) vv)) (not_one_of values)
  one_of_values (float v) values = parsed (map_result fl.parse_float values) >>= λ vv.
      fail_if (not (any (fl.eq v) vv)) (not_one_of values)
  one_of_values v values = err (invalid cannot_check)

  unfoldable pub oneof : Rule F
  oneof input param =
      if ltb (length (split b' ' param)) 2
      then err (invalid oneof_syntax)
      else one_of_values (indirect input) (split b' ' param)

  -- AddBuiltin. The name "required" is registered with oneof.
  unfoldable pub add_builtin : Validator F → Result (RuleError F) (Validator F)
  add_builtin v = add v (b'm' ∷ b'i' ∷ b'n' ∷ []) min >>= λ v.
      add v (b'm' ∷ b'a' ∷ b'x' ∷ []) max >>= λ v.
      add v (b'o' ∷ b'n' ∷ b'e' ∷ b'o' ∷ b'f' ∷ []) oneof >>= λ v.
      add v (b'r' ∷ b'e' ∷ b'q' ∷ b'u' ∷ b'i' ∷ b'r' ∷ b'e' ∷ b'd' ∷ []) oneof >>= λ v.
      add v (b'd' ∷ b'i' ∷ b'v' ∷ []) divisible
