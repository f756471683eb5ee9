-- ===== src/Validation.antt =====
-- resource/validation/validation.go and builtin.go: rules on input values. Texts are lists of bytes.
pub mod Builtin
pub mod Rules
pub mod Accepted
mod Tests
use func.Prelude.{
  ℕ, zero, suc, ◌+◌, ◌*◌, ◌-◌, ◌%◌, String, ◌≡◌, Bool, true, false, ◌&&◌, ◌||◌, not, Option, none,
  some, List, [], ◌∷◌, ◌++◌, Result, ok, err, panic, ltb, leb, eqb, ◌>>=◌, if◌then◌else◌,
}
use func.Prelude.Texts.{same_text}
use func.Cty.{Bytes}

-- int64
pub data ℤ : Type 0 where
  pos : ℕ → ℤ
  negsuc : ℕ → ℤ

-- An input value by its reflect.Kind: `list` stands for arrays, maps and slices and has their length,
-- `nil_pointer` and `pointer` for pointers and interfaces, `other` for the kinds that no rule checks and for no value.
-- `F` are the floating point numbers.
pub data Input (F : Type 0) : Type 0 where
  string : Bytes → Input F
  int : ℤ → Input F
  float : F → Input F
  list : ℕ → Input F
  struct : Input F
  nil_pointer : Input F
  pointer : Input F → Input F
  other : Input F

-- The errors of strconv.
pub data NumError : Type 0 where
  syntax out_of_range : NumError

-- InvalidRuleError, by its reasons.
pub data InvalidRule : Type 0 where
  name_not_set : ℕ → InvalidRule
  no_such_rule : Bytes → InvalidRule
  bad_number : NumError → InvalidRule
  cannot_check oneof_syntax : InvalidRule

-- The errors of the rules, with the numbers and texts of their messages.
pub data RuleError (F : Type 0) : Type 0 where
  invalid : InvalidRule → RuleError F
  too_short too_small too_long too_large not_divisible : ℤ → RuleError F
  float_too_small float_too_large : F → RuleError F
  not_one_of : List Bytes → RuleError F
  not_set : RuleError F

-- What a call of a rule comes to: nil, an error, or a panic.
abbrev pub Rule : Type 0 → Type 0
Rule F = Input F → Bytes → Result (RuleError F) (Unit {0})

-- strings.Split for a separator of one byte
unfoldable pub split : ℕ → Bytes → List Bytes
split sep [] = [] ∷ []
split sep (b ∷ bs) = if eqb b sep then [] ∷ split sep bs else extend b (split sep bs)
  where
    extend : ℕ → List Bytes → List Bytes
    extend b [] = (b ∷ []) ∷ []
    extend b (part ∷ parts) = (b ∷ part) ∷ parts

-- strings.SplitN(text, sep, 2): the text before the first separator and, if there is one, the text
-- after it
unfoldable pub split_first : ℕ → Bytes → Bytes × Option Bytes
split_first sep [] = ([], none)
split_first sep (b ∷ bs) =
    let (before, after) = split_first sep bs in
    if eqb b sep then ([], some bs) else (b ∷ before, after)

-- The map of a Validator.
abbrev pub Validator : Type 0 → Type 0
Validator F = List (Bytes × Rule F)

-- The parameter of a rule, empty if there is none.
abbrev pub param_of : Option Bytes → Bytes
param_of none = []
param_of (some param) = param

module _ {F : Type 0} where
  abbrev pub new : Validator F
  new = []

  unfoldable pub rule_of : Validator F → Bytes → Option (Rule F)
  rule_of [] name = none
  rule_of ((n, rule) ∷ rules) name = if same_text n name then some rule else rule_of rules name

  -- Validator.Add, with its panic
  unfoldable pub add : Validator F → Bytes → Rule F → Result (RuleError F) (Validator F)
  add v name rule = elim (rule_of v name) [ some r ↦ panic | none ↦ ok ((name, rule) ∷ v) ]

  -- multierr.Append(err, fn(value, param)), the rule's panic passed on
  abbrev pub append_error :
      List (RuleError F) → Result (RuleError F) (Unit {0}) → Result InvalidRule (List (RuleError F))
  append_error errs (ok u) = ok errs
  append_error errs (err e) = ok (errs ++ e ∷ [])
  append_error errs panic = panic

  -- The call of the rule with the name, of the i-th part.
  unfoldable pub call_rule :
      Validator F
      → Input F
      → ℕ
      → List (RuleError F)
      → Bytes
      → Bytes
      → Result InvalidRule (List (RuleError F))
  call_rule v value i errs [] param = err (name_not_set i)
  call_rule v value i errs (b ∷ bs) param = elim (rule_of v (b ∷ bs)) [
    | none ↦ err (no_such_rule (b ∷ bs))
    | some fn ↦ append_error errs (fn value param)
  ]

  -- The loop of Validate over the parts, from the i-th, with the errors so far.
  unfoldable pub validate_parts :
      Validator F
      → Input F
      → ℕ
      → List (RuleError F)
      → List Bytes
      → Result InvalidRule (List (RuleError F))
  validate_parts v value i errs [] = ok errs
  validate_parts v value i errs (p ∷ ps) =
      let (name, param) = split_first b'=' p in
      call_rule v value i errs name (param_of param) >>= λ more.
      validate_parts v value (suc i) more ps

  -- Validator.Validate. `err` is an early return; the errors of the rules are collected.
  unfoldable pub validate : Validator F → Input F → Bytes → Result InvalidRule (List (RuleError F))
  validate v value [] = ok []
  validate v value (b ∷ bs) = validate_parts v value 0 [] (split b',' (b ∷ bs))
