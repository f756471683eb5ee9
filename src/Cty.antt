-- ===== src/Cty.antt =====
-- The cty library, as far as the program calls it: a type of values and the operations on them.
-- Its code is not part of the repository, so the values are a parameter and the operations are
-- the fields of a record that the clients take.
use func.Prelude.{◌≡◌, String, Bool, true, false, Option, none, some, ℕ, List, ◌++◌, Result}

-- A step of a cty.Path: `.name` or `[key]`.
pub data PathStep (V : Type 0) : Type 0 where
  get_attr_step : String → PathStep V
  index_step : V → PathStep V

abbrev pub CtyPath : Type 0 → Type 0
CtyPath V = List (PathStep V)

-- An error of the cty library. The program only passes it on.
pub data CtyError : Type 0 where
  apply_failed conversion_failed : CtyError

-- The bytes of a string value.
abbrev pub Bytes : Type 0
Bytes = List ℕ

pub record Cty (V : Type 0) : Type 0 where
  -- cty.NilVal
  pub nil_val : V
  -- cty.ObjectVal
  pub object_val : List (String × V) → V
  -- PathStep.Apply
  pub apply : PathStep V → V → Result CtyError V
  -- Value.IsWhollyKnown
  pub is_wholly_known : V → Bool
  -- convert.GetConversion of the value's type to cty.String; `none` where it returns nil
  pub get_conversion : V → Option (V → Result CtyError V)
  -- Value.AsString; `none` where it panics
  pub as_string : V → Option Bytes
  -- cty.StringVal
  pub string_val : Bytes → V
  -- cty.UnknownVal(cty.String)
  pub unknown_string : V

-- What the program relies on: a string value is known, needs no conversion to a string and holds
-- the normal form of its text (cty.StringVal documents NFC), and an unknown value is not known. Two
-- texts that differ in that a part of one is replaced by its normal form have the same normal form.
pub record StringLaws {V : Type 0} (c : Cty V) : Type 0 where
  pub known-string_val : (s : Bytes) → c.is_wholly_known (c.string_val s) ≡ true
  pub conversion-string_val : (s : Bytes) → c.get_conversion (c.string_val s) ≡ none
  pub normalized : Bytes → Bytes
  pub as_string-string_val : (s : Bytes) → c.as_string (c.string_val s) ≡ some (normalized s)
  pub string_val-normalized :
      (s t u : Bytes) → c.string_val (s ++ normalized t ++ u) ≡ c.string_val (s ++ t ++ u)
  pub known-unknown_string : c.is_wholly_known c.unknown_string ≡ false
