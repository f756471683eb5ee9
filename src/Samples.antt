-- ===== src/Samples.antt =====
-- A small instance of the cty interface, on which the theorems are applied.
use func.Prelude.{
  zero, suc, ◌++◌, ◌≡◌, ap, sym, ◌∙◌, String, refl, Bool, true, false, Option, none, some, List, [],
  ◌∷◌, Result, ok, err, ◌==◌, if◌then◌else◌,
}
use func.Cty.{Cty, PathStep, get_attr_step, CtyError, apply_failed, Bytes, StringLaws}

pub data Value : Type 0 where
  text : Bytes → Value
  unknown : Value
  object : (String → Value) → Value

abbrev attribute : List (String × Value) → String → Value
attribute [] name = text []
attribute ((n, v) ∷ fields) name = if n == name then v else attribute fields name

abbrev step : PathStep Value → Value → Result CtyError Value
step (get_attr_step name) (object f) = ok (f name)
step s v = err apply_failed

abbrev known : Value → Bool
known unknown = false
known v = true

abbrev string_of : Value → Option Bytes
string_of (text s) = some s
string_of v = none

-- The normal form of a text is the text without its zeroes.
abbrev without_zero : Bytes → Bytes
without_zero [] = []
without_zero (zero ∷ s) = without_zero s
without_zero (suc b ∷ s) = suc b ∷ without_zero s

without_zero-append : (s t : Bytes) → without_zero (s ++ t) ≡ without_zero s ++ without_zero t
without_zero-append [] t = refl
without_zero-append (zero ∷ s) t = without_zero-append s t
without_zero-append (suc b ∷ s) t = ap (λ l. suc b ∷ l) (without_zero-append s t)

without_zero_twice : (s : Bytes) → without_zero (without_zero s) ≡ without_zero s
without_zero_twice [] = refl
without_zero_twice (zero ∷ s) = without_zero_twice s
without_zero_twice (suc b ∷ s) = ap (λ l. suc b ∷ l) (without_zero_twice s)

without_zero-within :
    (s t u : Bytes) → without_zero (s ++ without_zero t ++ u) ≡ without_zero (s ++ t ++ u)
without_zero-within s t u =
    without_zero-append (s ++ without_zero t) u
    ∙ ap (λ l. l ++ without_zero u)
        (without_zero-append s (without_zero t)
          ∙ ap (λ l. without_zero s ++ l) (without_zero_twice t)
          ∙ sym (without_zero-append s t))
    ∙ sym (without_zero-append (s ++ t) u)

abbrev pub values : Cty Value
values = record {
  nil_val = text [];
  object_val = λ fields. object (attribute fields);
  apply = step;
  is_wholly_known = known;
  get_conversion = λ v. none;
  as_string = string_of;
  string_val = λ s. text (without_zero s);
  unknown_string = unknown;
}

pub values-StringLaws : StringLaws values
values-StringLaws = record {
  known-string_val = λ s. refl;
  conversion-string_val = λ s. refl;
  normalized = without_zero;
  as_string-string_val = λ s. refl;
  string_val-normalized = λ s t u. ap text (without_zero-within s t u);
  known-unknown_string = refl;
}
