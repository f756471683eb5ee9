-- ===== src/Decoder.antt =====
-- resource/hcldecoder/decoder.go: the inputs of the resources while they are decoded.
pub mod Expr
pub mod Inputs
pub mod Config
pub mod Resolve
pub mod Transform
pub mod Samples
mod Tests
use func.Prelude.{
  ℕ, suc, ◌+◌, String, Bool, true, false, Option, none, some, List, [], ◌∷◌, ◌++◌, ◌==◌, ◌&&◌, ◌||◌,
  eqb, Result, ok, err, panic, ◌>>=◌, if◌then◌else◌,
}
use func.Cty.{Cty, CtyPath, PathStep, get_attr_step, index_step}
use func.Expression.{Expression}
use func.TypePath.{CtyType, AttributeTypes, TypePathError}
use func.Schema.{Field, GoType, tag_of, below_pointers}

-- A cty.Value of an input. `reference` is a capsule value, given by the address of the expression it
-- points to; `static` is any value without one, and `object` and `list` are those that may have some.
mutual
  pub data Value (S : Type 0) : Type 0 where
    static : S → Value S
    reference : ℕ → Value S
    object : Attributes S → Value S
    list : Elements S → Value S

  pub data Attributes (S : Type 0) : Type 0 where
    no_attributes : Attributes S
    attribute_of : String → Value S → Attributes S → Attributes S

  pub data Elements (S : Type 0) : Type 0 where
    no_elements : Elements S
    next_element : Value S → Elements S → Elements S

-- Diagnostics of the decoder. Ranges and the texts of the messages, suggestions included, are left out;
-- `from_hcl` is one of the HCL library, with whether it is an error.
pub data Diagnostic (S : Type 0) : Type 0 where
  from_hcl : Bool → Diagnostic S
  name_not_set duplicate_resource source_not_decoded cannot_add : Diagnostic S
  not_supported : String → Diagnostic S
  unsuitable_type is_converted : CtyType → Diagnostic S
  duplicate_block missing_block : String → Diagnostic S
  first_step_not_object second_step_not_field : Diagnostic S
  value_not_found : String → Diagnostic S
  invalid_reference : String → TypePathError (Value S) → Diagnostic S
  no_such_field : String → String → Diagnostic S
  validation_error : String → Diagnostic S

-- Is the severity DiagError? The diagnostic of a resource that cannot be added has none.
unfoldable pub is_error : {S : Type 0} → Diagnostic S → Bool
is_error (from_hcl e) = e
is_error cannot_add = false
is_error (is_converted t) = false
is_error d = true

abbrev pub Diagnostics : Type 0 → Type 0
Diagnostics S = List (Diagnostic S)

-- diags.HasErrors()
unfoldable pub has_errors : {S : Type 0} → Diagnostics S → Bool
has_errors [] = false
has_errors (d ∷ ds) = is_error d || has_errors ds

-- expression: what a capsule points to.
pub record Cell (S : Type 0) : Type 0 where
  pub field : Field
  pub input_type : CtyType
  pub expression : Expression (Value S)

abbrev pub Store : Type 0 → Type 0
Store S = ℕ → Cell S

unfoldable pub write : {S : Type 0} → Store S → ℕ → Cell S → Store S
write store a cell b = if eqb a b then cell else store b

-- res
pub record Res (S : Type 0) : Type 0 where
  pub typename : String
  pub sources : List String
  pub input : Attributes S
  pub outputs : AttributeTypes

-- Decoder.resources
abbrev pub Resources : Type 0 → Type 0
Resources S = String → Option (Res S)

-- d.resources[name] = r
unfoldable pub put_res : {S : Type 0} → Resources S → String → Res S → Resources S
put_res resources name r n = if name == n then some r else resources n

-- input.AsValueMap()[name]
unfoldable pub input_of : {S : Type 0} → Attributes S → String → Option (Value S)
input_of no_attributes name = none
input_of (attribute_of n v fields) name = if n == name then some v else input_of fields name

-- v.Type().IsCapsuleType()
unfoldable pub is_capsule : {S : Type 0} → Value S → Bool
is_capsule (reference a) = true
is_capsule v = false

-- What the decoder calls outside of its package: the cty library, and FromCtyValue and Validate.
pub record Library (S G : Type 0) : Type 0 where
  pub cty : Cty (Value S)
  -- cty.NumberIntVal
  pub number_int_val : ℕ → S
  -- v.Type().Equals(w.Type())
  pub same_type : Value S → Value S → Bool
  -- ctyext.FromCtyValue into a new value of the type; `none` for an error
  pub from_cty_value : GoType → Value S → Option G
  -- Validator.Validate; `true` where it returns nil
  pub accepts : G → String → Bool

unfoldable pub alike : {S : Type 0} → (Value S → Value S → Bool) → Elements S → Bool
alike same_type no_elements = true
alike same_type (next_element v no_elements) = true
alike same_type (next_element v (next_element w es)) =
    same_type v w && alike same_type (next_element w es)

-- cty.ListVal: it panics if the elements are not of the same type.
unfoldable pub list_val :
    {S E : Type 0} → (Value S → Value S → Bool) → Elements S → Result E (Value S)
list_val same_type elements = if alike same_type elements then ok (list elements) else panic

module _ {S G : Type 0} (library : Library S G) where
  -- Decoder.validate
  unfoldable pub validate : Value S → Field → Result (Diagnostics S) (Diagnostics S)
  validate v field =
      let rule = tag_of field.tags "validate" in
      let checked : Result (Diagnostics S) (Diagnostics S) =
        elim (library.from_cty_value (below_pointers field.type_of_field) v) [
          | none ↦ panic
          | some value ↦ ok (if library.accepts value rule then [] else validation_error rule ∷ [])
        ] in
      if rule == "" then ok [] else checked

  -- cty.Transform with a callback that leaves every value but a capsule as it is.
  module _ {T : Type 0}
      (visit : CtyPath (Value S) → ℕ → T → Result (Diagnostics S) (Value S × T)) where
    unfoldable mutual
      pub transform : CtyPath (Value S) → Value S → T → Result (Diagnostics S) (Value S × T)
      transform path (static v) t = ok (static v, t)
      transform path (reference a) t = visit path a t
      transform path (object fs) t =
          transform_attributes path fs t >>= λ (fs', t'). ok (object fs', t')
      transform path (list es) t = transform_elements path 0 es t >>= λ (es', t').
          list_val library.same_type es' >>= λ v. ok (v, t')

      pub transform_attributes :
          CtyPath (Value S) → Attributes S → T → Result (Diagnostics S) (Attributes S × T)
      transform_attributes path no_attributes t = ok (no_attributes, t)
      transform_attributes path (attribute_of name v fs) t =
          transform (path ++ get_attr_step name ∷ []) v t >>= λ (v', t').
          transform_attributes path fs t' >>= λ (fs', t''). ok (attribute_of name v' fs', t'')

      pub transform_elements :
          CtyPath (Value S) → ℕ → Elements S → T → Result (Diagnostics S) (Elements S × T)
      transform_elements path i no_elements t = ok (no_elements, t)
      transform_elements path i (next_element v es) t =
          transform (path ++ index_step (static (library.number_int_val i)) ∷ []) v t
          >>= λ (v', t').
              transform_elements path (suc i) es t' >>= λ (es', t''). ok (next_element v' es', t'')
