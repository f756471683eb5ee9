-- ===== src/Patch.antt =====
-- provider/aws/internal/apigatewaypatch/patch.go: the patch operations between two versions of the
-- input of an API gateway resource. Texts are lists of bytes.
pub mod Slices
pub mod Exact
pub mod Escape
pub mod Resolve
mod Tests
use func.Prelude.{
  ℕ, suc, String, ◌≡◌, Bool, true, false, ◌&&◌, ◌||◌, not, Option, none, some, List, [], ◌∷◌, ◌++◌,
  Result, ok, err, panic, ltb, eqb, ◌>>=◌, if◌then◌else◌,
}
use func.Prelude.Texts.{same_text}
use func.Cty.{Bytes}

-- A reflect.Value. All but texts and pointers have the text that the verb %v prints for them.
mutual
  pub data ReflectValue : Type 0 where
    text : Bytes → ReflectValue
    scalar : (format : Bytes) → ReflectValue
    nil_pointer : ReflectValue
    pointer : ReflectValue → ReflectValue
    slice : (format : Bytes) → ReflectValues → ReflectValue
    struct : (format : Bytes) → ReflectValues → ReflectValue

  pub data ReflectValues : Type 0 where
    none_left : ReflectValues
    field : ReflectValue → ReflectValues → ReflectValues

-- apigateway.PatchOperation
pub data PatchOperation : Type 0 where
  remove add : Bytes → PatchOperation
  replace : Bytes → Option Bytes → PatchOperation

-- The calls do not return errors, so that `err` does not occur where `E` is empty.
abbrev pub Call : Type 0 → Type 0
Call A = Result ⊥ A

-- strings.Replace(text, old, new, -1) for a text `old` of one byte
unfoldable pub replace_byte : ℕ → Bytes → Bytes → Bytes
replace_byte old new [] = []
replace_byte old new (b ∷ bs) =
    let rest = replace_byte old new bs in if eqb b old then new ++ rest else b ∷ rest

unfoldable pub jsonpath : Bytes → Bytes
jsonpath path = replace_byte b'/' (b'~' ∷ b'1' ∷ []) (replace_byte b'~' (b'~' ∷ b'0' ∷ []) path)

-- opValue; `none` is nil
unfoldable pub op_value : ReflectValue → Option Bytes
op_value (text []) = none
op_value (text (b ∷ bs)) = some (jsonpath (b ∷ bs))
op_value nil_pointer = none
op_value (pointer v) = op_value v
op_value (scalar s) = some (jsonpath s)
op_value (slice s vs) = some (jsonpath s)
op_value (struct s vs) = some (jsonpath s)

-- The loop of sliceValues, with the panic of `*opValue(v)` for nil.
unfoldable pub slice_values : ReflectValues → Bytes → Call (List Bytes)
slice_values none_left prefix = ok []
slice_values (field v vs) prefix = elim (op_value v) [
  | none ↦ panic
  | some s ↦ slice_values vs prefix >>= λ vals. ok ((prefix ++ b'/' ∷ s) ∷ vals)
]

unfoldable pub contains : Bytes → List Bytes → Bool
contains needle [] = false
contains needle (v ∷ vs) = same_text v needle || contains needle vs

-- The order of strings.
unfoldable pub at_most : Bytes → Bytes → Bool
at_most [] cs = true
at_most (b ∷ bs) [] = false
at_most (b ∷ bs) (c ∷ cs) = ltb b c || (eqb b c && at_most bs cs)

unfoldable pub insert : Bytes → List Bytes → List Bytes
insert s [] = s ∷ []
insert s (t ∷ ts) = let rest = insert s ts in if at_most s t then s ∷ t ∷ ts else t ∷ rest

-- sort.Strings
unfoldable pub sort : List Bytes → List Bytes
sort [] = []
sort (s ∷ ss) = insert s (sort ss)

-- The operations for one index of the two sorted lists. An empty text stands for no value.
unfoldable pub index_ops : List Bytes → List Bytes → Bytes → Bytes → List PatchOperation
index_ops prev next a b =
    if same_text a b
    then []
    else (if not (same_text a []) && not (contains a next) then remove a ∷ [] else [])
      ++ (if not (same_text b []) && not (contains b prev) then add b ∷ [] else [])

-- The loop of sliceOps, from an index on: what is left of the two lists.
unfoldable pub loop_ops : List Bytes → List Bytes → List Bytes → List Bytes → List PatchOperation
loop_ops prev next [] [] = []
loop_ops prev next (x ∷ xs) [] = index_ops prev next x [] ++ loop_ops prev next xs []
loop_ops prev next [] (y ∷ ys) = index_ops prev next [] y ++ loop_ops prev next [] ys
loop_ops prev next (x ∷ xs) (y ∷ ys) = index_ops prev next x y ++ loop_ops prev next xs ys

-- sliceOps after its values have been read.
unfoldable pub sorted_ops : List Bytes → List Bytes → List PatchOperation
sorted_ops prev next = loop_ops prev next prev next

-- sliceOps; a value that is not valid is given as `none_left`
unfoldable pub slice_ops : ReflectValues → ReflectValues → Bytes → Call (List PatchOperation)
slice_ops src dst prefix = slice_values src prefix >>= λ prev.
    slice_values dst prefix >>= λ next. ok (sorted_ops (sort prev) (sort next))
