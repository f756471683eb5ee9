-- ===== src/Patch/Exact.antt =====
-- sliceOps, with the sorting and the reading of the values: the operations are the differences of the two slices as sets.
use func.Prelude.{
  ◌≡◌, ◌∙◌, ap, refl, true, false, ◌&&◌, ◌||◌, not, some, none, Option, List, [], ◌∷◌, ◌++◌, ok,
  >>=-eq-ok, ◌>>=◌, All, arith, Bool-cases, inl, inr,
}
use func.Prelude.Texts.{same_text, same_text_refl}
use func.Cty.{Bytes}
use func.Patch.{
  ReflectValue, ReflectValues, none_left, field, PatchOperation, op_value, slice_values, contains,
  insert, sort, at_most, loop_ops, sorted_ops, slice_ops,
}
use func.Patch.Slices.{removes, adds, Known, removes-loop_ops, adds-loop_ops}

contains-insert :
    (x s : Bytes) (ts : List Bytes) → contains x (insert s ts) ≡ (same_text s x || contains x ts)
unfolding contains insert
contains-insert x s [] = refl
contains-insert x s (t ∷ ts) = ground (arith, contains-insert x s ts)

contains-sort : (x : Bytes) (ts : List Bytes) → contains x (sort ts) ≡ contains x ts
unfolding contains sort
contains-sort x [] = refl
contains-sort x (t ∷ ts) = ground (arith, contains-insert x t (sort ts), contains-sort x ts)

abbrev Filled : Bytes → Type 0
Filled t = same_text t [] ≡ false

insert-Filled : (s : Bytes) (ts : List Bytes) → Filled s → All Filled ts → All Filled (insert s ts)
unfolding insert
insert-Filled s [] h hs = (h, tt)
insert-Filled s (t ∷ ts) h hs = elim (Bool-cases (at_most s t)) [
  | inl before ↦ rw before (h, hs)
  | inr after ↦ rw after (hs.0, insert-Filled s ts h hs.1)
]

sort-Filled : (ts : List Bytes) → All Filled ts → All Filled (sort ts)
unfolding sort
sort-Filled [] h = tt
sort-Filled (t ∷ ts) h = insert-Filled t (sort ts) h.0 (sort-Filled ts h.1)

-- Every entry of a list of texts that are not empty is known to the list.
Filled-Known :
    (all ts : List Bytes)
    → ((x : Bytes) → contains x ts ≡ true → contains x all ≡ true)
    → All Filled ts
    → All (Known all) ts
unfolding contains
Filled-Known all [] f h = tt
Filled-Known all (t ∷ ts) f h = (
  (h.0, f t (ground (arith, same_text_refl t))),
  Filled-Known all ts (λ x e. f x (ground arith)) h.1,
)

prefix-Filled : (prefix s : Bytes) → Filled (prefix ++ b'/' ∷ s)
prefix-Filled [] s = refl
prefix-Filled (b ∷ bs) s = refl

field-Filled :
    (v : ReflectValue) (vs : ReflectValues) (prefix : Bytes) (vals : List Bytes)
    → ((rest : List Bytes) → slice_values vs prefix ≡ ok rest → All Filled rest)
    → (o : Option Bytes) → op_value v ≡ o
    → slice_values (field v vs) prefix ≡ ok vals
    → All Filled vals
unfolding slice_values
field-Filled v vs prefix vals below none e h = cc (rw (e, slice_values) at h)
field-Filled v vs prefix vals below (some s) e h =
    let (rest, read, made) =
      >>=-eq-ok (slice_values vs prefix) (λ vals. ok ((prefix ++ b'/' ∷ s) ∷ vals))
        (rw (e, slice_values) at h) in
    let same : vals ≡ (prefix ++ b'/' ∷ s) ∷ rest = cc in
    rw same (prefix-Filled prefix s, below rest read)

slice_values-Filled :
    (vs : ReflectValues) (prefix : Bytes) (vals : List Bytes)
    → slice_values vs prefix ≡ ok vals
    → All Filled vals
unfolding slice_values
slice_values-Filled none_left prefix vals h = let e : vals ≡ [] = cc in rw e tt
slice_values-Filled (field v vs) prefix vals h =
    field-Filled v vs prefix vals (slice_values-Filled vs prefix) (op_value v) refl h

-- When sliceOps returns, it has removed exactly the values of the first slice that are not in the second,
-- and added exactly those of the second that are not in the first, the order and the repetitions of the
-- values left aside.
pub slice_ops-differences :
    (src dst : ReflectValues) (prefix : Bytes) (ops : List PatchOperation)
    → slice_ops src dst prefix ≡ ok ops
    → (prev : List Bytes) × (next : List Bytes) × (slice_values src prefix ≡ ok prev)
      × (slice_values dst prefix ≡ ok next)
      × ((x : Bytes)
          → (removes x ops ≡ (contains x prev && not (contains x next)))
            × (adds x ops ≡ (contains x next && not (contains x prev))))
unfolding slice_ops sorted_ops
slice_ops-differences src dst prefix ops h =
    let (prev, read, rest) =
      >>=-eq-ok (slice_values src prefix)
        (λ prev. slice_values dst prefix >>= λ next. ok (sorted_ops (sort prev) (sort next))) h in
    let (next, read', made) =
      >>=-eq-ok (slice_values dst prefix) (λ next. ok (sorted_ops (sort prev) (sort next))) rest in
    let same : ops ≡ loop_ops (sort prev) (sort next) (sort prev) (sort next) = cc in
    let known =
      Filled-Known (sort prev) (sort prev) (λ x e. e)
        (sort-Filled prev (slice_values-Filled src prefix prev read)) in
    let known' =
      Filled-Known (sort next) (sort next) (λ x e. e)
        (sort-Filled next (slice_values-Filled dst prefix next read')) in
    (
      prev,
      next,
      read,
      read',
      λ x. (
        ap (removes x) same
            ∙ (removes-loop_ops (sort prev) (sort next) (sort prev) (sort next) x known known'
                ∙ ground (arith, contains-sort x prev, contains-sort x next)),
        ap (adds x) same
            ∙ (adds-loop_ops (sort prev) (sort next) (sort prev) (sort next) x known known'
                ∙ ground (arith, contains-sort x prev, contains-sort x next)),
      ),
    )
