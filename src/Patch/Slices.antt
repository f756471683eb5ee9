-- ===== src/Patch/Slices.antt =====
-- sliceOps: the operations are the differences of the two slices as sets.
use func.Prelude.{
  ◌≡◌, ◌∙◌, sym, ap, refl, Bool, true, false, ◌&&◌, ◌||◌, not, List, [], ◌∷◌, ◌++◌, All, arith,
}
use func.Prelude.Texts.{same_text, eq_of_same_text}
use func.Cty.{Bytes}
use func.Patch.{PatchOperation, remove, add, replace, contains, index_ops, loop_ops}

-- An operation of the list removes the text.
unfoldable pub removes : Bytes → List PatchOperation → Bool
removes x [] = false
removes x (remove a ∷ ops) = same_text a x || removes x ops
removes x (add b ∷ ops) = removes x ops
removes x (replace p v ∷ ops) = removes x ops

-- An operation of the list adds the text.
unfoldable pub adds : Bytes → List PatchOperation → Bool
adds x [] = false
adds x (remove a ∷ ops) = adds x ops
adds x (add b ∷ ops) = same_text b x || adds x ops
adds x (replace p v ∷ ops) = adds x ops

removes-append :
    (x : Bytes) (xs ys : List PatchOperation)
    → removes x (xs ++ ys) ≡ (removes x xs || removes x ys)
unfolding removes
removes-append x [] ys = refl
removes-append x (remove a ∷ xs) ys = ground (arith, removes-append x xs ys)
removes-append x (add a ∷ xs) ys = removes-append x xs ys
removes-append x (replace p v ∷ xs) ys = removes-append x xs ys

adds-append :
    (x : Bytes) (xs ys : List PatchOperation) → adds x (xs ++ ys) ≡ (adds x xs || adds x ys)
unfolding adds
adds-append x [] ys = refl
adds-append x (remove a ∷ xs) ys = adds-append x xs ys
adds-append x (add a ∷ xs) ys = ground (arith, adds-append x xs ys)
adds-append x (replace p v ∷ xs) ys = adds-append x xs ys

-- Equal texts stand in the same lists.
contains-same_text :
    (a x : Bytes) (ts : List Bytes) → same_text a x ≡ true → contains a ts ≡ contains x ts
contains-same_text a x ts h = ap (λ t. contains t ts) (eq_of_same_text a x h)

abbrev pub Known : List Bytes → Bytes → Type 0
Known ts t = (same_text t [] ≡ false) × (contains t ts ≡ true)

removes-index_ops :
    (prev next : List Bytes) (a b x : Bytes)
    → same_text a [] ≡ false
    → (same_text a b ≡ true → contains a next ≡ true)
    → removes x (index_ops prev next a b) ≡ (same_text a x && not (contains x next))
unfolding index_ops removes
removes-index_ops prev next a b x h same = ground (arith, contains-same_text a x next)

adds-index_ops :
    (prev next : List Bytes) (a b x : Bytes)
    → same_text b [] ≡ false
    → (same_text a b ≡ true → contains b prev ≡ true)
    → adds x (index_ops prev next a b) ≡ (same_text b x && not (contains x prev))
unfolding index_ops adds
adds-index_ops prev next a b x h same = ground (arith, contains-same_text b x prev)

removes-index_ops_nil :
    (prev next : List Bytes) (b x : Bytes) → removes x (index_ops prev next [] b) ≡ false
unfolding index_ops removes
removes-index_ops_nil prev next b x = ground arith

adds-index_ops_nil :
    (prev next : List Bytes) (a x : Bytes) → adds x (index_ops prev next a []) ≡ false
unfolding index_ops adds
adds-index_ops_nil prev next a x = ground arith

pub removes-loop_ops :
    (prev next xs ys : List Bytes) (x : Bytes)
    → All (Known prev) xs
    → All (Known next) ys
    → removes x (loop_ops prev next xs ys) ≡ (contains x xs && not (contains x next))
unfolding loop_ops contains removes
removes-loop_ops prev next [] [] x hx hy = refl
removes-loop_ops prev next (a ∷ xs) [] x hx hy = ground (
  arith,
  removes-append x (index_ops prev next a []) (loop_ops prev next xs []),
  removes-index_ops prev next a [] x hx.0.0 (λ e. cc),
  removes-loop_ops prev next xs [] x hx.1 hy,
)
removes-loop_ops prev next [] (b ∷ ys) x hx hy = ground (
  arith,
  removes-append x (index_ops prev next [] b) (loop_ops prev next [] ys),
  removes-index_ops_nil prev next b x,
  removes-loop_ops prev next [] ys x hx hy.1,
)
removes-loop_ops prev next (a ∷ xs) (b ∷ ys) x hx hy = ground (
  arith,
  removes-append x (index_ops prev next a b) (loop_ops prev next xs ys),
  removes-index_ops prev next a b x hx.0.0 (λ e. contains-same_text a b next e ∙ hy.0.1),
  removes-loop_ops prev next xs ys x hx.1 hy.1,
)

nil_not_filled : (b : Bytes) → same_text [] b ≡ true → same_text b [] ≡ false → ⊥
nil_not_filled [] e h = cc
nil_not_filled (c ∷ cs) e h = cc

pub adds-loop_ops :
    (prev next xs ys : List Bytes) (x : Bytes)
    → All (Known prev) xs
    → All (Known next) ys
    → adds x (loop_ops prev next xs ys) ≡ (contains x ys && not (contains x prev))
unfolding loop_ops contains adds
adds-loop_ops prev next [] [] x hx hy = refl
adds-loop_ops prev next (a ∷ xs) [] x hx hy = ground (
  arith,
  adds-append x (index_ops prev next a []) (loop_ops prev next xs []),
  adds-index_ops_nil prev next a x,
  adds-loop_ops prev next xs [] x hx.1 hy,
)
adds-loop_ops prev next [] (b ∷ ys) x hx hy = ground (
  arith,
  adds-append x (index_ops prev next [] b) (loop_ops prev next [] ys),
  adds-index_ops prev next [] b x hy.0.0 (λ e. absurd (nil_not_filled b e hy.0.0)),
  adds-loop_ops prev next [] ys x hx hy.1,
)
adds-loop_ops prev next (a ∷ xs) (b ∷ ys) x hx hy = ground (
  arith,
  adds-append x (index_ops prev next a b) (loop_ops prev next xs ys),
  adds-index_ops prev next a b x hy.0.0 (λ e. sym (contains-same_text a b prev e) ∙ hx.0.1),
  adds-loop_ops prev next xs ys x hx.1 hy.1,
)
