-- ===== src/Reconciler/Process/Existing.antt =====
-- resource/reconciler/reconciler.go: what processing a resource takes from the existing ones.
use func.Prelude.{
  ◌≡◌, ◌∙◌, refl, ap, true, false, List, [], ◌∷◌, ok, eq_iff, arith, All, Bool-cases, inl, inr,
}
use func.Graph.{Desired, Graph}
use func.Reconciler.{Deployed, World, Run}
use func.Reconciler.Process.{same_resource, drop_existing, process_resource}
use func.Reconciler.Process.Matching.{SameName}
use func.Reconciler.Process.Changes.{Changed, kept, updated, created, process_resource-Changed}

module _ {V : Type 0} where
  -- No existing resource of the list has the type and the name.
  abbrev pub Unmatched : Desired V → List (Deployed V) → Type 0
  Unmatched res = All (λ ex. same_resource res ex ≡ false)

  -- Every two existing resources differ in their type or their name.
  abbrev pub Separate : List (Deployed V) → Type 0
  Separate [] = Unit
  Separate (ex ∷ exs) = Unmatched ex.desired exs × Separate exs

  pub drop_existing-SameName :
      (a b : Desired V) (exs : List (Deployed V))
      → SameName a b
      → drop_existing a exs ≡ drop_existing b exs
  unfolding drop_existing same_resource
  drop_existing-SameName a b [] e = refl
  drop_existing-SameName a b (ex ∷ exs) e =
      let rest = drop_existing-SameName a b exs e in
      let n = e.0 in let t = e.1 in rw (n, t) (rw rest refl)

  pub All-drop_existing :
      (P : Deployed V → Type 0) (res : Desired V) (exs : List (Deployed V))
      → All P exs
      → All P (drop_existing res exs)
  unfolding drop_existing
  All-drop_existing P res [] h = tt
  All-drop_existing P res (ex ∷ exs) h = elim (Bool-cases (same_resource res ex)) [
    | inl same ↦ rw same h.1
    | inr other ↦ rw other (h.0, All-drop_existing P res exs h.1)
  ]

  pub drop_existing-Separate :
      (res : Desired V) (exs : List (Deployed V)) → Separate exs → Separate (drop_existing res exs)
  unfolding drop_existing
  drop_existing-Separate res [] h = tt
  drop_existing-Separate res (ex ∷ exs) h = elim (Bool-cases (same_resource res ex)) [
    | inl same ↦ rw same h.1
    | inr other ↦ rw other (
      All-drop_existing (λ x. same_resource ex.desired x ≡ false) res exs h.0,
      drop_existing-Separate res exs h.1,
    )
  ]

  Unmatched-same_resource :
      (res : Desired V) (ex : Deployed V) (exs : List (Deployed V))
      → same_resource res ex ≡ true
      → Unmatched ex.desired exs
      → Unmatched res exs
  unfolding same_resource
  Unmatched-same_resource res ex [] e h = tt
  Unmatched-same_resource res ex (x ∷ exs) e h = (
    ground (arith, eq_iff ex.typename res.typename, eq_iff ex.name res.name),
    Unmatched-same_resource res ex exs e h.1,
  )

  -- Once dropped, no existing resource of the type and name is left.
  pub drop_existing-Unmatched :
      (res : Desired V) (exs : List (Deployed V))
      → Separate exs
      → Unmatched res (drop_existing res exs)
  unfolding drop_existing
  drop_existing-Unmatched res [] h = tt
  drop_existing-Unmatched res (ex ∷ exs) h = elim (Bool-cases (same_resource res ex)) [
    | inl same ↦ rw same (Unmatched-same_resource res ex exs same h.0)
    | inr other ↦ rw other (other, drop_existing-Unmatched res exs h.1)
  ]

module _ {V D E S : Type 0} (w : World V D E S) where
  pub process_resource-existing :
      (g : Graph V) (res : Desired V) (r : Run V S)
      → (process_resource w g res r).0 ≡ ok tt
      → (process_resource w g res r).1.existing ≡ drop_existing res r.existing
  process_resource-existing g res r h =
      let (resolved, def, e, same, decoded, changed) =
        process_resource-Changed w g res r (process_resource w g res r).1
          (ap (λ x. (x, (process_resource w g res r).1)) h) in
      of_changed resolved def (process_resource w g res r).1 changed
      ∙ drop_existing-SameName resolved res r.existing same
    where
      of_changed :
          (resolved : Desired V) (def : D) (r' : Run V S)
          → Changed w g resolved def r r'
          → r'.existing ≡ drop_existing resolved r.existing
      of_changed resolved def r' (kept ex e h k after) = ap (λ x. x.existing) after
      of_changed resolved def r' (updated ex e h u) = ap (λ x. x.existing) u.after
      of_changed resolved def r' (created e c) = ap (λ x. x.existing) c.after
