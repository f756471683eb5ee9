-- ===== src/Reconciler/Process/Matching.antt =====
-- resource/reconciler/reconciler.go: which existing resource belongs to a desired one.
use func.Prelude.{
  String, ok, ◌≡◌, refl, ap, subst, true, false, inl, inr, Bool-cases, Option, none, some, List, [],
  ◌∷◌, ◌++◌, All, eq_iff, arith,
}
use func.Graph.{Desired, Graph, dependencies_of}
use func.Reconciler.{Deployed, World, Run, pure}
use func.Reconciler.Process.{
  same_resource, find_existing, drop_existing, names_of_parents, resolve_with, resolve_fields,
  variables, resolve_dependencies,
}
use func.Reconciler.Process.Success.{bind-eq-ok}

module _ {V : Type 0} where
  -- The existing resource has the type and the name.
  abbrev pub IsCalled : Desired V → Deployed V → Type 0
  IsCalled res ex = (ex.typename ≡ res.typename) × (ex.name ≡ res.name)

  abbrev pub SameName : Desired V → Desired V → Type 0
  SameName a b = (a.name ≡ b.name) × (a.typename ≡ b.typename)

  -- The first resource of the list that has the type and the name, and the list without it.
  pub record Match (res : Desired V) (exs : List (Deployed V)) (ex : Deployed V)
      (left : List (Deployed V)) : Type 0 where
    pub front : List (Deployed V)
    pub back : List (Deployed V)
    pub in_parts : exs ≡ front ++ ex ∷ back
    pub left_over : left ≡ front ++ back
    pub called : IsCalled res ex
    pub others : All (λ x. ¬ IsCalled res x) front

  -- No resource of the list has the type and the name, and the list is left as it is.
  abbrev pub NoMatch : Desired V → List (Deployed V) → List (Deployed V) → Type 0
  NoMatch res exs left = All (λ x. ¬ IsCalled res x) exs × (left ≡ exs)

  abbrev Found : Desired V → List (Deployed V) → Option (Deployed V) → List (Deployed V) → Type 0
  Found res exs none left = NoMatch res exs left
  Found res exs (some ex) left = Match res exs ex left

  same_resource-IsCalled :
      (res : Desired V) (ex : Deployed V) → same_resource res ex ≡ true → IsCalled res ex
  unfolding same_resource
  same_resource-IsCalled res ex h = (
    ground (arith, eq_iff ex.typename res.typename, h),
    ground (arith, eq_iff ex.name res.name, h),
  )

  other_of_same_resource :
      (res : Desired V) (ex : Deployed V) → same_resource res ex ≡ false → ¬ IsCalled res ex
  unfolding same_resource
  other_of_same_resource res ex h (t, n) =
      ground (arith, eq_iff ex.typename res.typename, eq_iff ex.name res.name, h, t, n)

  Found-cons :
      (res : Desired V) (x : Deployed V) (exs : List (Deployed V)) (found : Option (Deployed V))
      (left : List (Deployed V))
      → ¬ IsCalled res x
      → Found res exs found left
      → Found res (x ∷ exs) found (x ∷ left)
  Found-cons res x exs none left other (all, same) = ((other, all), ap (λ l. x ∷ l) same)
  Found-cons res x exs (some ex) left other m = record {
    front = x ∷ m.front;
    back = m.back;
    in_parts = ap (λ l. x ∷ l) m.in_parts;
    left_over = ap (λ l. x ∷ l) m.left_over;
    called = m.called;
    others = (other, m.others);
  }

  pub find_existing-Found :
      (res : Desired V) (exs : List (Deployed V))
      → Found res exs (find_existing res exs) (drop_existing res exs)
  unfolding find_existing drop_existing
  find_existing-Found res [] = (tt, refl)
  find_existing-Found res (x ∷ exs) = elim (Bool-cases (same_resource res x)) [
    | inl same ↦ rw same (record {
      front = [];
      back = exs;
      in_parts = refl;
      left_over = refl;
      called = same_resource-IsCalled res x same;
      others = tt;
    })
    | inr other ↦ rw other (
        Found-cons res x exs (find_existing res exs) (drop_existing res exs)
          (other_of_same_resource res x other) (find_existing-Found res exs))
  ]

  pub find_existing-Match :
      (res : Desired V) (exs : List (Deployed V)) (ex : Deployed V)
      → find_existing res exs ≡ some ex
      → Match res exs ex (drop_existing res exs)
  find_existing-Match res exs ex h =
      subst (λ o. Found res exs o (drop_existing res exs)) h (find_existing-Found res exs)

  pub find_existing-NoMatch :
      (res : Desired V) (exs : List (Deployed V))
      → find_existing res exs ≡ none
      → NoMatch res exs (drop_existing res exs)
  find_existing-NoMatch res exs h =
      subst (λ o. Found res exs o (drop_existing res exs)) h (find_existing-Found res exs)

module _ {V D E S : Type 0} (w : World V D E S) where
  resolve_with-SameName :
      (g : Graph V) (res resolved : Desired V) (ps : List String) (r r' : Run V S)
      → resolve_with w g res ps r ≡ (ok resolved, r')
      → SameName resolved res
  unfolding resolve_with
  resolve_with-SameName g res resolved [] r r' h =
      let e : resolved ≡ res = cc in (ap (λ x. x.name) e, ap (λ x. x.typename) e)
  resolve_with-SameName g res resolved (p ∷ ps) r r' h =
      let (input, r₁, read, last) =
        bind-eq-ok
          (resolve_fields w (variables w r.outputs (p ∷ ps))
            (dependencies_of g.dependencies res.name) res.input)
          (λ input. pure (record res { input = input })) r r' resolved h in
      let e : resolved ≡ record res { input = input } = cc in
      (ap (λ x. x.name) e, ap (λ x. x.typename) e)

  -- Resolving its dependencies leaves a resource its type and name.
  pub resolve_dependencies-SameName :
      (g : Graph V) (res resolved : Desired V) (r : Run V S)
      → (resolve_dependencies w g res r).0 ≡ ok resolved
      → SameName resolved res
  unfolding resolve_dependencies
  resolve_dependencies-SameName g res resolved r h =
      let (ps, r₁, e, rest) =
        bind-eq-ok (names_of_parents g res.name) (resolve_with w g res) r
          (resolve_dependencies w g res r).1 resolved
          (ap (λ x. (x, (resolve_dependencies w g res r).1)) h) in
      resolve_with-SameName g res resolved ps r₁ (resolve_dependencies w g res r).1 rest
