-- ===== src/Graph/Names.antt =====
-- resource/graph.go: the names of the resources of a graph, and what a lookup finds.
use func.Prelude.{
  suc, String, ◌≡◌, refl, ap, true, false, Option, none, some, List, [], ◌∷◌, ◌++◌, map, length,
  arith, ◌==◌, eq_iff, Bool-cases, inl, inr, ◌⊎◌,
}
use func.Prelude.Members.{contains}
use func.Graph.{Desired, find}

module _ {V : Type 0} where
  abbrev pub names : List (Desired V) → List String
  names = map (λ r. r.name)

  pub length-names : (rs : List (Desired V)) → length (names rs) ≡ length rs
  length-names [] = refl
  length-names (r ∷ rs) = ap suc (length-names rs)

  pub names-append : (rs ss : List (Desired V)) → names (rs ++ ss) ≡ names rs ++ names ss
  names-append [] ss = refl
  names-append (r ∷ rs) ss = ap (λ l. r.name ∷ l) (names-append rs ss)

  pub find-eq-none :
      (rs : List (Desired V)) (n : String) → find rs n ≡ none → contains n (names rs) ≡ false
  unfolding find contains
  find-eq-none [] n h = refl
  find-eq-none (r ∷ rs) n h = ground (arith, find-eq-none rs n)

  pub find-eq-some :
      (rs : List (Desired V)) (n : String) {r : Desired V}
      → find rs n ≡ some r
      → (contains n (names rs) ≡ true) × (r.name ≡ n)
  unfolding find contains
  find-eq-some [] n h = cc
  find-eq-some (r ∷ rs) n {r = s} h = elim (Bool-cases (r.name == n)) [
    | inl e ↦ (rw e refl, ground (arith, eq_iff r.name n))
    | inr e ↦ let ih = find-eq-some rs n {r = s} (rw e at h) in (rw e ih.0, ih.1)
  ]

  pub find_of_contains :
      (rs : List (Desired V)) (n : String)
      → contains n (names rs) ≡ true
      → (r : Desired V) × (find rs n ≡ some r)
  find_of_contains rs n h = go (find rs n) refl
    where
      go : (o : Option (Desired V)) → find rs n ≡ o → (r : Desired V) × (find rs n ≡ some r)
      go none e = cc (find-eq-none rs n e)
      go (some r) e = (r, e)

  -- The two outcomes of a lookup.
  pub find_cases :
      (rs : List (Desired V)) (n : String)
      → ((find rs n ≡ none) × (contains n (names rs) ≡ false))
        ⊎ ((r : Desired V) × (find rs n ≡ some r) × (contains n (names rs) ≡ true) × (r.name ≡ n))
  find_cases rs n = go (find rs n) refl
    where
      go :
          (o : Option (Desired V))
          → find rs n ≡ o
          → ((find rs n ≡ none) × (contains n (names rs) ≡ false))
            ⊎ ((r : Desired V) × (find rs n ≡ some r)
                × (contains n (names rs) ≡ true)
                × (r.name ≡ n))
      go none e = inl (e, find-eq-none rs n e)
      go (some r) e = let (c, m) = find-eq-some rs n e in inr (r, e, c, m)
