-- ===== src/Suggest/Closest.antt =====
-- suggest/suggest.go: the suggestion is the closest candidate.
use func.Prelude.{
  ℕ, ◌+◌, ◌≤◌, ◌<◌, ◌≡◌, ◌≢◌, ◌∙◌, ◌⊎◌, inl, inr, refl, sym, ap, subst, true, false, List, [], ◌∷◌,
  ltb, arith, Bool-cases, All, All-map, if◌then◌else◌,
}
use mathlib.Core.List.{Memᴰ}
use func.Prelude.Texts.{same_text, eq_of_same_text}
use func.Cty.{Bytes}
use func.Suggest.{Search, exact, best, max_dist, search_from, suggest}

module _ (distance : Bytes → Bytes → ℕ) where
  exact-Mem :
      (want : Bytes) (cands : List Bytes) (str : Bytes) (dist : ℕ)
      → search_from distance want cands str dist ≡ exact
      → Memᴰ want cands
  unfolding search_from
  exact-Mem want [] str dist h = cc
  exact-Mem want (cand ∷ cands) str dist h = elim (Bool-cases (same_text want cand)) [
    | inl same ↦ Memᴰ.head (eq_of_same_text want cand same)
    | inr other ↦ Memᴰ.tail (exact-Mem want cands _ _ (rw (other, search_from) at h))
  ]

  lt_of_closer : (a b : ℕ) → ltb a b ≡ true → a < b
  lt_of_closer a b h = ground arith

  le_of_farther : (a b : ℕ) → ltb a b ≡ false → b ≤ a
  le_of_farther a b h = ground arith

  abbrev Origin : Bytes → List Bytes → Bytes → ℕ → Bytes → ℕ → Type 0
  Origin want cands str dist found d =
      ((found ≡ str) × (d ≡ dist)) ⊎ (Memᴰ found cands × (d ≡ distance want found))

  -- What the loop has found: one of the candidates, or what it started with if none is closer.
  abbrev Closest : Bytes → List Bytes → Bytes → ℕ → Bytes → ℕ → Type 0
  Closest want cands str dist found d =
      Origin want cands str dist found d × (d ≤ dist) × All (λ cand. d ≤ distance want cand) cands

  from_closer :
      (want cand : Bytes) (cands : List Bytes) (str : Bytes) (dist : ℕ) (found : Bytes) (d : ℕ)
      → Origin want cands cand (distance want cand) found d
      → Origin want (cand ∷ cands) str dist found d
  from_closer want cand cands str dist found d (inl (e, k)) =
      inr (Memᴰ.head e, k ∙ ap (distance want) (sym e))
  from_closer want cand cands str dist found d (inr (m, k)) = inr (Memᴰ.tail m, k)

  from_farther :
      (want cand : Bytes) (cands : List Bytes) (str : Bytes) (dist : ℕ) (found : Bytes) (d : ℕ)
      → Origin want cands str dist found d
      → Origin want (cand ∷ cands) str dist found d
  from_farther want cand cands str dist found d (inl e) = inl e
  from_farther want cand cands str dist found d (inr (m, k)) = inr (Memᴰ.tail m, k)

  best-Closest :
      (want : Bytes) (cands : List Bytes) (str : Bytes) (dist : ℕ) (found : Bytes) (d : ℕ)
      → search_from distance want cands str dist ≡ best found d
      → Closest want cands str dist found d
  unfolding search_from
  best-Closest want [] str dist found d h =
      let e : str ≡ found = cc in let k : dist ≡ d = cc in (inl (sym e, sym k), omega arith, tt)
  best-Closest want (cand ∷ cands) str dist found d h = elim (Bool-cases (same_text want cand)) [
    | inl same ↦ absurd (exact_best (rw (same, search_from) at h))
    | inr other ↦ elim (Bool-cases (ltb (distance want cand) dist)) [
      | inl closer ↦
          let (from, le, all) =
            best-Closest want cands cand (distance want cand) found d
              (rw (closer, search_from) at (rw (other, search_from) at h)) in
          (
            from_closer want cand cands str dist found d from,
            omega (arith, lt_of_closer (distance want cand) dist closer),
            (le, all),
          )
      | inr farther ↦
          let (from, le, all) =
            best-Closest want cands str dist found d
              (rw (farther, search_from) at (rw (other, search_from) at h)) in
          (
            from_farther want cand cands str dist found d from,
            le,
            (omega (arith, le_of_farther (distance want cand) dist farther), all),
          )
    ]
  ]
    where
      exact_best : exact ≡ best found d → ⊥
      exact_best e = cc

  -- A suggestion that is not empty is one of the candidates, differs from the text by no more than the
  -- maximum distance, and no candidate is closer. A text has the distance zero to itself.
  pub suggest-closest :
      (want : Bytes) (cands : List Bytes) (found : Bytes)
      → distance want want ≡ 0
      → suggest distance want cands ≡ found
      → found ≢ []
      → Memᴰ found cands
        × (distance want found ≤ max_dist want)
        × All (λ cand. distance want found ≤ distance want cand) cands
  unfolding suggest
  suggest-closest want cands found self h filled =
      go (search_from distance want cands [] (max_dist want + 1)) refl h
    where
      every :
          (xs : List Bytes)
          → found ≡ want
          → All (λ cand. distance want found ≤ distance want cand) xs
      every [] e = tt
      every (x ∷ xs) e = (omega (arith, ap (distance want) e), every xs e)

      go :
          (x : Search)
          → search_from distance want cands [] (max_dist want + 1) ≡ x
          → elim x [ exact ↦ want | best str dist ↦ if ltb (max_dist want) dist then [] else str ]
            ≡ found
          → Memᴰ found cands
            × (distance want found ≤ max_dist want)
            × All (λ cand. distance want found ≤ distance want cand) cands
      go exact e k = (
        subst (λ x. Memᴰ x cands) k (exact-Mem want cands [] (max_dist want + 1) e),
        omega (arith, ap (distance want) k),
        every cands (sym k),
      )
      go (best str d) e k = elim (Bool-cases (ltb (max_dist want) d)) [
        | inl far ↦ absurd (filled (sym (rw far at k)))
        | inr near ↦
            within str d (best-Closest want cands [] (max_dist want + 1) str d e) (rw near at k)
              (le_of_farther (max_dist want) d near)
      ]
        where
          within :
              (str : Bytes) (d : ℕ)
              → Closest want cands [] (max_dist want + 1) str d
              → str ≡ found
              → d ≤ max_dist want
              → Memᴰ found cands
                × (distance want found ≤ max_dist want)
                × All (λ cand. distance want found ≤ distance want cand) cands
          within str d (inl (e, k), le, all) same near = absurd (filled (sym same ∙ e))
          within str d (inr (m, k), le, all) same near =
              subst
                (λ x.
                  Memᴰ x cands
                  × (distance want x ≤ max_dist want)
                  × All (λ cand. distance want x ≤ distance want cand) cands)
                same
                (
                  m,
                  omega arith,
                  All-map (λ cand. d ≤ distance want cand)
                      (λ cand. distance want str ≤ distance want cand) (λ cand l. omega arith) cands
                      all,
                )
