-- ===== src/Reconciler/Remove/Order.antt =====
-- RemovePrevious removes a resource after the goroutines of all its dependents have ended.
use func.Prelude.{
  ◌≤◌, String, ◌≡◌, refl, sym, ap, subst, ◌⊎◌, inl, inr, false, List, [], ◌∷◌, ◌++◌, map, arith,
  All, All-replace, All-middle,
}
use func.Prelude.Members.{contains}
use func.Reconciler.{Deployed, World, Run}
use func.Reconciler.Remove.{
  occurrences, Phase, waiting, removing, ended, Routine, Removal, start, Step, proceed, finish,
  Reach, at_start, after_step,
}
use func.Reconciler.Remove.Counts.{weight, dependents, dependents-middle, Balanced, Reach-Balanced}

contains-of-occurrences :
    (n : String) (ms : List String) → occurrences n ms ≡ 0 → contains n ms ≡ false
unfolding occurrences contains
contains-of-occurrences n [] h = refl
contains-of-occurrences n (m ∷ ms) h = ground (arith, contains-of-occurrences n ms)

module _ {V : Type 0} where
  -- Every goroutine of the list that depends on the name has ended.
  abbrev pub DependentsEnded : String → List (Routine V) → Type 0
  DependentsEnded n = All (λ x. (x.phase ≡ ended) ⊎ (contains n x.resource.deps ≡ false))

  dependents-DependentsEnded :
      (n : String) (xs : List (Routine V)) → dependents n xs ≡ 0 → DependentsEnded n xs
  unfolding dependents
  dependents-DependentsEnded n [] h = tt
  dependents-DependentsEnded n (x ∷ xs) h =
      (go x.phase refl, dependents-DependentsEnded n xs (omega arith))
    where
      go : (p : Phase) → x.phase ≡ p → (x.phase ≡ ended) ⊎ (contains n x.resource.deps ≡ false)
      go waiting e =
          inr
            (contains-of-occurrences n x.resource.deps (omega (arith, ap (weight n x.resource) e)))
      go removing e =
          inr
            (contains-of-occurrences n x.resource.deps (omega (arith, ap (weight n x.resource) e)))
      go ended e = inl e

  -- A goroutine that is past its wait has no dependent left.
  abbrev Free : List (Routine V) → Routine V → Type 0
  Free xs x = (x.phase ≡ waiting) ⊎ (dependents x.resource.name xs ≡ 0)

  abbrev Ordered : {E S : Type 0} → Removal V E S → Type 0
  Ordered s = All (Free s.routines) s.routines

  Free-le :
      (xs ys : List (Routine V))
      → ((n : String) → dependents n ys ≤ dependents n xs)
      → (x : Routine V) → Free xs x
      → Free ys x
  Free-le xs ys f x (inl h) = inl h
  Free-le xs ys f x (inr h) = inr (omega (arith, f x.resource.name))

  ended-Free :
      (xs ys : List (Routine V))
      → ((n : String) → dependents n ys ≤ dependents n xs)
      → (d : Deployed V) → Free xs (record { resource = d; phase = removing })
      → Free ys (record { resource = d; phase = ended })
  ended-Free xs ys f d (inl h) = cc
  ended-Free xs ys f d (inr h) = inr (omega (arith, f d.name))

  started-Free :
      (xs : List (Routine V)) (ds : List (Deployed V))
      → All (Free xs) (map (λ d. record { resource = d; phase = waiting }) ds)
  started-Free xs [] = tt
  started-Free xs (d ∷ ds) = (inl refl, started-Free xs ds)

  start-Ordered : {S : Type 0} (E : Type 0) (r : Run V S) → Ordered (start {E = E} r)
  unfolding start
  start-Ordered E r = started-Free _ r.existing

module _ {V D E S : Type 0} (w : World V D E S) where
  Step-Ordered : {s t : Removal V E S} → Step w s t → Balanced s → Ordered s → Ordered t
  Step-Ordered {s = s} {t = t} (proceed front back d e z f) b o =
      subst (λ xs. All (Free xs) xs) (sym (ap (λ u. u.routines) f))
        (All-replace (Free s.routines)
          (Free (front ++ record { resource = d; phase = removing } ∷ back))
          (Free-le s.routines _ same) (record { resource = d; phase = waiting })
          (record { resource = d; phase = removing })
          (λ h. inr (omega (arith, same d.name, z, b d.name))) front back
          (subst (All (Free s.routines)) e o))
    where
      same :
          (n : String)
          → dependents n (front ++ record { resource = d; phase = removing } ∷ back)
            ≤ dependents n s.routines
      same n = omega (
        arith,
        ap (dependents n) e,
        dependents-middle n front back d waiting,
        dependents-middle n front back d removing,
      )
  Step-Ordered {s = s} {t = t} (finish front back d e f) b o =
      subst (λ xs. All (Free xs) xs) (sym (ap (λ u. u.routines) f))
        (All-replace (Free s.routines)
          (Free (front ++ record { resource = d; phase = ended } ∷ back))
          (Free-le s.routines _ less) (record { resource = d; phase = removing })
          (record { resource = d; phase = ended }) (ended-Free s.routines _ less d) front back
          (subst (All (Free s.routines)) e o))
    where
      less :
          (n : String)
          → dependents n (front ++ record { resource = d; phase = ended } ∷ back)
            ≤ dependents n s.routines
      less n = omega (
        arith,
        ap (dependents n) e,
        dependents-middle n front back d removing,
        dependents-middle n front back d ended,
      )

  Reach-Ordered : (r : Run V S) (s : Removal V E S) → Reach w (start r) s → Ordered s
  Reach-Ordered r s at_start = start-Ordered E r
  Reach-Ordered r s (after_step {now = t} p q) =
      Step-Ordered q (Reach-Balanced w r t p) (Reach-Ordered r t p)

  removing-dependents :
      (r : Run V S) (s : Removal V E S)
      → Reach w (start r) s
      → (front back : List (Routine V)) (d : Deployed V)
      → s.routines ≡ front ++ record { resource = d; phase = removing } ∷ back
      → dependents d.name s.routines ≡ 0
  removing-dependents r s p front back d e = go (
      All-middle (Free s.routines) (record { resource = d; phase = removing }) front back
        (subst (All (Free s.routines)) e (Reach-Ordered r s p)))
    where
      go :
          Free s.routines (record { resource = d; phase = removing })
          → dependents d.name s.routines ≡ 0
      go (inl h) = cc
      go (inr h) = h

  -- In every state that the goroutines of RemovePrevious reach, whatever their order, when a
  -- goroutine is past its wait, every goroutine whose resource depends on the one it removes has
  -- ended, and the counters it will decrement are large enough: none becomes negative.
  pub Reach-DependentsEnded :
      (r : Run V S) (s : Removal V E S)
      → Reach w (start r) s
      → (front back : List (Routine V)) (d : Deployed V)
      → s.routines ≡ front ++ record { resource = d; phase = removing } ∷ back
      → DependentsEnded d.name s.routines × ((n : String) → occurrences n d.deps ≤ s.wgs n)
  Reach-DependentsEnded r s p front back d e = (
    dependents-DependentsEnded d.name s.routines (removing-dependents r s p front back d e),
    λ n. omega (
      arith,
      Reach-Balanced w r s p n,
      ap (dependents n) e,
      dependents-middle n front back d removing,
    ),
  )
