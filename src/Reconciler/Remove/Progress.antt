-- ===== src/Reconciler/Remove/Progress.antt =====
-- RemovePrevious does not wait for ever when no resource depends on itself through others.
use func.Prelude.{
  ℕ, zero, suc, ◌+◌, ◌≤◌, ◌<◌, String, ◌≡◌, refl, sym, ap, subst, ◌⊎◌, inl, inr, List, [], ◌∷◌,
  ◌++◌, map, eq_iff, arith, All, upper_bound, All-replace, All-middle,
}
use func.Reconciler.{Deployed, World, Run}
use func.Reconciler.Remove.{
  occurrences, Phase, waiting, removing, ended, Routine, Removal, start, Step, proceed, finish,
  Reach, at_start, after_step,
}
use func.Reconciler.Remove.Counts.{weight, dependents, Balanced, Reach-Balanced}

-- Every name of the list has a lower rank than the bound.
abbrev pub Below : (String → ℕ) → ℕ → List String → Type 0
Below rank b = All (λ n. rank n < b)

rank-lt-of_occurrences :
    (rank : String → ℕ) (b : ℕ) (n : String) (ms : List String)
    → Below rank b ms
    → 0 < occurrences n ms
    → rank n < b
unfolding occurrences
rank-lt-of_occurrences rank b n [] h o = omega arith
rank-lt-of_occurrences rank b n (m ∷ ms) h o =
    ground (arith, eq_iff m n, rank-lt-of_occurrences rank b n ms h.1)

Nat_pos : (n : ℕ) → (n ≡ 0) ⊎ (0 < n)
Nat_pos zero = inl refl
Nat_pos (suc n) = inr (omega arith)

-- What is left to do: two moves of a goroutine that waits, one of a goroutine past its wait.
abbrev pub moves : Phase → ℕ
moves waiting = 2
moves removing = 1
moves ended = 0

module _ {V : Type 0} where
  -- The dependencies of every resource have a lower rank than the resource: the dependencies
  -- have no cycle.
  abbrev pub Ranked : (String → ℕ) → List (Deployed V) → Type 0
  Ranked rank = All (λ d. Below rank (rank d.name) d.deps)

  unfoldable pub pending : List (Routine V) → ℕ
  pending [] = 0
  pending (x ∷ xs) = moves x.phase + pending xs

  pending-middle :
      (front back : List (Routine V)) (d : Deployed V) (p : Phase)
      → pending (front ++ record { resource = d; phase = p } ∷ back)
        ≡ pending front + (moves p + pending back)
  unfolding pending
  pending-middle [] back d p = omega arith
  pending-middle (x ∷ front) back d p = omega (arith, pending-middle front back d p)

  -- A goroutine of the list that has moves left.
  abbrev Unended : (String → ℕ) → ℕ → List (Routine V) → Type 0
  Unended rank b xs =
      (front : List (Routine V)) × (back : List (Routine V)) × (x : Routine V) × (xs
        ≡ front ++ x ∷ back)
      × (0 < moves x.phase)
      × (b ≤ rank x.resource.name)

  later :
      (rank : String → ℕ) (b : ℕ) (y : Routine V) (xs : List (Routine V))
      → Unended rank b xs
      → Unended rank b (y ∷ xs)
  later rank b y xs (front, back, x, e, m, l) = (y ∷ front, back, x, ap (λ ys. y ∷ ys) e, m, l)

  find-Unended : (rank : String → ℕ) (xs : List (Routine V)) → 0 < pending xs → Unended rank 0 xs
  unfolding pending
  find-Unended rank [] h = absurd (omega arith)
  find-Unended rank (x ∷ xs) h = elim (Nat_pos (moves x.phase)) [
    | inl z ↦ later rank 0 x xs (find-Unended rank xs (omega arith))
    | inr o ↦ ([], xs, x, refl, o, omega arith)
  ]

  weight-pos :
      (n : String) (d : Deployed V) (p : Phase)
      → 0 < weight n d p
      → (0 < moves p) × (0 < occurrences n d.deps)
  weight-pos n d waiting h = (omega arith, h)
  weight-pos n d removing h = (omega arith, h)
  weight-pos n d ended h = absurd (omega arith)

  find_dependent :
      (rank : String → ℕ) (n : String) (xs : List (Routine V))
      → All (λ x. Below rank (rank x.resource.name) x.resource.deps) xs
      → 0 < dependents n xs
      → Unended rank (suc (rank n)) xs
  unfolding dependents
  find_dependent rank n [] r h = absurd (omega arith)
  find_dependent rank n (x ∷ xs) r h = elim (Nat_pos (weight n x.resource x.phase)) [
    | inl z ↦ later rank _ x xs (find_dependent rank n xs r.1 (omega arith))
    | inr o ↦
        let (m, q) = weight-pos n x.resource x.phase o in
        (
          [],
          xs,
          x,
          refl,
          m,
          omega (arith, rank-lt-of_occurrences rank (rank x.resource.name) n x.resource.deps r.0 q),
        )
  ]

  started-All :
      (P : Deployed V → Type 0) (ds : List (Deployed V))
      → All P ds
      → All
          (λ (x : Routine V). P x.resource)
          (map (λ d. record { resource = d; phase = waiting }) ds)
  started-All P [] h = tt
  started-All P (d ∷ ds) h = (h.0, started-All P ds h.1)

module _ {V D E S : Type 0} (w : World V D E S) where
  Step-All :
      (P : Deployed V → Type 0) {s t : Removal V E S}
      → Step w s t
      → All (λ x. P x.resource) s.routines
      → All (λ x. P x.resource) t.routines
  Step-All P (proceed front back d e z f) h =
      subst (All (λ x. P x.resource)) (sym (ap (λ u. u.routines) f)) (
        All-replace (λ x. P x.resource) (λ x. P x.resource) (λ x p. p)
          (record { resource = d; phase = waiting }) (record { resource = d; phase = removing })
          (λ p. p) front back (subst (All (λ x. P x.resource)) e h))
  Step-All P (finish front back d e f) h =
      subst (All (λ x. P x.resource)) (sym (ap (λ u. u.routines) f)) (
        All-replace (λ x. P x.resource) (λ x. P x.resource) (λ x p. p)
          (record { resource = d; phase = removing }) (record { resource = d; phase = ended })
          (λ p. p) front back (subst (All (λ x. P x.resource)) e h))

  Reach-All :
      (P : Deployed V → Type 0) (r : Run V S) (s : Removal V E S)
      → Reach w (start r) s
      → All P r.existing
      → All (λ x. P x.resource) s.routines
  unfolding start
  Reach-All P r s at_start h = started-All P r.existing h
  Reach-All P r s (after_step {now = t} p q) h = Step-All P q (Reach-All P r t p h)

  can_move :
      (s : Removal V E S) (front back : List (Routine V)) (x : Routine V) (p : Phase)
      → s.routines ≡ front ++ record { resource = x.resource; phase = p } ∷ back
      → 0 < moves p
      → ((t : Removal V E S) × Step w s t) ⊎ (0 < s.wgs x.resource.name)
  can_move s front back x waiting e m = elim (Nat_pos (s.wgs x.resource.name)) [
    | inl z ↦ inl (_, proceed front back x.resource e z refl)
    | inr o ↦ inr o
  ]
  can_move s front back x removing e m = inl (_, finish front back x.resource e refl)
  can_move s front back x ended e m = absurd (omega arith)

  -- From a goroutine that has moves left, its unended dependents lead to one that can move.
  climb :
      (rank : String → ℕ) (s : Removal V E S)
      → Balanced s
      → All (λ x. Below rank (rank x.resource.name) x.resource.deps) s.routines
      → (bound : ℕ) → All (λ x. rank x.resource.name ≤ bound) s.routines
      → (k b : ℕ) → bound < b + k
      → Unended rank b s.routines
      → (t : Removal V E S) × Step w s t
  climb rank s bal r bound u zero b le (front, back, x, e, m, l) = absurd (
      omega (
        arith,
        All-middle (λ x. rank x.resource.name ≤ bound) x front back
            (subst (All (λ x. rank x.resource.name ≤ bound)) e u),
      ))
  climb rank s bal r bound u (suc k) b le (front, back, x, e, m, l) =
      elim (can_move s front back x x.phase e m) [
        | inl h ↦ h
        | inr o ↦
            climb rank s bal r bound u k (suc (rank x.resource.name)) (omega arith) (
              find_dependent rank x.resource.name s.routines r (omega (arith, bal x.resource.name)))
      ]

  Step-pending : {s t : Removal V E S} → Step w s t → pending t.routines < pending s.routines
  Step-pending (proceed front back d e z f) = omega (
    arith,
    ap pending e,
    ap (λ u. pending u.routines) f,
    pending-middle front back d waiting,
    pending-middle front back d removing,
  )
  Step-pending (finish front back d e f) = omega (
    arith,
    ap pending e,
    ap (λ u. pending u.routines) f,
    pending-middle front back d removing,
    pending-middle front back d ended,
  )

  -- When the dependencies of the resources to remove have no cycle, RemovePrevious never gets
  -- stuck: in every state that its goroutines reach, either each has ended or one can move; and
  -- no more moves are ever made than two for each resource.
  pub Reach-Step :
      (rank : String → ℕ) (r : Run V S)
      → Ranked rank r.existing
      → (s : Removal V E S) → Reach w (start r) s
      → ((pending s.routines ≡ 0) ⊎ ((t : Removal V E S) × Step w s t))
        × ((t : Removal V E S) → Step w s t → pending t.routines < pending s.routines)
  Reach-Step rank r h s p = (
    elim (Nat_pos (pending s.routines)) [
      | inl z ↦ inl z
      | inr o ↦ inr (
          let (bound, u) = upper_bound (λ x. rank x.resource.name) s.routines in
          climb rank s (Reach-Balanced w r s p)
            (Reach-All (λ d. Below rank (rank d.name) d.deps) r s p h) bound u (suc bound) 0
            (omega arith) (find-Unended rank s.routines o))
    ],
    λ t q. Step-pending q,
  )
