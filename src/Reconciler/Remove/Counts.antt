-- ===== src/Reconciler/Remove/Counts.antt =====
-- The counters of the wait groups are the numbers of dependents that have not ended.
use func.Prelude.{
  ℕ, suc, ◌+◌, ◌-◌, String, ◌≡◌, ap, List, [], ◌∷◌, ◌++◌, map, ◌==◌, arith, if◌then◌else◌,
}
use func.Reconciler.{Deployed, World, Run}
use func.Reconciler.Remove.{
  occurrences, WaitGroups, add_all, done_all, Phase, waiting, removing, ended, Routine, Removal,
  count_dependents, start, Step, proceed, finish, Reach, at_start, after_step,
}

add_all_lem :
    (wgs : WaitGroups) (deps : List String) (n : String)
    → add_all wgs deps n ≡ wgs n + occurrences n deps
unfolding add_all occurrences
add_all_lem wgs [] n = omega arith
add_all_lem wgs (dep ∷ deps) n =
    ground (arith, add_all_lem (λ m. if dep == m then suc (wgs m) else wgs m) deps n)

done_all_lem :
    (wgs : WaitGroups) (deps : List String) (n : String)
    → done_all wgs deps n ≡ wgs n - occurrences n deps
unfolding done_all occurrences
done_all_lem wgs [] n = omega arith
done_all_lem wgs (dep ∷ deps) n =
    ground (arith, done_all_lem (λ m. if dep == m then wgs m - 1 else wgs m) deps n)

-- How often the goroutines that have not ended depend on the name.
module _ {V : Type 0} where
  abbrev pub weight : String → Deployed V → Phase → ℕ
  weight n d ended = 0
  weight n d waiting = occurrences n d.deps
  weight n d removing = occurrences n d.deps

  unfoldable pub dependents : String → List (Routine V) → ℕ
  dependents n [] = 0
  dependents n (x ∷ xs) = weight n x.resource x.phase + dependents n xs

  dependents-append :
      (n : String) (xs ys : List (Routine V))
      → dependents n (xs ++ ys) ≡ dependents n xs + dependents n ys
  unfolding dependents
  dependents-append n [] ys = omega arith
  dependents-append n (x ∷ xs) ys = omega (arith, dependents-append n xs ys)

  abbrev pub Balanced : {E S : Type 0} → Removal V E S → Type 0
  Balanced s = (n : String) → s.wgs n ≡ dependents n s.routines

  -- A goroutine that changes its phase changes its own weight only.
  pub dependents-middle :
      (n : String) (front back : List (Routine V)) (d : Deployed V) (p : Phase)
      → dependents n (front ++ record { resource = d; phase = p } ∷ back)
        ≡ dependents n front + (weight n d p + dependents n back)
  unfolding dependents
  dependents-middle n front back d p =
      dependents-append n front (record { resource = d; phase = p } ∷ back)

  count_dependents_lem :
      (wgs : WaitGroups) (ds : List (Deployed V)) (n : String)
      → count_dependents wgs ds n
        ≡ wgs n + dependents n (map (λ d. record { resource = d; phase = waiting }) ds)
  unfolding count_dependents dependents
  count_dependents_lem wgs [] n = omega arith
  count_dependents_lem wgs (d ∷ ds) n =
      omega (arith, count_dependents_lem (add_all wgs d.deps) ds n, add_all_lem wgs d.deps n)

  start-Balanced : {S : Type 0} (E : Type 0) (r : Run V S) → Balanced (start {E = E} r)
  unfolding start
  start-Balanced E r n = omega (arith, count_dependents_lem (λ n. 0) r.existing n)

module _ {V D E S : Type 0} (w : World V D E S) where
  Step-Balanced : {s t : Removal V E S} → Step w s t → Balanced s → Balanced t
  Step-Balanced {s = s} (proceed front back d e z f) h n = omega (
    arith,
    h n,
    ap (dependents n) e,
    ap (λ u. u.wgs n) f,
    ap (λ u. dependents n u.routines) f,
    dependents-middle n front back d waiting,
    dependents-middle n front back d removing,
  )
  Step-Balanced {s = s} (finish front back d e f) h n = omega (
    arith,
    h n,
    ap (dependents n) e,
    ap (λ u. u.wgs n) f,
    ap (λ u. dependents n u.routines) f,
    done_all_lem s.wgs d.deps n,
    dependents-middle n front back d removing,
    dependents-middle n front back d ended,
  )

  pub Reach-Balanced : (r : Run V S) (s : Removal V E S) → Reach w (start r) s → Balanced s
  Reach-Balanced r s at_start = start-Balanced E r
  Reach-Balanced r s (after_step p q) = Step-Balanced q (Reach-Balanced r _ p)
