-- ===== src/Reconciler/Tasks/Open.antt =====
-- processDependencies: the calls for the parents have all returned, or one of them can go on.
use func.Prelude.{
  String, ◌≡◌, ◌≢◌, refl, ◌⊎◌, inl, inr, true, Option, none, some, List, [], ◌∷◌, map, ok, err,
  panic, eq_iff, arith,
}
use mathlib.Core.List.{Memᴰ}
use func.Prelude.Members.{contains}
use func.Graph.{Desired}
use func.Graph.Names.{names}
use func.Reconciler.{RunError}
use func.Reconciler.Tasks.{
  Task, running, ended, Group, Outcome, blocked, all_done, some_failed, and_task, outcome,
}

module _ {V : Type 0} where
  -- The outcome is known, or a parent's task is missing or running.
  abbrev pub Open : {E : Type 0} → Group V E → List (Desired V) → Type 0
  Open group ps =
      (p : Desired V) × Memᴰ (some p) (map some ps)
      × (contains p.name (names ps) ≡ true)
      × ((group p.name ≡ none) ⊎ ((res : Desired V) × (group p.name ≡ some (running res))))

  abbrev pub NoPanic : {E : Type 0} → Group V E → Type 0
  NoPanic group = (n : String) → group n ≢ some (ended panic)

module _ {V E : Type 0} where
  task_cases :
      (group : Group V E)
      → NoPanic group
      → (n : String)
      → ((group n ≡ none) ⊎ ((res : Desired V) × (group n ≡ some (running res))))
        ⊎ ((rest : Outcome) → rest ≢ blocked → and_task (group n) rest ≢ blocked)
  task_cases group np n = go (group n) refl
    where
      go :
          (o : Option (Task V E))
          → group n ≡ o
          → ((group n ≡ none) ⊎ ((res : Desired V) × (group n ≡ some (running res))))
            ⊎ ((rest : Outcome) → rest ≢ blocked → and_task (group n) rest ≢ blocked)
      go none e = inl (inl e)
      go (some (running res)) e = inl (inr (res, e))
      go (some (ended panic)) e = absurd (np n e)
      go (some (ended (ok u))) e = inr (λ rest h. rw e h)
      go (some (ended (err x))) e = inr (λ rest h. rw e (failed x rest h))
        where
          failed :
              (x : RunError E) (rest : Outcome)
              → rest ≢ blocked
              → and_task {V = V} (some (ended (err x))) rest ≢ blocked
          failed x blocked h = h
          failed x all_done h = λ e. cc
          failed x some_failed h = λ e. cc

  pub Open-or_known :
      (group : Group V E)
      → NoPanic group
      → (ps : List (Desired V)) → Open group ps ⊎ (outcome group (map some ps) ≢ blocked)
  unfolding outcome contains
  Open-or_known group np [] = inr (λ e. cc)
  Open-or_known group np (p ∷ ps) = elim (task_cases group np p.name) [
    | inl o ↦ inl (p, Memᴰ.head refl, ground (arith, eq_iff p.name p.name), o)
    | inr f ↦ elim (Open-or_known group np ps) [
      | inl (q, m, c, o) ↦ inl (q, Memᴰ.tail m, ground arith, o)
      | inr k ↦ inr (f (outcome group (map some ps)) k)
    ]
  ]
