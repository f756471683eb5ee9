-- ===== src/Decoder/Resolve/Settled.antt =====
-- resource/hcldecoder/decoder.go, resolveValues: what is left in the inputs when it returns.
use mathlib.Core.Path.{fun_ext}
use func.Prelude.{
  ℕ, String, ◌≡◌, refl, sym, subst, inl, inr, true, Bool-cases, Option, some, List, [], ◌∷◌, Result,
  ok, err, panic, All, All-map, arith, eqb, if◌then◌else◌,
}
use func.Prelude.Members.{contains}
use func.Expression.{references}
use func.Expression.Kept.{MadeHave}
use func.Decoder.{Diagnostics, Library}
use func.Decoder.Resolve.{kept, State, resolve_all, first_round, resolve_values}
use func.Decoder.Resolve.Parts.{IsPlain}
use func.Decoder.Resolve.Visit.{IsPlainStore}
use func.Decoder.Resolve.Round.{
  IsCapsuleAt, IsCovered, output_at, IsOutputIn, fate-Meets, resolve_all-Moved,
}

equal_zero : (n : ℕ) → eqb n 0 ≡ true → n ≡ 0
equal_zero n h = ground arith

module _ {S G : Type 0} (library : Library S G) (made : MadeHave library.cty IsPlain) where
  -- After a round that counts nothing, an input that is a capsule refers to outputs only.
  round-IsOutputIn :
      (names : List String) (s t : State S) (n f : String) (a : ℕ)
      → IsPlainStore s.progress.store
      → contains n names ≡ true
      → resolve_all library names s ≡ ok t
      → t.progress.remaining_refs ≡ 0
      → IsCapsuleAt t.resources n f a
      → All (IsOutputIn (output_at s.resources)) (references (t.progress.store a).expression)
  round-IsOutputIn names s t n f a plain among h zero there =
      let (moved, seen) = resolve_all-Moved library made names s t plain h in
      let v = seen n f a among there in
      let all = v.left.quiet (omega (arith, v.over.0, v.from_behind.0, zero)) in
      let same : output_at v.then_resources ≡ output_at s.resources =
        fun_ext λ n. fun_ext λ f. v.same_outputs n f in
      (v.from_behind.1 a).1 _ (
        subst (λ out. All (IsOutputIn out) (references (v.behind.store a).expression)) same
          (All-map _ _ (λ p. fate-Meets v.then_resources p kept) _ all))

-- Let no literal of the expressions be a capsule, and let every round range over all resources with an
-- unresolved input. When the loop ends without an error, an input that is still a capsule has an
-- expression that refers to outputs of the resources only, each with a path that its type has, so that
-- no reference to an input is left.
pub resolve_values-IsOutputIn :
    {S G : Type 0} (library : Library S G) (rounds : List (List String)) (s t : State S)
    (n f : String) (a : ℕ)
    → MadeHave library.cty IsPlain
    → IsPlainStore s.progress.store
    → All (IsCovered s) rounds
    → resolve_values library rounds s ≡ some (ok t)
    → IsCapsuleAt t.resources n f a
    → All (IsOutputIn (output_at s.resources)) (references (t.progress.store a).expression)
unfolding resolve_values first_round
resolve_values-IsOutputIn library [] s t n f a made plain covered h there = cc
resolve_values-IsOutputIn {S = S} library (names ∷ rounds) s t n f a made plain covered h there =
    go (resolve_all library names (first_round s)) refl h
      (λ s'. resolve_values-IsOutputIn library rounds s' t n f a made)
  where
    go :
        (r : Result (Diagnostics S) (State S))
        → resolve_all library names (first_round s) ≡ r
        → elim r as (λ _. Option (Result (Diagnostics S) (State S))) [
          | ok u ↦
              if eqb u.progress.remaining_refs 0
              then some (ok u)
              else resolve_values library rounds u
          | err ds ↦ some (err ds)
          | panic ↦ some panic
        ]
          ≡ some (ok t)
        → ((s' : State S)
            → IsPlainStore s'.progress.store
            → All (IsCovered s') rounds
            → resolve_values library rounds s' ≡ some (ok t)
            → IsCapsuleAt t.resources n f a
            → All
                (IsOutputIn (output_at s'.resources))
                (references (t.progress.store a).expression))
        → All (IsOutputIn (output_at s.resources)) (references (t.progress.store a).expression)
    go (err ds) e h' rest = cc
    go panic e h' rest = cc
    go (ok u) e h' rest =
        let (moved, _) = resolve_all-Moved library made names (first_round s) u plain e in
        elim (Bool-cases (eqb u.progress.remaining_refs 0)) [
          | inl zero ↦
              let ended = rw zero at h' in
              let is : u ≡ t = cc in
              let there' = subst (λ t. IsCapsuleAt t.resources n f a) (sym is) there in
              subst
                (λ t.
                  All (IsOutputIn (output_at s.resources))
                    (references (t.progress.store a).expression))
                is
                (round-IsOutputIn library made names (first_round s) u n f a plain
                  (covered.0 n f a (moved.2 n f a there')) e
                  (equal_zero u.progress.remaining_refs zero) there')
          | inr more ↦
              subst (λ out. All (IsOutputIn out) (references (t.progress.store a).expression))
                (fun_ext λ n. fun_ext λ f. moved.1 n f)
                (rest u (λ a. (moved.0.1 a).0 (plain a))
                  (All-map _ _ (λ ns c m g b h. c m g b (moved.2 m g b h)) rounds covered.1)
                  (rw more at h') there)
        ]
