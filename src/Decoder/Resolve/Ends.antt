-- ===== src/Decoder/Resolve/Ends.antt =====
-- resource/hcldecoder/decoder.go, resolveValues: the loop over the rounds ends.
use mathlib.Core.Path.{fun_ext}
use func.Prelude.{
  ℕ, suc, ◌+◌, ◌<◌, ◌≤◌, String, ◌≡◌, ◌≢◌, refl, sym, ap, subst, ◌∙◌, ◌⊎◌, inl, inr, false,
  Bool-cases, Option, none, some, List, [], ◌∷◌, length, Result, ok, err, panic, ◌>>=◌, >>=-eq-ok,
  All, All-map, nil-of_All, arith, eqb, ltb, if◌then◌else◌,
}
use func.Cty.{CtyPath, get_attr_step, index_step}
use func.Expression.{references}
use func.Expression.Kept.{MadeHave}
use func.TypePath.{CtyType}
use func.Decoder.{Value, Res, Resources, Diagnostics, Library, transform_attributes}
use func.Decoder.Transform.{transform_attributes-R}
use func.Decoder.Resolve.{
  kept, waits, fate, Progress, State, visit, resolve_res, resolve_all, first_round, resolve_values,
}
use func.Decoder.Resolve.Parts.{IsPlain, Stays}
use func.Decoder.Resolve.Visit.{IsPlainStore, visit-Later, visit-quiet}
use func.Decoder.Resolve.Round.{
  IsCapsuleAt, IsCovered, output_at, fate-Meets, Moved, resolve_res-Moved, resolve_all-Moved,
}

module _ {S : Type 0} (rank : String → String → ℕ) where
  -- The path is to an input of a rank below the bound.
  abbrev pub IsBelow : (String → String → Option CtyType) → ℕ → CtyPath (Value S) → Type 0
  IsBelow out bound (get_attr_step n ∷ get_attr_step f ∷ rest) =
      (out n f ≡ none) × (rank n f < bound)
  IsBelow out bound path = Unit

  -- The path is to an output, or to an input of a rank below the bound.
  abbrev pub IsSettling : (String → String → Option CtyType) → ℕ → CtyPath (Value S) → Type 0
  IsSettling out bound (get_attr_step n ∷ get_attr_step f ∷ rest) =
      ((t : CtyType) × (out n f ≡ some t)) ⊎ (rank n f < bound)
  IsSettling out bound path = Unit

  -- Every reference is to an output or to an input of a rank below the bound, and an input of such
  -- a rank refers only to inputs of a lower one.
  pub record Ranked (bound : ℕ) (s : State S) : Type 0 where
    pub chain :
        (n f : String) (a : ℕ)
        → IsCapsuleAt s.resources n f a
        → rank n f < bound
        → All
            (IsBelow (output_at s.resources) (rank n f))
            (references (s.progress.store a).expression)
    pub settling :
        (a : ℕ)
        → All
            (IsSettling (output_at s.resources) bound)
            (references (s.progress.store a).expression)

  Ranked-Moved : (bound : ℕ) (s t : State S) → Moved s t → Ranked bound s → Ranked bound t
  Ranked-Moved bound s t (later, outputs, older) ranked =
      let same : output_at s.resources ≡ output_at t.resources =
        fun_ext λ n. fun_ext λ f. sym (outputs n f) in
      record {
        chain = λ n f a h l.
            subst (λ out. All (IsBelow out (rank n f)) (references (t.progress.store a).expression))
              same ((later.1 a).1 _ (ranked.chain n f a (older n f a h) l));
        settling = λ a.
            subst (λ out. All (IsSettling out bound) (references (t.progress.store a).expression))
              same ((later.1 a).1 _ (ranked.settling a));
      }

  first_round-Ranked : (bound : ℕ) (s : State S) → Ranked bound s → Ranked bound (first_round s)
  unfolding first_round
  first_round-Ranked bound s ranked = record { chain = ranked.chain; settling = ranked.settling }

  -- The inputs of a rank below the number are no capsules any more.
  abbrev Unresolved : ℕ → State S → Type 0
  Unresolved k s = (n f : String) (a : ℕ) → IsCapsuleAt s.resources n f a → k ≤ rank n f

  -- A reference to an input of a lower rank is replaced.
  not_below :
      (s : State S) (rs : Resources S) (k : ℕ)
      → Unresolved k s
      → ((n f : String) → output_at rs n f ≡ output_at s.resources n f)
      → ((n f : String) (a : ℕ) → IsCapsuleAt rs n f a → IsCapsuleAt s.resources n f a)
      → (p : CtyPath (Value S)) → Stays rs p
      → IsBelow (output_at s.resources) k p
      → ⊥
  not_below s rs k unresolved outputs older [] (inl e) below = fate-Meets rs [] kept e
  not_below s rs k unresolved outputs older [] (inr e) below = fate-Meets rs [] waits e
  not_below s rs k unresolved outputs older (index_step x ∷ p) (inl e) below =
      fate-Meets rs (index_step x ∷ p) kept e
  not_below s rs k unresolved outputs older (index_step x ∷ p) (inr e) below =
      fate-Meets rs (index_step x ∷ p) waits e
  not_below s rs k unresolved outputs older (get_attr_step n ∷ []) (inl e) below =
      fate-Meets rs (get_attr_step n ∷ []) kept e
  not_below s rs k unresolved outputs older (get_attr_step n ∷ []) (inr e) below =
      fate-Meets rs (get_attr_step n ∷ []) waits e
  not_below s rs k unresolved outputs older (get_attr_step n ∷ index_step x ∷ p) (inl e) below =
      fate-Meets rs (get_attr_step n ∷ index_step x ∷ p) kept e
  not_below s rs k unresolved outputs older (get_attr_step n ∷ index_step x ∷ p) (inr e) below =
      fate-Meets rs (get_attr_step n ∷ index_step x ∷ p) waits e
  not_below s rs k unresolved outputs older (get_attr_step n ∷ get_attr_step f ∷ p) (inl e) below =
      let (t, declared, _) = fate-Meets rs (get_attr_step n ∷ get_attr_step f ∷ p) kept e in
      let same = outputs n f in let none_there = below.0 in cc
  not_below s rs k unresolved outputs older (get_attr_step n ∷ get_attr_step f ∷ p) (inr e) below =
      let (_, (a, h)) = fate-Meets rs (get_attr_step n ∷ get_attr_step f ∷ p) waits e in
      absurd (omega (arith, unresolved n f a (older n f a h), below.1))

  -- No reference waits when all inputs of a rank below the bound are resolved.
  not_waiting :
      (s : State S) (bound : ℕ)
      → Unresolved bound s
      → (p : CtyPath (Value S)) → IsSettling (output_at s.resources) bound p
      → fate s.resources p ≢ ok waits
  not_waiting s bound unresolved [] settling e = fate-Meets s.resources [] waits e
  not_waiting s bound unresolved (index_step x ∷ p) settling e =
      fate-Meets s.resources (index_step x ∷ p) waits e
  not_waiting s bound unresolved (get_attr_step n ∷ []) settling e =
      fate-Meets s.resources (get_attr_step n ∷ []) waits e
  not_waiting s bound unresolved (get_attr_step n ∷ index_step x ∷ p) settling e =
      fate-Meets s.resources (get_attr_step n ∷ index_step x ∷ p) waits e
  not_waiting s bound unresolved (get_attr_step n ∷ get_attr_step f ∷ p) (inl (t, declared)) e =
      let (none_there, _) =
        fate-Meets s.resources (get_attr_step n ∷ get_attr_step f ∷ p) waits e in
      cc
  not_waiting s bound unresolved (get_attr_step n ∷ get_attr_step f ∷ p) (inr low) e =
      let (_, (a, h)) = fate-Meets s.resources (get_attr_step n ∷ get_attr_step f ∷ p) waits e in
      absurd (omega (arith, unresolved n f a h))

ltb-false : (a b : ℕ) → ltb a b ≡ false → b ≤ a
ltb-false a b h = ground arith

not_zero : (n : ℕ) → eqb n 0 ≡ false → n ≢ 0
not_zero n h e = ground arith

module _ {S G : Type 0} (library : Library S G) (made : MadeHave library.cty IsPlain)
    (rank : String → String → ℕ) (bound : ℕ) where
  -- A round resolves the inputs of the next rank.
  round-Unresolved :
      (k : ℕ) (names : List String) (s t : State S)
      → k < bound
      → IsPlainStore s.progress.store
      → Ranked rank bound s
      → Unresolved rank k s
      → IsCovered s names
      → resolve_all library names s ≡ ok t
      → Unresolved rank (suc k) t
  round-Unresolved k names s t low plain ranked unresolved covered h n f a there =
      let (moved, seen) = resolve_all-Moved library made names s t plain h in
      let was = moved.2 n f a there in
      let left = seen n f a (covered n f a was) there in
      let low_rank : rank n f ≡ k → ⊥ = λ e.
        let below =
          (left.over.1 a).1 _
            ((left.to_before.1 a).1 _ (ranked.chain n f a was (omega (arith, e, low)))) in
        left.left.has_references (
          nil-of_All _ _
            (not_below rank s left.then_resources (rank n f)
              (λ m g b h. omega (arith, e, unresolved m g b h)) left.same_outputs left.older)
            _ left.left.stays below) in
      omega (arith, unresolved n f a was, low_rank)

  -- Nothing waits among the references of the store.
  abbrev NoneWait : Resources S → Progress S → Type 0
  NoneWait rs p = (a : ℕ) → All (λ r. fate rs r ≢ ok waits) (references (p.store a).expression)

  resolve_res-quiet :
      (s : State S) (name : String) (r : Res S) (t : State S)
      → NoneWait s.resources s.progress
      → resolve_res library s name r ≡ ok t
      → t.progress.remaining_refs ≡ s.progress.remaining_refs
  unfolding resolve_res
  resolve_res-quiet s name r t none_wait h =
      let ((input, progress), transformed, h₁) =
        >>=-eq-ok (transform_attributes library (visit library s.resources) [] r.input s.progress) _
          h in
      let (_, e) =
        transform_attributes-R library (visit library s.resources)
          (λ p q.
            NoneWait s.resources p → NoneWait s.resources q × (q.remaining_refs ≡ p.remaining_refs))
          (λ p all. (all, refl))
          (λ p q u f g all. let (all_q, e) = f all in let (all_u, e') = g all_q in (all_u, e' ∙ e))
          (λ path a p v q e all. (
            λ b. ((visit-Later library s.resources path a p v q made e).1 b).1 _ (all b),
            visit-quiet library s.resources path a p v q e (all a),
          ))
          [] r.input s.progress input progress transformed none_wait in
      let is : progress ≡ t.progress = cc in ap (λ p. p.remaining_refs) (sym is) ∙ e

  -- A round counts nothing when all inputs of a rank below the bound are resolved.
  round-quiet :
      (names : List String) (s t : State S)
      → IsPlainStore s.progress.store
      → Ranked rank bound s
      → Unresolved rank bound s
      → resolve_all library names s ≡ ok t
      → t.progress.remaining_refs ≡ s.progress.remaining_refs
  unfolding resolve_all
  round-quiet [] s t plain ranked unresolved h = cc
  round-quiet (name ∷ names) s t plain ranked unresolved h =
      go (s.resources name) refl h (λ s'. round-quiet names s' t)
    where
      go :
          (o : Option (Res S))
          → s.resources name ≡ o
          → elim o as (λ _. Result (Diagnostics S) (State S)) [
            | none ↦ resolve_all library names s
            | some r ↦ resolve_res library s name r >>= resolve_all library names
          ]
            ≡ ok t
          → ((s' : State S)
              → IsPlainStore s'.progress.store
              → Ranked rank bound s'
              → Unresolved rank bound s'
              → resolve_all library names s' ≡ ok t
              → t.progress.remaining_refs ≡ s'.progress.remaining_refs)
          → t.progress.remaining_refs ≡ s.progress.remaining_refs
      go none there e rest = rest s plain ranked unresolved e
      go (some r) there e rest =
          let (s', resolved, e') = >>=-eq-ok (resolve_res library s name r) _ e in
          let (moved, _) = resolve_res-Moved library made s name r there s' plain resolved in
          rest s' (λ a. (moved.0.1 a).0 (plain a)) (Ranked-Moved rank bound s s' moved ranked)
            (λ n f a h. unresolved n f a (moved.2 n f a h)) e'
          ∙ resolve_res-quiet s name r s'
              (λ a. All-map _ _ (not_waiting rank s bound unresolved) _ (ranked.settling a))
              resolved

  ends_from :
      (rounds : List (List String)) (k : ℕ) (s : State S)
      → IsPlainStore s.progress.store
      → Ranked rank bound s
      → Unresolved rank k s
      → All (IsCovered s) rounds
      → k ≤ bound
      → bound < k + length rounds
      → (result : Result (Diagnostics S) (State S)) × (resolve_values library rounds s
          ≡ some result)
  unfolding resolve_values first_round
  ends_from [] k s plain ranked unresolved covered le lt = absurd (omega arith)
  ends_from (names ∷ rounds) k s plain ranked unresolved covered le lt =
      go (resolve_all library names (first_round s)) refl (ends_from rounds)
    where
      lower :
          (t : State S)
          → resolve_all library names (first_round s) ≡ ok t
          → eqb t.progress.remaining_refs 0 ≡ false
          → k < bound
      lower t e more = elim (Bool-cases (ltb k bound)) [
        | inl h ↦ ground arith
        | inr h ↦
            let quiet =
              round-quiet names (first_round s) t plain (first_round-Ranked rank bound s ranked)
                (λ n f a there. omega (arith, ltb-false k bound h, unresolved n f a there)) e in
            absurd (not_zero t.progress.remaining_refs more quiet)
      ]

      go :
          (r : Result (Diagnostics S) (State S))
          → resolve_all library names (first_round s) ≡ r
          → ((k : ℕ) (s : State S)
              → IsPlainStore s.progress.store
              → Ranked rank bound s
              → Unresolved rank k s
              → All (IsCovered s) rounds
              → k ≤ bound
              → bound < k + length rounds
              → (result : Result (Diagnostics S) (State S)) × (resolve_values library rounds s
                  ≡ some result))
          → (result : Result (Diagnostics S) (State S)) × (elim r
                as (λ _. Option (Result (Diagnostics S) (State S))) [
                  | ok t ↦
                      if eqb t.progress.remaining_refs 0
                      then some (ok t)
                      else resolve_values library rounds t
                  | err ds ↦ some (err ds)
                  | panic ↦ some panic
                ]
              ≡ some result)
      go (err ds) e rest = (err ds, refl)
      go panic e rest = (panic, refl)
      go (ok t) e rest = elim (Bool-cases (eqb t.progress.remaining_refs 0)) [
        | inl zero ↦ (ok t, rw zero refl)
        | inr more ↦
            let (moved, _) = resolve_all-Moved library made names (first_round s) t plain e in
            let still : k < bound = lower t e more in
            let (result, ended) =
              rest (suc k) t (λ a. (moved.0.1 a).0 (plain a))
                (Ranked-Moved rank bound (first_round s) t moved
                  (first_round-Ranked rank bound s ranked))
                (round-Unresolved k names (first_round s) t still plain
                  (first_round-Ranked rank bound s ranked) unresolved covered.0 e)
                (All-map _ _ (λ ns c n f a h. c n f a (moved.2 n f a h)) rounds covered.1)
                (omega arith) (omega arith) in
            (result, rw more ended)
      ]

-- Let no literal of the expressions be a capsule, let every round range over all resources with an
-- unresolved input, and let every reference be to an output or to an input of a rank below `bound`,
-- where an input of such a rank refers only to inputs of a lower rank. Then the loop ends within
-- `bound + 1` rounds, whatever the order in which each of them ranges over the resources.
pub resolve_values-ends :
    {S G : Type 0} (library : Library S G) (rank : String → String → ℕ) (bound : ℕ)
    (rounds : List (List String)) (s : State S)
    → MadeHave library.cty IsPlain
    → IsPlainStore s.progress.store
    → Ranked rank bound s
    → All (IsCovered s) rounds
    → bound < length rounds
    → (result : Result (Diagnostics S) (State S)) × (resolve_values library rounds s ≡ some result)
resolve_values-ends library rank bound rounds s made plain ranked covered enough =
    ends_from library made rank bound rounds 0 s plain ranked (λ n f a h. omega arith) covered
      (omega arith) (omega arith)
