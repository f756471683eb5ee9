-- ===== src/Decoder/Resolve/Visit.antt =====
-- resource/hcldecoder/decoder.go, resolveValues: what the callback of Transform does to a capsule.
use func.Prelude.{
  ℕ, ◌+◌, ◌≤◌, ◌≡◌, ◌≢◌, refl, sym, ap, subst, ◌∙◌, inl, inr, true, false, Bool-cases, List, [],
  ◌∷◌, length, Result, ok, err, panic, >>=-eq-ok, All, arith, eqb,
}
use func.Cty.{CtyPath, CtyError}
use func.Expression.{Expression, references, merge_literals, value}
use func.Expression.Kept.{AllLiterals, MadeHave, merge_literals-P, value-P}
use func.Expression.Parts.{merge_literals-parts}
use func.Decoder.{
  Value, reference, Cell, Store, write, Resources, Diagnostics, Library, validate, is_capsule,
}
use func.Decoder.Resolve.{
  kept, waits, fate, Resolved, Progress, resolve_parts, asserted, settled_value, visit,
}
use func.Decoder.Resolve.Parts.{
  IsPlain, Resolves, resolve_parts-Resolves, Stays, Resolves-Stays, Resolves-quiet,
  Resolves-none_waits, Resolves-references, Resolves-AllLiterals,
}

no_entries : {A : Type 0} (xs : List A) (n : ℕ) → n ≡ length xs → eqb n 0 ≡ true → xs ≡ []
no_entries [] n h z = refl
no_entries (x ∷ xs) n h z = absurd (ground arith)

pub some_entry : (n : ℕ) → eqb n 0 ≡ false → n ≢ 0
some_entry n h e = ground arith

module _ {S : Type 0} where
  asserted-eq-ok :
      {A : Type 0} (r : Result CtyError A) (a : A) → asserted {S = S} r ≡ ok a → r ≡ ok a
  unfolding asserted
  asserted-eq-ok (ok b) a h = cc
  asserted-eq-ok (err e) a h = cc
  asserted-eq-ok panic a h = cc

  -- A relation between the cells of a store before and after one of them is written.
  pub write-related {ℓ} :
      (R : Cell S → Cell S → Type ℓ)
      → ((c : Cell S) → R c c)
      → (store : Store S) (a : ℕ) (cell : Cell S) → R (store a) cell
      → (b : ℕ) → R (store b) (write store a cell b)
  unfolding write
  write-related R same store a cell h b = elim (Bool-cases (eqb a b)) [
    | inl e ↦ let eq : a ≡ b = ground arith in rw e (subst (λ x. R (store x) cell) eq h)
    | inr e ↦ rw e (same (store b))
  ]

  write_self : (store : Store S) (a : ℕ) (cell : Cell S) → write store a cell a ≡ cell
  unfolding write
  write_self store a cell = ground arith

  -- The expression has no more references than before, and its literals are still no capsules.
  abbrev pub Reduced : Cell S → Cell S → Type 1
  Reduced c d =
      (AllLiterals IsPlain c.expression → AllLiterals IsPlain d.expression)
      × ((Q : CtyPath (Value S) → Type 0)
          → All Q (references c.expression)
          → All Q (references d.expression))

  -- What Transform may do to the store and to remainingRefs.
  abbrev pub Later : Progress S → Progress S → Type 1
  Later p q = (p.remaining_refs ≤ q.remaining_refs) × ((a : ℕ) → Reduced (p.store a) (q.store a))

  pub Later_refl : (p : Progress S) → Later p p
  Later_refl p = (omega arith, λ a. (λ h. h, λ Q h. h))

  pub Later_trans : (p q r : Progress S) → Later p q → Later q r → Later p r
  Later_trans p q r (n, f) (m, g) =
      (omega arith, λ a. (λ h. (g a).0 ((f a).0 h), λ Q h. (g a).1 Q ((f a).1 Q h)))

  abbrev pub IsPlainStore : Store S → Type 0
  IsPlainStore store = (a : ℕ) → AllLiterals IsPlain (store a).expression

module _ {S G : Type 0} (library : Library S G) (rs : Resources S) where
  -- A successful call of the callback, in its parts.
  pub record Visited (a : ℕ) (p : Progress S) (v : Value S) (q : Progress S) : Type 0 where
    pub resolved : Resolved S
    pub merged : Expression (Value S)
    pub resolves : Resolves rs (p.store a).expression resolved
    pub merges : merge_literals library.cty resolved.parts ≡ ok merged
    pub settles :
        settled_value library a (record (p.store a) { expression = merged }) resolved ≡ ok v
    pub after : q ≡ record {
      store = write p.store a (record (p.store a) { expression = merged });
      remaining_refs = p.remaining_refs + resolved.remaining;
    }

  pub visit-Visited :
      (path : CtyPath (Value S)) (a : ℕ) (p : Progress S) (v : Value S) (q : Progress S)
      → visit library rs path a p ≡ ok (v, q)
      → Visited a p v q
  unfolding visit
  visit-Visited path a p v q h =
      let (r, parts, h₁) = >>=-eq-ok (resolve_parts rs (p.store a).expression) _ h in
      let (merged, m, h₂) = >>=-eq-ok (asserted (merge_literals library.cty r.parts)) _ h₁ in
      let (w, s, h₃) = >>=-eq-ok (settled_value library a _ r) _ h₂ in
      let same : w ≡ v = cc in
      record {
        resolved = r;
        merged = merged;
        resolves = resolve_parts-Resolves rs _ r parts;
        merges = asserted-eq-ok _ merged m;
        settles =
            subst
              (λ x. settled_value library a (record (p.store a) { expression = merged }) r ≡ ok x)
              same s;
        after = cc;
      }

  pub visit-Later :
      (path : CtyPath (Value S)) (a : ℕ) (p : Progress S) (v : Value S) (q : Progress S)
      → MadeHave library.cty IsPlain
      → visit library rs path a p ≡ ok (v, q)
      → Later p q
  visit-Later path a p v q made h = go q (visit-Visited path a p v q h)
    where
      go : (q : Progress S) → Visited a p v q → Later p q
      go q d = subst (Later p) (sym d.after) (
        omega arith,
        write-related Reduced (λ c. (λ l. l, λ Q l. l)) p.store a
            (record (p.store a) { expression = d.merged })
            (
              λ l.
                  merge_literals-P library.cty IsPlain made d.resolved.parts d.merged
                    (Resolves-AllLiterals rs d.resolves l) d.merges,
              λ Q l.
                  subst (All Q)
                    (sym (merge_literals-parts library.cty d.resolved.parts d.merged d.merges).0)
                    (Resolves-references rs Q d.resolves l),
            ),
      )

  settled_value-IsPlain :
      (a : ℕ) (cell : Cell S) (r : Resolved S) (v : Value S)
      → MadeHave library.cty IsPlain
      → references cell.expression ≡ []
      → AllLiterals IsPlain cell.expression
      → eqb r.expr_refs 0 ≡ true
      → settled_value library a cell r ≡ ok v
      → IsPlain v
  unfolding settled_value
  settled_value-IsPlain a cell r v made none all zero h =
      let (w, evaluated, h₁) =
        >>=-eq-ok (asserted (value library.cty [] cell.expression)) _ (rw zero at h) in
      let (ds, validated, h₂) = >>=-eq-ok (validate library w cell.field) _ h₁ in
      let same : w ≡ v = go ds w h₂ in
      subst IsPlain same (
        value-P library.cty IsPlain made [] cell.expression w none all
          (asserted-eq-ok _ w evaluated))
    where
      go :
          (ds : Diagnostics S) (w : Value S)
          → elim ds as (λ _. Result (Diagnostics S) (Value S)) [
            | [] ↦ ok w
            | d ∷ more ↦ err (d ∷ more)
          ]
            ≡ ok v
          → w ≡ v
      go [] w e = cc
      go (d ∷ more) w e = cc

  pub settled_value-left :
      (a b : ℕ) (cell : Cell S) (r : Resolved S)
      → eqb r.expr_refs 0 ≡ false
      → settled_value library a cell r ≡ ok (reference b)
      → b ≡ a
  unfolding settled_value
  settled_value-left a b cell r some_left h = let e = rw some_left at h in cc

  -- What is left of a capsule that a visit leaves.
  pub record Left (a : ℕ) (p q : Progress S) : Type 0 where
    pub has_references : references (q.store a).expression ≢ []
    pub stays : All (Stays rs) (references (q.store a).expression)
    pub quiet :
        q.remaining_refs ≡ p.remaining_refs
        → All (λ r. fate rs r ≡ ok kept) (references (q.store a).expression)

  -- The references after a visit are those that the loop over the parts has left.
  pub Visited-references :
      (a : ℕ) (p : Progress S) (v : Value S) (q : Progress S) (d : Visited a p v q)
      → references (q.store a).expression ≡ references d.resolved.parts
  Visited-references a p v q d =
      ap (λ q. references (q.store a).expression) d.after
      ∙ ap (λ c. references c.expression) (write_self p.store a _)
      ∙ (merge_literals-parts library.cty d.resolved.parts d.merged d.merges).0

  Visited-Left :
      (a : ℕ) (p : Progress S) (v : Value S) (q : Progress S) (d : Visited a p v q)
      → eqb d.resolved.expr_refs 0 ≡ false
      → Left a p q
  Visited-Left a p v q d some_left =
      let e = Visited-references a p v q d in
      let (stays, counted) = Resolves-Stays rs d.resolves in
      record {
        has_references = λ none.
            let zero = counted ∙ ap length (sym e ∙ none) in
            absurd (some_entry d.resolved.expr_refs some_left zero);
        stays = subst (All (Stays rs)) (sym e) stays;
        quiet = λ same. subst (All (λ r. fate rs r ≡ ok kept)) (sym e) (
            Resolves-quiet rs d.resolves
              (omega (arith, sym same ∙ ap (λ q. q.remaining_refs) d.after)));
      }

  pub visit-reference :
      (path : CtyPath (Value S)) (a : ℕ) (p : Progress S) (b : ℕ) (q : Progress S)
      → MadeHave library.cty IsPlain
      → AllLiterals IsPlain (p.store a).expression
      → visit library rs path a p ≡ ok (reference b, q)
      → (b ≡ a) × Left a p q
  unfolding is_capsule
  visit-reference path a p b q made plain h = go q (visit-Visited path a p (reference b) q h)
    where
      go : (q : Progress S) → Visited a p (reference b) q → (b ≡ a) × Left a p q
      go q d = elim (Bool-cases (eqb d.resolved.expr_refs 0)) [
        | inl none_left ↦
            let (_, counted) = Resolves-Stays rs d.resolves in
            let kept_none = (merge_literals-parts library.cty _ d.merged d.merges).0 in
            let capsule =
              settled_value-IsPlain a _ d.resolved (reference b) made
                (kept_none ∙ no_entries _ d.resolved.expr_refs counted none_left)
                (merge_literals-P library.cty IsPlain made d.resolved.parts d.merged
                  (Resolves-AllLiterals rs d.resolves plain) d.merges)
                none_left d.settles in
            cc
        | inr some_left ↦ (
          settled_value-left a b _ d.resolved some_left d.settles,
          Visited-Left a p (reference b) q d some_left,
        )
      ]

  -- A visit counts nothing if none of the references waits.
  pub visit-quiet :
      (path : CtyPath (Value S)) (a : ℕ) (p : Progress S) (v : Value S) (q : Progress S)
      → visit library rs path a p ≡ ok (v, q)
      → All (λ r. fate rs r ≢ ok waits) (references (p.store a).expression)
      → q.remaining_refs ≡ p.remaining_refs
  visit-quiet path a p v q h all =
      let d = visit-Visited path a p v q h in
      omega (arith, ap (λ q. q.remaining_refs) d.after, Resolves-none_waits rs d.resolves all)
