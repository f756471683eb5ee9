-- ===== src/Decoder/Resolve/Round.antt =====
-- resource/hcldecoder/decoder.go, resolveValues: what one round over the resources does.
use func.Prelude.{
  if◌then◌else◌, ℕ, String, ◌≡◌, refl, sym, ap, subst, ◌∙◌, true, false, inl, inr, Bool-cases,
  Option, none, some, List, [], ◌∷◌, ok, err, panic, ◌>>=◌, ◌||◌, >>=-eq-ok, ◌==◌, eq_iff, arith,
  Result,
}
use func.Prelude.Members.{contains}
use func.Cty.{CtyPath, get_attr_step, index_step}
use func.Expression.Kept.{MadeHave}
use func.TypePath.{CtyType, attribute_type, apply_type_path, TypePathError}
use func.Decoder.{
  Value, reference, Attributes, Res, Resources, put_res, input_of, is_capsule, Library, Diagnostics,
  no_such_field, static, object, list, invalid_reference, value_not_found, transform_attributes,
}
use func.Decoder.Transform.{Survived, transform_attributes-R, transform_attributes-Survived}
use func.Decoder.Resolve.{
  Fate, kept, waits, replaced, input_fate, output_fate, field_fate, fate, Progress, State, visit,
  resolve_res, resolve_all,
}
use func.Decoder.Resolve.Parts.{IsPlain}
use func.Decoder.Resolve.Visit.{
  IsPlainStore, Later, Later_refl, Later_trans, Left, visit-Later, visit-reference,
}

module _ {S : Type 0} where
  -- The input of a resource is still the capsule of the address.
  abbrev pub IsCapsuleAt : Resources S → String → String → ℕ → Type 0
  IsCapsuleAt rs n f a = (r : Res S) × (rs n ≡ some r) × (input_of r.input f ≡ some (reference a))

  -- The round ranges over all resources with an input that is a capsule.
  abbrev pub IsCovered : State S → List String → Type 0
  IsCovered s names =
      (n f : String) (a : ℕ) → IsCapsuleAt s.resources n f a → contains n names ≡ true

  -- The type of an output of a resource.
  unfoldable pub output_at : Resources S → String → String → Option CtyType
  output_at rs n f = elim (rs n) [ none ↦ none | some r ↦ attribute_type r.outputs f ]

  -- What a reference that stays points to.
  abbrev pub IsOutputIn : (String → String → Option CtyType) → CtyPath (Value S) → Type 0
  IsOutputIn out (get_attr_step n ∷ get_attr_step f ∷ rest) =
      (t : CtyType) × (out n f ≡ some t) × ((u : CtyType) × (apply_type_path t rest ≡ ok u))
  IsOutputIn out path = ⊥

  -- What a reference that waits points to.
  abbrev pub IsCapsuleIn : Resources S → CtyPath (Value S) → Type 0
  IsCapsuleIn rs (get_attr_step n ∷ get_attr_step f ∷ rest) =
      (output_at rs n f ≡ none) × ((a : ℕ) × IsCapsuleAt rs n f a)
  IsCapsuleIn rs path = ⊥

  input_fate-waits :
      (parent : Res S) (f : String)
      → input_fate parent f ≡ ok waits
      → (a : ℕ) × (input_of parent.input f ≡ some (reference a))
  unfolding input_fate is_capsule
  input_fate-waits parent f h = go (input_of parent.input f) h
    where
      go :
          (o : Option (Value S))
          → elim o as (λ _. Result (Diagnostics S) (Fate S)) [
            | none ↦ err (no_such_field parent.typename f ∷ [])
            | some v ↦ ok (if is_capsule v then waits else replaced v)
          ]
            ≡ ok waits
          → (a : ℕ) × (o ≡ some (reference a))
      go none e = cc
      go (some (reference a)) e = (a, refl)
      go (some (static s)) e = cc
      go (some (object fs)) e = cc
      go (some (list es)) e = cc

  input_fate-not_kept : (parent : Res S) (f : String) → input_fate parent f ≡ ok kept → ⊥
  unfolding input_fate
  input_fate-not_kept parent f h = ground arith

  output_fate-eq-kept :
      (t : CtyType) (n : String) (path : CtyPath (Value S)) (x : Fate S)
      → output_fate t n path ≡ ok x
      → (x ≡ kept) × ((u : CtyType) × (apply_type_path t path ≡ ok u))
  unfolding output_fate
  output_fate-eq-kept t n path x h = go (apply_type_path t path) h
    where
      go :
          (o : Result (TypePathError (Value S)) CtyType)
          → elim o as (λ _. Result (Diagnostics S) (Fate S)) [
            | ok u ↦ ok kept
            | err e ↦ err (invalid_reference n e ∷ [])
            | panic ↦ panic
          ]
            ≡ ok x
          → (x ≡ kept) × ((u : CtyType) × (o ≡ ok u))
      go (ok u) e = (cc, (u, refl))
      go (err d) e = cc
      go panic e = cc

  -- The two fates of a reference that is not replaced.
  abbrev Meets : Resources S → CtyPath (Value S) → Fate S → Type 0
  Meets rs path kept = IsOutputIn (output_at rs) path
  Meets rs path waits = IsCapsuleIn rs path
  Meets rs path (replaced v) = Unit

  output_at-eq :
      (rs : Resources S) (n f : String) (r : Res S)
      → rs n ≡ some r
      → output_at rs n f ≡ attribute_type r.outputs f
  unfolding output_at
  output_at-eq rs n f r e = rw (output_at, e) refl

  field_fate-Meets :
      (rs : Resources S) (n f : String) (rest : CtyPath (Value S)) (parent : Res S) (x : Fate S)
      → rs n ≡ some parent
      → field_fate parent n (get_attr_step f ∷ rest) ≡ ok x
      → Meets rs (get_attr_step n ∷ get_attr_step f ∷ rest) x
  unfolding field_fate
  field_fate-Meets rs n f rest parent x there h =
      go x (attribute_type parent.outputs f) (output_at-eq rs n f parent there) h
    where
      go :
          (x : Fate S) (o : Option CtyType)
          → output_at rs n f ≡ o
          → elim o as (λ _. Result (Diagnostics S) (Fate S)) [
            | some t ↦ output_fate t n rest
            | none ↦ input_fate parent f
          ]
            ≡ ok x
          → Meets rs (get_attr_step n ∷ get_attr_step f ∷ rest) x
      go kept (some t) declared e = (t, declared, (output_fate-eq-kept t n rest kept e).1)
      go kept none declared e = absurd (input_fate-not_kept parent f e)
      go waits (some t) declared e = let impossible = (output_fate-eq-kept t n rest waits e).0 in cc
      go waits none declared e =
          let (a, found) = input_fate-waits parent f e in (declared, (a, (parent, there, found)))
      go (replaced v) o declared e = tt

  pub fate-Meets :
      (rs : Resources S) (path : CtyPath (Value S)) (x : Fate S)
      → fate rs path ≡ ok x
      → Meets rs path x
  unfolding fate field_fate
  fate-Meets rs [] x h = cc
  fate-Meets rs (index_step key ∷ path) x h = cc
  fate-Meets rs (get_attr_step n ∷ path) x h = go (rs n) refl path h
    where
      go :
          (o : Option (Res S))
          → rs n ≡ o
          → (path : CtyPath (Value S))
          → elim o as (λ _. Result (Diagnostics S) (Fate S)) [
            | none ↦ err (value_not_found n ∷ [])
            | some parent ↦ field_fate parent n path
          ]
            ≡ ok x
          → Meets rs (get_attr_step n ∷ path) x
      go none there path e = cc
      go (some parent) there [] e = cc
      go (some parent) there (index_step key ∷ path) e = cc
      go (some parent) there (get_attr_step f ∷ path) e =
          field_fate-Meets rs n f path parent x there e

  -- What a sequence of steps keeps of the resources: their outputs, and no input becomes a capsule.
  abbrev pub Moved : State S → State S → Type 1
  Moved s t =
      Later s.progress t.progress
      × ((n f : String) → output_at t.resources n f ≡ output_at s.resources n f)
      × ((n f : String) (a : ℕ) → IsCapsuleAt t.resources n f a → IsCapsuleAt s.resources n f a)

  Moved-refl : (s : State S) → Moved s s
  Moved-refl s = (Later_refl s.progress, λ n f. refl, λ n f a h. h)

  Moved-trans : (s t u : State S) → Moved s t → Moved t u → Moved s u
  Moved-trans s t u (l, o, c) (l', o', c') = (
    Later_trans s.progress t.progress u.progress l l',
    λ n f. o' n f ∙ o n f,
    λ n f a h. c n f a (c' n f a h),
  )

module _ {S G : Type 0} (library : Library S G) where
  -- A visit of a capsule between two states, which left it.
  pub record Seen (s t : State S) (a : ℕ) : Type 1 where
    pub then_resources : Resources S
    pub before : Progress S
    pub behind : Progress S
    pub left : Left library then_resources a before behind
    pub to_before : Later s.progress before
    pub over : Later before behind
    pub from_behind : Later behind t.progress
    pub same_outputs : (n f : String) → output_at then_resources n f ≡ output_at s.resources n f
    pub older :
        (n f : String) (b : ℕ) → IsCapsuleAt then_resources n f b → IsCapsuleAt s.resources n f b

  Seen-before : (s t u : State S) (a : ℕ) → Moved s t → Seen t u a → Seen s u a
  Seen-before s t u a (l, o, c) seen = record {
    then_resources = seen.then_resources;
    before = seen.before;
    behind = seen.behind;
    left = seen.left;
    to_before = Later_trans s.progress t.progress seen.before l seen.to_before;
    over = seen.over;
    from_behind = seen.from_behind;
    same_outputs = λ n f. seen.same_outputs n f ∙ o n f;
    older = λ n f b h. c n f b (seen.older n f b h);
  }

  Seen-after : (s t u : State S) (a : ℕ) → Later t.progress u.progress → Seen s t a → Seen s u a
  Seen-after s t u a l seen = record {
    then_resources = seen.then_resources;
    before = seen.before;
    behind = seen.behind;
    left = seen.left;
    to_before = seen.to_before;
    over = seen.over;
    from_behind = Later_trans seen.behind t.progress u.progress seen.from_behind l;
    same_outputs = seen.same_outputs;
    older = seen.older;
  }

  module _ (made : MadeHave library.cty IsPlain) where
    -- One resource of a round.
    module _ (s : State S) (name : String) (r : Res S) (there : s.resources name ≡ some r) where
      put_res-unchanged :
          (input : Attributes S) (n : String)
          → (name == n) ≡ false
          → put_res s.resources name (record r { input = input }) n ≡ s.resources n
      unfolding put_res
      put_res-unchanged input n other = rw other refl

      put_res-outputs :
          (input : Attributes S) (n f : String)
          → output_at (put_res s.resources name (record r { input = input })) n f
            ≡ output_at s.resources n f
      unfolding output_at put_res
      put_res-outputs input n f = elim (Bool-cases (name == n)) [
        | inl same ↦
            let is : name ≡ n = ground (arith, eq_iff name n) in
            output_at-eq (put_res s.resources name (record r { input = input })) n f
              (record r { input = input }) (rw same refl)
            ∙ sym (output_at-eq s.resources n f r (subst (λ m. s.resources m ≡ some r) is there))
        | inr other ↦
            ap
              (λ o. elim o as (λ _. Option CtyType) [
                | none ↦ none
                | some r ↦ attribute_type r.outputs f
              ])
              (put_res-unchanged input n other)
      ]

      -- The inputs of another resource are as they were.
      put_res-other :
          (input : Attributes S) (n f : String) (a : ℕ)
          → (name == n) ≡ false
          → IsCapsuleAt (put_res s.resources name (record r { input = input })) n f a
          → IsCapsuleAt s.resources n f a
      unfolding put_res
      put_res-other input n f a other (q, e, found) = (q, rw other at e, found)

      put_res_self :
          (input : Attributes S) (n f : String) (a : ℕ)
          → (name == n) ≡ true
          → IsCapsuleAt (put_res s.resources name (record r { input = input })) n f a
          → input_of input f ≡ some (reference a)
      unfolding put_res
      put_res_self input n f a same (q, e, found) =
          let is : q ≡ record r { input = input } = ground arith in
          subst (λ q. input_of q.input f ≡ some (reference a)) is found

      after_res : Attributes S → Progress S → State S
      after_res input progress = record {
        resources = put_res s.resources name (record r { input = input });
        progress = progress;
      }

      module _ (input : Attributes S) (progress : Progress S)
          (plain : IsPlainStore s.progress.store)
          (transformed : transform_attributes library
              (visit library s.resources)
              []
              r.input
              s.progress
            ≡ ok (input, progress)) where
        after_res-Survived :
            (f : String) (a : ℕ)
            → input_of input f ≡ some (reference a)
            → (input_of r.input f ≡ some (reference a))
              × Survived library
                  (visit library s.resources)
                  Later
                  Later_refl
                  Later_trans
                  (λ path a p v q e. visit-Later library s.resources path a p v q made e)
                  a
                  s.progress
                  progress
        after_res-Survived f a found =
            transform_attributes-Survived library (visit library s.resources) Later Later_refl
              Later_trans (λ path a p v q e. visit-Later library s.resources path a p v q made e)
              (λ p. IsPlainStore p.store) (λ p q l inv a. (l.1 a).0 (inv a))
              (λ path a p b q inv e.
                (visit-reference library s.resources path a p b q made (inv a) e).0)
              [] r.input s.progress input progress f a plain transformed found

        after_res-Moved : Moved s (after_res input progress)
        unfolding after_res
        after_res-Moved = (
          transform_attributes-R library (visit library s.resources) Later Later_refl Later_trans
              (λ path a p v q e. visit-Later library s.resources path a p v q made e) [] r.input
              s.progress input progress transformed,
          put_res-outputs input,
          λ n f a h. elim (Bool-cases (name == n)) [
            | inl same ↦
                let is : name ≡ n = ground (arith, eq_iff name n) in
                (
                  r,
                  subst (λ m. s.resources m ≡ some r) is there,
                  (after_res-Survived f a (put_res_self input n f a same h)).0,
                )
            | inr other ↦ put_res-other input n f a other h
          ],
        )

        after_res-Seen :
            (n f : String) (a : ℕ)
            → (name == n) ≡ true
            → IsCapsuleAt (after_res input progress).resources n f a
            → Seen s (after_res input progress) a
        unfolding after_res
        after_res-Seen n f a same h =
            let survived = (after_res-Survived f a (put_res_self input n f a same h)).1 in
            let plain_then = (survived.to_before.1 a).0 (plain a) in
            record {
              then_resources = s.resources;
              before = survived.before;
              behind = survived.behind;
              left =
                  (visit-reference library s.resources survived.path_to a survived.before a
                    survived.behind made plain_then survived.visited).1;
              to_before = survived.to_before;
              over =
                  visit-Later library s.resources survived.path_to a survived.before (reference a)
                    survived.behind made survived.visited;
              from_behind = survived.from_behind;
              same_outputs = λ n f. refl;
              older = λ n f b h. h;
            }

      pub resolve_res-Moved :
          (t : State S)
          → IsPlainStore s.progress.store
          → resolve_res library s name r ≡ ok t
          → Moved s t
            × ((n f : String) (a : ℕ)
                → (name == n) ≡ true
                → IsCapsuleAt t.resources n f a
                → Seen s t a)
      unfolding resolve_res after_res
      resolve_res-Moved t plain h =
          let ((input, progress), transformed, h₁) =
            >>=-eq-ok
              (transform_attributes library (visit library s.resources) [] r.input s.progress) _
              h in
          let is : after_res input progress ≡ t = cc in
          subst
            (λ t.
              Moved s t
              × ((n f : String) (a : ℕ)
                  → (name == n) ≡ true
                  → IsCapsuleAt t.resources n f a
                  → Seen s t a))
            is
            (
              after_res-Moved input progress plain transformed,
              after_res-Seen input progress plain transformed,
            )

    -- A round over the names: each input of a named resource that is a capsule afterwards was visited.
    pub resolve_all-Moved :
        (names : List String) (s t : State S)
        → IsPlainStore s.progress.store
        → resolve_all library names s ≡ ok t
        → Moved s t
          × ((n f : String) (a : ℕ)
              → contains n names ≡ true
              → IsCapsuleAt t.resources n f a
              → Seen s t a)
    unfolding resolve_all contains
    resolve_all-Moved [] s t plain h =
        let is : s ≡ t = cc in (subst (Moved s) is (Moved-refl s), λ n f a among. cc)
    resolve_all-Moved (name ∷ names) s t plain h =
        go (s.resources name) refl h (λ s'. resolve_all-Moved names s' t)
      where
        go :
            (o : Option (Res S))
            → s.resources name ≡ o
            → elim o as (λ _. Result (Diagnostics S) (State S)) [
              | none ↦ resolve_all library names s
              | some r ↦ resolve_res library s name r >>= resolve_all library names
            ]
              ≡ ok t
            → ((s' : State S)
                → IsPlainStore s'.progress.store
                → resolve_all library names s' ≡ ok t
                → Moved s' t
                  × ((n f : String) (a : ℕ)
                      → contains n names ≡ true
                      → IsCapsuleAt t.resources n f a
                      → Seen s' t a))
            → Moved s t
              × ((n f : String) (a : ℕ)
                  → (name == n || contains n names) ≡ true
                  → IsCapsuleAt t.resources n f a
                  → Seen s t a)
        go none there e rest =
            let (moved, seen) = rest s plain e in
            (
              moved,
              λ n f a among (q, is, found). elim (Bool-cases (name == n)) [
                | inl same ↦
                    let (q', was, _) = moved.2 n f a (q, is, found) in
                    let eq : name ≡ n = ground (arith, eq_iff name n) in
                    let nothing = subst (λ m. s.resources m ≡ none) eq there in cc
                | inr other ↦ seen n f a (rw other at among) (q, is, found)
              ],
            )
        go (some r) there e rest =
            let (s', resolved, e') = >>=-eq-ok (resolve_res library s name r) _ e in
            let (moved, seen) = resolve_res-Moved s name r there s' plain resolved in
            let (moved', seen') = rest s' (λ a. (moved.0.1 a).0 (plain a)) e' in
            (
              Moved-trans s s' t moved moved',
              λ n f a among h. elim (Bool-cases (name == n)) [
                | inl same ↦ Seen-after s s' t a moved'.0 (seen n f a same (moved'.2 n f a h))
                | inr other ↦ Seen-before s s' t a moved (seen' n f a (rw other at among) h)
              ],
            )
