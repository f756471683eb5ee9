-- ===== src/Decoder/Resolve/Stuck.antt =====
-- resource/hcldecoder/decoder.go, resolveValues: an input that refers to an input which refers to an
-- output.
use mathlib.Core.Path.{fun_ext}
use mathlib.Core.List.{Memᴰ}
use func.Prelude.{
  ℕ, String, ◌≡◌, ◌≢◌, refl, sym, ap, subst, ◌∙◌, false, inl, inr, Bool-cases, Option, none, some,
  List, [], ◌∷◌, length, Result, ok, err, panic, ◌>>=◌, >>=-eq-ok, All, All-of_Mem, arith, eqb,
  ◌==◌, eq_iff, if◌then◌else◌,
}
use func.Cty.{CtyPath, get_attr_step, index_step}
use func.Expression.{Expression, references}
use func.Expression.Kept.{MadeHave}
use func.Expression.Parts.{merge_literals-parts}
use func.TypePath.{CtyType, attribute_type}
use func.Decoder.{
  Value, reference, Res, Resources, put_res, input_of, is_capsule, Library, Diagnostics,
  transform_attributes,
}
use func.Decoder.Transform.{transform_attributes-R, transform_attributes-visited}
use func.Decoder.Resolve.{
  Fate, kept, waits, replaced, Resolved, input_fate, output_fate, field_fate, fate, settle,
  Progress, State, visit, resolve_res, resolve_all, first_round, resolve_values, settled_value,
}
use func.Decoder.Resolve.Parts.{IsPlain, Resolves, at_end, pass, decide, Resolves-Stays}
use func.Decoder.Resolve.Visit.{IsPlainStore, write-related, Visited, visit-Visited}
use func.Decoder.Resolve.Round.{
  IsCapsuleAt, IsCovered, output_at, IsOutputIn, resolve_res-Moved, resolve_all-Moved,
}
use func.Decoder.Resolve.Settled.{resolve_values-IsOutputIn}

module _ {S : Type 0} where
  -- A reference whose fate is not to be replaced stays among the parts.
  Resolves-keeps :
      (rs : Resources S) (p : CtyPath (Value S)) (x : Fate S)
      → fate rs p ≡ ok x
      → ((v : Value S) → x ≢ replaced v)
      → {es : Expression (Value S)} {r : Resolved S} → Resolves rs es r
      → Memᴰ p (references es)
      → Memᴰ p (references r.parts)
  unfolding references settle
  Resolves-keeps rs p x is stays at_end m = m
  Resolves-keeps rs p x is stays (pass v h) m = Resolves-keeps rs p x is stays h m
  Resolves-keeps rs p x is stays (decide q kept e h) (Memᴰ.head same) = Memᴰ.head same
  Resolves-keeps rs p x is stays (decide q waits e h) (Memᴰ.head same) = Memᴰ.head same
  Resolves-keeps rs p x is stays (decide q (replaced v) e h) (Memᴰ.head same) =
      let e' = subst (λ q. fate rs q ≡ ok (replaced v)) (sym same) e in
      let both : x ≡ replaced v = cc in absurd (stays v both)
  Resolves-keeps rs p x is stays (decide q kept e h) (Memᴰ.tail m) =
      Memᴰ.tail (Resolves-keeps rs p x is stays h m)
  Resolves-keeps rs p x is stays (decide q waits e h) (Memᴰ.tail m) =
      Memᴰ.tail (Resolves-keeps rs p x is stays h m)
  Resolves-keeps rs p x is stays (decide q (replaced v) e h) (Memᴰ.tail m) =
      Resolves-keeps rs p x is stays h m

  waits-of :
      (rs : Resources S) (n f : String) (rest : CtyPath (Value S)) (a : ℕ)
      → output_at rs n f ≡ none
      → IsCapsuleAt rs n f a
      → fate rs (get_attr_step n ∷ get_attr_step f ∷ rest) ≡ ok waits
  unfolding fate field_fate input_fate output_at is_capsule
  waits-of rs n f rest a no_output (r, there, found) =
      let undeclared : attribute_type r.outputs f ≡ none = rw (output_at, there) at no_output in
      rw (fate, there) (rw (field_fate, undeclared) (rw (input_fate, found) refl))

  kept-of :
      (rs : Resources S) (q : CtyPath (Value S)) → IsOutputIn (output_at rs) q → fate rs q ≡ ok kept
  unfolding fate field_fate output_fate output_at
  kept-of rs [] h = absurd h
  kept-of rs (index_step k ∷ q) h = absurd h
  kept-of rs (get_attr_step n ∷ []) h = absurd h
  kept-of rs (get_attr_step n ∷ index_step k ∷ q) h = absurd h
  kept-of rs (get_attr_step n ∷ get_attr_step f ∷ q) (t, declared, (u, path)) =
      go (rs n) refl declared
    where
      go :
          (o : Option (Res S))
          → rs n ≡ o
          → elim o as (λ _. Option CtyType) [ none ↦ none | some r ↦ attribute_type r.outputs f ]
            ≡ some t
          → fate rs (get_attr_step n ∷ get_attr_step f ∷ q) ≡ ok kept
      go none e h = cc
      go (some r) e h = rw (fate, e) (rw (field_fate, h) (rw (output_fate, path) refl))

module _ {S G : Type 0} (library : Library S G) (rs : Resources S) (p : CtyPath (Value S))
    (x : Fate S) (is : fate rs p ≡ ok x) (stays : (v : Value S) → x ≢ replaced v) where
  visit-keeps :
      (path : CtyPath (Value S)) (c : ℕ) (t : Progress S) (v : Value S) (u : Progress S)
      → visit library rs path c t ≡ ok (v, u)
      → (d : ℕ) → Memᴰ p (references (t.store d).expression)
      → Memᴰ p (references (u.store d).expression)
  visit-keeps path c t v u h d = go u (visit-Visited library rs path c t v u h)
    where
      go :
          (u : Progress S)
          → Visited library rs c t v u
          → Memᴰ p (references (t.store d).expression)
          → Memᴰ p (references (u.store d).expression)
      go u w =
          subst
            (λ u.
              Memᴰ p (references (t.store d).expression)
              → Memᴰ p (references (u.store d).expression))
            (sym w.after)
            (write-related
              (λ c c'. Memᴰ p (references c.expression) → Memᴰ p (references c'.expression))
              (λ c m. m) t.store c (record (t.store c) { expression = w.merged })
              (λ m.
                subst (Memᴰ p)
                  (sym (merge_literals-parts library.cty w.resolved.parts w.merged w.merges).0)
                  (Resolves-keeps rs p x is stays w.resolves m))
              d)

  -- The capsule of an expression with such a reference stays.
  visit-stays :
      (path : CtyPath (Value S)) (c : ℕ) (t : Progress S) (v : Value S) (u : Progress S)
      → visit library rs path c t ≡ ok (v, u)
      → Memᴰ p (references (t.store c).expression)
      → v ≡ reference c
  unfolding settled_value
  visit-stays path c t v u h m =
      let w = visit-Visited library rs path c t v u h in
      let kept_in = Resolves-keeps rs p x is stays w.resolves m in
      let counted = (Resolves-Stays rs w.resolves).1 in
      let positive : eqb w.resolved.expr_refs 0 ≡ false =
        not_empty _ w.resolved.expr_refs p kept_in counted in
      let settles = rw positive at w.settles in cc
    where
      not_empty :
          (ps : List (CtyPath (Value S))) (n : ℕ) (p : CtyPath (Value S))
          → Memᴰ p ps
          → n ≡ length ps
          → eqb n 0 ≡ false
      not_empty [] n p m e = elim m [ ]
      not_empty (q ∷ qs) n p m e = ground (arith, e)

-- The input `x.f` refers to `y.g`, which is no output, and `y.g` is an input that refers to an output.
pub record IsStuck {S : Type 0} (s : State S) (x f y g : String) : Type 0 where
  pub from : ℕ
  pub over : ℕ
  pub rest : CtyPath (Value S)
  pub to_output : CtyPath (Value S)
  pub first : IsCapsuleAt s.resources x f from
  pub second : IsCapsuleAt s.resources y g over
  pub no_output : output_at s.resources y g ≡ none
  pub is_output : IsOutputIn (output_at s.resources) to_output
  pub refers :
      Memᴰ
        (get_attr_step y ∷ get_attr_step g ∷ rest)
        (references (s.progress.store from).expression)
  pub refers_to_output : Memᴰ to_output (references (s.progress.store over).expression)

IsStuck-first_round :
    {S : Type 0} (s : State S) (x f y g : String)
    → IsStuck s x f y g
    → IsStuck (first_round s) x f y g
unfolding first_round
IsStuck-first_round s x f y g stuck = record {
  from = stuck.from;
  over = stuck.over;
  rest = stuck.rest;
  to_output = stuck.to_output;
  first = stuck.first;
  second = stuck.second;
  no_output = stuck.no_output;
  is_output = stuck.is_output;
  refers = stuck.refers;
  refers_to_output = stuck.refers_to_output;
}

module _ {S G : Type 0} (library : Library S G) (made : MadeHave library.cty IsPlain) where
  -- One resource: a capsule whose expression has a reference that is not replaced stays.
  module _ (s : State S) (name : String) (r : Res S) (there : s.resources name ≡ some r)
      (t : State S) (h : resolve_res library s name r ≡ ok t) (p : CtyPath (Value S)) (x : Fate S)
      (is : fate s.resources p ≡ ok x) (stays : (v : Value S) → x ≢ replaced v) where
    abbrev Kept : Progress S → Progress S → Type 0
    Kept q u =
        (d : ℕ)
        → Memᴰ p (references (q.store d).expression)
        → Memᴰ p (references (u.store d).expression)

    resolve_res-keeps : Kept s.progress t.progress
    unfolding resolve_res
    resolve_res-keeps =
        let ((input, progress), transformed, h₁) =
          >>=-eq-ok (transform_attributes library (visit library s.resources) [] r.input s.progress)
            _ h in
        let e : progress ≡ t.progress = cc in
        subst (Kept s.progress) e (
          transform_attributes-R library (visit library s.resources) Kept (λ q d m. m)
            (λ q u v f g d m. g d (f d m))
            (λ path c q v u e. visit-keeps library s.resources p x is stays path c q v u e) []
            r.input s.progress input progress transformed)

    resolve_res-IsCapsuleAt :
        (n f : String) (a : ℕ)
        → Memᴰ p (references (s.progress.store a).expression)
        → IsCapsuleAt s.resources n f a
        → IsCapsuleAt t.resources n f a
    unfolding resolve_res put_res
    resolve_res-IsCapsuleAt n f a m (q, at_n, found) =
        let ((input, progress), transformed, h₁) =
          >>=-eq-ok (transform_attributes library (visit library s.resources) [] r.input s.progress)
            _ h in
        let e : put_res s.resources name (record r { input = input }) ≡ t.resources = cc in
        subst (λ rs. IsCapsuleAt rs n f a) e
          (elim (Bool-cases (name == n)) [
            | inr other ↦ (q, rw other at_n, found)
            | inl same ↦
                let key : name ≡ n = ground (arith, eq_iff name n) in
                let at_name = subst (λ n. s.resources n ≡ some q) (sym key) at_n in
                let is_r : q ≡ r = cc in
                let found_r = subst (λ q. input_of q.input f ≡ some (reference a)) is_r found in
                let (v, out, (path, before, behind, kept_before, visited)) =
                  transform_attributes-visited library (visit library s.resources) Kept (λ q d m. m)
                    (λ q u v f g d m. g d (f d m))
                    (λ path c q v u e. visit-keeps library s.resources p x is stays path c q v u e)
                    [] r.input s.progress input progress f a transformed found_r in
                let still =
                  visit-stays library s.resources p x is stays path a before v behind visited
                    (kept_before a m) in
                (record r { input = input }, rw same refl, out ∙ ap some still)
          ])

  resolve_res-IsStuck :
      (s : State S) (name : String) (r : Res S) (t : State S) (x f y g : String)
      → s.resources name ≡ some r
      → IsPlainStore s.progress.store
      → resolve_res library s name r ≡ ok t
      → IsStuck s x f y g
      → IsStuck t x f y g
  resolve_res-IsStuck s name r t x f y g there plain h stuck =
      let moved = (resolve_res-Moved library made s name r there t plain h).0 in
      let w = waits-of s.resources y g stuck.rest stuck.over stuck.no_output stuck.second in
      let k = kept-of s.resources stuck.to_output stuck.is_output in
      record {
        from = stuck.from;
        over = stuck.over;
        rest = stuck.rest;
        to_output = stuck.to_output;
        first =
            resolve_res-IsCapsuleAt s name r there t h _ waits w (λ v e. cc) x f stuck.from
              stuck.refers stuck.first;
        second =
            resolve_res-IsCapsuleAt s name r there t h _ kept k (λ v e. cc) y g stuck.over
              stuck.refers_to_output stuck.second;
        no_output = moved.1 y g ∙ stuck.no_output;
        is_output =
            subst (λ out. IsOutputIn out stuck.to_output)
              (fun_ext λ n. fun_ext λ m. sym (moved.1 n m)) stuck.is_output;
        refers = resolve_res-keeps s name r there t h _ waits w (λ v e. cc) stuck.from stuck.refers;
        refers_to_output =
            resolve_res-keeps s name r there t h _ kept k (λ v e. cc) stuck.over
              stuck.refers_to_output;
      }

  resolve_all-IsStuck :
      (names : List String) (s t : State S) (x f y g : String)
      → IsPlainStore s.progress.store
      → resolve_all library names s ≡ ok t
      → IsStuck s x f y g
      → IsStuck t x f y g
  unfolding resolve_all
  resolve_all-IsStuck [] s t x f y g plain h stuck =
      let e : s ≡ t = cc in subst (λ s. IsStuck s x f y g) e stuck
  resolve_all-IsStuck (name ∷ names) s t x f y g plain h stuck =
      go (s.resources name) refl h (λ s'. resolve_all-IsStuck names s' t x f y g)
    where
      go :
          (o : Option (Res S))
          → s.resources name ≡ o
          → elim o as (λ _. Result (Diagnostics S) (State S)) [
            | none ↦ resolve_all library names s
            | some r ↦ resolve_res library s name r >>= resolve_all library names
          ]
            ≡ ok t
          → ((s' : State S)
              → IsPlainStore s'.progress.store
              → resolve_all library names s' ≡ ok t
              → IsStuck s' x f y g
              → IsStuck t x f y g)
          → IsStuck t x f y g
      go none there e recur = recur s plain e stuck
      go (some r) there e recur =
          let (s', resolved, e') = >>=-eq-ok (resolve_res library s name r) _ e in
          let moved = (resolve_res-Moved library made s name r there s' plain resolved).0 in
          recur s' (λ a. (moved.0.1 a).0 (plain a)) e'
            (resolve_res-IsStuck s name r s' x f y g there plain resolved stuck)

  resolve_values-keeps :
      (rounds : List (List String)) (s t : State S) (x f y g : String)
      → IsPlainStore s.progress.store
      → resolve_values library rounds s ≡ some (ok t)
      → IsStuck s x f y g
      → IsStuck t x f y g
  unfolding resolve_values first_round
  resolve_values-keeps [] s t x f y g plain h stuck = cc
  resolve_values-keeps (names ∷ rounds) s t x f y g plain h stuck =
      go (resolve_all library names (first_round s)) refl h
        (λ s'. resolve_values-keeps rounds s' t x f y g)
    where
      go :
          (r : Result (Diagnostics S) (State S))
          → resolve_all library names (first_round s) ≡ r
          → elim r as (λ _. Option (Result (Diagnostics S) (State S))) [
            | ok u ↦
                if eqb u.progress.remaining_refs 0
                then some (ok u)
                else resolve_values library rounds u
            | err ds ↦ some (err ds)
            | panic ↦ some panic
          ]
            ≡ some (ok t)
          → ((s' : State S)
              → IsPlainStore s'.progress.store
              → resolve_values library rounds s' ≡ some (ok t)
              → IsStuck s' x f y g
              → IsStuck t x f y g)
          → IsStuck t x f y g
      go (err ds) e h' recur = cc
      go panic e h' recur = cc
      go (ok u) e h' recur =
          let (moved, _) = resolve_all-Moved library made names (first_round s) u plain e in
          let stuck_then =
            resolve_all-IsStuck names (first_round s) u x f y g plain e
              (IsStuck-first_round s x f y g stuck) in
          elim (Bool-cases (eqb u.progress.remaining_refs 0)) [
            | inl zero ↦
                let ended = rw zero at h' in
                let same : u ≡ t = cc in subst (λ t. IsStuck t x f y g) same stuck_then
            | inr more ↦ recur u (λ a. (moved.0.1 a).0 (plain a)) (rw more at h') stuck_then
          ]

  -- Let no literal of the expressions be a capsule and every round range over all resources with an
  -- unresolved input. If an input refers to an input of which the expression refers to an output, with
  -- a path that the type of the output has, then the loop never ends without an error, however many
  -- rounds there are.
  pub resolve_values-IsStuck :
      (rounds : List (List String)) (s t : State S) (x f y g : String)
      → IsPlainStore s.progress.store
      → All (IsCovered s) rounds
      → IsStuck s x f y g
      → resolve_values library rounds s ≢ some (ok t)
  resolve_values-IsStuck rounds s t x f y g plain covered stuck h =
      let after = resolve_values-keeps rounds s t x f y g plain h stuck in
      let all =
        resolve_values-IsOutputIn library rounds s t x f after.from made plain covered h
          after.first in
      let (ty, declared, _) = All-of_Mem _ _ all after.refers in
      let undeclared = stuck.no_output in cc
