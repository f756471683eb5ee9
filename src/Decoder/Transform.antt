-- ===== src/Decoder/Transform.antt =====
-- cty.Transform over the inputs: what a callback does to the state, and to the attributes.
use func.Prelude.{
  ℕ, suc, String, ◌≡◌, refl, sym, ap, subst, inl, inr, Bool-cases, some, [], ◌∷◌, ◌++◌, Result, ok,
  >>=-eq-ok, ◌==◌, arith,
}
use func.Cty.{CtyPath, get_attr_step}
use func.Decoder.{
  Value, static, reference, object, list, Attributes, no_attributes, attribute_of, Elements,
  no_elements, next_element, Diagnostics, Library, input_of, list_val, transform,
  transform_attributes, transform_elements,
}

module _ {ℓ} {S G : Type 0} (library : Library S G) {T : Type 0}
    (visit : CtyPath (Value S) → ℕ → T → Result (Diagnostics S) (Value S × T)) (R : T → T → Type ℓ)
    (R-refl : (t : T) → R t t) (R-trans : (t u v : T) → R t u → R u v → R t v)
    (R-visit : (path : CtyPath (Value S)) (a : ℕ) (t : T) (v : Value S) (u : T)
      → visit path a t ≡ ok (v, u)
      → R t u) where
  -- A reflexive and transitive relation that the callback respects holds between the states before
  -- and after.
  mutual
    unfolding transform transform_attributes transform_elements

    pub transform-R :
        (path : CtyPath (Value S)) (v : Value S) (t : T) (w : Value S) (u : T)
        → transform library visit path v t ≡ ok (w, u)
        → R t u
    transform-R path (static s) t w u h = let e : t ≡ u = cc in subst (R t) e (R-refl t)
    transform-R path (reference a) t w u h = R-visit path a t w u h
    transform-R path (object fs) t w u h =
        let ((fs', t'), fields, h₁) =
          >>=-eq-ok (transform_attributes library visit path fs t) _ h in
        let e : t' ≡ u = cc in subst (R t) e (transform_attributes-R path fs t fs' t' fields)
    transform-R path (list es) t w u h =
        let ((es', t'), elements, h₁) =
          >>=-eq-ok (transform_elements library visit path 0 es t) _ h in
        let (l, listed, h₂) = >>=-eq-ok (list_val library.same_type es') _ h₁ in
        let e : t' ≡ u = cc in subst (R t) e (transform_elements-R path 0 es t es' t' elements)

    pub transform_attributes-R :
        (path : CtyPath (Value S)) (fs : Attributes S) (t : T) (fs' : Attributes S) (u : T)
        → transform_attributes library visit path fs t ≡ ok (fs', u)
        → R t u
    transform_attributes-R path no_attributes t fs' u h =
        let e : t ≡ u = cc in subst (R t) e (R-refl t)
    transform_attributes-R path (attribute_of name v fs) t fs' u h =
        let ((v', t'), first, h₁) = >>=-eq-ok (transform library visit _ v t) _ h in
        let ((gs, t''), rest, h₂) =
          >>=-eq-ok (transform_attributes library visit path fs t') _ h₁ in
        let e : t'' ≡ u = cc in
        subst (R t) e (
          R-trans t t' t'' (transform-R _ v t v' t' first)
            (transform_attributes-R path fs t' gs t'' rest))

    transform_elements-R :
        (path : CtyPath (Value S)) (i : ℕ) (es : Elements S) (t : T) (es' : Elements S) (u : T)
        → transform_elements library visit path i es t ≡ ok (es', u)
        → R t u
    transform_elements-R path i no_elements t es' u h =
        let e : t ≡ u = cc in subst (R t) e (R-refl t)
    transform_elements-R path i (next_element v es) t es' u h =
        let ((v', t'), first, h₁) = >>=-eq-ok (transform library visit _ v t) _ h in
        let ((gs, t''), rest, h₂) =
          >>=-eq-ok (transform_elements library visit path (suc i) es t') _ h₁ in
        let e : t'' ≡ u = cc in
        subst (R t) e (
          R-trans t t' t'' (transform-R _ v t v' t' first)
            (transform_elements-R path (suc i) es t' gs t'' rest))

  -- A capsule that is left was visited in a state in between, and the visit left it.
  pub record Survived (a : ℕ) (t u : T) : Type ℓ where
    pub path_to : CtyPath (Value S)
    pub before : T
    pub behind : T
    pub visited : visit path_to a before ≡ ok (reference a, behind)
    pub to_before : R t before
    pub from_behind : R behind u

  Survived-after : (a : ℕ) (t u v : T) → Survived a t u → R u v → Survived a t v
  Survived-after a t u v s r = record {
    path_to = s.path_to;
    before = s.before;
    behind = s.behind;
    visited = s.visited;
    to_before = s.to_before;
    from_behind = R-trans s.behind u v s.from_behind r;
  }

  Survived-earlier : (a : ℕ) (t u v : T) → R t u → Survived a u v → Survived a t v
  Survived-earlier a t u v r s = record {
    path_to = s.path_to;
    before = s.before;
    behind = s.behind;
    visited = s.visited;
    to_before = R-trans t u s.before r s.to_before;
    from_behind = s.from_behind;
  }

  -- The first attribute of a name is what the callback makes of it, if it is a capsule.
  pub transform_attributes-visited :
      (path : CtyPath (Value S)) (fs : Attributes S) (t : T) (fs' : Attributes S) (u : T)
      (name : String) (a : ℕ)
      → transform_attributes library visit path fs t ≡ ok (fs', u)
      → input_of fs name ≡ some (reference a)
      → (v : Value S) × (input_of fs' name ≡ some v)
        × ((path_to : CtyPath (Value S)) × (before : T) × (behind : T) × R t before
            × (visit path_to a before ≡ ok (v, behind)))
  unfolding transform transform_attributes input_of
  transform_attributes-visited path no_attributes t fs' u name a h found = cc
  transform_attributes-visited path (attribute_of n v fs) t fs' u name a h found =
      let ((v', t'), first, h₁) = >>=-eq-ok (transform library visit _ v t) _ h in
      let ((gs, t''), rest, h₂) = >>=-eq-ok (transform_attributes library visit path fs t') _ h₁ in
      let e : fs' ≡ attribute_of n v' gs = cc in
      elim (Bool-cases (n == name)) [
        | inl same ↦
            let is : v ≡ reference a = ground (arith, rw same at found) in
            (
              v',
              subst (λ x. input_of x name ≡ some v') (sym e) (rw same refl),
              (
                path ++ get_attr_step n ∷ [],
                t,
                t',
                R-refl t,
                subst
                    (λ x. transform library visit (path ++ get_attr_step n ∷ []) x t ≡ ok (v', t'))
                    is first,
              ),
            )
        | inr other ↦
            let (w, there, (path_to, before, behind, r, visited)) =
              transform_attributes-visited path fs t' gs t'' name a rest (rw other at found) in
            (
              w,
              subst (λ x. input_of x name ≡ some w) (sym e) (rw other there),
              (
                path_to,
                before,
                behind,
                R-trans t t' before (transform-R _ v t v' t' first) r,
                visited,
              ),
            )
      ]

  module _ {κ} (Inv : T → Type κ) (R-Inv : (t u : T) → R t u → Inv t → Inv u)
      (own : (path : CtyPath (Value S)) (a : ℕ) (t : T) (b : ℕ) (u : T)
        → Inv t
        → visit path a t ≡ ok (reference b, u)
        → b ≡ a) where
    transform-Survived :
        (path : CtyPath (Value S)) (v : Value S) (t : T) (a : ℕ) (u : T)
        → Inv t
        → transform library visit path v t ≡ ok (reference a, u)
        → (v ≡ reference a) × Survived a t u
    unfolding transform list_val
    transform-Survived path (static s) t a u inv h = cc
    transform-Survived path (reference b) t a u inv h =
        let same = own path b t a u inv h in
        (
          ap reference (sym same),
          record {
            path_to = path;
            before = t;
            behind = u;
            visited = subst (λ x. visit path x t ≡ ok (reference a, u)) (sym same) h;
            to_before = R-refl t;
            from_behind = R-refl u;
          },
        )
    transform-Survived path (object fs) t a u inv h =
        let (r, fields, h₁) = >>=-eq-ok (transform_attributes library visit path fs t) _ h in cc
    transform-Survived path (list es) t a u inv h =
        let (r, elements, h₁) = >>=-eq-ok (transform_elements library visit path 0 es t) _ h in
        let (l, listed, h₂) = >>=-eq-ok (list_val library.same_type r.0) _ h₁ in ground arith

    pub transform_attributes-Survived :
        (path : CtyPath (Value S)) (fs : Attributes S) (t : T) (fs' : Attributes S) (u : T)
        (name : String) (a : ℕ)
        → Inv t
        → transform_attributes library visit path fs t ≡ ok (fs', u)
        → input_of fs' name ≡ some (reference a)
        → (input_of fs name ≡ some (reference a)) × Survived a t u
    unfolding transform_attributes input_of
    transform_attributes-Survived path no_attributes t fs' u name a inv h found =
        let e : fs' ≡ no_attributes = cc in let impossible = rw e at found in cc
    transform_attributes-Survived path (attribute_of n v fs) t fs' u name a inv h found =
        let ((v', t'), first, h₁) = >>=-eq-ok (transform library visit _ v t) _ h in
        let ((gs, t''), rest, h₂) =
          >>=-eq-ok (transform_attributes library visit path fs t') _ h₁ in
        let e : fs' ≡ attribute_of n v' gs = cc in
        let end : t'' ≡ u = cc in
        let found' = rw e at found in
        let first-R = transform-R _ v t v' t' first in
        elim (Bool-cases (n == name)) [
          | inl same ↦
              let v-eq : v' ≡ reference a = ground arith in
              let (was, s) = transform-Survived _ v t a t' inv (
                subst (λ x. transform library visit (path ++ get_attr_step n ∷ []) v t ≡ ok (x, t'))
                  v-eq first) in
              (
                rw (same, was) refl,
                Survived-after a t t' u s
                    (subst (R t') end (transform_attributes-R path fs t' gs t'' rest)),
              )
          | inr other ↦
              let (was, s) =
                transform_attributes-Survived path fs t' gs t'' name a (R-Inv t t' first-R inv) rest
                  (rw other at found') in
              (
                rw (other, was) refl,
                Survived-earlier a t t' u first-R (subst (Survived a t') end s),
              )
        ]
