-- ===== src/Decoder/Inputs/SetAttributes.antt =====
-- resource/hcldecoder/decoder.go, decodeAttributes: the values of the attributes.
use func.Prelude.{
  ◌⊎◌, ℕ, String, ◌≡◌, refl, sym, ap, subst, ◌∙◌, Bool, true, false, ◌||◌, ◌&&◌, inl, inr,
  Bool-cases, Option, none, some, List, [], ◌∷◌, ◌++◌, Result, ok, panic, ◌>>=◌, >>=-eq-ok, All,
  if◌then◌else◌,
}
use func.TypePath.{CtyType}
use func.Schema.{Field, FieldSet, cty_type}
use func.Decoder.{
  Value, static, reference, Diagnostics, has_errors, is_error, Cell, validate, unsuitable_type,
  is_converted,
}
use func.Decoder.Expr.{HclExpression, must_convert}
use func.Decoder.Inputs.{
  Decoding, DecodeLibrary, is_block, attribute_named, with_entry, with_diagnostics, with_capsule,
  convert_val, with_static, with_attribute, is_list_type, is_map_type, decode_attributes,
}
use func.Decoder.Inputs.Entries.{
  ok_injective, Has, Grows, Grows-same, Sets, Sets-as, entry-Sets, after-Sets, failed-Sets,
  later-Sets, loop-All,
}

module _ {S G : Type 0} (library : DecodeLibrary S G) where
  convert_val-none :
      (v : S) (typ : CtyType) (ds : Diagnostics S)
      → convert_val library v typ ≡ ok (none, ds)
      → has_errors ds ≡ true
  unfolding convert_val has_errors is_error
  convert_val-none v typ ds e = go (library.get_conversion v typ) e
    where
      chosen :
          (b : Bool) (w : S) (xs ys : Diagnostics S)
          → Path
              (Result (Diagnostics S) (Option S × Diagnostics S))
              (if b then ok (some w, xs) else ok (some w, ys))
              (ok (none, ds))
          → has_errors ds ≡ true
      chosen true w xs ys h = cc
      chosen false w xs ys h = cc

      go :
          (o : Option (Option S))
          → elim o as (λ _. Result (Diagnostics S) (Option S × Diagnostics S)) [
            | none ↦ ok (none, unsuitable_type typ ∷ [])
            | some none ↦ panic
            | some (some converted) ↦
                if (library.is_tuple v && is_list_type typ)
                  || (library.is_object v && is_map_type typ)
                then ok (some converted, [])
                else ok (some converted, is_converted typ ∷ [])
          ]
            ≡ ok (none, ds)
          → has_errors ds ≡ true
      go none h =
          let same : unsuitable_type typ ∷ [] ≡ ds = cc in
          subst (λ ds. has_errors ds ≡ true) same refl
      go (some none) h = cc
      go (some (some converted)) h = chosen _ converted _ _ h

  convert_val-some :
      (v w : S) (typ : CtyType) (ds : Diagnostics S)
      → convert_val library v typ ≡ ok (some w, ds)
      → library.get_conversion v typ ≡ some (some w)
  unfolding convert_val
  convert_val-some v w typ ds e = go (library.get_conversion v typ) e
    where
      chosen :
          (b : Bool) (u : S) (xs ys : Diagnostics S)
          → Path
              (Result (Diagnostics S) (Option S × Diagnostics S))
              (if b then ok (some u, xs) else ok (some u, ys))
              (ok (some w, ds))
          → u ≡ w
      chosen true u xs ys h = cc
      chosen false u xs ys h = cc

      go :
          (o : Option (Option S))
          → elim o as (λ _. Result (Diagnostics S) (Option S × Diagnostics S)) [
            | none ↦ ok (none, unsuitable_type typ ∷ [])
            | some none ↦ panic
            | some (some converted) ↦
                if (library.is_tuple v && is_list_type typ)
                  || (library.is_object v && is_map_type typ)
                then ok (some converted, [])
                else ok (some converted, is_converted typ ∷ [])
          ]
            ≡ ok (some w, ds)
          → o ≡ some (some w)
      go none h = cc
      go (some none) h = cc
      go (some (some converted)) h = ap (λ u. some (some u)) (chosen _ converted _ _ h)

  -- The value that is written for an evaluated one: itself if it has the type, and what it is
  -- converted to otherwise.
  abbrev pub IsConverted : S → CtyType → Value S → Type 0
  IsConverted v typ x =
      (w : S) × (x ≡ static w)
      × (((library.has_type v typ ≡ true) × (w ≡ v))
          ⊎ ((library.has_type v typ ≡ false) × (library.get_conversion v typ ≡ some (some w))))

  -- The value of an attribute that is set: a capsule if it has variables, and its own otherwise.
  abbrev pub IsAssigned : HclExpression S → CtyType → Value S → Type 0
  IsAssigned x typ v =
      ((library.hcl.has_variables x ≡ true) × (address : ℕ) × (v ≡ reference address))
      ⊎ ((library.hcl.has_variables x ≡ false)
          × (w : S) × (library.hcl.static_value x ≡ some w)
          × IsConverted w typ v)

  -- The value of an attribute of the type: null if it is not set.
  abbrev pub IsValueOf : Option (HclExpression S) → CtyType → Value S → Type 0
  IsValueOf none typ v = v ≡ static (library.null_val typ)
  IsValueOf (some x) typ v = IsAssigned x typ v

  abbrev pub IsAttribute : List (String × HclExpression S) → String → Field → Value S → Type 0
  IsAttribute attributes name f v =
      (typ : CtyType) × (cty_type {E = Diagnostics S} f.type_of_field ≡ ok typ)
      × IsValueOf (attribute_named attributes name) typ v

  with_static-Sets :
      (d : Decoding S) (name : String) (f : Field) (typ : CtyType) (v : S) (d' : Decoding S)
      → with_static library d name f typ v ≡ ok d'
      → Sets d name (IsConverted v typ) d'
  unfolding with_static
  with_static-Sets d name f typ v d' h = elim (Bool-cases (library.has_type v typ)) [
    | inl same ↦ checked v [] (inl (same, refl)) (rw same at h)
    | inr other ↦
        let ((w, ds), converted, e) = >>=-eq-ok (convert_val library v typ) _ (rw other at h) in
        go w ds other converted e
  ]
    where
      checked :
          (w : S) (ds : Diagnostics S)
          → ((library.has_type v typ ≡ true) × (w ≡ v))
            ⊎ ((library.has_type v typ ≡ false) × (library.get_conversion v typ ≡ some (some w)))
          → (validate library.base (static w) f >>= λ invalid.
              ok (with_entry (with_diagnostics d (ds ++ invalid)) name (static w)))
            ≡ ok d'
          → Sets d name (IsConverted v typ) d'
      checked w ds from e =
          let (invalid, valid, is) = >>=-eq-ok (validate library.base (static w) f) _ e in
          let same : with_entry (with_diagnostics d (ds ++ invalid)) name (static w) ≡ d' = cc in
          later-Sets (IsConverted v typ) d (ds ++ invalid) name d' (
            after-Sets (IsConverted v typ) (with_diagnostics d (ds ++ invalid))
              (with_diagnostics d (ds ++ invalid)) d' name (static w)
              (Grows-same (with_diagnostics d (ds ++ invalid)) (with_diagnostics d (ds ++ invalid))
                refl)
              (w, refl, from) same)

      go :
          (w : Option S) (ds : Diagnostics S)
          → library.has_type v typ ≡ false
          → convert_val library v typ ≡ ok (w, ds)
          → elim w as (λ _. Result (Diagnostics S) (Decoding S)) [
            | none ↦ ok (with_diagnostics d ds)
            | some w ↦ validate library.base (static w) f >>= λ invalid.
                ok (with_entry (with_diagnostics d (ds ++ invalid)) name (static w))
          ]
            ≡ ok d'
          → Sets d name (IsConverted v typ) d'
      go none ds other converted e =
          let same : with_diagnostics d ds ≡ d' = cc in
          subst (Sets d name (IsConverted v typ)) same
            (failed-Sets (IsConverted v typ) d name ds (convert_val-none v typ ds converted))
      go (some w) ds other converted e =
          checked w ds (inr (other, convert_val-some v w typ ds converted)) e

  module _
      (law : (x : HclExpression S)
        → library.hcl.static_value x ≡ none
        → has_errors (library.value_diagnostics x) ≡ true) where
    with_attribute-Sets :
        (d : Decoding S) (name : String) (f : Field) (typ : CtyType) (x : HclExpression S)
        (d' : Decoding S)
        → with_attribute library d name f typ x ≡ ok d'
        → Sets d name (IsAssigned x typ) d'
    unfolding with_attribute with_capsule
    with_attribute-Sets d name f typ x d' h = elim (Bool-cases (library.hcl.has_variables x)) [
      | inl dynamic ↦
          let (e, converted, is) = >>=-eq-ok (must_convert library.hcl x) _ (rw dynamic at h) in
          let cell : Cell S = record { field = f; input_type = typ; expression = e } in
          let same : with_capsule d name cell ≡ d' = cc in
          subst (Sets d name (IsAssigned x typ)) same (
            entry-Sets (IsAssigned x typ) d name (reference d.heap.next)
              (with_capsule d name cell).heap (inl (dynamic, d.heap.next, refl)))
      | inr fixed ↦ go fixed (library.hcl.static_value x) refl (rw fixed at h)
    ]
      where
        ds : Diagnostics S
        ds = library.value_diagnostics x

        go :
            library.hcl.has_variables x ≡ false
            → (o : Option S) → library.hcl.static_value x ≡ o
            → elim o as (λ _. Result (Diagnostics S) (Decoding S)) [
              | none ↦ ok (with_diagnostics d ds)
              | some v ↦ with_static library (with_diagnostics d ds) name f typ v
            ]
              ≡ ok d'
            → Sets d name (IsAssigned x typ) d'
        go fixed none is e =
            let same : with_diagnostics d ds ≡ d' = cc in
            subst (Sets d name (IsAssigned x typ)) same
              (failed-Sets (IsAssigned x typ) d name ds (law x is))
        go fixed (some v) is e = later-Sets (IsAssigned x typ) d ds name d' (
            Sets-as (IsConverted v typ) (IsAssigned x typ) (with_diagnostics d ds) name d'
              (λ w c. inr (fixed, v, is, c))
              (with_static-Sets (with_diagnostics d ds) name f typ v d' e))

    pub decode_attributes-Has :
        (attributes : List (String × HclExpression S)) (ff : FieldSet) (d d' : Decoding S)
        → decode_attributes library attributes ff d ≡ ok d'
        → Grows d d'
          × All
              (λ x.
                is_block x.1.type_of_field ≡ false
                → has_errors d'.diagnostics ≡ false
                → Has (IsAttribute attributes x.0 x.1) d' x.0)
              ff
    unfolding decode_attributes
    decode_attributes-Has attributes [] d d' h = let e : d ≡ d' = cc in (Grows-same d d' e, tt)
    decode_attributes-Has attributes ((name, f) ∷ ff) d d' h =
        elim (Bool-cases (is_block f.type_of_field)) [
          | inl block ↦
              let (grows, all) = decode_attributes-Has attributes ff d d' (rw block at h) in
              (grows, (λ not_block. let both : true ≡ false = sym block ∙ not_block in cc, all))
          | inr not_block ↦
              let (typ, typed, h₁) = >>=-eq-ok (cty_type f.type_of_field) _ (rw not_block at h) in
              let (e, set, h₂) = >>=-eq-ok _ (decode_attributes library attributes ff) h₁ in
              let (grows, all) = decode_attributes-Has attributes ff e d' h₂ in
              let (grows', has, all') =
                loop-All (IsAttribute attributes) (λ f. is_block f.type_of_field ≡ false) ff d e d'
                  name f
                  (Sets-as (IsValueOf (attribute_named attributes name) typ)
                    (IsAttribute attributes name f) d name e (λ v is. (typ, typed, is))
                    (go typ (attribute_named attributes name) e set))
                  grows all in
              (grows', (λ n. has, all'))
        ]
      where
        go :
            (typ : CtyType) (o : Option (HclExpression S)) (e : Decoding S)
            → elim o as (λ _. Result (Diagnostics S) (Decoding S)) [
              | none ↦ ok (with_entry d name (static (library.null_val typ)))
              | some x ↦ with_attribute library d name f typ x
            ]
              ≡ ok e
            → Sets d name (IsValueOf o typ) e
        go typ none e h =
            after-Sets (IsValueOf none typ) d d e name (static (library.null_val typ))
              (Grows-same d d refl) refl (ok_injective h)
        go typ (some x) e h = with_attribute-Sets d name f typ x e h
