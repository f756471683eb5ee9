-- ===== src/Decoder/Inputs/SetBlocks.antt =====
-- resource/hcldecoder/decoder.go, decodeBlocks: the values of the blocks.
use func.Prelude.{
  String, ◌≡◌, refl, sym, subst, ◌∙◌, true, false, inl, inr, Bool-cases, List, [], ◌∷◌, ok,
  >>=-eq-ok, All,
}
use func.TypePath.{CtyType}
use func.Schema.{FieldSet, GoType, slice, cty_type, fields}
use func.Decoder.{
  Value, static, object, Attributes, Elements, Diagnostics, has_errors, is_error, list_val,
  missing_block, duplicate_block,
}
use func.Decoder.Inputs.{
  Decoding, DecodeLibrary, is_required, is_block, with_diagnostics, BodyDecoder, blocks_named,
  decode_block, decode_slice, decode_many, decode_one, decode_field, decode_blocks,
}
use func.Decoder.Inputs.Entries.{
  ok_injective, Has, Grows, Grows-same, Grows-trans, Sets, after-Sets, with_diagnostics-Grows,
  failed-Sets, loop-All,
}

module _ {S G : Type 0} (library : DecodeLibrary S G) where
  decode_block-Grows :
      (t : GoType) (decoder : BodyDecoder S) (d : Decoding S) (input : Attributes S)
      (d' : Decoding S)
      → decode_block library t decoder d ≡ ok (input, d')
      → Grows d d'
  unfolding decode_block
  decode_block-Grows t decoder d input d' h =
      let (ff, typed, h₁) = >>=-eq-ok (fields t) _ h in
      let ((input', ds, heap), decoded, h₂) = >>=-eq-ok (decoder ff d.heap) _ h₁ in
      let e : record (with_diagnostics d ds) { heap = heap } ≡ d' = cc in
      subst (Grows d) e (with_diagnostics-Grows d ds)

  decode_slice-Grows :
      (elem : GoType) (decoders : List (BodyDecoder S)) (d : Decoding S) (es : Elements S)
      (d' : Decoding S)
      → decode_slice library elem decoders d ≡ ok (es, d')
      → Grows d d'
  unfolding decode_slice
  decode_slice-Grows elem [] d es d' h = let e : d ≡ d' = cc in Grows-same d d' e
  decode_slice-Grows elem (decoder ∷ decoders) d es d' h =
      let ((input, d₁), first, h₁) = >>=-eq-ok (decode_block library elem decoder d) _ h in
      let ((es', d₂), rest, h₂) = >>=-eq-ok (decode_slice library elem decoders d₁) _ h₁ in
      let e : d₂ ≡ d' = cc in
      subst (Grows d) e (
        Grows-trans d d₁ d₂ (decode_block-Grows elem decoder d input d₁ first)
          (decode_slice-Grows elem decoders d₁ es' d₂ rest))

  -- The value of a field of slice type: empty without a block, and else the list of the blocks.
  abbrev pub IsMany : GoType → List (BodyDecoder S) → Value S → Type 0
  IsMany elem [] v =
      (t : CtyType) × (cty_type {E = Diagnostics S} elem ≡ ok t)
      × (v ≡ static (library.list_val_empty t))
  IsMany elem (decoder ∷ decoders) v =
      (es : Elements S) × (list_val {E = Diagnostics S} library.base.same_type es ≡ ok v)

  -- The value of a field of another type: null without a block, which must be optional then.
  abbrev pub IsOne : GoType → List (BodyDecoder S) → Value S → Type 0
  IsOne t [] v =
      (is_required t ≡ false)
      × (u : CtyType) × (cty_type {E = Diagnostics S} t ≡ ok u)
      × (v ≡ static (library.null_val u))
  IsOne t (decoder ∷ []) v = (input : Attributes S) × (v ≡ object input)
  IsOne t (decoder ∷ other ∷ decoders) v = ⊥

  abbrev pub IsBlock : GoType → List (BodyDecoder S) → Value S → Type 0
  IsBlock (slice elem) decoders v = IsMany elem decoders v
  IsBlock t decoders v = IsOne t decoders v

  decode_many-Sets :
      (name : String) (elem : GoType) (decoders : List (BodyDecoder S)) (d d' : Decoding S)
      → decode_many library name elem decoders d ≡ ok d'
      → Sets d name (IsMany elem decoders) d'
  unfolding decode_many
  decode_many-Sets name elem [] d d' h =
      let (t, typed, h₁) = >>=-eq-ok (cty_type elem) _ h in
      after-Sets (IsMany elem []) d d d' name (static (library.list_val_empty t))
        (Grows-same d d refl) (t, typed, refl) (ok_injective h₁)
  decode_many-Sets name elem (decoder ∷ decoders) d d' h =
      let ((es, e), decoded, h₁) =
        >>=-eq-ok (decode_slice library elem (decoder ∷ decoders) d) _ h in
      let (v, listed, h₂) = >>=-eq-ok (list_val library.base.same_type es) _ h₁ in
      after-Sets (IsMany elem (decoder ∷ decoders)) d e d' name v
        (decode_slice-Grows elem (decoder ∷ decoders) d es e decoded) (es, listed) (ok_injective h₂)

  decode_one-Sets :
      (name : String) (t : GoType) (decoders : List (BodyDecoder S)) (d d' : Decoding S)
      → decode_one library name t decoders d ≡ ok d'
      → Sets d name (IsOne t decoders) d'
  unfolding decode_one has_errors is_error
  decode_one-Sets name t [] d d' h = elim (Bool-cases (is_required t)) [
    | inl required ↦
        let same : with_diagnostics d (missing_block name ∷ []) ≡ d' =
          ok_injective (rw required at h) in
        subst (Sets d name (IsOne t [])) same
          (failed-Sets (IsOne t []) d name (missing_block name ∷ []) refl)
    | inr optional ↦
        let (u, typed, h₁) = >>=-eq-ok (cty_type t) _ (rw optional at h) in
        after-Sets (IsOne t []) d d d' name (static (library.null_val u)) (Grows-same d d refl)
          (optional, u, typed, refl) (ok_injective h₁)
  ]
  decode_one-Sets name t (decoder ∷ []) d d' h =
      let ((input, e), decoded, h₁) = >>=-eq-ok (decode_block library t decoder d) _ h in
      after-Sets (IsOne t (decoder ∷ [])) d e d' name (object input)
        (decode_block-Grows t decoder d input e decoded) (input, refl) (ok_injective h₁)
  decode_one-Sets name t (decoder ∷ other ∷ decoders) d d' h =
      let same : with_diagnostics d (duplicate_block name ∷ []) ≡ d' = ok_injective h in
      subst (Sets d name (IsOne t (decoder ∷ other ∷ decoders))) same
        (failed-Sets (IsOne t (decoder ∷ other ∷ decoders)) d name (duplicate_block name ∷ []) refl)

  decode_field-Sets :
      (name : String) (t : GoType) (decoders : List (BodyDecoder S)) (d d' : Decoding S)
      → decode_field library name t decoders d ≡ ok d'
      → Sets d name (IsBlock t decoders) d'
  unfolding decode_field
  decode_field-Sets name (slice elem) decoders d d' h = decode_many-Sets name elem decoders d d' h
  decode_field-Sets name (GoType.pointer t) decoders d d' h =
      decode_one-Sets name (GoType.pointer t) decoders d d' h
  decode_field-Sets name t decoders d d' h = decode_one-Sets name t decoders d d' h

  pub decode_blocks-Has :
      (blocks : List (String × BodyDecoder S)) (ff : FieldSet) (d d' : Decoding S)
      → decode_blocks library blocks ff d ≡ ok d'
      → Grows d d'
        × All
            (λ x.
              is_block x.1.type_of_field ≡ true
              → has_errors d'.diagnostics ≡ false
              → Has (IsBlock x.1.type_of_field (blocks_named blocks x.0)) d' x.0)
            ff
  unfolding decode_blocks
  decode_blocks-Has blocks [] d d' h = let e : d ≡ d' = cc in (Grows-same d d' e, tt)
  decode_blocks-Has blocks ((name, f) ∷ ff) d d' h = elim (Bool-cases (is_block f.type_of_field)) [
    | inr not_block ↦
        let (grows, all) = decode_blocks-Has blocks ff d d' (rw not_block at h) in
        (grows, (λ block. let both : false ≡ true = sym not_block ∙ block in cc, all))
    | inl block ↦
        let (e, set, h₁) =
          >>=-eq-ok (decode_field library name f.type_of_field (blocks_named blocks name) d)
            (decode_blocks library blocks ff) (rw block at h) in
        let (grows, all) = decode_blocks-Has blocks ff e d' h₁ in
        let (grows', has, all') =
          loop-All (λ n f. IsBlock f.type_of_field (blocks_named blocks n))
            (λ f. is_block f.type_of_field ≡ true) ff d e d' name f
            (decode_field-Sets name f.type_of_field (blocks_named blocks name) d e set) grows all in
        (grows', (λ b. has, all'))
  ]
