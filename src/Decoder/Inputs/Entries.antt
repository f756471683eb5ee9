-- ===== src/Decoder/Inputs/Entries.antt =====
-- resource/hcldecoder/decoder.go, decodeInputs: steps that set a value or report an error.
use func.Prelude.{
  ◌⊎◌, String, ◌≡◌, refl, subst, true, false, ◌||◌, inl, inr, List, [], ◌∷◌, ◌++◌, Result, ok, All,
  arith,
}
use func.Schema.{Field}
use func.Decoder.{Value, Attributes, no_attributes, attribute_of, Diagnostics, has_errors}
use func.Decoder.Inputs.{Heap, Decoding, with_entry, with_diagnostics, attributes_of}

pub ok_injective : {E A : Type 0} {a b : A} → Path (Result E A) (ok a) (ok b) → a ≡ b
ok_injective h = cc

module _ {S : Type 0} where
  has_errors-append :
      (ds es : Diagnostics S) → has_errors (ds ++ es) ≡ (has_errors ds || has_errors es)
  unfolding has_errors
  has_errors-append [] es = refl
  has_errors-append (d ∷ ds) es = ground (arith, has_errors-append ds es)

  -- The value stands under the name.
  abbrev pub IsEntry : Attributes S → String → Value S → Type 0
  IsEntry no_attributes name v = ⊥
  IsEntry (attribute_of n w input) name v = ((n ≡ name) × (w ≡ v)) ⊎ IsEntry input name v

  -- A value that satisfies a predicate stands under the name.
  abbrev pub HasInput : (Value S → Type 0) → Attributes S → String → Type 0
  HasInput P input name = (v : Value S) × IsEntry input name v × P v

  abbrev pub Has : (Value S → Type 0) → Decoding S → String → Type 0
  Has P d name = HasInput P (attributes_of d.entries) name

  IsEntry-append :
      (entries more : List (String × Value S)) (n : String) (v : Value S)
      → IsEntry (attributes_of entries) n v
      → IsEntry (attributes_of (entries ++ more)) n v
  unfolding attributes_of
  IsEntry-append [] more n v h = absurd h
  IsEntry-append ((m, w) ∷ entries) more n v (inl h) = inl h
  IsEntry-append ((m, w) ∷ entries) more n v (inr h) = inr (IsEntry-append entries more n v h)

  IsEntry-last :
      (entries : List (String × Value S)) (n : String) (v : Value S)
      → IsEntry (attributes_of (entries ++ (n, v) ∷ [])) n v
  unfolding attributes_of
  IsEntry-last [] n v = inl (refl, refl)
  IsEntry-last ((m, w) ∷ entries) n v = inr (IsEntry-last entries n v)

  -- A step keeps the values that there are, and the errors.
  abbrev pub Grows : Decoding S → Decoding S → Type 0
  Grows d d' =
      ((n : String) (v : Value S)
        → IsEntry (attributes_of d.entries) n v
        → IsEntry (attributes_of d'.entries) n v)
      × (has_errors d'.diagnostics ≡ false → has_errors d.diagnostics ≡ false)

  pub Grows-same : (d d' : Decoding S) → d ≡ d' → Grows d d'
  Grows-same d d' e = subst (Grows d) e (λ n v h. h, λ h. h)

  pub Grows-trans : (d e f : Decoding S) → Grows d e → Grows e f → Grows d f
  Grows-trans d e f (has, errors) (has', errors') =
      (λ n v h. has' n v (has n v h), λ h. errors (errors' h))

  pub Has-Grows :
      (P : Value S → Type 0) (d e : Decoding S) (n : String) → Grows d e → Has P d n → Has P e n
  Has-Grows P d e n grows (v, has, p) = (v, grows.0 n v has, p)

  -- A step sets the name to a value that satisfies a predicate, or reports an error.
  abbrev pub Sets : Decoding S → String → (Value S → Type 0) → Decoding S → Type 0
  Sets d name P d' = Grows d d' × (has_errors d'.diagnostics ≡ false → Has P d' name)

  pub Sets-as :
      (P Q : Value S → Type 0) (d : Decoding S) (name : String) (d' : Decoding S)
      → ((v : Value S) → P v → Q v)
      → Sets d name P d'
      → Sets d name Q d'
  Sets-as P Q d name d' f (grows, has) = (grows, λ h. let (v, e, p) = has h in (v, e, f v p))

  pub entry-Sets :
      (P : Value S → Type 0) (d : Decoding S) (name : String) (v : Value S) (heap : Heap S)
      → P v
      → Sets d name P (record (with_entry d name v) { heap = heap })
  entry-Sets P d name v heap p = (
    (λ n w h. IsEntry-append d.entries ((name, v) ∷ []) n w h, λ h. h),
    λ h. (v, IsEntry-last d.entries name v, p),
  )

  -- A value is set behind other steps.
  pub after-Sets :
      (P : Value S → Type 0) (d e d' : Decoding S) (name : String) (v : Value S)
      → Grows d e
      → P v
      → with_entry e name v ≡ d'
      → Sets d name P d'
  after-Sets P d e d' name v grows p is =
      let (more, has) = entry-Sets P e name v e.heap p in
      subst (Sets d name P) is (Grows-trans d e (with_entry e name v) grows more, has)

  pub with_diagnostics-Grows :
      (d : Decoding S) (ds : Diagnostics S) → Grows d (with_diagnostics d ds)
  with_diagnostics-Grows d ds =
      (λ n v h. h, λ h. ground (arith, has_errors-append d.diagnostics ds))

  pub failed-Sets :
      (P : Value S → Type 0) (d : Decoding S) (name : String) (ds : Diagnostics S)
      → has_errors ds ≡ true
      → Sets d name P (with_diagnostics d ds)
  failed-Sets P d name ds failed = (
    with_diagnostics-Grows d ds,
    λ h.
        let e = has_errors-append d.diagnostics ds in
        let impossible : true ≡ false = ground (arith, e, failed, h) in cc,
  )

  -- More diagnostics in front of a step.
  pub later-Sets :
      (P : Value S → Type 0) (d : Decoding S) (ds : Diagnostics S) (name : String) (d' : Decoding S)
      → Sets (with_diagnostics d ds) name P d'
      → Sets d name P d'
  later-Sets P d ds name d' (grows, has) =
      (Grows-trans d (with_diagnostics d ds) d' (with_diagnostics-Grows d ds) grows, has)

  -- One field and the rest of a loop.
  pub loop-All :
      (P : String → Field → Value S → Type 0) (wanted : Field → Type 0)
      (rest : List (String × Field)) (d e d' : Decoding S) (name : String) (f : Field)
      → Sets d name (P name f) e
      → Grows e d'
      → All (λ x. wanted x.1 → has_errors d'.diagnostics ≡ false → Has (P x.0 x.1) d' x.0) rest
      → Grows d d'
        × (has_errors d'.diagnostics ≡ false → Has (P name f) d' name)
        × All (λ x. wanted x.1 → has_errors d'.diagnostics ≡ false → Has (P x.0 x.1) d' x.0) rest
  loop-All P wanted rest d e d' name f (grows, has) grows' all = (
    Grows-trans d e d' grows grows',
    λ h. Has-Grows (P name f) e d' name grows' (has (grows'.1 h)),
    all,
  )
