-- ===== src/Patch/Escape.antt =====
-- jsonpath: the escaping of RFC 6901, which an API gateway takes back.
use func.Prelude.{
  ℕ, ◌≡◌, refl, ap, sym, subst, ◌∙◌, false, ◌&&◌, [], ◌∷◌, eqb, arith, Bool-cases, inl, inr,
  if◌then◌else◌,
}
use func.Cty.{Bytes}
use func.Patch.{replace_byte, jsonpath}

-- The reference token that an escaped text stands for, by RFC 6901.
unfoldable pub unescape : Bytes → Bytes
unescape [] = []
unescape (b ∷ []) = b ∷ []
unescape (b ∷ c ∷ cs) =
    let kept = b ∷ unescape (c ∷ cs) in
    let rest = unescape cs in
    if eqb b b'~' && eqb c b'0'
    then b'~' ∷ rest
    else if eqb b b'~' && eqb c b'1'
    then b'/' ∷ rest
    else kept

-- A byte that is not a tilde is kept.
unescape-other : (b : ℕ) (bs : Bytes) → eqb b b'~' ≡ false → unescape (b ∷ bs) ≡ b ∷ unescape bs
unfolding unescape
unescape-other b [] h = refl
unescape-other b (c ∷ cs) h = ground arith

-- The escaping of jsonpath loses nothing: the text that it makes stands for the given one.
pub unescape-jsonpath : (s : Bytes) → unescape (jsonpath s) ≡ s
unfolding unescape jsonpath replace_byte
unescape-jsonpath [] = refl
unescape-jsonpath (b ∷ bs) = elim (Bool-cases (eqb b b'~')) [
  | inl tilde ↦
      let e : b ≡ b'~' = ground arith in
      subst (λ x. unescape (jsonpath (x ∷ bs)) ≡ x ∷ bs) (sym e)
        (ap (λ r. b'~' ∷ r) (unescape-jsonpath bs))
  | inr other ↦ elim (Bool-cases (eqb b b'/')) [
    | inl slash ↦
        let e : b ≡ b'/' = ground arith in
        subst (λ x. unescape (jsonpath (x ∷ bs)) ≡ x ∷ bs) (sym e)
          (ap (λ r. b'/' ∷ r) (unescape-jsonpath bs))
    | inr plain ↦
        rw (other, plain)
          (unescape-other b (jsonpath bs) other ∙ ap (λ r. b ∷ r) (unescape-jsonpath bs))
  ]
]
