-- ===== src/Expression/Text.antt =====
-- resource/expression.go: what the loop over the parts writes to the buffer.
use mathlib.Core.List.{append-nil, append_assoc}
use func.Prelude.{
  ◌≡◌, refl, sym, ap, ◌∙◌, inl, inr, true, Bool-cases, List, [], ◌∷◌, ◌++◌, map, Result, ok, err,
  panic, ◌>>=◌, >>=-eq-ok, arith,
}
use func.Cty.{Cty, CtyError, Bytes, StringLaws}
use func.Expression.{Expression, expr_literal, convert, text, concat, join_values}

module _ {V : Type 0} (c : Cty V) (laws : StringLaws c) (buf : Bytes) where
  string_step :
      (s : Bytes) (rest : List V)
      → concat c buf (c.string_val s ∷ rest) ≡ concat c (buf ++ laws.normalized s) rest
  unfolding concat
  string_step s rest =
      ground
        (arith, laws.known-string_val s, laws.conversion-string_val s, laws.as_string-string_val s)

  unknown_step : (rest : List V) → concat c buf (c.unknown_string ∷ rest) ≡ ok c.unknown_string
  unfolding concat
  unknown_step rest = rw laws.known-unknown_string

module _ {V : Type 0} (c : Cty V) (laws : StringLaws c) where
  -- What is written in its normal form is written as well as it is.
  concat-normalized :
      (buf t u : Bytes) (rest : List V)
      → concat c (buf ++ laws.normalized t ++ u) rest ≡ concat c (buf ++ t ++ u) rest
  unfolding concat
  concat-normalized buf t u [] = ap ok (laws.string_val-normalized buf t u)
  concat-normalized buf t u (v ∷ rest) = elim (Bool-cases (c.is_wholly_known v)) [
    | inr unknown ↦ rw unknown refl
    | inl known ↦ rw known (converted (λ s. concat-normalized buf t (u ++ s) rest) (convert c v))
  ]
    where
      written :
          ((s : Bytes)
            → concat c (buf ++ laws.normalized t ++ (u ++ s)) rest
              ≡ concat c (buf ++ t ++ (u ++ s)) rest)
          → (r : Result CtyError Bytes)
          → (r >>= λ s. concat c ((buf ++ laws.normalized t ++ u) ++ s) rest)
            ≡ (r >>= λ s. concat c ((buf ++ t ++ u) ++ s) rest)
      written same (err e) = refl
      written same panic = refl
      written same (ok s) =
          ap (λ b. concat c b rest) (append_assoc (buf ++ laws.normalized t) u s)
          ∙ same s
          ∙ sym (ap (λ b. concat c b rest) (append_assoc (buf ++ t) u s))

      converted :
          ((s : Bytes)
            → concat c (buf ++ laws.normalized t ++ (u ++ s)) rest
              ≡ concat c (buf ++ t ++ (u ++ s)) rest)
          → (r : Result CtyError V)
          → (r >>= λ w. text c w >>= λ s. concat c ((buf ++ laws.normalized t ++ u) ++ s) rest)
            ≡ (r >>= λ w. text c w >>= λ s. concat c ((buf ++ t ++ u) ++ s) rest)
      converted same (err e) = refl
      converted same panic = refl
      converted same (ok w) = written same (text c w)

module _ {V : Type 0} (c : Cty V) where
  abbrev pub literals : List V → Expression V
  literals = map expr_literal

  -- What the values `vs` do to the buffer, when the loop over them ends with `w`: they append one
  -- text, or one of them is unknown.
  pub data Wrote (acc : Bytes) (vs : List V) (w : V) : Type 0 where
    wrote :
        (s : Bytes)
        → w ≡ c.string_val (acc ++ s)
        → ((buf : Bytes) (rest : List V) → concat c buf (vs ++ rest) ≡ concat c (buf ++ s) rest)
        → Wrote acc vs w
    stopped :
        w ≡ c.unknown_string
        → ((buf : Bytes) (rest : List V) → concat c buf (vs ++ rest) ≡ ok c.unknown_string)
        → Wrote acc vs w

  Wrote-cons :
      (acc : Bytes) (v x : V) (t : Bytes) (vs : List V) (w : V)
      → c.is_wholly_known v ≡ true
      → convert c v ≡ ok x
      → text c x ≡ ok t
      → Wrote (acc ++ t) vs w
      → Wrote acc (v ∷ vs) w
  unfolding concat
  Wrote-cons acc v x t vs w known converted read (wrote s e step) =
      wrote (t ++ s) (e ∙ ap c.string_val (append_assoc acc t s)) λ buf rest.
        rw (known, converted)
          (rw read (step (buf ++ t) rest ∙ ap (λ b. concat c b rest) (append_assoc buf t s)))
  Wrote-cons acc v x t vs w known converted read (stopped e step) =
      stopped e λ buf rest. rw (known, converted) (rw read (step (buf ++ t) rest))

  pub concat-Wrote : (acc : Bytes) (vs : List V) (w : V) → concat c acc vs ≡ ok w → Wrote acc vs w
  unfolding concat
  concat-Wrote acc [] w h =
      wrote [] (cc (append-nil acc)) λ buf rest. ap (λ b. concat c b rest) (sym (append-nil buf))
  concat-Wrote acc (v ∷ vs) w h = elim (Bool-cases (c.is_wholly_known v)) [
    | inl known ↦
        let (x, converted, h₁) = >>=-eq-ok (convert c v) _ (rw known at h) in
        let (t, read, h₂) = >>=-eq-ok (text c x) _ h₁ in
        Wrote-cons acc v x t vs w known converted read (concat-Wrote (acc ++ t) vs w h₂)
    | inr unknown ↦ stopped (ground arith) λ buf rest. rw unknown
  ]

  -- A value that is no string of the buffer is written like the values that it stands for.
  pub concat-joined :
      (laws : StringLaws c) (v : V) (vs : List V) (w : V)
      → join_values c (v ∷ vs) ≡ ok w
      → (buf : Bytes) (rest : List V) → concat c buf (w ∷ rest) ≡ concat c buf (v ∷ vs ++ rest)
  unfolding join_values
  concat-joined laws v [] w h buf rest = ground arith
  concat-joined laws v (u ∷ us) w h buf rest = go (concat-Wrote [] (v ∷ u ∷ us) w h)
    where
      go : Wrote [] (v ∷ u ∷ us) w → concat c buf (w ∷ rest) ≡ concat c buf (v ∷ u ∷ us ++ rest)
      go (wrote s e step) = rw e (
          string_step c laws buf s rest
          ∙ ap (λ b. concat c b rest) (sym (append-nil (buf ++ laws.normalized s)))
          ∙ concat-normalized c laws buf s [] rest
          ∙ ap (λ b. concat c b rest) (append-nil (buf ++ s))
          ∙ sym (step buf rest))
      go (stopped e step) = rw e (unknown_step c laws buf rest ∙ sym (step buf rest))
