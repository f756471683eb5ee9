-- ===== src/Prelude/Texts.antt =====
-- Texts as lists of bytes, and Go's `==` on them.
use func.Prelude.{ℕ, ◌≡◌, refl, Bool, true, false, ◌&&◌, List, [], ◌∷◌, arith, eqb}

abbrev pub same_text : List ℕ → List ℕ → Bool
same_text [] [] = true
same_text [] (c ∷ cs) = false
same_text (b ∷ bs) [] = false
same_text (b ∷ bs) (c ∷ cs) = eqb b c && same_text bs cs

pub same_text_refl : (s : List ℕ) → same_text s s ≡ true
same_text_refl [] = refl
same_text_refl (b ∷ bs) = ground (arith, same_text_refl bs)

pub eq_of_same_text : (s t : List ℕ) → same_text s t ≡ true → s ≡ t
eq_of_same_text [] [] h = refl
eq_of_same_text [] (c ∷ cs) h = cc
eq_of_same_text (b ∷ bs) [] h = cc
eq_of_same_text (b ∷ bs) (c ∷ cs) h =
    let same : b ≡ c = ground arith in let rest = eq_of_same_text bs cs (ground arith) in cc
