-- ===== src/Prelude/Results.antt =====
-- What a Go call comes to: its value, a non-nil error, or a run-time panic.
use mathlib.Core.Path.{◌≡◌, refl}
use mathlib.Core.List.{List, [], ◌∷◌}

pub data Result {ℓ κ} (E : Type ℓ) (A : Type κ) : Type (ℓ ⊔ κ) where
  ok : A → Result E A
  err : E → Result E A
  panic : Result E A

-- `if err != nil { return err }` after a call, and the rest of the function.
abbrev pub ◌>>=◌ {ℓ κ μ} :
    {A : Type ℓ} {E : Type κ} {B : Type μ} (call : Result E A) (rest : A → Result E B) → Result E B
panic >>= rest = panic
err failure >>= rest = err failure
ok value >>= rest = rest value

infixl 5 ◌>>=◌
-- A loop that fills a slice element by element and returns early on an error.
abbrev pub map_result {ℓ κ μ} :
    {E : Type ℓ} {A : Type κ} {B : Type μ} → (A → Result E B) → List A → Result E (List B)
map_result f [] = ok []
map_result f (x ∷ xs) = f x >>= λ y. map_result f xs >>= λ ys. ok (y ∷ ys)

-- A call and its rest succeed only if both do.
pub >>=-eq-ok {ℓ κ μ} :
    {E : Type ℓ} {A : Type κ} {B : Type μ} (call : Result E A) (rest : A → Result E B) {b : B}
    → (call >>= rest) ≡ ok b
    → (value : A) × (call ≡ ok value) × (rest value ≡ ok b)
>>=-eq-ok panic rest h = cc
>>=-eq-ok (err failure) rest h = cc
>>=-eq-ok (ok value) rest h = (value, refl, h)
