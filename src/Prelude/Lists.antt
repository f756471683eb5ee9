-- ===== src/Prelude/Lists.antt =====
-- Lists measured by native numbers, and predicates over lists by recursion.
use Prim.Native.Nat.{ℕ, suc, ◌+◌, ◌≤◌}
use mathlib.Core.Path.{◌≡◌, refl, sym, subst}
use mathlib.Core.List.{List, Memᴰ, [], ◌∷◌, ◌++◌}
use native.Mathlib.Omega.{arith}

module _ {ℓ} {A : Type ℓ} where
  abbrev pub length : List A → ℕ
  length [] = 0
  length (x ∷ xs) = suc (length xs)

  abbrev pub All {κ} : (A → Type κ) → List A → Type κ
  All P [] = Unit
  All P (x ∷ xs) = P x × All P xs

  pub length-append : (xs ys : List A) → length (xs ++ ys) ≡ length xs + length ys
  length-append [] ys = omega arith
  length-append (x ∷ xs) ys = omega (arith, length-append xs ys)

  pub All-append {κ} :
      (P : A → Type κ) (front back : List A) → All P front → All P back → All P (front ++ back)
  All-append P [] back first rest = rest
  All-append P (x ∷ front) back (p, ps) rest = (p, All-append P front back ps rest)

pub All-map {ℓ κ} :
    {A : Type ℓ} (P Q : A → Type κ) → ((a : A) → P a → Q a) → (xs : List A) → All P xs → All Q xs
All-map P Q f [] h = tt
All-map P Q f (x ∷ xs) h = (f x h.0, All-map P Q f xs h.1)

-- A predicate after one entry has changed.
pub All-replace {ℓ κ} :
    {A : Type ℓ} (P Q : A → Type κ)
    → ((a : A) → P a → Q a)
    → (x y : A) → (P x → Q y)
    → (xs ys : List A) → All P (xs ++ x ∷ ys)
    → All Q (xs ++ y ∷ ys)
All-replace P Q f x y g [] ys h = (g h.0, All-map P Q f ys h.1)
All-replace P Q f x y g (z ∷ xs) ys h = (f z h.0, All-replace P Q f x y g xs ys h.1)

-- What holds of the entry between two lists.
pub All-middle {ℓ κ} :
    {A : Type ℓ} (P : A → Type κ) (x : A) (xs ys : List A) → All P (xs ++ x ∷ ys) → P x
All-middle P x [] ys h = h.0
All-middle P x (z ∷ xs) ys h = All-middle P x xs ys h.1

-- A measure of the entries of a list is bounded.
pub upper_bound {ℓ} :
    {A : Type ℓ} (measure : A → ℕ) (xs : List A) → (b : ℕ) × All (λ x. measure x ≤ b) xs
upper_bound measure [] = (0, tt)
upper_bound measure (x ∷ xs) =
    let (b, h) = upper_bound measure xs in
    (
      b + measure x,
      (
        omega arith,
        All-map (λ y. measure y ≤ b) (λ y. measure y ≤ b + measure x) (λ y l. omega arith) xs h,
      ),
    )

pub All-of_Mem {ℓ κ} :
    {A : Type ℓ} (P : A → Type κ) (xs : List A) {x : A} → All P xs → Memᴰ x xs → P x
All-of_Mem P [] all m = elim m [ ]
All-of_Mem P (y ∷ xs) all (Memᴰ.head e) = subst P (sym e) all.0
All-of_Mem P (y ∷ xs) all (Memᴰ.tail m) = All-of_Mem P xs all.1 m

-- No entry has two properties that exclude each other.
pub nil-of_All {ℓ κ μ} :
    {A : Type ℓ} (P : A → Type κ) (Q : A → Type μ)
    → ((a : A) → P a → Q a → ⊥)
    → (xs : List A) → All P xs
    → All Q xs
    → xs ≡ []
nil-of_All P Q apart [] ps qs = refl
nil-of_All P Q apart (x ∷ xs) ps qs = absurd (apart x ps.0 qs.0)
