-- ===== src/Prelude/Maps.antt =====
-- Go's maps with texts as keys: association lists with one entry for each key, and nil.
use Prim.Native.String.{◌∷◌ as ◌∷ᵗ◌, [] as end}
use Prim.Native.Char.{code}
use func.Prelude.{
  String, ◌≡◌, refl, subst, ◌∙◌, Bool, true, false, Option, none, some, List, [], ◌∷◌, Result, ok,
  panic, arith, ltb, eqb, ◌==◌, eq_iff, Bool-cases, inl, inr, ◌||◌, ◌&&◌, if◌then◌else◌,
}

-- m[name] = x
unfoldable pub put_entry {ℓ} : {A : Type ℓ} → List (String × A) → String → A → List (String × A)
put_entry [] name x = (name, x) ∷ []
put_entry ((n, y) ∷ xs) name x = if n == name then (name, x) ∷ xs else (n, y) ∷ put_entry xs name x

-- x, ok := m[name]
unfoldable pub entry_of {ℓ} : {A : Type ℓ} → List (String × A) → String → Option A
entry_of [] name = none
entry_of ((n, x) ∷ xs) name = if n == name then some x else entry_of xs name

-- delete(m, name)
unfoldable pub drop_entry {ℓ} : {A : Type ℓ} → List (String × A) → String → List (String × A)
drop_entry [] name = []
drop_entry ((n, x) ∷ xs) name = if n == name then xs else (n, x) ∷ drop_entry xs name

-- A map, or nil.
abbrev pub GoMap {ℓ} : Type ℓ → Type ℓ
GoMap A = Option (List (String × A))

module _ {ℓ} {A : Type ℓ} where
  -- A read; a nil map has no entries.
  unfoldable pub lookup : GoMap A → String → Option A
  lookup none name = none
  lookup (some m) name = entry_of m name

  -- A write; into a nil map it panics.
  unfoldable pub assign {κ} : {E : Type κ} → GoMap A → String → A → Result E (GoMap A)
  assign none name x = panic
  assign (some m) name x = ok (some (put_entry m name x))

  unfoldable pub remove : GoMap A → String → GoMap A
  remove none name = none
  remove (some m) name = some (drop_entry m name)

  -- `if m == nil { m = make(...) }`
  unfoldable pub made : GoMap A → GoMap A
  made none = some []
  made (some m) = some m

  abbrev pub HasKey : List (String × A) → String → Type ℓ
  HasKey m name = (x : A) × (entry_of m name ≡ some x)

  -- No key stands twice in the list.
  abbrev pub AreDistinct : List (String × A) → Type ℓ
  AreDistinct [] = Unit
  AreDistinct ((n, x) ∷ xs) = (entry_of xs n ≡ none) × AreDistinct xs

  pub entry_of-put_entry :
      (m : List (String × A)) (name : String) (x : A) (n : String)
      → entry_of (put_entry m name x) n ≡ (if name == n then some x else entry_of m n)
  unfolding entry_of put_entry
  entry_of-put_entry [] name x n = refl
  entry_of-put_entry ((k, y) ∷ m) name x n =
      ground (arith, entry_of-put_entry m name x n, eq_iff k name, eq_iff k n, eq_iff name n)

  pub put_entry-AreDistinct :
      (m : List (String × A)) (name : String) (x : A)
      → AreDistinct m
      → AreDistinct (put_entry m name x)
  unfolding put_entry entry_of
  put_entry-AreDistinct [] name x d = (refl, tt)
  put_entry-AreDistinct ((k, y) ∷ m) name x d = elim (Bool-cases (k == name)) [
    | inl is ↦
        let same : k ≡ name = ground (arith, eq_iff k name) in
        rw is (subst (λ n. entry_of m n ≡ none) same d.0, d.1)
    | inr other ↦
        let apart : (name == k) ≡ false = ground (arith, eq_iff name k, eq_iff k name) in
        rw other (entry_of-put_entry m name x k ∙ rw apart d.0, put_entry-AreDistinct m name x d.1)
  ]

  pub entry_of-drop_entry :
      (m : List (String × A)) (name n : String)
      → AreDistinct m
      → entry_of (drop_entry m name) n ≡ (if name == n then none else entry_of m n)
  unfolding entry_of drop_entry
  entry_of-drop_entry [] name n d = ground arith
  entry_of-drop_entry ((k, y) ∷ m) name n d =
      ground (arith, entry_of-drop_entry m name n, eq_iff k name, eq_iff k n, eq_iff name n)

  pub drop_entry-AreDistinct :
      (m : List (String × A)) (name : String) → AreDistinct m → AreDistinct (drop_entry m name)
  unfolding drop_entry
  drop_entry-AreDistinct [] name d = tt
  drop_entry-AreDistinct ((k, y) ∷ m) name d = elim (Bool-cases (k == name)) [
    | inl is ↦ rw is d.1
    | inr other ↦
        let apart : (name == k) ≡ false = ground (arith, eq_iff name k, eq_iff k name) in
        rw other
          (entry_of-drop_entry m name k d.1 ∙ rw apart d.0, drop_entry-AreDistinct m name d.1)
  ]

-- `s < t` for texts
unfoldable pub text_less : String → String → Bool
text_less s end = false
text_less end (d ∷ᵗ t) = true
text_less (c ∷ᵗ s) (d ∷ᵗ t) =
    let rest = text_less s t in ltb (code c) (code d) || (eqb (code c) (code d) && rest)

pub text_less_asymm : (s t : String) → text_less s t ≡ true → text_less t s ≡ false
unfolding text_less
text_less_asymm end end h = cc
text_less_asymm end (d ∷ᵗ t) h = refl
text_less_asymm (c ∷ᵗ s) end h = cc
text_less_asymm (c ∷ᵗ s) (d ∷ᵗ t) h = ground (arith, text_less_asymm s t)
