-- ===== src/Prelude/Members.antt =====
-- Lists of names as sets: the `map[string]struct{}` and the linear scans of the source.
use func.Prelude.{
  ◌+◌, ◌≤◌, ◌≡◌, refl, String, Bool, true, false, ◌||◌, List, [], ◌∷◌, ◌++◌, length, arith, ◌==◌,
  eq_iff, if◌then◌else◌,
}

unfoldable pub contains : String → List String → Bool
contains x [] = false
contains x (y ∷ ys) = y == x || contains x ys

-- No name stands in the list twice.
abbrev pub IsDistinct : List String → Type 0
IsDistinct [] = Unit
IsDistinct (x ∷ xs) = (contains x xs ≡ false) × IsDistinct xs

-- Every name of the first list stands in the second.
abbrev pub Within : List String → List String → Type 0
Within [] ys = Unit
Within (x ∷ xs) ys = (contains x ys ≡ true) × Within xs ys

pub contains-append :
    (x : String) (xs ys : List String) → contains x (xs ++ ys) ≡ (contains x xs || contains x ys)
unfolding contains
contains-append x [] ys = refl
contains-append x (y ∷ xs) ys = ground (arith, contains-append x xs ys)

pub IsDistinct-snoc :
    (ns : List String) (n : String)
    → IsDistinct ns
    → contains n ns ≡ false
    → IsDistinct (ns ++ n ∷ [])
unfolding contains
IsDistinct-snoc [] n d h = (refl, tt)
IsDistinct-snoc (m ∷ ns) n d h = (
  ground (arith, contains-append m ns (n ∷ []), eq_iff n m, eq_iff m n),
  IsDistinct-snoc ns n d.1 (ground arith),
)

-- The list without the first occurrence of a name.
without : String → List String → List String
without x [] = []
without x (y ∷ ys) = if y == x then ys else y ∷ without x ys

contains-without :
    (x z : String) (ys : List String)
    → (x == z) ≡ false
    → contains z ys ≡ true
    → contains z (without x ys) ≡ true
unfolding contains without
contains-without x z [] ne h = h
contains-without x z (y ∷ ys) ne h =
    ground (arith, contains-without x z ys ne, eq_iff x z, eq_iff y x, eq_iff y z)

length-without :
    (x : String) (ys : List String) → contains x ys ≡ true → length ys ≡ length (without x ys) + 1
unfolding contains without
length-without x [] h = cc
length-without x (y ∷ ys) h = ground (arith, length-without x ys)

Within-without :
    (x : String) (xs ys : List String)
    → contains x xs ≡ false
    → Within xs ys
    → Within xs (without x ys)
unfolding contains
Within-without x [] ys h w = tt
Within-without x (z ∷ xs) ys h w = (
  contains-without x z ys (ground (arith, eq_iff x z, eq_iff z x)) w.0,
  Within-without x xs ys (ground arith) w.1,
)

-- The pigeonhole principle: distinct names that all stand in a list are no more than its entries.
pub length-le-length_of_Within :
    (xs ys : List String) → IsDistinct xs → Within xs ys → length xs ≤ length ys
length-le-length_of_Within [] ys d w = omega arith
length-le-length_of_Within (x ∷ xs) ys d w = omega (
  arith,
  length-without x ys w.0,
  length-le-length_of_Within xs (without x ys) d.1 (Within-without x xs ys d.0 w.1),
)
