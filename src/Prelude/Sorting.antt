-- ===== src/Prelude/Sorting.antt =====
-- Lists sorted by a text of each element, as sort.Slice and sort.Strings leave them.
use mathlib.Core.List.{Memᴰ}
use func.Prelude.{String, ◌≡◌, ◌↔◌, true, false, inl, inr, Bool-cases, List, [], ◌∷◌, if◌then◌else◌}
use func.Prelude.Maps.{text_less, text_less_asymm}

module _ {A : Type 0} where
  -- sort.Slice, by the text `key` of an element.
  unfoldable pub insert_by : (A → String) → A → List A → List A
  insert_by key r [] = r ∷ []
  insert_by key r (q ∷ qs) =
      let rest = insert_by key r qs in if text_less (key q) (key r) then q ∷ rest else r ∷ q ∷ qs

  unfoldable pub sort_by : (A → String) → List A → List A
  sort_by key [] = []
  sort_by key (r ∷ rs) = insert_by key r (sort_by key rs)

  -- No element has a smaller key than the one before it.
  abbrev pub IsSorted : (A → String) → List A → Type 0
  IsSorted key [] = Unit
  IsSorted key (r ∷ []) = Unit
  IsSorted key (r ∷ q ∷ qs) = (text_less (key q) (key r) ≡ false) × IsSorted key (q ∷ qs)

  insert_by-IsSorted :
      (key : A → String) (r : A) (qs : List A) → IsSorted key qs → IsSorted key (insert_by key r qs)
  unfolding insert_by
  insert_by-IsSorted key r [] h = tt
  insert_by-IsSorted key r (q ∷ []) h = elim (Bool-cases (text_less (key q) (key r))) [
    | inl less ↦ rw less (text_less_asymm (key q) (key r) less, tt)
    | inr not_less ↦ rw not_less (not_less, tt)
  ]
  insert_by-IsSorted key r (q ∷ p ∷ qs) h = elim (Bool-cases (text_less (key q) (key r))) [
    | inl less ↦ rw less (behind (insert_by-IsSorted key r (p ∷ qs) h.1) less)
    | inr not_less ↦ rw not_less (not_less, h)
  ]
    where
      behind :
          IsSorted key (insert_by key r (p ∷ qs))
          → text_less (key q) (key r) ≡ true
          → IsSorted key (q ∷ insert_by key r (p ∷ qs))
      behind rest less = elim (Bool-cases (text_less (key p) (key r))) [
        | inl below ↦ rw below (h.0, rw below at rest)
        | inr above ↦ rw above (text_less_asymm (key q) (key r) less, rw above at rest)
      ]

  pub sort_by-IsSorted : (key : A → String) (rs : List A) → IsSorted key (sort_by key rs)
  unfolding sort_by
  sort_by-IsSorted key [] = tt
  sort_by-IsSorted key (r ∷ rs) =
      insert_by-IsSorted key r (sort_by key rs) (sort_by-IsSorted key rs)

  insert_by-Mem :
      (key : A → String) (x r : A) (qs : List A) → Memᴰ x (r ∷ qs) → Memᴰ x (insert_by key r qs)
  unfolding insert_by
  insert_by-Mem key x r [] m = m
  insert_by-Mem key x r (q ∷ qs) m = elim (Bool-cases (text_less (key q) (key r))) [
    | inr not_less ↦ rw not_less m
    | inl less ↦ rw less (go m (insert_by-Mem key x r qs))
  ]
    where
      go :
          Memᴰ x (r ∷ q ∷ qs)
          → (Memᴰ x (r ∷ qs) → Memᴰ x (insert_by key r qs))
          → Memᴰ x (q ∷ insert_by key r qs)
      go (Memᴰ.head e) rest = Memᴰ.tail (rest (Memᴰ.head e))
      go (Memᴰ.tail (Memᴰ.head e)) rest = Memᴰ.head e
      go (Memᴰ.tail (Memᴰ.tail m)) rest = Memᴰ.tail (rest (Memᴰ.tail m))

  Mem-insert_by :
      (key : A → String) (x r : A) (qs : List A) → Memᴰ x (insert_by key r qs) → Memᴰ x (r ∷ qs)
  unfolding insert_by
  Mem-insert_by key x r [] m = m
  Mem-insert_by key x r (q ∷ qs) m = elim (Bool-cases (text_less (key q) (key r))) [
    | inr not_less ↦ rw not_less at m
    | inl less ↦ go (rw less at m) (Mem-insert_by key x r qs)
  ]
    where
      go :
          Memᴰ x (q ∷ insert_by key r qs)
          → (Memᴰ x (insert_by key r qs) → Memᴰ x (r ∷ qs))
          → Memᴰ x (r ∷ q ∷ qs)
      go (Memᴰ.head e) rest = Memᴰ.tail (Memᴰ.head e)
      go (Memᴰ.tail m) rest = swap (rest m)
        where
          swap : Memᴰ x (r ∷ qs) → Memᴰ x (r ∷ q ∷ qs)
          swap (Memᴰ.head e) = Memᴰ.head e
          swap (Memᴰ.tail n) = Memᴰ.tail (Memᴰ.tail n)

  pub sort_by-Mem : (key : A → String) (x : A) (rs : List A) → Memᴰ x rs ↔ Memᴰ x (sort_by key rs)
  unfolding sort_by
  sort_by-Mem key x [] = (λ m. m, λ m. m)
  sort_by-Mem key x (r ∷ rs) =
      let (there, back) = sort_by-Mem key x rs in
      (
        λ m. insert_by-Mem key x r (sort_by key rs) (under there m),
        λ m. under back (Mem-insert_by key x r (sort_by key rs) m),
      )
    where
      under : {ps qs : List A} → (Memᴰ x ps → Memᴰ x qs) → Memᴰ x (r ∷ ps) → Memᴰ x (r ∷ qs)
      under f (Memᴰ.head e) = Memᴰ.head e
      under f (Memᴰ.tail m) = Memᴰ.tail (f m)
