-- ===== src/Registry/Registered.antt =====
-- resource/registry.go: what a registry made from definitions finds and lists.
use mathlib.Core.List.{Memᴰ}
use func.Prelude.{
  String, ◌≡◌, refl, sym, ap, subst, ◌∙◌, ◌↔◌, true, inl, inr, Bool-cases, Option, none, some, List,
  [], ◌∷◌, map, arith, ◌==◌, eq_iff, ok,
}
use func.Prelude.Maps.{
  GoMap, lookup, entry_of, put_entry, assign, made, AreDistinct, HasKey, entry_of-put_entry,
}
use func.Prelude.Sorting.{IsSorted, sort_by-IsSorted, sort_by-Mem}
use func.Registry.{
  Registry, register, register_all, registry_from_definitions, or_nil, registered_type, keys_of,
  typenames,
}

module _ {T : Type 0} where
  -- The entry of a map if there is one, and of what was there before otherwise.
  unfoldable over : Option (Option T) → Option (Option T) → Option (Option T)
  over none old = old
  over (some t) old = some t

  over-none : (x : Option (Option T)) → over x none ≡ x
  unfolding over
  over-none none = refl
  over-none (some t) = refl

  made-lookup :
      (m : GoMap (Option T))
      → (l : List (String × Option T)) × (made m ≡ some l)
        × ((n : String) → entry_of l n ≡ lookup m n)
  unfolding made lookup entry_of
  made-lookup none = ([], refl, λ n. refl)
  made-lookup (some l) = (l, refl, λ n. refl)

  -- The registry after the loop: the definitions stand over what it had.
  abbrev Added : Type 0 → Registry T → List (String × Option T) → Type 0
  Added E r defs =
      (s : Registry T) × (register_all {E = E} r defs ≡ ok s)
      × ((n : String) → lookup s.types n ≡ over (entry_of defs n) (lookup r.types n))

  register_all-Added :
      (E : Type 0) (r : Registry T) (defs : List (String × Option T))
      → AreDistinct defs
      → Added E r defs
  unfolding register_all register assign over entry_of lookup
  register_all-Added E r [] d = (r, refl, λ n. refl)
  register_all-Added E r ((k, t) ∷ defs) d =
      let (l, is, same) = made-lookup r.types in
      let (s, e, found) =
        register_all-Added E (record r { types = some (put_entry l k t) }) defs d.1 in
      (
        s,
        rw is e,
        λ n.
            found n
            ∙ ap (over (entry_of defs n)) (entry_of-put_entry l k t n)
            ∙ (elim (Bool-cases (k == n)) [
              | inl at_key ↦
                  let key : k ≡ n = ground (arith, eq_iff k n) in
                  let nothing = subst (λ i. entry_of defs i ≡ none) key d.0 in
                  rw (at_key, nothing) refl
              | inr other ↦ rw other (ap (over (entry_of defs n)) (same n))
            ]),
      )

  keys_of-Mem :
      (m : GoMap (Option T)) (n : String)
      → Memᴰ n (keys_of m) ↔ ((t : Option T) × (lookup m n ≡ some t))
  unfolding keys_of lookup entry_of
  keys_of-Mem none n = (λ m. elim m [ ], λ h. absurd (none_some h))
    where
      none_some : (t : Option T) × (none ≡ some t) → ⊥
      none_some (t, e) = cc
  keys_of-Mem (some l) n = (into l, out l)
    where
      into : (l : List (String × Option T)) → Memᴰ n (map (λ x. x.0) l) → HasKey l n
      into [] m = elim m [ ]
      into ((k, t) ∷ l) (Memᴰ.head e) =
          let is : (k == n) ≡ true = ground (arith, eq_iff k n, e) in (t, rw is refl)
      into ((k, t) ∷ l) (Memᴰ.tail m) = elim (Bool-cases (k == n)) [
        | inl is ↦ (t, rw is refl)
        | inr other ↦ rw other (into l m)
      ]

      out : (l : List (String × Option T)) → HasKey l n → Memᴰ n (map (λ x. x.0) l)
      out [] (t, h) = cc
      out ((k, u) ∷ l) (t, h) = elim (Bool-cases (k == n)) [
        | inl is ↦ let key : k ≡ n = ground (arith, eq_iff k n) in Memᴰ.head (sym key)
        | inr other ↦ Memᴰ.tail (out l (t, rw other at h))
      ]

  -- A registry is made from any definitions with distinct names, in whatever order they are ranged
  -- over, without a panic. It finds for each name the type of its definition and nil for any other
  -- name, and lists exactly the names of the definitions, in their order.
  pub registry_from_definitions-IsRegistered :
      (E : Type 0) (defs : List (String × Option T))
      → AreDistinct defs
      → (r : Registry T) × (registry_from_definitions {E = E} defs ≡ ok r)
        × ((n : String) → registered_type r n ≡ or_nil (entry_of defs n))
        × IsSorted (λ n. n) (typenames r)
        × ((n : String) → Memᴰ n (typenames r) ↔ HasKey defs n)
  unfolding registry_from_definitions registered_type typenames lookup
  registry_from_definitions-IsRegistered E defs d =
      let (r, e, found) = register_all-Added E (record { types = none }) defs d in
      let same : (n : String) → lookup r.types n ≡ entry_of defs n =
        λ n. found n ∙ over-none (entry_of defs n) in
      (
        r,
        e,
        λ n. ap or_nil (same n),
        sort_by-IsSorted (λ n. n) (keys_of r.types),
        λ n.
            let (there, back) = sort_by-Mem (λ n. n) n (keys_of r.types) in
            let (into, out) = keys_of-Mem r.types n in
            (
              λ m. let (t, h) = into (back m) in (t, sym (same n) ∙ h),
              λ h. there (out (h.0, same n ∙ h.1)),
            ),
      )
