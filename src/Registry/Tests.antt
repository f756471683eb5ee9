-- ===== src/Registry/Tests.antt =====
-- resource/registry.go: the theorem at two types.
use mathlib.Core.List.{Memᴰ}
use func.Prelude.{String, ℕ, ◌≡◌, refl, ◌↔◌, Option, some, List, [], ◌∷◌, ok}
use func.Prelude.Maps.{entry_of, HasKey, AreDistinct}
use func.Prelude.Sorting.{IsSorted}
use func.Registry.{Registry, registry_from_definitions, registered_type, typenames, or_nil}
use func.Registry.Registered.{registry_from_definitions-IsRegistered}

abbrev definitions : List (String × Option ℕ)
definitions = ("aws:sqs_queue", some 2) ∷ ("aws:iam_role", some 1) ∷ []

definitions-AreDistinct : AreDistinct definitions
unfolding entry_of
definitions-AreDistinct = (refl, (refl, tt))

registry_from_definitions-IsRegistered_example :
    (r : Registry ℕ) × (registry_from_definitions {E = String} definitions ≡ ok r)
    × ((n : String) → registered_type r n ≡ or_nil (entry_of definitions n))
    × IsSorted (λ n. n) (typenames r)
    × ((n : String) → Memᴰ n (typenames r) ↔ HasKey definitions n)
registry_from_definitions-IsRegistered_example =
    registry_from_definitions-IsRegistered String definitions definitions-AreDistinct
