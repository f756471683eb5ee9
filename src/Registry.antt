-- ===== src/Registry.antt =====
-- resource/registry.go: the resource types that a server knows.
mod Registered
mod Tests
use func.Prelude.{String, Option, none, some, List, [], ◌∷◌, map, Result, ◌>>=◌, ok}
use func.Prelude.Maps.{GoMap, lookup, assign, made}
use func.Prelude.Sorting.{sort_by}

-- Registry, over the types of the reflect package; none is a nil type.
pub record Registry (T : Type 0) : Type 0 where
  pub types : GoMap (Option T)

module _ {T E : Type 0} where
  -- Registry.Register, of a definition with the given dynamic type, which is nil for a nil definition.
  unfoldable pub register : Registry T → String → Option T → Result E (Registry T)
  register r typename t = assign (made r.types) typename t >>= λ m. ok (record r { types = m })

  -- The loop of RegistryFromDefinitions over a map, in the order in which it is ranged over.
  unfoldable pub register_all : Registry T → List (String × Option T) → Result E (Registry T)
  register_all r [] = ok r
  register_all r ((n, t) ∷ defs) = register r n t >>= λ s. register_all s defs

  -- RegistryFromDefinitions
  unfoldable pub registry_from_definitions : List (String × Option T) → Result E (Registry T)
  registry_from_definitions defs = register_all (record { types = none }) defs

module _ {T : Type 0} where
  -- The value of a key, or nil.
  unfoldable pub or_nil : Option (Option T) → Option T
  or_nil none = none
  or_nil (some t) = t

  -- Registry.Type
  unfoldable pub registered_type : Registry T → String → Option T
  registered_type r typename = or_nil (lookup r.types typename)

  -- The keys of a map.
  unfoldable pub keys_of : GoMap (Option T) → List String
  keys_of none = []
  keys_of (some m) = map (λ x. x.0) m

  -- Registry.Typenames
  unfoldable pub typenames : Registry T → List String
  typenames r = sort_by (λ n. n) (keys_of r.types)
