-- ===== src/Symbols/Registry.antt =====
-- internal/symbols/registry.go: the registered type definitions.
pub mod Laws
use goadstc.Base.{Bool, true, false, Option, none, some, List, [], ℕ}
use goadstc.Go.Map.{Entries, insert, lookup, keys}
use goadstc.Symbols.Types.{TypeInfo, zero_type}

-- type TypeRegistry, without its lock: each method holds it for its whole body.
pub record TypeRegistry : Type 0 where
  pub types : Entries TypeInfo

-- NewTypeRegistry
abbrev pub new_type_registry : TypeRegistry
new_type_registry = record { types = [] }

-- (*TypeRegistry).Register
unfoldable pub register : List ℕ → TypeInfo → TypeRegistry → TypeRegistry
register type_name info r = record { types = insert type_name info r.types }

-- (*TypeRegistry).Get: a missing type is the zero value and false.
unfoldable pub get : List ℕ → TypeRegistry → TypeInfo × Bool
get type_name r = elim (lookup type_name r.types) [
  | none ↦ (zero_type, false)
  | some info ↦ (info, true)
]

-- (*TypeRegistry).Has
unfoldable pub has : List ℕ → TypeRegistry → Bool
has type_name r = elim (lookup type_name r.types) [ none ↦ false | some info ↦ true ]

-- (*TypeRegistry).List, in the order of the entries.
unfoldable pub list : TypeRegistry → List (List ℕ)
list r = keys r.types
