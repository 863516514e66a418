-- ===== src/Symbols/Registry/Laws.antt =====
-- internal/symbols/registry.go: Get, Has and List after Register.
use goadstc.Base.{true, ◌≡◌, ◌↔◌, List, [], ◌∷◌, ℕ, arith, if◌then◌else◌}
use goadstc.Go.Strings.{same}
use goadstc.Go.Map.{Entries, lookup, keys, In, same_iff, lookup-insert}
use goadstc.Symbols.Types.{TypeInfo}
use goadstc.Symbols.Registry.{TypeRegistry, register, get, has, list}

-- After Register, Get gives the new definition under its name, and under any other name what it
-- gave before.
pub get-register :
    (name other : List ℕ) (info : TypeInfo) (r : TypeRegistry)
    → get other (register name info r) ≡ (if same name other then (info, true) else get other r)
unfolding get register
get-register name other info r = ground (arith, lookup-insert name other info r.types)

In-keys :
    (k : List ℕ) (m : Entries TypeInfo) → In k (keys m) ↔ (has k (record { types = m }) ≡ true)
unfolding keys lookup has
In-keys k [] = (λ h. absurd h, λ h. cc)
In-keys k ((j, v) ∷ m) = ground (arith, same_iff j k, In-keys k m)

-- List names exactly the types for which Has answers true, and Has is the second result of Get.
list-has :
    (name : List ℕ) (r : TypeRegistry)
    → (In name (list r) ↔ (has name r ≡ true)) × ((get name r).1 ≡ has name r)
unfolding list has get
list-has name r = (In-keys name r.types, ground arith)
