-- ===== src/Symbols/Table.antt =====
-- internal/symbols/table.go: the cached symbol table.
use goadstc.Base.{Bool, true, false, Option, none, some, List, [], ◌∷◌, ◌++◌, ℕ, if◌then◌else◌}
use goadstc.Go.{Result, ok, err, panic, Slice}
use goadstc.Go.Strings.{to_lower, contains}
use goadstc.Go.Map.{Entries, insert, lookup, values}
use goadstc.Symbols.Types.{Symbol}
use goadstc.Symbols.Parser
use goadstc.Symbols.Parser.{parse_symbol_table}
pub mod Laws

pub data Error : Type 0 where
  parse_table : Parser.Error → Error
  not_loaded : Error
  not_found : List ℕ → Error

-- type Table, without its lock: each method holds it for its whole body.
pub record Table : Type 0 where
  pub symbols : Entries Symbol
  pub loaded : Bool

-- NewTable
abbrev pub new_table : Table
new_table = record { symbols = []; loaded = false }

-- The loop of Load: later symbols of a name replace earlier ones.
unfoldable pub fill : List Symbol → Entries Symbol → Entries Symbol
fill [] m = m
fill (s ∷ ss) m = fill ss (insert s.name s m)

-- (*Table).Load
unfoldable pub load : Slice → Table → Result Error Table
load data_in t = elim (parse_symbol_table data_in) [
  | ok symbols ↦ ok (record { symbols = fill symbols []; loaded = true })
  | err e ↦ err (parse_table e)
  | panic ↦ panic
]

-- (*Table).Get
unfoldable pub get : List ℕ → Table → Result Error Symbol
get name t =
    if t.loaded
    then (elim (lookup name t.symbols) [ none ↦ err (not_found name) | some s ↦ ok s ])
    else err not_loaded

-- (*Table).List; Go leaves the order open, the model takes that of the entries.
unfoldable pub list : Table → Result Error (List Symbol)
list t = if t.loaded then ok (values t.symbols) else err not_loaded

-- (*Table).IsLoaded
unfoldable pub is_loaded : Table → Bool
is_loaded t = t.loaded

-- The loop of Find.
unfoldable pub matching : List ℕ → Entries Symbol → List Symbol
matching pattern [] = []
matching pattern ((name, s) ∷ m) =
    let rest = matching pattern m in if contains (to_lower name) pattern then s ∷ rest else rest

-- (*Table).Find
unfoldable pub find : List ℕ → Table → Result Error (List Symbol)
unfolding matching
find pattern t = if t.loaded then ok (matching (to_lower pattern) t.symbols) else err not_loaded
