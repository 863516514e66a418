-- ===== src/Symbols/Table/Laws.antt =====
-- internal/symbols/table.go: Get, List and Find after Load.
use goadstc.Base.{
  Bool, true, ◌≡◌, refl, ap, ◌↔◌, inl, inr, Option, none, some, List, [], ◌∷◌, ℕ, arith,
  if◌then◌else◌, All,
}
use goadstc.Go.{Result, ok, err, ◌>>=◌, Slice, Result-cases}
use mathlib.Core.Path.{subst}
use goadstc.Go.Strings.{same, index_from, to_lower, contains}
use goadstc.Go.Map.{
  Entries, lookup, insert, values, In, IsDistinct, same_iff, lookup-insert, insert-IsDistinct,
  insert-All,
}
use goadstc.Symbols.Types.{Symbol}
use goadstc.Symbols.Parser.{parse_symbol_table}
use goadstc.Symbols.Table.{Table, Error, not_found, fill, load, get, list, matching, find}

-- The last symbol of a name.
pub last_named : List ℕ → List Symbol → Option Symbol
last_named name [] = none
last_named name (s ∷ ss) = elim (last_named name ss) [
  | some t ↦ some t
  | none ↦ if same s.name name then some s else none
]

or_else : Option Symbol → Option Symbol → Option Symbol
or_else (some s) o = some s
or_else none o = o

lookup-fill :
    (name : List ℕ) (ss : List Symbol) (m : Entries Symbol)
    → lookup name (fill ss m) ≡ or_else (last_named name ss) (lookup name m)
unfolding fill last_named or_else
lookup-fill name [] m = refl
lookup-fill name (s ∷ ss) m =
    ground (arith, lookup-fill name ss (insert s.name s m), lookup-insert s.name name s m)

lookup-empty : (name : List ℕ) → lookup {V = Symbol} name [] ≡ none
unfolding lookup
lookup-empty name = refl

or_else-none : (o : Option Symbol) → or_else o none ≡ o
unfolding or_else
or_else-none (some s) = refl
or_else-none none = refl

-- What Get answers for the last symbol of a name.
pub answer : List ℕ → Option Symbol → Result Error Symbol
answer name none = err (not_found name)
answer name (some s) = ok s

-- Where the data parses, Load succeeds whatever the table held before, and the new table answers
-- each name with the last symbol of that name in the data, and with an error that shows the name
-- where the data has none.
pub load-get :
    (data_in : Slice) (t : Table) (symbols : List Symbol)
    → parse_symbol_table data_in ≡ ok symbols
    → (u : Table) × (load data_in t ≡ ok u)
      × ((name : List ℕ) → get name u ≡ answer name (last_named name symbols))
unfolding load get answer
load-get data_in t symbols p = (
  record { symbols = fill symbols []; loaded = true },
  rw (p, load) refl,
  λ name. ground (
    arith,
    lookup-fill name symbols [],
    or_else-none (last_named name symbols),
    lookup-empty name,
  ),
)

-- The keys are the names of the symbols, and none stands twice.
abbrev Named : List ℕ × Symbol → Type 0
Named (k, s) = k ≡ s.name

pub record IsTable (t : Table) : Type 0 where
  pub named : All Named t.symbols
  pub distinct : IsDistinct t.symbols

fill-IsTable :
    (ss : List Symbol) (m : Entries Symbol)
    → All Named m × IsDistinct m
    → All Named (fill ss m) × IsDistinct (fill ss m)
unfolding fill
fill-IsTable [] m h = h
fill-IsTable (s ∷ ss) m h =
    fill-IsTable ss (insert s.name s m)
      (insert-All Named s.name s m refl h.0, insert-IsDistinct s.name s m h.1)

-- A successful Load leaves a well-formed table.
load-IsTable : (data_in : Slice) (t u : Table) → load data_in t ≡ ok u → IsTable u
unfolding load
load-IsTable data_in t u h = elim (Result-cases (parse_symbol_table data_in)) [
  | inl (symbols, e) ↦ subst IsTable (loaded-eq symbols e) (record {
    named = (fill-IsTable symbols [] (tt, tt)).0;
    distinct = (fill-IsTable symbols [] (tt, tt)).1;
  })
  | inr (inl (e, p)) ↦ ground (arith, p)
  | inr (inr p) ↦ ground (arith, p)
]
  where
    loaded-eq :
        (symbols : List Symbol)
        → parse_symbol_table data_in ≡ ok symbols
        → record { symbols = fill symbols []; loaded = true } ≡ u
    loaded-eq symbols e = ground arith

In-values :
    (s : Symbol) (m : Entries Symbol)
    → All Named m
    → IsDistinct m
    → In s (values m) ↔ (lookup s.name m ≡ some s)
unfolding values lookup
In-values s [] h d = (λ x. absurd x, λ x. cc)
In-values s ((k, v) ∷ m) h d = ground (arith, same_iff k s.name, In-values s m h.1 d.1, h.0, d.0)

-- List gives exactly the symbols that Get finds under their own names.
list-get :
    (t : Table) (ss : List Symbol) (s : Symbol)
    → IsTable t
    → list t ≡ ok ss
    → In s ss ↔ (get s.name t ≡ ok s)
unfolding list get
list-get t ss s w h = ground (arith, In-values s t.symbols w.named w.distinct)

-- The symbols that pass a test, in their order.
pub keep : (Symbol → Bool) → List Symbol → List Symbol
keep p [] = []
keep p (s ∷ ss) = if p s then s ∷ keep p ss else keep p ss

-- The test of Find, on a symbol.
abbrev pub mentions : List ℕ → Symbol → Bool
mentions pattern s = contains (to_lower s.name) (to_lower pattern)

matching-keep :
    (pattern : List ℕ) (m : Entries Symbol)
    → All Named m
    → matching (to_lower pattern) m ≡ keep (mentions pattern) (values m)
unfolding matching values keep
matching-keep pattern [] h = refl
matching-keep pattern ((k, s) ∷ m) h = ground (arith, matching-keep pattern m h.1)

matching-all : (m : Entries Symbol) → matching [] m ≡ values m
unfolding matching values index_from
matching-all [] = refl
matching-all ((k, s) ∷ m) = rw (contains-nil (to_lower k)) (ap (◌∷◌ s) (matching-all m))
  where
    contains-nil : (xs : List ℕ) → contains xs [] ≡ true
    contains-nil [] = refl
    contains-nil (x ∷ xs) = refl

-- Find gives those symbols of List whose name holds the pattern, in any letter case; an empty
-- pattern gives them all.
find-list :
    (t : Table) (pattern : List ℕ)
    → IsTable t
    → (find pattern t ≡ (do ss ← list t; ok (keep (mentions pattern) ss))) × (find [] t ≡ list t)
unfolding find list
find-list t pattern w = (
  ground (arith, matching-keep pattern t.symbols w.named),
  ground (arith, matching-all t.symbols),
)
