-- ===== src/Client/Operations/Symbolic.antt =====
-- client.go: the methods that go by symbol names.
use goadstc.Base.{ℕ, List, length, ◌%◌, ◌^◌, ◌==◌, if◌then◌else◌}
use goadstc.Go.{Result, ok, err, panic, exact}
use goadstc.Go.Strings.{text}
use goadstc.Symbols.Types.{TypeInfo, Symbol}
use goadstc.Symbols.Table
use goadstc.Client.Access
use goadstc.Client.Access.{Client, Place, resolve_array_symbol}
use goadstc.Client.Operations.{
  Error, of_table, of_access, size_mismatch, World, Call, ◌>>=◌, return, fail, crash, wrapping,
  Session, read, write, upload_symbol_table,
}

module _ {S : Type 0} where
  -- The answer of a method of the symbol table.
  abbrev pub from_table : {A : Type 0} → Result Table.Error A → Call S A
  from_table (ok a) = return a
  from_table (err e) = fail (of_table e)
  from_table panic = crash

  -- GetSymbol
  unfoldable pub get_symbol : List ℕ → Call S Symbol
  get_symbol name w = from_table (Table.get name w.client.table) w

  -- The table that Load leaves; where it fails the table stays.
  abbrev pub put_table : Result Table.Error Table.Table → Call S (Unit {0})
  put_table (ok t) w = (ok tt, record w { client = record w.client { table = t } })
  put_table (err e) w = (err (of_table e), w)
  put_table panic w = (panic, w)

  -- The place that the access of Client.Access finds, with what it has cached.
  abbrev pub put_access :
      World S → Result Access.Error Place × Client → Result Error Place × World S
  put_access w (ok p, client) = (ok p, record w { client = client })
  put_access w (err e, client) = (err (of_access e), record w { client = client })
  put_access w (panic, client) = (panic, record w { client = client })

-- fetchTypeInfoFromPLC is the argument `ask`.
module _ {S : Type 0} (c : Session S) (ask : List ℕ → Result Access.Error TypeInfo) where
  -- RefreshSymbols
  unfoldable pub refresh_symbols : Call S (Unit {0})
  unfolding upload_symbol_table
  refresh_symbols = do
    xs ← wrapping (text "refresh symbols") (upload_symbol_table c)
    wrapping (text "load symbols") (λ w. put_table (Table.load (exact xs) w.client.table) w)

  -- ensureSymbolsLoaded
  unfoldable pub ensure_symbols_loaded : Call S (Unit {0})
  unfolding refresh_symbols
  ensure_symbols_loaded w = if Table.is_loaded w.client.table then (ok tt, w) else refresh_symbols w

  -- ListSymbols and FindSymbols
  unfoldable pub list_symbols : Call S (List Symbol)
  unfolding ensure_symbols_loaded
  list_symbols = do _ ← ensure_symbols_loaded; λ w. from_table (Table.list w.client.table) w

  unfoldable pub find_symbols : List ℕ → Call S (List Symbol)
  unfolding ensure_symbols_loaded
  find_symbols pattern = do
    _ ← ensure_symbols_loaded
    λ w. from_table (Table.find pattern w.client.table) w

  unfoldable pub resolve : List ℕ → Call S Place
  resolve name w = put_access w (resolve_array_symbol ask name w.client)

  -- ReadSymbol
  unfoldable pub read_symbol : List ℕ → Call S (List ℕ)
  unfolding ensure_symbols_loaded resolve
  read_symbol name = do
    _ ← ensure_symbols_loaded
    p ← wrapping (text "read symbol") (resolve name)
    read c p.index_group p.index_offset p.size

  -- WriteSymbol
  unfoldable pub write_symbol : List ℕ → List ℕ → Call S (Unit {0})
  unfolding ensure_symbols_loaded resolve
  write_symbol name body = do
    _ ← ensure_symbols_loaded
    p ← wrapping (text "write symbol") (resolve name)
    if length body % 2 ^ 32 == p.size
        then write c p.index_group p.index_offset body
        else fail (size_mismatch p.size (length body))
