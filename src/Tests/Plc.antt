-- ===== src/Tests/Plc.antt =====
-- Runs of client.go and client_types.go on a small PLC that keeps a memory.
use goadstc.Base.{
  ℕ, ◌≡◌, refl, true, false, none, List, [], ◌∷◌, ◌++◌, ◌⊎◌, inl, inr, arith, ◌==◌, if◌then◌else◌,
  length,
}
use goadstc.Go.{Result, ok, err, exact, bytes32, join32, join32-bytes32, IsU32}
use goadstc.Go.Strings.{text, index_from}
use goadstc.Ams.Packet.{Packet, new_request_packet}
use goadstc.Ads.Requests.{cmd_read}
use goadstc.Ads.Requests.Layout
use goadstc.Ads.Requests.Layout.{wire}
use goadstc.Ads.Responses.Decode.{start}
use goadstc.Go.Map.{lookup}
use goadstc.Symbols.Types.{TypeInfo, type_info, no_fields, Symbol}
use goadstc.Symbols.Table
use goadstc.Client.Retry
use goadstc.Client.Access
use goadstc.Client.Access.{
  Place, Client, resolve_array_symbol, has_struct_field_after_array, resolve_simple_array,
  parse_array_access,
}
use goadstc.Client.Operations.{Session, World, ◌>>=◌, return, read, write}
use goadstc.Client.Operations.Memory.{Memory, cells, store, Serves, Refines, read-write-Refines}
use goadstc.Client.Operations.EndToEnd.{Known, read_symbol-write_symbol}
use goadstc.Client.Operations.Symbolic.{read_symbol, write_symbol}
use goadstc.Client.Typed.{read_wstring, write_wstring, read_string, write_string, fitting_units}
use goadstc.Client.Typed.RoundTrip.{uint16, width, read_as, write_as, read_as-write_as}
use goadstc.Client.Typed.Strings.{visible, read_wstring-write_wstring, read_string-write_string}
use goadstc.Tests.Frames.{plc, pc}

abbrev reply : List ℕ → Packet
reply xs = new_request_packet pc 32905 plc 851 2 7 (exact xs)

-- A Read request, and a Write request: the PLC answers what it can decode.
plc_read : List ℕ → Memory → (Retry.Error ⊎ Packet) × Memory
plc_read (a ∷ b ∷ c ∷ d ∷ e ∷ f ∷ g ∷ h ∷ i ∷ j ∷ k ∷ l ∷ []) m = (
  inr (
      reply
        (start 0 (join32 i j k l) ++ cells m (join32 a b c d) (join32 e f g h) (join32 i j k l))),
  m,
)
plc_read _ m = (inl Retry.not_connected, m)

plc_write : List ℕ → Memory → (Retry.Error ⊎ Packet) × Memory
plc_write (a ∷ b ∷ c ∷ d ∷ e ∷ f ∷ g ∷ h ∷ i ∷ j ∷ k ∷ l ∷ xs) m =
    (inr (reply (bytes32 0)), store (join32 a b c d) (join32 e f g h) xs m)
plc_write _ m = (inl Retry.not_connected, m)

abbrev small_plc : Session Memory
small_plc = record {
  send = λ command xs m. if command == cmd_read then plc_read xs m else plc_write xs m;
  elapsed = λ m. 1000;
  closed_at = 1;
  failed_at = 2;
  address = 3;
}

reads_lem :
    (g o n : ℕ) (m : Memory)
    → IsU32 g
    → IsU32 o
    → IsU32 n
    → plc_read (wire (Layout.read (record { index_group = g; index_offset = o; length = n }))) m
      ≡ (inr (reply (start 0 n ++ cells m g o n)), m)
unfolding plc_read wire bytes32
reads_lem g o n m hg ho hn =
    rw (join32-bytes32 n hn) (rw (join32-bytes32 g hg) (rw (join32-bytes32 o ho) refl))

writes_lem :
    (g o n : ℕ) (xs : List ℕ) (m : Memory)
    → IsU32 g
    → IsU32 o
    → plc_write
        (wire (Layout.write (record { index_group = g; index_offset = o; length = n; body = xs })))
        m
      ≡ (inr (reply (bytes32 0)), store g o xs m)
unfolding plc_write wire bytes32
writes_lem g o n xs m hg ho = rw (join32-bytes32 g hg) (rw (join32-bytes32 o ho) refl)

small_plc-Serves : Serves small_plc (λ m. m)
unfolding new_request_packet
small_plc-Serves = record {
  reads = λ g o n m hg ho hn.
      (reply (start 0 n ++ cells m g o n), m, reads_lem g o n m hg ho (omega arith), refl, refl);
  writes = λ g o xs m hg ho hx.
      (reply (bytes32 0), store g o xs m, writes_lem g o (length xs) xs m hg ho, refl, refl);
}

-- A word.
abbrev count : Symbol
count = record {
  name = text "MAIN.n";
  type = type_info (text "WORD") 18 2 [] false false no_fields [];
  index_group = 0x4040;
  index_offset = 100;
  size = 2;
  flags = 0;
  comment = [];
}

-- A WSTRING of four code units.
abbrev note : Symbol
note = record {
  name = text "MAIN.s";
  type = type_info (text "WSTRING(3)") 18 8 [] false false no_fields [];
  index_group = 0x4040;
  index_offset = 102;
  size = 8;
  flags = 0;
  comment = [];
}

abbrev client : Client
client = record {
  table = record { symbols = (text "MAIN.n", count) ∷ (text "MAIN.s", note) ∷ []; loaded = true };
  types = record { types = [] };
}

abbrev world : World Memory
world = record { plc = λ g o. 0; client = client; events = [] }

abbrev ask : List ℕ → Result Access.Error TypeInfo
ask name = err (Access.fetch 0)

abbrev place : Symbol → Place
place s = record { index_group = s.index_group; index_offset = s.index_offset; size = s.size }

count-Known : Known ask client (text "MAIN.n") (place count)
unfolding resolve_array_symbol has_struct_field_after_array resolve_simple_array parse_array_access
    index_from Table.is_loaded Table.get lookup
count-Known = record {
  loaded = refl;
  found = refl;
  group = omega arith;
  offset = omega arith;
  size = omega arith;
}

note-Known : Known ask client (text "MAIN.s") (place note)
unfolding resolve_array_symbol has_struct_field_after_array resolve_simple_array parse_array_access
    index_from Table.is_loaded Table.get lookup
note-Known = record {
  loaded = refl;
  found = refl;
  group = omega arith;
  offset = omega arith;
  size = omega arith;
}

read-write-Refines_example :
    Refines
      (λ m. m)
      world
      (read small_plc 0x4040 100 2 world)
      (cells (λ g o. 0) 0x4040 100 2)
      (λ g o. 0)
    × Refines
        (λ m. m)
        world
        (write small_plc 0x4040 100 (7 ∷ 1 ∷ []) world)
        tt
        (store 0x4040 100 (7 ∷ 1 ∷ []) (λ g o. 0))
read-write-Refines_example =
    read-write-Refines small_plc (λ m. m) 0x4040 100 2 (7 ∷ 1 ∷ []) world small_plc-Serves
      (omega arith) (omega arith) (omega arith) (omega arith)

read_as-write_as_example :
    ((do
      _ ← write_as small_plc ask uint16 (text "MAIN.n") 263
      read_as small_plc ask uint16 (text "MAIN.n"))
      world).0
    ≡ ok 263
unfolding width
read_as-write_as_example =
    read_as-write_as small_plc ask (λ m. m) (text "MAIN.n") (place count) world uint16 263
      small_plc-Serves count-Known refl (omega arith)

read_wstring-write_wstring_example :
    ((do
      _ ← write_wstring small_plc ask (λ v. v) (text "MAIN.s") (text "on")
      read_wstring small_plc ask (λ v. v) (text "MAIN.s"))
      world).0
    ≡ ok (visible 8 (text "on"))
read_wstring-write_wstring_example =
    read_wstring-write_wstring small_plc ask (λ m. m) (text "MAIN.s") (place note) world
      small_plc-Serves note-Known (λ v. v) (λ v. v) (text "on")
      ((omega arith, omega arith), ((omega arith, omega arith), tt)) (omega arith)

read_symbol-write_symbol_example :
    (w' : World Memory) × ((do
      _ ← write_symbol small_plc ask (text "MAIN.n") (7 ∷ 1 ∷ [])
      xs ← read_symbol small_plc ask (text "MAIN.n")
      return xs)
        world
      ≡ (ok (7 ∷ 1 ∷ []), w'))
read_symbol-write_symbol_example =
    read_symbol-write_symbol small_plc (λ m. m) ask (text "MAIN.n") (7 ∷ 1 ∷ []) (place count) world
      (λ xs. return xs) small_plc-Serves count-Known refl

read_string-write_string_example :
    ((do
      _ ← write_string small_plc ask (text "MAIN.s") (text "on")
      read_string small_plc ask (text "MAIN.s"))
      world).0
    ≡ ok (text "on")
read_string-write_string_example =
    read_string-write_string small_plc ask (λ m. m) (text "MAIN.s") (place note) world
      small_plc-Serves note-Known (text "on") (omega arith, (omega arith, tt)) (omega arith)

-- An empty WSTRING is read as four zero units, and a WSTRING for a place without bytes is a panic.
empty_text : visible 8 [] ≡ 0 ∷ 0 ∷ 0 ∷ 0 ∷ []
unfolding visible
empty_text = refl

no_room : fitting_units 0 (text "on") ≡ none
unfolding fitting_units
no_room = refl
