-- ===== src/Client/Typed/RoundTrip.antt =====
-- client_types.go: a number that is written to a symbol and read again, on a PLC that keeps a memory.
use goadstc.Base.{
  ℕ, ◌<◌, ◌^◌, ◌≡◌, refl, ap, ◌∙◌, false, Option, some, List, [], ◌∷◌, length, shorter,
  if◌then◌else◌, arith,
}
use goadstc.Go.{
  Result, ok, bytes16, bytes32, bytes64, uint16?, uint32?, uint64?, join16-bytes16, join32-bytes32,
  join64-bytes64,
}
use goadstc.Symbols.Types.{TypeInfo}
use goadstc.Client.Access
use goadstc.Client.Access.{Place}
use goadstc.Client.Values.{first_byte}
use goadstc.Client.Operations.{Call, ◌>>=◌, fail, insufficient, World, Session}
use goadstc.Client.Operations.Symbolic.{write_symbol}
use goadstc.Client.Operations.Memory.{Memory, Serves}
use goadstc.Client.Operations.EndToEnd.{Known, read_symbol-write_symbol}
use goadstc.Client.Typed.{
  number, read_number, read_int8, read_uint8, read_int16, read_uint16, read_int32, read_uint32,
  read_int64, read_uint64, read_float32, read_float64, write_int8, write_uint8, write_int16,
  write_uint16, write_int32, write_uint32, write_int64, write_uint64, write_float32, write_float64,
}

-- The types with a Read and a Write method for their bits.
pub data Numeric : Type 0 where
  int8 uint8 int16 uint16 int32 uint32 int64 uint64 float32 float64 : Numeric

unfoldable pub width : Numeric → ℕ
width int8 = 1
width uint8 = 1
width int16 = 2
width uint16 = 2
width int32 = 4
width uint32 = 4
width int64 = 8
width uint64 = 8
width float32 = 4
width float64 = 8

module _ {S : Type 0} (c : Session S) (ask : List ℕ → Result Access.Error TypeInfo) where
  abbrev pub read_as : Numeric → List ℕ → Call S ℕ
  read_as int8 = read_int8 c ask
  read_as uint8 = read_uint8 c ask
  read_as int16 = read_int16 c ask
  read_as uint16 = read_uint16 c ask
  read_as int32 = read_int32 c ask
  read_as uint32 = read_uint32 c ask
  read_as int64 = read_int64 c ask
  read_as uint64 = read_uint64 c ask
  read_as float32 = read_float32 c ask
  read_as float64 = read_float64 c ask

  abbrev pub write_as : Numeric → List ℕ → ℕ → Call S (Unit {0})
  write_as int8 = write_int8 c ask
  write_as uint8 = write_uint8 c ask
  write_as int16 = write_int16 c ask
  write_as uint16 = write_uint16 c ask
  write_as int32 = write_int32 c ask
  write_as uint32 = write_uint32 c ask
  write_as int64 = write_int64 c ask
  write_as uint64 = write_uint64 c ask
  write_as float32 = write_float32 c ask
  write_as float64 = write_float64 c ask

  -- The symbol read again is cut to its word.
  read_number-write_symbol :
      (mem : S → Memory) (name : List ℕ) (p : Place) (w : World S)
      → Serves c mem
      → Known ask w.client name p
      → (size v : ℕ) (word : List ℕ → Option ℕ) (xs : List ℕ) → length xs ≡ size
      → shorter xs size ≡ false
      → word xs ≡ some v
      → p.size ≡ size
      → ((do _ ← write_symbol c ask name xs; read_number c ask size word name) w).0 ≡ ok v
  unfolding read_number
  read_number-write_symbol mem name p w serves k size v word xs e long found whole =
      let next : List ℕ → Call S ℕ =
        λ ys. if shorter ys size then fail (insufficient (length ys)) else number (word ys) in
      let (w', same) =
        read_symbol-write_symbol c mem ask name xs p w next serves k (omega (arith, e, whole)) in
      let value : next xs w' ≡ (ok v, w') = rw long (rw found refl) in ap (λ r. r.0) (same ∙ value)

  -- On a PLC that keeps a memory, with the symbols loaded and the name leading to a place of the size
  -- of the type: each Write method of a number, and then its Read method, give back every value that
  -- fits the type, through the symbol table, both requests, their answers and their error paths.
  -- Numbers with a sign and floats are given by their bits.
  pub read_as-write_as :
      (mem : S → Memory) (name : List ℕ) (p : Place) (w : World S) (t : Numeric) (v : ℕ)
      → Serves c mem
      → Known ask w.client name p
      → p.size ≡ width t
      → v < 256 ^ width t
      → ((do _ ← write_as t name v; read_as t name) w).0 ≡ ok v
  unfolding width read_int8 read_uint8 read_int16 read_uint16 read_int32 read_uint32 read_int64
      read_uint64 read_float32 read_float64 write_int8 write_uint8 write_int16 write_uint16
      write_int32 write_uint32 write_int64 write_uint64 write_float32 write_float64 bytes16 bytes32
      bytes64 uint16? uint32? uint64?
  read_as-write_as mem name p w int8 v serves k whole fits =
      read_number-write_symbol mem name p w serves k 1 v first_byte (v ∷ []) refl refl refl whole
  read_as-write_as mem name p w uint8 v serves k whole fits =
      read_number-write_symbol mem name p w serves k 1 v first_byte (v ∷ []) refl refl refl whole
  read_as-write_as mem name p w int16 v serves k whole fits =
      read_number-write_symbol mem name p w serves k 2 v uint16? (bytes16 v) refl refl
        (ap some (join16-bytes16 v fits)) whole
  read_as-write_as mem name p w uint16 v serves k whole fits =
      read_number-write_symbol mem name p w serves k 2 v uint16? (bytes16 v) refl refl
        (ap some (join16-bytes16 v fits)) whole
  read_as-write_as mem name p w int32 v serves k whole fits =
      read_number-write_symbol mem name p w serves k 4 v uint32? (bytes32 v) refl refl
        (ap some (join32-bytes32 v fits)) whole
  read_as-write_as mem name p w uint32 v serves k whole fits =
      read_number-write_symbol mem name p w serves k 4 v uint32? (bytes32 v) refl refl
        (ap some (join32-bytes32 v fits)) whole
  read_as-write_as mem name p w int64 v serves k whole fits =
      read_number-write_symbol mem name p w serves k 8 v uint64? (bytes64 v) refl refl
        (ap some (join64-bytes64 v fits)) whole
  read_as-write_as mem name p w uint64 v serves k whole fits =
      read_number-write_symbol mem name p w serves k 8 v uint64? (bytes64 v) refl refl
        (ap some (join64-bytes64 v fits)) whole
  read_as-write_as mem name p w float32 v serves k whole fits =
      read_number-write_symbol mem name p w serves k 4 v uint32? (bytes32 v) refl refl
        (ap some (join32-bytes32 v fits)) whole
  read_as-write_as mem name p w float64 v serves k whole fits =
      read_number-write_symbol mem name p w serves k 8 v uint64? (bytes64 v) refl refl
        (ap some (join64-bytes64 v fits)) whole
