-- ===== src/Client/Typed.antt =====
-- client_types.go: symbols read and written as values of one type. Signed integers and floats are their
-- bits, durations a sign and nanoseconds as in Client.Values.
pub mod RoundTrip
pub mod Strings
use goadstc.Base.{
  ℕ, zero, suc, ◌+◌, ◌-◌, ◌*◌, ◌/◌, ◌%◌, ◌^◌, Bool, true, false, not, Option, none, some, List, [],
  ◌∷◌, ◌++◌, length, ◌==◌, ltb, take, shorter, replicate, if◌then◌else◌,
}
use goadstc.Go.{Result, ok, err, panic, bytes16, bytes32, bytes64, uint16?, uint32?, uint64?, copy}
use goadstc.Go.Text.{until_zero}
use goadstc.Go.Strings.{text}
use goadstc.Symbols.Types.{TypeInfo}
use goadstc.Client.Access
use goadstc.Client.Access.{Place}
use goadstc.Client.Values.{unix, first_byte, Value, from_ms, encode_string}
use goadstc.Client.Operations.{
  insufficient, Call, after, ◌>>=◌, return, fail, crash, wrapping, Session, read, write,
}
use goadstc.Client.Operations.Symbolic.{ensure_symbols_loaded, resolve, read_symbol, write_symbol}

module _ {S : Type 0} where
  -- A read of a word behind the test of the length.
  abbrev pub number : Option ℕ → Call S ℕ
  number none = crash
  number (some v) = return v

  -- What encode_string gives, as a step of a call.
  abbrev pub string_bytes : {E : Type 0} → Result E (List ℕ) → Call S (List ℕ)
  string_bytes (ok xs) = return xs
  string_bytes (err e) = crash
  string_bytes panic = crash

  abbrev pub wstring_units : Option (List ℕ) → Call S (List ℕ)
  wstring_units none = crash
  wstring_units (some us) = return us

-- The code units of UTF-16, little-endian; an odd last byte is left out.
unfoldable pub units : List ℕ → List ℕ
units (a ∷ b ∷ xs) = (a + b * 2 ^ 8) ∷ units xs
units _ = []

unfoldable pub unit_bytes : List ℕ → List ℕ
unit_bytes [] = []
unit_bytes (u ∷ us) = u % 256 ∷ u / 2 ^ 8 % 256 ∷ unit_bytes us

-- The loop that looks for a zero code unit from byte `i` on: 0 where it finds none.
unfoldable pub zero_unit : ℕ → List ℕ → ℕ
zero_unit i (a ∷ b ∷ xs) = let rest = zero_unit (i + 2) xs in if a + b == 0 then i else rest
zero_unit i _ = 0

-- The length in bytes of the text in a WSTRING.
unfoldable pub wstring_length : List ℕ → ℕ
unfolding zero_unit
wstring_length xs = let found = zero_unit 0 xs in if found == 0 then length xs else found

-- The code units that WriteWString copies: `uint16s[:maxUnits]` is a panic where maxUnits is -1.
unfoldable pub fitting_units : ℕ → List ℕ → Option (List ℕ)
fitting_units zero us = none
fitting_units (suc max_units) us =
    some (if ltb max_units (length us) then take max_units us else us)

-- fetchTypeInfoFromPLC is the argument `ask`; utf16.Encode and utf16.Decode, between a text and its
-- code units, are the arguments `encode` and `decode`.
module _ {S : Type 0} (c : Session S) (ask : List ℕ → Result Access.Error TypeInfo) where
  -- The common part of the methods that read a word of `size` bytes.
  unfoldable pub read_number : ℕ → (List ℕ → Option ℕ) → List ℕ → Call S ℕ
  unfolding read_symbol
  read_number size word name = do
    xs ← read_symbol c ask name
    if shorter xs size then fail (insufficient (length xs)) else number (word xs)

  -- ReadBool
  unfoldable pub read_bool : List ℕ → Call S Bool
  unfolding read_number
  read_bool name = do v ← read_number 1 first_byte name; return (not (v == 0))

  -- ReadInt8
  unfoldable pub read_int8 : List ℕ → Call S ℕ
  unfolding read_number
  read_int8 name = read_number 1 first_byte name

  -- ReadUint8
  unfoldable pub read_uint8 : List ℕ → Call S ℕ
  unfolding read_number
  read_uint8 name = read_number 1 first_byte name

  -- ReadInt16
  unfoldable pub read_int16 : List ℕ → Call S ℕ
  unfolding read_number
  read_int16 name = read_number 2 uint16? name

  -- ReadUint16
  unfoldable pub read_uint16 : List ℕ → Call S ℕ
  unfolding read_number
  read_uint16 name = read_number 2 uint16? name

  -- ReadInt32
  unfoldable pub read_int32 : List ℕ → Call S ℕ
  unfolding read_number
  read_int32 name = read_number 4 uint32? name

  -- ReadUint32
  unfoldable pub read_uint32 : List ℕ → Call S ℕ
  unfolding read_number
  read_uint32 name = read_number 4 uint32? name

  -- ReadInt64
  unfoldable pub read_int64 : List ℕ → Call S ℕ
  unfolding read_number
  read_int64 name = read_number 8 uint64? name

  -- ReadUint64
  unfoldable pub read_uint64 : List ℕ → Call S ℕ
  unfolding read_number
  read_uint64 name = read_number 8 uint64? name

  -- ReadFloat32
  unfoldable pub read_float32 : List ℕ → Call S ℕ
  unfolding read_number
  read_float32 name = read_number 4 uint32? name

  -- ReadFloat64
  unfoldable pub read_float64 : List ℕ → Call S ℕ
  unfolding read_number
  read_float64 name = read_number 8 uint64? name

  -- ReadString
  unfoldable pub read_string : List ℕ → Call S (List ℕ)
  unfolding read_symbol
  read_string name = do xs ← read_symbol c ask name; return (until_zero xs)

  -- ReadTime
  unfoldable pub read_time : List ℕ → Call S Value
  unfolding read_int32
  read_time name = do v ← read_int32 name; return (from_ms v)

  -- ReadDate
  unfoldable pub read_date : List ℕ → Call S Value
  unfolding read_uint32
  read_date name = do v ← read_uint32 name; return (Value.time v 0)

  -- ReadTimeOfDay
  unfoldable pub read_time_of_day : List ℕ → Call S Value
  unfolding read_uint32
  read_time_of_day name = do v ← read_uint32 name; return (Value.duration false (v * 1000000))

  -- ReadDateAndTime
  unfoldable pub read_date_and_time : List ℕ → Call S Value
  unfolding read_uint32
  read_date_and_time name = do v ← read_uint32 name; return (Value.time v 0)

  -- ReadWString
  unfoldable pub read_wstring : (List ℕ → List ℕ) → List ℕ → Call S (List ℕ)
  unfolding ensure_symbols_loaded resolve read units wstring_length
  read_wstring decode name = do
    _ ← ensure_symbols_loaded c ask
    p ← wrapping (text "read wstring") (resolve c ask name)
    xs ← read c p.index_group p.index_offset p.size
    return (decode (units (take (wstring_length xs) xs)))

  -- WriteBool
  unfoldable pub write_bool : List ℕ → Bool → Call S (Unit {0})
  unfolding write_symbol
  write_bool name b = write_symbol c ask name ((if b then 1 else 0) ∷ [])

  -- WriteInt8
  unfoldable pub write_int8 : List ℕ → ℕ → Call S (Unit {0})
  unfolding write_symbol
  write_int8 name n = write_symbol c ask name (n ∷ [])

  -- WriteUint8
  unfoldable pub write_uint8 : List ℕ → ℕ → Call S (Unit {0})
  unfolding write_symbol
  write_uint8 name n = write_symbol c ask name (n ∷ [])

  -- WriteInt16
  unfoldable pub write_int16 : List ℕ → ℕ → Call S (Unit {0})
  unfolding write_symbol
  write_int16 name n = write_symbol c ask name (bytes16 n)

  -- WriteUint16
  unfoldable pub write_uint16 : List ℕ → ℕ → Call S (Unit {0})
  unfolding write_symbol
  write_uint16 name n = write_symbol c ask name (bytes16 n)

  -- WriteInt32
  unfoldable pub write_int32 : List ℕ → ℕ → Call S (Unit {0})
  unfolding write_symbol
  write_int32 name n = write_symbol c ask name (bytes32 n)

  -- WriteUint32
  unfoldable pub write_uint32 : List ℕ → ℕ → Call S (Unit {0})
  unfolding write_symbol
  write_uint32 name n = write_symbol c ask name (bytes32 n)

  -- WriteInt64
  unfoldable pub write_int64 : List ℕ → ℕ → Call S (Unit {0})
  unfolding write_symbol
  write_int64 name n = write_symbol c ask name (bytes64 n)

  -- WriteUint64
  unfoldable pub write_uint64 : List ℕ → ℕ → Call S (Unit {0})
  unfolding write_symbol
  write_uint64 name n = write_symbol c ask name (bytes64 n)

  -- WriteFloat32
  unfoldable pub write_float32 : List ℕ → ℕ → Call S (Unit {0})
  unfolding write_symbol
  write_float32 name n = write_symbol c ask name (bytes32 n)

  -- WriteFloat64
  unfoldable pub write_float64 : List ℕ → ℕ → Call S (Unit {0})
  unfolding write_symbol
  write_float64 name n = write_symbol c ask name (bytes64 n)

  -- WriteString
  unfoldable pub write_string : List ℕ → List ℕ → Call S (Unit {0})
  unfolding ensure_symbols_loaded resolve encode_string write
  write_string name v = do
    _ ← ensure_symbols_loaded c ask
    p ← wrapping (text "write string") (resolve c ask name)
    xs ← string_bytes (encode_string v p.size)
    write c p.index_group p.index_offset xs

  -- WriteTime: `int32(value / time.Millisecond)`
  unfoldable pub write_time : List ℕ → Bool → ℕ → Call S (Unit {0})
  unfolding write_int32
  write_time name negative ns =
      let ms = ns / 1000000 % 2 ^ 32 in
      write_int32 name (if negative then (2 ^ 32 - ms) % 2 ^ 32 else ms)

  -- WriteDate: `uint32(value.Unix())`
  unfoldable pub write_date : List ℕ → ℕ → ℕ → Call S (Unit {0})
  unfolding write_uint32
  write_date name seconds nanoseconds = write_uint32 name (unix seconds nanoseconds % 2 ^ 32)

  -- WriteTimeOfDay
  unfoldable pub write_time_of_day : List ℕ → Bool → ℕ → Call S (Unit {0})
  unfolding write_uint32
  write_time_of_day name negative ns =
      let ms = ns / 1000000 % 2 ^ 32 in
      write_uint32 name (if negative then (2 ^ 32 - ms) % 2 ^ 32 else ms)

  -- WriteDateAndTime
  unfoldable pub write_date_and_time : List ℕ → ℕ → ℕ → Call S (Unit {0})
  unfolding write_uint32
  write_date_and_time name seconds nanoseconds =
      write_uint32 name (unix seconds nanoseconds % 2 ^ 32)

  -- WriteWString
  unfoldable pub write_wstring : (List ℕ → List ℕ) → List ℕ → List ℕ → Call S (Unit {0})
  unfolding ensure_symbols_loaded resolve unit_bytes fitting_units write
  write_wstring encode name v = do
    _ ← ensure_symbols_loaded c ask
    p ← wrapping (text "write wstring") (resolve c ask name)
    us ← wstring_units (fitting_units (p.size / 2) (encode v))
    write c p.index_group p.index_offset (copy (replicate p.size 0) (unit_bytes us))
