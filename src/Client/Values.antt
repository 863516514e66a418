-- ===== src/Client/Values.antt =====
-- client_auto.go: values of simple types, to bytes and back.
pub mod RoundTrip
use goadstc.Base.{
  ℕ, zero, suc, ◌+◌, ◌-◌, ◌*◌, ◌/◌, ◌%◌, ◌^◌, Bool, true, false, not, ◌&&◌, ◌||◌, Option, none,
  some, List, [], ◌∷◌, length, ltb, shorter, take, replicate, ◌==◌, if◌then◌else◌,
}
use goadstc.Go.{
  Result, ok, err, panic, ◌>>=◌, or_panic, bytes16, bytes32, bytes64, uint16?, uint32?, uint64?,
  copy,
}
use goadstc.Go.Text.{until_zero}
use goadstc.Go.Strings.{text, same, trim_space, to_upper}
use goadstc.Symbols.Types.{type_name, Symbol}

-- A Go value. Integers and floats are their bits, and a duration its sign and nanoseconds. A time is
-- its Unix seconds, as the bits of an int64, and the nanoseconds behind them, below a second; its
-- location is left out.
pub data Value : Type 0 where
  nil : Value
  bool : Bool → Value
  int8 uint8 int16 uint16 int32 uint32 int64 uint64 int float32 float64 : ℕ → Value
  string bytes : List ℕ → Value
  duration : Bool → ℕ → Value
  time : ℕ → ℕ → Value

pub data Error : Type 0 where
  insufficient : Error
  unknown_type : List ℕ → Error
  int_size : ℕ → Error

-- The cases of the switch in parseSimpleTypeByName.
pub data Kind : Type 0 where
  bool int8 uint8 int16 uint16 int32 uint32 int64 uint64 real lreal string time date time_of_day :
      Kind

abbrev pub one_of : List ℕ → List (List ℕ) → Bool
one_of name [] = false
one_of name (t ∷ ts) = same name t || one_of name ts

unfoldable pub kind_of : List ℕ → Option Kind
kind_of name =
    if one_of name (text "BOOL" ∷ [])
    then some Kind.bool
    else if one_of name (text "SINT" ∷ text "INT8" ∷ [])
    then some Kind.int8
    else if one_of name (text "USINT" ∷ text "BYTE" ∷ text "UINT8" ∷ [])
    then some Kind.uint8
    else if one_of name (text "INT" ∷ text "INT16" ∷ [])
    then some Kind.int16
    else if one_of name (text "UINT" ∷ text "WORD" ∷ text "UINT16" ∷ [])
    then some Kind.uint16
    else if one_of name (text "DINT" ∷ text "INT32" ∷ [])
    then some Kind.int32
    else if one_of name (text "UDINT" ∷ text "DWORD" ∷ text "UINT32" ∷ [])
    then some Kind.uint32
    else if one_of name (text "LINT" ∷ text "INT64" ∷ [])
    then some Kind.int64
    else if one_of name (text "ULINT" ∷ text "LWORD" ∷ text "UINT64" ∷ [])
    then some Kind.uint64
    else if one_of name (text "REAL" ∷ text "FLOAT" ∷ [])
    then some Kind.real
    else if one_of name (text "LREAL" ∷ text "DOUBLE" ∷ [])
    then some Kind.lreal
    else if one_of name (text "STRING" ∷ [])
    then some Kind.string
    else if one_of name (text "TIME" ∷ [])
    then some Kind.time
    else if one_of name (text "DATE" ∷ text "DATE_AND_TIME" ∷ text "DT" ∷ [])
    then some Kind.date
    else if one_of name (text "TIME_OF_DAY" ∷ text "TOD" ∷ [])
    then some Kind.time_of_day
    else none

-- A read behind its test of the length.
abbrev pub sized : ℕ → (List ℕ → Option ℕ) → (ℕ → Value) → List ℕ → Result Error Value
sized n read build xs =
    if shorter xs n then err insufficient else (do v ← or_panic (read xs); ok (build v))

-- data[0]
abbrev pub first_byte : List ℕ → Option ℕ
first_byte [] = none
first_byte (x ∷ xs) = some x

-- int32 milliseconds as a duration.
abbrev pub from_ms : ℕ → Value
from_ms p =
    if ltb p (2 ^ 31)
    then Value.duration false (p * 1000000)
    else Value.duration true ((2 ^ 32 - p) * 1000000)

unfoldable pub parse_kind : Kind → List ℕ → Result Error Value
parse_kind Kind.bool = sized 1 first_byte (λ v. Value.bool (not (v == 0)))
parse_kind Kind.int8 = sized 1 first_byte Value.int8
parse_kind Kind.uint8 = sized 1 first_byte Value.uint8
parse_kind Kind.int16 = sized 2 uint16? Value.int16
parse_kind Kind.uint16 = sized 2 uint16? Value.uint16
parse_kind Kind.int32 = sized 4 uint32? Value.int32
parse_kind Kind.uint32 = sized 4 uint32? Value.uint32
parse_kind Kind.int64 = sized 8 uint64? Value.int64
parse_kind Kind.uint64 = sized 8 uint64? Value.uint64
parse_kind Kind.real = sized 4 uint32? Value.float32
parse_kind Kind.lreal = sized 8 uint64? Value.float64
parse_kind Kind.string = λ xs. ok (Value.string (until_zero xs))
parse_kind Kind.time = sized 4 uint32? from_ms
parse_kind Kind.date = sized 4 uint32? (λ v. Value.time v 0)
parse_kind Kind.time_of_day = sized 4 uint32? (λ v. Value.duration false (v * 1000000))

-- The switch, with what its default does.
abbrev pub parse_case : Option Kind → List ℕ → List ℕ → Result Error Value
parse_case none name xs = err (unknown_type name)
parse_case (some k) name xs = parse_kind k xs

-- parseSimpleTypeByName
unfoldable pub parse_simple_type_by_name : List ℕ → List ℕ → Result Error Value
parse_simple_type_by_name xs name =
    let upper = to_upper (trim_space name) in parse_case (kind_of upper) upper xs

-- isSimpleTypeName
unfoldable pub is_simple_type_name : List ℕ → Bool
is_simple_type_name name = one_of (to_upper (trim_space name)) (
    text "BOOL"
    ∷ text "SINT"
    ∷ text "INT"
    ∷ text "DINT"
    ∷ text "LINT"
    ∷ text "USINT"
    ∷ text "UINT"
    ∷ text "UDINT"
    ∷ text "ULINT"
    ∷ text "BYTE"
    ∷ text "WORD"
    ∷ text "DWORD"
    ∷ text "LWORD"
    ∷ text "INT8"
    ∷ text "INT16"
    ∷ text "INT32"
    ∷ text "INT64"
    ∷ text "UINT8"
    ∷ text "UINT16"
    ∷ text "UINT32"
    ∷ text "UINT64"
    ∷ text "REAL"
    ∷ text "LREAL"
    ∷ text "FLOAT"
    ∷ text "DOUBLE"
    ∷ text "STRING"
    ∷ text "WSTRING"
    ∷ text "TIME"
    ∷ text "DATE"
    ∷ text "TIME_OF_DAY"
    ∷ text "TOD"
    ∷ text "DATE_AND_TIME"
    ∷ text "DT"
    ∷ [])

-- The arithmetic of floats: the int64 that a float64 equals, if it is whole, and a float64 rounded to
-- a float32, both by their bits.
pub record Floats : Type 0 where
  pub whole : ℕ → Option ℕ
  pub narrow : ℕ → ℕ

-- An integer on as many bytes as the symbol has.
abbrev pub sized_int : ℕ → ℕ → Option (List ℕ)
sized_int size n =
    if size == 2
    then some (bytes16 (n % 2 ^ 16))
    else if size == 4
    then some (bytes32 (n % 2 ^ 32))
    else if size == 8
    then some (bytes64 n)
    else none

-- A string, cut to leave a byte: `v[:maxLen]` is a panic where maxLen is -1.
unfoldable pub encode_string : List ℕ → ℕ → Result Error (List ℕ)
encode_string v zero = panic
encode_string v (suc max_len) =
    ok (copy (replicate (suc max_len) 0) (if ltb max_len (length v) then take max_len v else v))

-- v.Unix(): the nanoseconds are dropped.
abbrev pub unix : ℕ → ℕ → ℕ
unix seconds nanoseconds = seconds

-- encodeSymbolValue, without structs.
unfoldable pub encode_symbol_value : Floats → Value → Symbol → Result Error (List ℕ)
unfolding encode_string
encode_symbol_value fl Value.nil s = ok (replicate s.size 0)
encode_symbol_value fl (Value.bool b) s = ok ((if b then 1 else 0) ∷ [])
encode_symbol_value fl (Value.int8 n) s = ok (n ∷ [])
encode_symbol_value fl (Value.uint8 n) s = ok (n ∷ [])
encode_symbol_value fl (Value.int16 n) s = ok (bytes16 n)
encode_symbol_value fl (Value.uint16 n) s = ok (bytes16 n)
encode_symbol_value fl (Value.int32 n) s = ok (bytes32 n)
encode_symbol_value fl (Value.uint32 n) s = ok (bytes32 n)
encode_symbol_value fl (Value.int64 n) s = ok (bytes64 n)
encode_symbol_value fl (Value.uint64 n) s = ok (bytes64 n)
encode_symbol_value fl (Value.int n) s = elim (sized_int s.size n) [
  | none ↦ err (int_size s.size)
  | some xs ↦ ok xs
]
encode_symbol_value fl (Value.float32 n) s = ok (bytes32 n)
encode_symbol_value fl (Value.float64 n) s =
    let name = type_name s.type in
    let real : List ℕ = if s.size == 4 then bytes32 (fl.narrow n) else bytes64 n in
    let integer : ℕ → Option (List ℕ) =
      λ v. if s.size == 1 then some (v % 256 ∷ []) else sized_int s.size v in
    ok (
      if one_of name (text "REAL" ∷ text "LREAL" ∷ []) then real else (elim (fl.whole n) [
        | none ↦ real
        | some v ↦ elim (integer v) [ none ↦ real | some xs ↦ xs ]
      ]))
encode_symbol_value fl (Value.string v) s = encode_string v s.size
encode_symbol_value fl (Value.bytes v) s = ok (copy (replicate s.size 0) v)
encode_symbol_value fl (Value.duration negative ns) s =
    let ms = ns / 1000000 % 2 ^ 32 in ok (bytes32 (if negative then (2 ^ 32 - ms) % 2 ^ 32 else ms))
encode_symbol_value fl (Value.time seconds nanoseconds) s =
    ok (bytes32 (unix seconds nanoseconds % 2 ^ 32))
