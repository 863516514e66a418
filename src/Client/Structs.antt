-- ===== src/Client/Structs.antt =====
-- client_structs.go: the fields of a struct, from its bytes, by what is known of its type.
pub mod Total
pub mod Write
use goadstc.Base.{
  ℕ, zero, suc, ◌+◌, ◌-◌, ◌*◌, ◌/◌, ◌%◌, ◌^◌, Bool, true, false, not, ◌||◌, ◌&&◌, Option, none,
  some, List, [], ◌∷◌, ◌++◌, length, ltb, shorter, ◌==◌, if◌then◌else◌,
}
use goadstc.Go.{Result, ok, err, panic, ◌>>=◌, or_panic, slice, exact, uint16?, uint32?, uint64?}
use goadstc.Go.Text.{until_zero}
use goadstc.Go.Strings.{text, same}
use goadstc.Symbols.Types.{
  TypeInfo, type_info, type_name, type_size, type_fields, Fields, no_fields, field, Symbol,
  data_type_bool, data_type_int8, data_type_uint8, data_type_int16, data_type_uint16,
  data_type_int32, data_type_uint32, data_type_int64, data_type_uint64, data_type_real32,
  data_type_real64, data_type_string,
}
use goadstc.Client.Failure.{decimal}
use goadstc.Client.Values.{Value, Kind, first_byte}

pub data NoError : Type 0 where

-- What a struct is read as: an `interface{}` that is nil, a Go value, a text that describes what is
-- not read, or a map from field names.
mutual
  pub data Parsed : Type 0 where
    nil : Parsed
    value : Value → Parsed
    described : List ℕ → Parsed
    struct : ParsedFields → Parsed

  pub data ParsedFields : Type 0 where
    no_values : ParsedFields
    with_value : List ℕ → Parsed → ParsedFields → ParsedFields

-- `result[name] = v`
unfoldable pub put_value : List ℕ → Parsed → ParsedFields → ParsedFields
put_value name v no_values = with_value name v no_values
put_value name v (with_value n old rest) =
    let behind = put_value name v rest in
    if same n name then with_value n v rest else with_value n old behind

-- A read behind a test of the length, which gives nil where the data is too short.
unfoldable pub read_or_nil :
    ℕ → (List ℕ → Option ℕ) → (ℕ → Value) → List ℕ → Result NoError (Option Value)
read_or_nil n read build xs =
    if shorter xs n then ok none else (do v ← or_panic (read xs); ok (some (build v)))

-- The cases of the switch in parseSimpleType.
unfoldable pub simple_kind : ℕ → Option Kind
simple_kind base =
    if base == data_type_bool
    then some Kind.bool
    else if base == data_type_int8
    then some Kind.int8
    else if base == data_type_uint8
    then some Kind.uint8
    else if base == data_type_int16
    then some Kind.int16
    else if base == data_type_uint16
    then some Kind.uint16
    else if base == data_type_int32
    then some Kind.int32
    else if base == data_type_uint32
    then some Kind.uint32
    else if base == data_type_int64
    then some Kind.int64
    else if base == data_type_uint64
    then some Kind.uint64
    else if base == data_type_real32
    then some Kind.real
    else if base == data_type_real64
    then some Kind.lreal
    else if base == data_type_string
    then some Kind.string
    else none

-- parseBool, parseInt8Types and the others; there is no case for times.
unfoldable pub parse_simple_case : Option Kind → List ℕ → Result NoError (Option Value)
unfolding read_or_nil
parse_simple_case (some Kind.bool) = read_or_nil 1 first_byte (λ v. Value.bool (not (v == 0)))
parse_simple_case (some Kind.int8) = read_or_nil 1 first_byte Value.int8
parse_simple_case (some Kind.uint8) = read_or_nil 1 first_byte Value.uint8
parse_simple_case (some Kind.int16) = read_or_nil 2 uint16? Value.int16
parse_simple_case (some Kind.uint16) = read_or_nil 2 uint16? Value.uint16
parse_simple_case (some Kind.int32) = read_or_nil 4 uint32? Value.int32
parse_simple_case (some Kind.uint32) = read_or_nil 4 uint32? Value.uint32
parse_simple_case (some Kind.int64) = read_or_nil 8 uint64? Value.int64
parse_simple_case (some Kind.uint64) = read_or_nil 8 uint64? Value.uint64
parse_simple_case (some Kind.real) = read_or_nil 4 uint32? Value.float32
parse_simple_case (some Kind.lreal) = read_or_nil 8 uint64? Value.float64
parse_simple_case (some Kind.string) = λ xs. ok (some (Value.string (until_zero xs)))
parse_simple_case _ = λ xs. ok none

-- parseSimpleType, and parseSimpleTypeByID of client_auto.go, which writes the same cases out.
unfoldable pub parse_simple_type : List ℕ → ℕ → Result NoError (Option Value)
unfolding simple_kind parse_simple_case
parse_simple_type xs base = parse_simple_case (simple_kind base) xs

-- `%x` of bytes.
abbrev pub hex_digit : ℕ → ℕ
hex_digit d = if ltb d 10 then 48 + d else 87 + d

unfoldable pub hex : List ℕ → List ℕ
hex [] = []
hex (x ∷ xs) = hex_digit (x / 16) ∷ hex_digit (x % 16) ∷ hex xs

-- A simple type, or the hexadecimal text of what is not read.
abbrev pub simple_or_hex : List ℕ → Option Value → Parsed
simple_or_hex xs none = described (text "0x" ++ hex xs)
simple_or_hex xs (some v) = value v

-- parseNestedStruct, with its fields as they are read.
unfoldable pub nested_struct :
    List ℕ → List ℕ → Fields → Result NoError ParsedFields → Result NoError Parsed
nested_struct xs name no_fields r = ok (
    described
      (text "<struct " ++ (name ++ (text ", " ++ (decimal 19 (length xs) ++ text " bytes>")))))
nested_struct xs name (field _ _ _ _ _ _) r = do fields ← r; ok (struct fields)

unfoldable mutual
  unfolding parse_simple_type nested_struct put_value

  -- parseFieldValue
  pub parse_field_value : List ℕ → TypeInfo → Result NoError Parsed
  parse_field_value xs (type_info name base size dims array is_struct fields comment) =
      let nested = parse_fields xs fields no_values in
      if length xs == 0
      then ok nil
      else if array
      then ok (described (text "<array " ++ (decimal 19 (length xs) ++ text " bytes>")))
      else if is_struct
      then nested_struct xs name fields nested
      else (do v ← parse_simple_type xs base; ok (simple_or_hex xs v))

  -- parseFieldsFromTypeInfo, also the loops of parseNestedStruct and parseStructWithTypeInfo; a field
  -- past the data is left out.
  pub parse_fields : List ℕ → Fields → ParsedFields → Result NoError ParsedFields
  parse_fields xs no_fields result = ok result
  parse_fields xs (field name offset type bit_offset bit_size fs) result =
      let skip = parse_fields xs fs result in
      if ltb (length xs) (offset + type_size type) then skip else (do
        part ← slice (exact xs) offset ((offset + type_size type) % 2 ^ 32)
        v ← parse_field_value part.bytes type
        parse_fields xs fs (put_value name v result))

-- addRawStructInfo
unfoldable pub raw_struct : List ℕ → List ℕ → ParsedFields
raw_struct xs name = with_value (text "_raw") (value (Value.bytes xs)) (
    with_value (text "_size") (value (Value.int (length xs))) (
      with_value (text "_type") (value (Value.string name)) (
        with_value (text "_note")
          (value (
            Value.string (
              text
                "Type information not available from PLC. Data type upload may not be supported by this TwinCAT version.")))
          no_values)))

unfoldable pub has_fields : Fields → Bool
has_fields no_fields = false
has_fields (field _ _ _ _ _ _) = true

-- parseStructData
unfoldable pub parse_struct_data : List ℕ → TypeInfo → Bool → Symbol → Result NoError ParsedFields
unfolding parse_fields raw_struct has_fields
parse_struct_data xs info has_type_info symbol =
    if has_type_info && has_fields (type_fields info)
    then parse_fields xs (type_fields info) no_values
    else if has_fields (type_fields symbol.type)
    then parse_fields xs (type_fields symbol.type) no_values
    else ok (raw_struct xs (type_name symbol.type))
