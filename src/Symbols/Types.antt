-- ===== src/Symbols/Types.antt =====
-- internal/symbols/parser.go: data type numbers, type information and symbols.
use goadstc.Base.{ℕ, Bool, false, ◌||◌, List, [], ◌==◌}

-- type DataType uint32
abbrev pub data_type_bit : ℕ
data_type_bit = 1

abbrev pub data_type_int16 : ℕ
data_type_int16 = 2

abbrev pub data_type_int32 : ℕ
data_type_int32 = 3

abbrev pub data_type_real32 : ℕ
data_type_real32 = 4

abbrev pub data_type_real64 : ℕ
data_type_real64 = 5

abbrev pub data_type_int8 : ℕ
data_type_int8 = 16

abbrev pub data_type_uint8 : ℕ
data_type_uint8 = 17

abbrev pub data_type_uint16 : ℕ
data_type_uint16 = 18

abbrev pub data_type_uint32 : ℕ
data_type_uint32 = 19

abbrev pub data_type_int64 : ℕ
data_type_int64 = 20

abbrev pub data_type_uint64 : ℕ
data_type_uint64 = 21

abbrev pub data_type_string : ℕ
data_type_string = 30

abbrev pub data_type_bool : ℕ
data_type_bool = 33

-- TypeInfo and FieldInfo. A type holds its fields, and each field its type; `Fields` is the slice of
-- FieldInfo.
mutual
  pub data TypeInfo : Type 0 where
    -- name, base type, size, array dimensions, is array, is struct, fields, comment
    type_info : List ℕ → ℕ → ℕ → List ℕ → Bool → Bool → Fields → List ℕ → TypeInfo

  pub data Fields : Type 0 where
    no_fields : Fields
    -- name, offset, type, bit offset, bit size
    field : List ℕ → ℕ → TypeInfo → ℕ → ℕ → Fields → Fields

abbrev pub type_name : TypeInfo → List ℕ
type_name (type_info name _ _ _ _ _ _ _) = name

abbrev pub base_type : TypeInfo → ℕ
base_type (type_info _ base _ _ _ _ _ _) = base

abbrev pub type_size : TypeInfo → ℕ
type_size (type_info _ _ size _ _ _ _ _) = size

abbrev pub array_dims : TypeInfo → List ℕ
array_dims (type_info _ _ _ dims _ _ _ _) = dims

abbrev pub is_array : TypeInfo → Bool
is_array (type_info _ _ _ _ arr _ _ _) = arr

abbrev pub is_struct : TypeInfo → Bool
is_struct (type_info _ _ _ _ _ str _ _) = str

abbrev pub type_fields : TypeInfo → Fields
type_fields (type_info _ _ _ _ _ _ fs _) = fs

-- The zero value of TypeInfo.
abbrev pub zero_type : TypeInfo
zero_type = type_info [] 0 0 [] false false no_fields []

pub record Symbol : Type 0 where
  pub name : List ℕ
  pub type : TypeInfo
  pub index_group : ℕ
  pub index_offset : ℕ
  pub size : ℕ
  pub flags : ℕ
  pub comment : List ℕ

-- isSimpleType
unfoldable pub is_simple_type : ℕ → Bool
is_simple_type dt =
    dt == data_type_int8
    || dt == data_type_uint8
    || dt == data_type_int16
    || dt == data_type_uint16
    || dt == data_type_int32
    || dt == data_type_uint32
    || dt == data_type_int64
    || dt == data_type_uint64
    || dt == data_type_real32
    || dt == data_type_real64
    || dt == data_type_bool
    || dt == data_type_bit
