-- ===== src/Client/Access.antt =====
-- client.go and client_structs.go: array elements and their fields, from a name to a place in the PLC.
pub mod Parse
pub mod Resolve
use goadstc.Base.{
  ℕ, zero, suc, ◌+◌, ◌-◌, ◌*◌, ◌%◌, ◌^◌, Bool, true, false, ◌&&◌, Option, none, some, List, [], ◌∷◌,
  ◌++◌, length, ltb, leb, ◌==◌, get_elem?, if◌then◌else◌,
}
use goadstc.Go.{Result, ok, err, panic, ◌>>=◌, wrap, or_panic, Slice, exact, slice, slice_from?}
use goadstc.Go.Strings.{text, same, contains, index, trim_space, digits, skip_blanks}
use goadstc.Symbols.Types.{
  TypeInfo, type_name, type_size, type_fields, Fields, no_fields, field, Symbol,
}
use goadstc.Symbols.Table
use goadstc.Symbols.Table.{Table}
use goadstc.Symbols.Registry
use goadstc.Symbols.Registry.{TypeRegistry}

-- The errors of these functions; `fetch` is one of fetchTypeInfoFromPLC. `out_of_fuel` is no Go error:
-- the loop of parseArrayAccess ran out of its rounds.
pub data Error : Type 0 where
  missing_bracket multi_dimensional out_of_fuel : Error
  bad_index : List ℕ → Error
  resolve_symbol : List ℕ → Table.Error → Error
  not_array : List ℕ → Error
  element_type : List ℕ → Error → Error
  field_not_found : List ℕ → List ℕ → Error
  fetch : ℕ → Error

-- A sign and the text behind it.
unfoldable pub take_sign : List ℕ → Bool × List ℕ
take_sign [] = (false, [])
take_sign (c ∷ cs) =
    if c == b'-' then (true, cs) else if c == b'+' then (false, cs) else (false, c ∷ cs)

-- `fmt.Sscanf(s, "%d", &idx)` into an int: its 64 bits, or `none` where it fails.
unfoldable pub scan_int : List ℕ → Option ℕ
unfolding take_sign digits
scan_int s =
    let (negative, rest) = take_sign (skip_blanks s) in
    (elim (digits 0 false rest) [
      | none ↦ none
      | some n ↦
          if negative
          then (if leb n (2 ^ 63) then some ((2 ^ 64 - n) % 2 ^ 64) else none)
          else (if ltb n (2 ^ 63) then some n else none)
    ])

-- s[i:] of a string.
abbrev pub from : List ℕ → ℕ → Result Error (List ℕ)
from s i = do part ← or_panic (slice_from? (exact s) i); ok part.bytes

-- s[i:j] of a string.
abbrev pub part : List ℕ → ℕ → ℕ → Result Error (List ℕ)
part s i j = do p ← slice (exact s) i j; ok p.bytes

abbrev pub opens : List ℕ → Bool
opens [] = false
opens (c ∷ cs) = c == b'['

-- The loop of parseArrayAccess, with the rounds left and the indices so far: it gives the remainder
-- and the indices.
unfoldable pub parse_indices : ℕ → List ℕ → List ℕ → Result Error (List ℕ × List ℕ)
parse_indices zero remainder indices = err out_of_fuel
parse_indices (suc fuel) remainder indices = elim (opens remainder) [
  | false ↦ ok (remainder, indices)
  | true ↦ elim (index remainder (b']' ∷ [])) [
    | none ↦ err missing_bracket
    | some close ↦ (do
      index_str ← part remainder 1 close
      idx ← (elim (scan_int index_str) [ none ↦ err (bad_index index_str) | some n ↦ ok n ])
      rest ← from remainder (close + 1)
      parse_indices fuel rest (indices ++ (idx ∷ [])))
  ]
]

-- parseArrayAccess; every round takes a byte at least off the remainder.
unfoldable pub parse_array_access : List ℕ → Result Error (List ℕ × List ℕ)
unfolding parse_indices
parse_array_access name = elim (index name (b'[' ∷ [])) [
  | none ↦ ok (name, [])
  | some first ↦ (do
    base ← part name 0 first
    remainder ← from name first
    (rest, indices) ← parse_indices (length remainder + 1) remainder []
    ok (base ++ rest, indices))
]

-- extractArrayElementType: `none` for false.
unfoldable pub extract_array_element_type : List ℕ → Result Error (Option (List ℕ))
extract_array_element_type type = elim (index type (text " OF ")) [
  | none ↦ ok none
  | some i ↦ (do rest ← from type (i + 4); ok (some (trim_space rest)))
]

-- hasStructFieldAfterArray
unfoldable pub has_struct_field_after_array : List ℕ → Result Error Bool
has_struct_field_after_array name = elim (index name (b'[' ∷ [])) [
  | none ↦ ok false
  | some first ↦ (do
    rest ← from name first
    ok (elim (index rest (b']' ∷ [])) [
      | none ↦ false
      | some close ↦ elim (get_elem? name (first + close + 1)) [ none ↦ false | some c ↦ c == b'.' ]
    ]))
]

-- splitArrayAndField: without a "[", name[-1:] is a panic; without a "]", closeBracket is -1.
unfoldable pub split_array_and_field : List ℕ → Result Error (List ℕ × List ℕ)
split_array_and_field name = elim (index name (b'[' ∷ [])) [
  | none ↦ panic
  | some first ↦ (do
    rest ← from name first
    let after : ℕ = elim (index rest (b']' ∷ [])) [ none ↦ first | some close ↦ first + close + 1 ]
    array_part ← part name 0 after
    struct_field ← from name (after + 1)
    ok (array_part, struct_field))
]

-- getElementTypeName
unfoldable pub get_element_type_name : List ℕ → Result Error (List ℕ)
get_element_type_name type = do
  element ← extract_array_element_type type
  ok (elim element [ none ↦ type | some e ↦ e ])

-- findFieldInType: the offset and the type of the field.
unfoldable pub find_field : Fields → List ℕ → Option (ℕ × TypeInfo)
find_field no_fields name = none
find_field (field n offset type bit_offset bit_size fs) name =
    if same n name then some (offset, type) else find_field fs name

-- Where a symbol stands: index group, index offset and size.
pub record Place : Type 0 where
  pub index_group : ℕ
  pub index_offset : ℕ
  pub size : ℕ

-- The client, as far as these functions go.
pub record Client : Type 0 where
  pub table : Table
  pub types : TypeRegistry

-- The first part of resolveArrayStructField: the symbol, its element type, the indices and the
-- field.
unfoldable pub struct_access : List ℕ → Client → Result Error (Symbol × List ℕ × List ℕ × List ℕ)
struct_access name c = do
  (array_part, struct_field) ← split_array_and_field name
  (base, indices) ← parse_array_access array_part
  if ltb 1 (length indices) then err multi_dimensional else (do
    symbol ← wrap (resolve_symbol base) (Table.get base c.table)
    named ← extract_array_element_type (type_name symbol.type)
    element ← (elim named [ none ↦ err (not_array base) | some e ↦ ok e ])
    ok (symbol, element, indices, struct_field))

-- Its last part; `indices[0]` of an empty slice is a panic.
unfoldable pub field_place : Symbol → List ℕ → List ℕ → List ℕ → TypeInfo → Result Error Place
field_place symbol element indices struct_field info = do
  i ← or_panic (get_elem? indices 0)
  (offset, type) ← (elim (find_field (type_fields info) struct_field) [
    | none ↦ err (field_not_found struct_field element)
    | some found ↦ ok found
  ])
  ok (record {
    index_group = symbol.index_group;
    index_offset = (symbol.index_offset + i % 2 ^ 32 * type_size info % 2 ^ 32 + offset) % 2 ^ 32;
    size = type_size type;
  })

-- fetchTypeInfoFromPLC is the argument `ask`.
module _ (ask : List ℕ → Result Error TypeInfo) where
  -- getOrFetchTypeInfo
  unfoldable pub get_or_fetch_type_info : List ℕ → Client → Result Error (TypeInfo × Client)
  get_or_fetch_type_info name c =
      let (known, exists) = Registry.get name c.types in
      if exists
      then ok (known, c)
      else (do info ← ask name; ok (info, record c { types = Registry.register name info c.types }))

  -- What follows a call of getOrFetchTypeInfo for the element type; what that has cached stays.
  unfoldable pub with_type_info :
      List ℕ → Client → (TypeInfo → Result Error Place) → Result Error Place × Client
  unfolding get_or_fetch_type_info
  with_type_info element c rest = elim (get_or_fetch_type_info element c) [
    | ok (info, c') ↦ (rest info, c')
    | err e ↦ (err (element_type element e), c)
    | panic ↦ (panic, c)
  ]

  -- The last part of resolveSimpleArray.
  unfoldable pub resolve_element : Symbol → List ℕ → Client → Result Error Place × Client
  unfolding with_type_info
  resolve_element symbol [] c = (
    ok (record {
      index_group = symbol.index_group;
      index_offset = symbol.index_offset;
      size = symbol.size;
    }),
    c,
  )
  resolve_element symbol (i ∷ []) c = elim (get_element_type_name (type_name symbol.type)) [
    | ok element ↦ with_type_info element c (λ info. ok (record {
      index_group = symbol.index_group;
      index_offset = (symbol.index_offset + i % 2 ^ 32 * type_size info % 2 ^ 32) % 2 ^ 32;
      size = type_size info;
    }))
    | err e ↦ (err e, c)
    | panic ↦ (panic, c)
  ]
  resolve_element symbol (i ∷ j ∷ is) c = (err multi_dimensional, c)

  -- resolveSimpleArray
  unfoldable pub resolve_simple_array : List ℕ → Client → Result Error Place × Client
  unfolding resolve_element
  resolve_simple_array name c =
      let access : Result Error (Symbol × List ℕ) = do
        (base, indices) ← parse_array_access name
        symbol ← wrap (resolve_symbol base) (Table.get base c.table)
        ok (symbol, indices)
      in (elim access [
        | ok (symbol, indices) ↦ resolve_element symbol indices c
        | err e ↦ (err e, c)
        | panic ↦ (panic, c)
      ])

  -- resolveArrayStructField
  unfoldable pub resolve_array_struct_field : List ℕ → Client → Result Error Place × Client
  unfolding with_type_info
  resolve_array_struct_field name c = elim (struct_access name c) [
    | ok (symbol, element, indices, struct_field) ↦
        with_type_info element c (field_place symbol element indices struct_field)
    | err e ↦ (err e, c)
    | panic ↦ (panic, c)
  ]

  -- resolveArraySymbol
  unfoldable pub resolve_array_symbol : List ℕ → Client → Result Error Place × Client
  resolve_array_symbol name c = elim (has_struct_field_after_array name) [
    | ok fielded ↦
        if fielded then resolve_array_struct_field name c else resolve_simple_array name c
    | err e ↦ (err e, c)
    | panic ↦ (panic, c)
  ]
