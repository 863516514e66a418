-- ===== src/Symbols/Parser.antt =====
-- internal/symbols/parser.go: the parser of the symbol upload.
pub mod Bounds
pub mod Dimensions
pub mod Loop
pub mod RoundTrip
use goadstc.Base.{
  ℕ, zero, suc, ◌+◌, ◌-◌, ◌%◌, ◌^◌, Bool, true, false, not, ◌||◌, Option, none, some, List, [], ◌∷◌,
  ◌++◌, length, ltb, shorter, ◌==◌, if◌then◌else◌,
}
use goadstc.Go.{Result, ok, err, ◌>>=◌, wrap, or_panic, Slice, exact, slice, read16, read32}
use goadstc.Go.Text.{until_zero}
use goadstc.Go.Strings.{text, contains, index, split_byte, split_pair, trim_space, scan_uint32}
use goadstc.Symbols.Types.{TypeInfo, type_info, no_fields, Symbol, is_simple_type}

-- The errors of the package, with the numbers that their texts print. `out_of_fuel` is no Go error:
-- the loop of ParseSymbolTable ran out of its rounds (`parse_symbol_table-ends`).
pub data Error : Type 0 where
  empty_data : Error
  entry_length : ℕ → ℕ → Error
  at_offset : ℕ → Error → Error
  entry_short : ℕ → Error
  name_length type_length comment_length : Error
  parse_table : Error → Error
  out_of_fuel : Error

-- parseString
abbrev pub parse_string : Slice → List ℕ
parse_string s = until_zero s.bytes

-- One range of parseArrayDimensions, "low..high": its number of elements, a uint32. What Sscanf
-- cannot read stays 0.
unfoldable pub scan_or_zero : List ℕ → ℕ
unfolding scan_uint32
scan_or_zero xs = elim (scan_uint32 xs) [ none ↦ 0 | some n ↦ n ]

-- A range with two parts counts, any other is passed over.
unfoldable pub parts_size : List (List ℕ) → Option ℕ
unfolding scan_or_zero
parts_size (low ∷ high ∷ []) = some ((scan_or_zero high + 2 ^ 32 - scan_or_zero low + 1) % 2 ^ 32)
parts_size _ = none

unfoldable pub dimension : List ℕ → Option ℕ
unfolding parts_size split_pair trim_space
dimension r = parts_size (split_pair b'.' b'.' (trim_space r))

unfoldable pub dimensions : List (List ℕ) → List ℕ
unfolding dimension
dimensions [] = []
dimensions (r ∷ rs) = (elim (dimension r) [ none ↦ dimensions rs | some n ↦ n ∷ dimensions rs ])

-- parseArrayDimensions: `typeName[start+1:end]` is a panic where "]" stands in front of "[".
unfoldable pub parse_array_dimensions : List ℕ → Result Error (List ℕ)
unfolding dimensions split_byte
parse_array_dimensions type_name = elim (index type_name (b'[' ∷ [])) [
  | none ↦ ok []
  | some start ↦ elim (index type_name (b']' ∷ [])) [
    | none ↦ ok []
    | some end ↦ (do
      range ← slice (exact type_name) (start + 1) end
      ok (dimensions (split_byte b',' range.bytes)))
  ]
]

-- parseTypeInfo
unfoldable pub parse_type_info : List ℕ → ℕ → ℕ → Result Error TypeInfo
parse_type_info type_name data_type_id size =
    let is_struct = data_type_id == 65 || not (is_simple_type data_type_id) in
    if contains type_name (text "ARRAY")
    then (do
      dims ← parse_array_dimensions type_name
      ok (type_info type_name data_type_id size dims true is_struct no_fields []))
    else ok (type_info type_name data_type_id size [] false is_struct no_fields [])

-- The parts of parseSymbolEntry from its three lengths on: each text is cut out with the zero byte
-- behind it, but only the text itself is checked against the length of the entry.
unfoldable pub entry_texts : Slice → ℕ → ℕ → ℕ → Result Error (List ℕ × List ℕ × List ℕ)
entry_texts data_in name_len type_len comment_len =
    if ltb (length data_in.bytes) (30 + name_len) then err name_length else do
      name ← slice data_in 30 (30 + name_len + 1)
      let at_type = 30 + name_len + 1
      if ltb (length data_in.bytes) (at_type + type_len) then err type_length else (do
        type ← slice data_in at_type (at_type + type_len + 1)
        let at_comment = at_type + type_len + 1
        if ltb (length data_in.bytes) (at_comment + comment_len) then err comment_length else (do
          comment ← slice data_in at_comment (at_comment + comment_len + 1)
          ok (parse_string name, parse_string type, parse_string comment)))

-- parseSymbolEntry
unfoldable pub parse_symbol_entry : Slice → Result Error Symbol
parse_symbol_entry data_in =
    if shorter data_in.bytes 30 then err (entry_short (length data_in.bytes)) else do
      index_group ← read32 data_in 4 8
      index_offset ← read32 data_in 8 12
      size ← read32 data_in 12 16
      flags ← read32 data_in 20 24
      data_type_id ← read32 data_in 16 20
      name_len ← read16 data_in 24 26
      type_len ← read16 data_in 26 28
      comment_len ← read16 data_in 28 30
      (name, type_name, comment) ← entry_texts data_in name_len type_len comment_len
      type ← parse_type_info type_name data_type_id size
      ok (record {
        name = name;
        type = type;
        index_group = index_group;
        index_offset = index_offset;
        size = size;
        flags = flags;
        comment = comment;
      })

-- The loop of ParseSymbolTable, with the rounds left and the symbols so far.
unfoldable pub parse_entries : ℕ → Slice → ℕ → List Symbol → Result Error (List Symbol)
parse_entries zero data_in offset symbols = err out_of_fuel
parse_entries (suc fuel) data_in offset symbols =
    if ltb offset (length data_in.bytes)
    then (if ltb (length data_in.bytes) (offset + 4) then ok symbols else do
      entry_len ← read32 data_in offset (offset + 4)
      if entry_len == 0
          then ok symbols
          else (if ltb (length data_in.bytes) (offset + entry_len)
              then err (entry_length entry_len offset)
              else (do
                entry ← slice data_in offset (offset + entry_len)
                symbol ← wrap (at_offset offset) (parse_symbol_entry entry)
                parse_entries fuel data_in (offset + entry_len) (symbols ++ (symbol ∷ [])))))
    else ok symbols

-- ParseSymbolTable; every entry takes a byte at least, so the length of the data bounds the rounds.
unfoldable pub parse_symbol_table : Slice → Result Error (List Symbol)
parse_symbol_table data_in = elim data_in.bytes [
  | [] ↦ err empty_data
  | _ ↦ parse_entries (length data_in.bytes + 1) data_in 0 []
]
