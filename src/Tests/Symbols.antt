-- ===== src/Tests/Symbols.antt =====
-- Runs of internal/symbols on concrete symbol tables.
use goadstc.Base.{ℕ, ◌≡◌, ◌≢◌, refl, true, false, List, [], ◌∷◌, ◌++◌, arith, map}
use goadstc.Go.{ok, err, exact, Slice}
use goadstc.Go.Strings.{text, index_from}
use goadstc.Go.Map.{insert, values}
use goadstc.Symbols.Types.{TypeInfo, type_info, no_fields, Symbol, is_simple_type}
use goadstc.Symbols.Parser.{
  out_of_fuel, parse_symbol_table, parse_array_dimensions, parse_type_info,
}
use goadstc.Symbols.Parser.Loop.{parse_symbol_table-ends}
use goadstc.Symbols.Parser.RoundTrip.{Entry, Good, upload, symbols_of, parse_symbol_table-upload}
use goadstc.Symbols.Parser.Dimensions.{
  Range, RangeFits, ranges_text, elements, parse_array_dimensions-ranges,
}
use goadstc.Symbols.Table.{Table, new_table, fill, load, get, list, find}
use goadstc.Symbols.Table.Laws.{last_named, answer, load-get}

abbrev junk : Slice
junk = exact (200 ∷ 0 ∷ 0 ∷ 0 ∷ 1 ∷ [])

parse_symbol_table-ends_example : parse_symbol_table junk ≢ err out_of_fuel
parse_symbol_table-ends_example = parse_symbol_table-ends junk

abbrev counter : Entry
counter = record {
  index_group = 0x4040;
  index_offset = 8;
  size = 2;
  data_type = 2;
  flags = 0;
  name = text "MAIN.n";
  type_name = text "INT";
  comment = [];
  extra = 0 ∷ [];
}

abbrev int_type : TypeInfo
int_type = type_info (text "INT") 2 2 [] false false no_fields []

counter-Good : Good (counter, int_type)
unfolding parse_type_info index_from is_simple_type
counter-Good = (
  record {
    index_group = omega arith;
    index_offset = omega arith;
    size = omega arith;
    data_type = omega arith;
    flags = omega arith;
    entry_size = omega arith;
    name_length = omega arith;
    type_length = omega arith;
    comment_length = omega arith;
    name = omega arith;
    type_name = omega arith;
    comment = tt;
  },
  refl,
)

abbrev counter_data : Slice
counter_data = record { bytes = upload ((counter, int_type) ∷ []); spare = [] }

parse_symbol_table-upload_example :
    parse_symbol_table counter_data ≡ ok (symbols_of ((counter, int_type) ∷ []))
parse_symbol_table-upload_example =
    parse_symbol_table-upload (counter, int_type) [] [] (counter-Good, tt)

-- 1..10
abbrev ten : Range
ten = record { low_first = b'1'; low_rest = []; high_first = b'1'; high_rest = b'0' ∷ [] }

ten-RangeFits : RangeFits ten
ten-RangeFits = record {
  low_digits = omega arith;
  high_digits = omega arith;
  ordered = omega arith;
  high_fits = omega arith;
  fits = omega arith;
}

parse_array_dimensions-ranges_example :
    parse_array_dimensions
      (text "ARRAY " ++ (b'[' ∷ (ranges_text ten (ten ∷ []) ++ (b']' ∷ text " OF INT"))))
    ≡ ok (map elements (ten ∷ ten ∷ []))
parse_array_dimensions-ranges_example =
    parse_array_dimensions-ranges (text "ARRAY ") ten (ten ∷ []) (text " OF INT") (omega arith)
      (omega arith) ten-RangeFits (ten-RangeFits, tt)

abbrev counters : List Symbol
counters = symbols_of ((counter, int_type) ∷ [])

load-get_example :
    (u : Table) × (load counter_data new_table ≡ ok u)
    × ((name : List ℕ) → get name u ≡ answer name (last_named name counters))
load-get_example = load-get counter_data new_table counters parse_symbol_table-upload_example

abbrev counter_symbol : Symbol
counter_symbol = record {
  name = text "MAIN.n";
  type = int_type;
  index_group = 0x4040;
  index_offset = 8;
  size = 2;
  flags = 0;
  comment = [];
}

abbrev loaded : Table
loaded = record { symbols = (text "MAIN.n", counter_symbol) ∷ []; loaded = true }

counter_loads : load counter_data new_table ≡ ok loaded
unfolding load fill insert
counter_loads = rw (parse_symbol_table-upload_example, load) refl

loaded_list : list loaded ≡ ok (counter_symbol ∷ [])
unfolding list values
loaded_list = refl

-- The letter case of a pattern does not count.
find_upper : find (text "main.N") loaded ≡ ok (counter_symbol ∷ [])
unfolding find index_from
find_upper = refl
