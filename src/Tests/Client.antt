-- ===== src/Tests/Client.antt =====
-- Runs of client.go on concrete symbol names.
use goadstc.Base.{ℕ, none, some, ◌+◌, ◌*◌, ◌≡◌, refl, true, false, List, [], ◌∷◌, ◌++◌, arith, map}
use goadstc.Go.{Result, ok, err, panic, ◌>>=◌, bytes32, uint32?, slice?, slice_from?}
use goadstc.Go.Strings.{text, index_from, trim_space, to_upper, digits}
use goadstc.Go.Map.{lookup, insert}
use goadstc.Symbols.Types.{TypeInfo, type_info, no_fields, type_size, type_name, Symbol}
use goadstc.Symbols.Table
use goadstc.Symbols.Registry
use goadstc.Client.Access.{
  Error, fetch, Client, parse_indices, parse_array_access, take_sign, scan_int,
  extract_array_element_type, get_element_type_name, get_or_fetch_type_info, resolve_simple_array,
}
use goadstc.Client.Access.Parse.{Index, index_value, brackets, parse_array_access-brackets}
use goadstc.Client.Access.Resolve.{resolve_simple_array-element}
use goadstc.Client.Values.{
  Value, parse_kind, Kind, Floats, encode_symbol_value, encode_string, parse_simple_type_by_name,
  kind_of,
}
use goadstc.Client.Values.RoundTrip.{parse_simple_type_by_name-encode_symbol_value}

-- [12]
abbrev twelve : Index
twelve = (b'1', b'2' ∷ [])

parse_array_access-brackets_example :
    parse_array_access (text "MAIN.a" ++ brackets (twelve ∷ twelve ∷ []) (text ".x"))
    ≡ ok (text "MAIN.a" ++ text ".x", map index_value (twelve ∷ twelve ∷ []))
parse_array_access-brackets_example =
    parse_array_access-brackets (text "MAIN.a") twelve (twelve ∷ []) (text ".x") (omega arith)
      (omega arith) refl

abbrev word : TypeInfo
word = type_info (text "WORD") 18 2 [] false false no_fields []

abbrev words : Symbol
words = record {
  name = text "MAIN.a";
  type = type_info (text "ARRAY [10..19] OF WORD") 18 20 (10 ∷ []) true false no_fields [];
  index_group = 0x4040;
  index_offset = 100;
  size = 20;
  flags = 0;
  comment = [];
}

abbrev client : Client
client = record {
  table = record { symbols = (text "MAIN.a", words) ∷ []; loaded = true };
  types = record { types = (text "WORD", word) ∷ [] };
}

abbrev no_answer : List ℕ → Result Error TypeInfo
no_answer name = err (fetch 0)

abbrev word_answer : List ℕ → Result Error TypeInfo
word_answer name = ok word

words_found : Table.get (text "MAIN.a") client.table ≡ ok words
unfolding Table.get lookup
words_found = refl

words_named : get_element_type_name (type_name words.type) ≡ ok (text "WORD")
unfolding get_element_type_name extract_array_element_type index_from slice_from? trim_space
words_named = refl

word_known : Registry.get (text "WORD") client.types ≡ (word, true)
unfolding Registry.get lookup
word_known = refl

-- Element 12 of an array of twenty bytes from 10 on: the place is past the end of the symbol.
resolve_simple_array-element_example :
    resolve_simple_array no_answer (text "MAIN.a" ++ brackets (twelve ∷ []) []) client ≡ (
      ok (record {
        index_group = words.index_group;
        index_offset = words.index_offset + index_value twelve * type_size word;
        size = type_size word;
      }),
      client,
    )
resolve_simple_array-element_example =
    resolve_simple_array-element no_answer client (text "MAIN.a") words (omega arith) words_found
      twelve (text "WORD") word (omega arith) words_named word_known (omega arith) (omega arith)

abbrev pub new_client : Client
new_client = record { table = client.table; types = record { types = [] } }

word_fetched : get_or_fetch_type_info word_answer (text "WORD") new_client ≡ ok (word, client)
unfolding get_or_fetch_type_info Registry.get Registry.register lookup insert
word_fetched = refl

-- Of an index with a comma only the first number is read.
comma_index : parse_array_access (text "MAIN.m[1,2]") ≡ ok (text "MAIN.m", 1 ∷ [])
unfolding parse_array_access parse_indices index_from slice? slice_from? scan_int take_sign digits
comma_index = refl

abbrev no_floats : Floats
no_floats = record { whole = λ n. none; narrow = λ n. n }

string_known : kind_of (to_upper (trim_space (text " string"))) ≡ some Kind.string
unfolding kind_of trim_space
string_known = refl

parse_simple_type_by_name-encode_symbol_value_example :
    (do
      xs ← encode_symbol_value no_floats (Value.string (text "on")) words
      parse_simple_type_by_name xs (text " string"))
    ≡ ok (Value.string (text "on"))
parse_simple_type_by_name-encode_symbol_value_example =
    parse_simple_type_by_name-encode_symbol_value no_floats (text " string") Kind.string
      (Value.string (text "on")) words string_known ((omega arith, (omega arith, tt)), omega arith)

-- A negative duration passes through an int32, and a string for a symbol without bytes is a panic.
negative_time :
    (do
      xs ← encode_symbol_value no_floats (Value.duration true 5000000) words
      parse_simple_type_by_name xs (text "TIME"))
    ≡ ok (Value.duration true 5000000)
unfolding encode_symbol_value parse_simple_type_by_name kind_of trim_space parse_kind bytes32
    uint32?
negative_time = refl

no_room : encode_symbol_value no_floats (Value.string []) (record words { size = 0 }) ≡ panic
unfolding encode_symbol_value encode_string
no_room = refl
