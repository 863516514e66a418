-- ===== src/Client/Structs/Total.antt =====
-- client_structs.go: what the fields of a struct are read as.
use mathlib.Core.Path.{subst}
use mathlib.Core.List.{append-nil}
use goadstc.Base.{
  ℕ, ◌+◌, ◌-◌, ◌<◌, ◌≤◌, ◌%◌, ◌^◌, ◌≡◌, refl, ap, ◌∙◌, inl, inr, Bool, true, false, not, ◌&&◌,
  Option, none, some, List, [], ◌∷◌, ◌++◌, length, ltb, leb, take, drop, ◌==◌, if◌then◌else◌, arith,
  Bool-cases, shorter, shorter-length,
}
use goadstc.Go.{
  Result, ok, ◌>>=◌, bind-ok, or_panic, slice?, uint16?-long, uint32?-long, uint64?-long,
  length-take, length-drop, slice?-take, slice, exact, uint16?, uint32?, uint64?,
}
use goadstc.Go.Strings.{text, same}
use goadstc.Client.Failure.{decimal}
use goadstc.Go.Map.{same_iff}
use goadstc.Symbols.Types.{TypeInfo, type_info, type_size, Fields, no_fields, field}
use goadstc.Client.Values.{Value, Kind, first_byte}
use goadstc.Client.Structs.{
  NoError, Parsed, nil, described, ParsedFields, no_values, with_value, put_value, read_or_nil,
  simple_kind, parse_simple_case, parse_simple_type, nested_struct, simple_or_hex,
  parse_field_value, parse_fields,
}

-- `result[name]`
unfoldable pub get_value : List ℕ → ParsedFields → Option Parsed
get_value name no_values = none
get_value name (with_value n v rest) = if same n name then some v else get_value name rest

-- The last field of a name that ends within `n` bytes: its offset and its type.
unfoldable pub last_field : ℕ → List ℕ → Fields → Option (ℕ × TypeInfo)
last_field n name no_fields = none
last_field n name (field m offset type _ _ fs) = elim (last_field n name fs) [
  | some f ↦ some f
  | none ↦ if leb (offset + type_size type) n && same m name then some (offset, type) else none
]

-- What the map `r` holds for a name: the value of the field found, or what `old` holds.
unfoldable pub Shows : List ℕ → Option Parsed → Option Parsed → Option (ℕ × TypeInfo) → Type 0
Shows xs found old none = found ≡ old
Shows xs found old (some (offset, type)) =
    (v : Parsed) × (parse_field_value (take (type_size type) (drop offset xs)) type ≡ ok v)
    × (found ≡ some v)

get_value-put_value :
    (name n : List ℕ) (v : Parsed) (fields : ParsedFields)
    → get_value name (put_value n v fields)
      ≡ (if same n name then some v else get_value name fields)
unfolding get_value put_value
get_value-put_value name n v no_values = refl
get_value-put_value name n v (with_value m w rest) =
    ground
      (arith, same_iff m n, same_iff n name, same_iff m name, get_value-put_value name n v rest)

read_or_nil-returns :
    (n : ℕ) (read : List ℕ → Option ℕ) (build : ℕ → Value) (xs : List ℕ)
    → (n ≤ length xs → (v : ℕ) × (read xs ≡ some v))
    → (r : Option Value) × (read_or_nil n read build xs ≡ ok r)
unfolding read_or_nil
read_or_nil-returns n read build xs h = elim (Bool-cases (shorter xs n)) [
  | inl e ↦ (none, rw e refl)
  | inr e ↦
      let (v, found) = h (ground (arith, shorter-length xs n)) in
      (
        some (build v),
        rw e (ap (λ o. or_panic {E = NoError} o >>= (λ v. ok (some (build v)))) found),
      )
]

first_byte-long : (xs : List ℕ) → 1 ≤ length xs → (v : ℕ) × (first_byte xs ≡ some v)
first_byte-long [] h = absurd (omega arith)
first_byte-long (x ∷ xs) h = (x, refl)

if-returns :
    {A : Type 0} (b : Bool) (x y : Result NoError A)
    → (r : A) × (x ≡ ok r)
    → (r : A) × (y ≡ ok r)
    → (r : A) × ((if b then x else y) ≡ ok r)
if-returns true x y p q = p
if-returns false x y p q = q

parse_simple_case-returns :
    (k : Option Kind) (xs : List ℕ) → (r : Option Value) × (parse_simple_case k xs ≡ ok r)
unfolding parse_simple_case
parse_simple_case-returns none xs = (none, refl)
parse_simple_case-returns (some Kind.bool) xs =
    read_or_nil-returns 1 first_byte (λ v. Value.bool (not (v == 0))) xs (first_byte-long xs)
parse_simple_case-returns (some Kind.int8) xs =
    read_or_nil-returns 1 first_byte Value.int8 xs (first_byte-long xs)
parse_simple_case-returns (some Kind.uint8) xs =
    read_or_nil-returns 1 first_byte Value.uint8 xs (first_byte-long xs)
parse_simple_case-returns (some Kind.int16) xs =
    read_or_nil-returns 2 uint16? Value.int16 xs (uint16?-long xs)
parse_simple_case-returns (some Kind.uint16) xs =
    read_or_nil-returns 2 uint16? Value.uint16 xs (uint16?-long xs)
parse_simple_case-returns (some Kind.int32) xs =
    read_or_nil-returns 4 uint32? Value.int32 xs (uint32?-long xs)
parse_simple_case-returns (some Kind.uint32) xs =
    read_or_nil-returns 4 uint32? Value.uint32 xs (uint32?-long xs)
parse_simple_case-returns (some Kind.int64) xs =
    read_or_nil-returns 8 uint64? Value.int64 xs (uint64?-long xs)
parse_simple_case-returns (some Kind.uint64) xs =
    read_or_nil-returns 8 uint64? Value.uint64 xs (uint64?-long xs)
parse_simple_case-returns (some Kind.real) xs =
    read_or_nil-returns 4 uint32? Value.float32 xs (uint32?-long xs)
parse_simple_case-returns (some Kind.lreal) xs =
    read_or_nil-returns 8 uint64? Value.float64 xs (uint64?-long xs)
parse_simple_case-returns (some Kind.string) xs = (_, refl)
parse_simple_case-returns (some Kind.time) xs = (none, refl)
parse_simple_case-returns (some Kind.date) xs = (none, refl)
parse_simple_case-returns (some Kind.time_of_day) xs = (none, refl)

parse_simple_type-returns :
    (xs : List ℕ) (base : ℕ) → (r : Option Value) × (parse_simple_type xs base ≡ ok r)
unfolding parse_simple_type
parse_simple_type-returns xs base = parse_simple_case-returns (simple_kind base) xs

nested_struct-returns :
    (xs name : List ℕ) (fs : Fields) (m : Result NoError ParsedFields)
    → (r : ParsedFields) × (m ≡ ok r)
    → (v : Parsed) × (nested_struct xs name fs m ≡ ok v)
unfolding nested_struct
nested_struct-returns xs name no_fields m h = (_, refl)
nested_struct-returns xs name (field _ _ _ _ _ _) m (r, found) = (_, bind-ok _ found)

-- All of the fields, with the names that `old` knows.
record Reads (xs : List ℕ) (fs : Fields) (old : ParsedFields) : Type 0 where
  result : ParsedFields
  read : parse_fields xs fs old ≡ ok result
  shown :
      (name : List ℕ)
      → Shows xs (get_value name result) (get_value name old) (last_field (length xs) name fs)

Reads-none : (xs : List ℕ) (old : ParsedFields) → Reads xs no_fields old
unfolding parse_fields last_field Shows
Reads-none xs old = record { result = old; read = refl; shown = λ name. refl }

-- What is shown of a name does not change behind a field that is past the data.
Shows-past :
    (xs : List ℕ) (now old : Option Parsed) (last : Option (ℕ × TypeInfo)) (found : ℕ × TypeInfo)
    (here : Bool)
    → here ≡ false
    → Shows xs now old last
    → Shows xs now old (elim last [ some f ↦ some f | none ↦ if here then some found else none ])
Shows-past xs now old none found here e s = rw e s
Shows-past xs now old (some f) found here e s = s

-- Behind a field with the value `v`.
Shows-field :
    (xs : List ℕ) (now old : Option Parsed) (last : Option (ℕ × TypeInfo)) (offset : ℕ)
    (type : TypeInfo) (v : Parsed) (here : Bool)
    → parse_field_value (take (type_size type) (drop offset xs)) type ≡ ok v
    → Shows xs now (if here then some v else old) last
    → Shows xs now old
        (elim last [ some f ↦ some f | none ↦ if here then some (offset, type) else none ])
unfolding Shows
Shows-field xs now old none offset type v true found s = (v, found, s)
Shows-field xs now old none offset type v false found s = s
Shows-field xs now old (some f) offset type v here found s = s

-- The bytes of a field within the data.
slice-part :
    (xs : List ℕ) (offset size : ℕ)
    → ltb (length xs) (offset + size) ≡ false
    → length xs < 2 ^ 32
    → slice {E = NoError} (exact xs) offset ((offset + size) % 2 ^ 32)
      ≡ ok (record { bytes = take size (drop offset xs); spare = drop size (drop offset xs) })
slice-part xs offset size inside small =
    let whole : (offset + size) % 2 ^ 32 ≡ offset + size = ground (arith, small) in
    let n : offset + size - offset ≡ size = omega arith in
    let cut : slice? (exact xs) offset (offset + size)
        ≡ some (record { bytes = take size (drop offset xs); spare = drop size (drop offset xs) }) =
      slice?-take (exact xs) offset (offset + size) (omega arith)
        (rw (append-nil xs) (ground arith))
      ∙ rw (append-nil xs) (rw n refl) in
    rw whole (ap (λ o. or_panic {E = NoError} o) cut)

part-small :
    (xs : List ℕ) (offset size : ℕ)
    → ltb (length xs) (offset + size) ≡ false
    → length xs < 2 ^ 32
    → length (take size (drop offset xs)) < 2 ^ 32
part-small xs offset size inside small =
    ground (arith, length-take size (drop offset xs) (ground (arith, length-drop offset xs)))

-- A field in front of others, by its value and by what the others are read as.
Reads-field :
    (xs name : List ℕ) (offset : ℕ) (type : TypeInfo) (a b : ℕ) (fs : Fields) (old : ParsedFields)
    → length xs < 2 ^ 32
    → ((part : List ℕ) → length part < 2 ^ 32 → (v : Parsed) × (parse_field_value part type ≡ ok v))
    → ((old : ParsedFields) → Reads xs fs old)
    → Reads xs (field name offset type a b fs) old
unfolding parse_fields last_field
Reads-field xs name offset type a b fs old small value rest =
    elim (Bool-cases (ltb (length xs) (offset + type_size type))) [
      | inl past ↦
          let r = rest old in
          record {
            result = r.result;
            read = rw past r.read;
            shown = λ asked.
                Shows-past xs (get_value asked r.result) (get_value asked old)
                  (last_field (length xs) asked fs) (offset, type)
                  (leb (offset + type_size type) (length xs) && same name asked) (ground arith)
                  (r.shown asked);
          }
      | inr inside ↦
          let (v, found) =
            value (take (type_size type) (drop offset xs))
              (part-small xs offset (type_size type) inside small) in
          keep v found inside (rest (put_value name v old))
    ]
  where
    keep :
        (v : Parsed)
        → parse_field_value (take (type_size type) (drop offset xs)) type ≡ ok v
        → ltb (length xs) (offset + type_size type) ≡ false
        → Reads xs fs (put_value name v old)
        → Reads xs (field name offset type a b fs) old
    keep v found inside r = record {
      result = r.result;
      read = rw inside (
          bind-ok _ (slice-part xs offset (type_size type) inside small)
          ∙ bind-ok _ found
          ∙ r.read);
      shown = λ asked.
          let present : leb (offset + type_size type) (length xs) ≡ true = ground arith in
          Shows-field xs (get_value asked r.result) (get_value asked old)
            (last_field (length xs) asked fs) offset type v
            (leb (offset + type_size type) (length xs) && same name asked) found
            (rw present (
              subst (λ o. Shows xs (get_value asked r.result) o (last_field (length xs) asked fs))
                (get_value-put_value asked name v old) (r.shown asked)));
    }

field_value-returns :
    (xs name : List ℕ) (base size : ℕ) (dims : List ℕ) (array is_struct : Bool) (fs : Fields)
    (comment : List ℕ)
    → Reads xs fs no_values
    → (v : Parsed) × (parse_field_value xs
          (type_info name base size dims array is_struct fs comment)
        ≡ ok v)
unfolding parse_field_value
field_value-returns xs name base size dims array is_struct fs comment all =
    elim (Bool-cases (length xs == 0)) [
      | inl e ↦ (nil, rw e refl)
      | inr e ↦ elim (Bool-cases array) [
        | inl a ↦ (
          described (text "<array " ++ (decimal 19 (length xs) ++ text " bytes>")),
          rw e (rw a refl),
        )
        | inr a ↦ elim (Bool-cases is_struct) [
          | inl s ↦
              let (v, found) =
                nested_struct-returns xs name fs (parse_fields xs fs no_values)
                  (all.result, all.read) in
              (v, rw e (rw a (rw s found)))
          | inr s ↦
              let (v, found) = parse_simple_type-returns xs base in
              (simple_or_hex xs v, rw e (rw a (rw s (bind-ok _ found))))
        ]
      ]
    ]

mutual
  parse_field_value-returns :
      (xs : List ℕ) (type : TypeInfo)
      → length xs < 2 ^ 32
      → (v : Parsed) × (parse_field_value xs type ≡ ok v)
  parse_field_value-returns xs (type_info name base size dims array is_struct fs comment) small =
      field_value-returns xs name base size dims array is_struct fs comment
        (parse_fields-Reads xs fs no_values small)

  parse_fields-Reads :
      (xs : List ℕ) (fs : Fields) (old : ParsedFields) → length xs < 2 ^ 32 → Reads xs fs old
  parse_fields-Reads xs no_fields old small = Reads-none xs old
  parse_fields-Reads xs (field name offset type a b fs) old small =
      Reads-field xs name offset type a b fs old small
        (λ part h. parse_field_value-returns part type h)
        (λ old. parse_fields-Reads xs fs old small)

-- Reading the fields of a struct never panics on data below 2^32 bytes, nested structs included, and
-- the map holds under each name the value of the last field of that name which ends within the data,
-- read from exactly its bytes; other names are not in it.
pub parse_fields-Shows :
    (xs : List ℕ) (fs : Fields)
    → length xs < 2 ^ 32
    → (result : ParsedFields) × (parse_fields xs fs no_values ≡ ok result)
      × ((name : List ℕ) → Shows xs (get_value name result) none (last_field (length xs) name fs))
parse_fields-Shows xs fs small =
    let r = parse_fields-Reads xs fs no_values small in
    (r.result, r.read, unfold get_value in r.shown)
