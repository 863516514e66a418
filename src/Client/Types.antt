-- ===== src/Client/Types.antt =====
-- client_structs.go: type information that is fetched from the PLC.
pub mod Safety
pub mod Depth
use goadstc.Base.{
  ℕ, zero, suc, ◌+◌, Bool, true, false, not, ◌||◌, List, [], ◌∷◌, ◌++◌, length, ltb, ◌==◌,
  if◌then◌else◌,
}
use goadstc.Go.{Result, ok, err, panic, slice, exact, read16, read32}
use goadstc.Go.Text.{until_zero}
use goadstc.Symbols.Types.{
  TypeInfo, type_info, Fields, no_fields, field, data_type_bool, data_type_int8, data_type_uint8,
  data_type_int16, data_type_uint16, data_type_int32, data_type_uint32, data_type_int64,
  data_type_uint64, data_type_real32, data_type_real64, data_type_string,
}
use goadstc.Client.Operations
use goadstc.Client.Operations.{World, Session, read_write}

-- The errors of fetchTypeInfoFromPLC; the last is that of the fuel.
pub data Error : Type 0 where
  request : Operations.Error → Error
  too_short : ℕ → Error
  too_deep : Error

-- A call with these errors.
abbrev pub Fetch : Type 0 → Type 0 → Type 0
Fetch S A = World S → Result Error A × World S

module _ {S A B : Type 0} where
  abbrev pub after : Result Error A × World S → (A → Fetch S B) → Result Error B × World S
  after (ok a, w) f = f a w
  after (err e, w) f = (err e, w)
  after (panic, w) f = (panic, w)

  infixl 5 ◌>>=◌
  abbrev pub ◌>>=◌ : Fetch S A → (A → Fetch S B) → Fetch S B
  ◌>>=◌ m f w = after (m w) f

module _ {S A : Type 0} where
  -- A result that leaves the world as it is.
  abbrev pub at_once : Result Error A → Fetch S A
  at_once r w = (r, w)

  -- The result of a request.
  abbrev pub requested : Result Operations.Error A × World S → Result Error A × World S
  requested (ok a, w) = (ok a, w)
  requested (err e, w) = (err (request e), w)
  requested (panic, w) = (panic, w)

-- isSimpleDataType
unfoldable pub is_simple_data_type : ℕ → Bool
is_simple_data_type dt =
    dt == data_type_int8
    || dt == data_type_uint8
    || dt == data_type_int16
    || dt == data_type_uint16
    || dt == data_type_int32
    || dt == data_type_uint32
    || dt == data_type_int64
    || dt == data_type_uint64
    || dt == data_type_real32
    || dt == data_type_real64
    || dt == data_type_bool
    || dt == data_type_string

module _ {S : Type 0} where
  -- A nested type that was asked for; where that fails, what the entry says of it. The end of the
  -- fuel is no failure of the source.
  unfoldable pub nested_type :
      List ℕ → ℕ → ℕ → Result Error TypeInfo × World S → Result Error TypeInfo × World S
  nested_type name base size (ok info, w) = (ok info, w)
  nested_type name base size (err (request e), w) =
      (ok (type_info name base size [] false true no_fields []), w)
  nested_type name base size (err (too_short n), w) =
      (ok (type_info name base size [] false true no_fields []), w)
  nested_type name base size (err too_deep, w) = (err too_deep, w)
  nested_type name base size (panic, w) = (panic, w)

  -- The type of a field: simple, or nested and asked for.
  unfoldable pub field_type : (List ℕ → Fetch S TypeInfo) → List ℕ → ℕ → ℕ → Fetch S TypeInfo
  unfolding nested_type is_simple_data_type
  field_type ask name base size =
      if base == 65 || not (is_simple_data_type base)
      then (λ w. nested_type name base size (ask name w))
      else at_once (ok (type_info name base size [] false false no_fields []))

  -- The loop over the fields, `left` of them from `offset` on; `ask` is fetchTypeInfoFromPLC.
  unfoldable pub parse_sub_items : (List ℕ → Fetch S TypeInfo) → List ℕ → ℕ → ℕ → Fetch S Fields
  unfolding field_type
  parse_sub_items ask xs zero offset = at_once (ok no_fields)
  parse_sub_items ask xs (suc left) offset =
      if ltb (length xs) (offset + 42) then at_once (ok no_fields) else (do
        size ← at_once (read32 (exact xs) (offset + 16) (offset + 20))
        field_offset ← at_once (read32 (exact xs) (offset + 20) (offset + 24))
        base ← at_once (read32 (exact xs) (offset + 24) (offset + 28))
        name_len ← at_once (read16 (exact xs) (offset + 32) (offset + 34))
        type_len ← at_once (read16 (exact xs) (offset + 34) (offset + 36))
        if ltb (length xs) (offset + 42 + name_len) then at_once (ok no_fields) else (do
          name ← at_once (slice (exact xs) (offset + 42) (offset + 42 + name_len))
          if ltb (length xs) (offset + 42 + name_len + 1 + type_len)
              then at_once (ok no_fields)
              else (do
                type_name ← at_once (
                    slice (exact xs) (offset + 42 + name_len + 1)
                      (offset + 42 + name_len + 1 + type_len))
                type ← field_type ask (until_zero type_name.bytes) base size
                entry ← at_once (read32 (exact xs) offset (offset + 4))
                rest ← parse_sub_items ask xs left (offset + entry)
                at_once (ok (field (until_zero name.bytes) field_offset type 0 0 rest)))))

  -- The rest of fetchTypeInfoFromPLC behind its request.
  unfoldable pub parse_data_type : (List ℕ → Fetch S TypeInfo) → List ℕ → List ℕ → Fetch S TypeInfo
  unfolding parse_sub_items
  parse_data_type ask name xs =
      if ltb (length xs) 42 then at_once (err (too_short (length xs))) else (do
        size ← at_once (read32 (exact xs) 16 20)
        base ← at_once (read32 (exact xs) 24 28)
        name_len ← at_once (read16 (exact xs) 32 34)
        type_len ← at_once (read16 (exact xs) 34 36)
        comment_len ← at_once (read16 (exact xs) 36 38)
        sub_items ← at_once (read16 (exact xs) 40 42)
        fields ←
            parse_sub_items ask xs sub_items (42 + name_len + 1 + type_len + 1 + comment_len + 1)
        at_once (ok (type_info name base size [] false (ltb 0 sub_items) fields [])))

module _ {S : Type 0} (c : Session S) where
  -- The ReadWrite of fetchTypeInfoFromPLC.
  unfoldable pub ask_data_type : List ℕ → Fetch S (List ℕ)
  ask_data_type name w = requested (read_write c 0xF011 0 0xFFFF (name ++ (0 ∷ [])) w)

  -- fetchTypeInfoFromPLC, for types nested in `depth` levels at most. The source goes on behind that, until
  -- its stack ends.
  unfoldable pub fetch_type_info_from_plc : ℕ → List ℕ → Fetch S TypeInfo
  unfolding parse_data_type ask_data_type
  fetch_type_info_from_plc zero name = at_once (err too_deep)
  fetch_type_info_from_plc (suc depth) name = do
    xs ← ask_data_type name
    parse_data_type (λ nested. fetch_type_info_from_plc depth nested) name xs
