-- ===== src/Symbols/Parser/RoundTrip.antt =====
-- internal/symbols/parser.go: the wire form of a symbol upload.
use mathlib.Core.Path.{subst}
use mathlib.Core.List.{append_assoc, append-nil}
use goadstc.Base.{
  ℕ, zero, suc, ◌+◌, ◌≤◌, ◌<◌, ◌≡◌, refl, sym, ap, ◌∙◌, List, [], ◌∷◌, ◌++◌, arith, All, length,
  ◌==◌, take, false, le→ltb, lt→ltb, length-append,
}
use goadstc.Go.{
  ok, Slice, slice?, read32, uint16?, uint32?, bytes16, bytes32, IsU16, IsU32, join16-bytes16,
  join32-bytes32, slice-at, read32-at,
}
use goadstc.Go.Text.{until_zero-append, NonZero}
use goadstc.Symbols.Types.{TypeInfo, Symbol}
use goadstc.Symbols.Parser.{
  Error, parse_type_info, entry_texts, parse_symbol_entry, parse_entries, parse_symbol_table,
}

-- One entry of the upload; `extra` is what the PLC puts behind the three texts.
pub record Entry : Type 0 where
  pub index_group : ℕ
  pub index_offset : ℕ
  pub size : ℕ
  pub data_type : ℕ
  pub flags : ℕ
  pub name : List ℕ
  pub type_name : List ℕ
  pub comment : List ℕ
  pub extra : List ℕ

-- A text with its zero byte.
abbrev ended : List ℕ → List ℕ
ended xs = xs ++ (0 ∷ [])

abbrev texts : Entry → List ℕ
texts e = ended e.name ++ (ended e.type_name ++ (ended e.comment ++ e.extra))

abbrev pub entry_size : Entry → ℕ
entry_size e = 30 + length (texts e)

entry_rest : Entry → List ℕ
entry_rest e =
    bytes32 e.index_group
    ++ (bytes32 e.index_offset
        ++ (bytes32 e.size
            ++ (bytes32 e.data_type
                ++ (bytes32 e.flags
                    ++ (bytes16 (length e.name)
                        ++ (bytes16 (length e.type_name)
                            ++ (bytes16 (length e.comment) ++ texts e)))))))

pub entry_wire : Entry → List ℕ
unfolding entry_rest
entry_wire e = bytes32 (entry_size e) ++ entry_rest e

abbrev pub symbol_of : Entry → TypeInfo → Symbol
symbol_of e type = record {
  name = e.name;
  type = type;
  index_group = e.index_group;
  index_offset = e.index_offset;
  size = e.size;
  flags = e.flags;
  comment = e.comment;
}

pub record EntryFits (e : Entry) : Type 0 where
  pub index_group : IsU32 e.index_group
  pub index_offset : IsU32 e.index_offset
  pub size : IsU32 e.size
  pub data_type : IsU32 e.data_type
  pub flags : IsU32 e.flags
  pub entry_size : IsU32 (entry_size e)
  pub name_length : IsU16 (length e.name)
  pub type_length : IsU16 (length e.type_name)
  pub comment_length : IsU16 (length e.comment)
  pub name : All NonZero e.name
  pub type_name : All NonZero e.type_name
  pub comment : All NonZero e.comment

module _ (s : Slice) (head : List ℕ) (e : Entry) (rest : List ℕ) where
  entry_texts-wire :
      s.bytes ≡ head ++ (texts e ++ rest)
      → length head ≡ 30
      → EntryFits e
      → entry_texts s (length e.name) (length e.type_name) (length e.comment)
        ≡ ok (e.name, e.type_name, e.comment)
  unfolding entry_texts
  entry_texts-wire whole h f =
      let a = length e.name in
      let b = length e.type_name in
      let c = length e.comment in
      let n = ended e.name in
      let t = ended e.type_name in
      let m = ended e.comment in
      let w₁ : s.bytes ≡ head ++ (n ++ (t ++ (m ++ (e.extra ++ rest)))) =
        whole
        ∙ ap (◌++◌ head) (
            append_assoc n _ rest
            ∙ ap (◌++◌ n) (append_assoc t _ rest ∙ ap (◌++◌ t) (append_assoc m _ rest))) in
      let w₂ : s.bytes ≡ (head ++ n) ++ (t ++ (m ++ (e.extra ++ rest))) =
        w₁ ∙ sym (append_assoc head _ _) in
      let w₃ : s.bytes ≡ ((head ++ n) ++ t) ++ (m ++ (e.extra ++ rest)) =
        w₂ ∙ sym (append_assoc (head ++ n) _ _) in
      let ln : length n ≡ a + 1 = length-append e.name (0 ∷ []) in
      let lt : length t ≡ b + 1 = length-append e.type_name (0 ∷ []) in
      let lm : length m ≡ c + 1 = length-append e.comment (0 ∷ []) in
      let l₂ = length-append head n in
      let l₃ = length-append (head ++ n) t in
      let total : length s.bytes ≡ 30 + (a + 1) + (b + 1) + (c + 1) + length (e.extra ++ rest) =
        ap length w₃
        ∙ omega (
          arith,
          length-append ((head ++ n) ++ t) (m ++ (e.extra ++ rest)),
          length-append m (e.extra ++ rest),
        ) in
      let (p₁, c₁, e₁) = slice-at s head n _ {lo = 30} {hi = 30 + a + 1} w₁ (sym h) (omega arith) in
      let (p₂, c₂, e₂) =
        slice-at s (head ++ n) t _ {lo = 30 + a + 1} {hi = 30 + a + 1 + b + 1} w₂ (omega arith)
          (omega arith) in
      let (p₃, c₃, e₃) =
        slice-at s ((head ++ n) ++ t) m _ {lo = 30 + a + 1 + b + 1}
          {hi = 30 + a + 1 + b + 1 + c + 1} w₃ (omega arith) (omega arith) in
      rw (
        le→ltb (length s.bytes) (30 + a) (omega arith),
        c₁,
        le→ltb (length s.bytes) (30 + a + 1 + b) (omega arith),
        c₂,
        le→ltb (length s.bytes) (30 + a + 1 + b + 1 + c) (omega arith),
        c₃,
        e₁,
        e₂,
        e₃,
        until_zero-append e.name [] f.name,
        until_zero-append e.type_name [] f.type_name,
        until_zero-append e.comment [] f.comment,
      )

abbrev Parses : Entry → TypeInfo → Type 0
Parses e type = parse_type_info e.type_name e.data_type e.size ≡ ok type

entry-wire :
    (e : Entry) (type : TypeInfo) (spare : List ℕ)
    → EntryFits e
    → Parses e type
    → parse_symbol_entry (record { bytes = entry_wire e; spare = spare }) ≡ ok (symbol_of e type)
unfolding parse_symbol_entry entry_wire slice? uint16? uint32? bytes16 bytes32
entry-wire e type spare f p =
    let s : Slice = record { bytes = entry_wire e; spare = spare } in
    let head = take 30 (entry_wire e) in
    simp
      (
        join32-bytes32 e.index_group f.index_group,
        join32-bytes32 e.index_offset f.index_offset,
        join32-bytes32 e.size f.size,
        join32-bytes32 e.flags f.flags,
        join32-bytes32 e.data_type f.data_type,
        join16-bytes16 (length e.name) f.name_length,
        join16-bytes16 (length e.type_name) f.type_length,
        join16-bytes16 (length e.comment) f.comment_length,
      )
      (rw (entry_texts-wire s head e [] (ap (◌++◌ head) (sym (append-nil (texts e)))) refl f)
        (rw p))

entry-wire_at :
    (s : Slice) (e : Entry) (type : TypeInfo)
    → s.bytes ≡ entry_wire e
    → EntryFits e
    → Parses e type
    → parse_symbol_entry s ≡ ok (symbol_of e type)
entry-wire_at s e type w f p =
    subst
      (λ xs. parse_symbol_entry (record { bytes = xs; spare = s.spare }) ≡ ok (symbol_of e type))
      (sym w) (entry-wire e type s.spare f p)

length-entry_wire : (e : Entry) → length (entry_wire e) ≡ entry_size e
unfolding entry_wire bytes16 bytes32
length-entry_wire e = omega arith

pub upload : List (Entry × TypeInfo) → List ℕ
upload [] = []
upload ((e, type) ∷ es) = entry_wire e ++ upload es

abbrev pub symbols_of : List (Entry × TypeInfo) → List Symbol
symbols_of [] = []
symbols_of ((e, type) ∷ es) = symbol_of e type ∷ symbols_of es

-- The fields fit, and the type name parses to the type information beside the entry.
abbrev pub Good : Entry × TypeInfo → Type 0
Good (e, type) = EntryFits e × (parse_type_info e.type_name e.data_type e.size ≡ ok type)

parse_entries-done :
    (fuel : ℕ) (s : Slice) (offset : ℕ) (acc : List Symbol)
    → length s.bytes ≤ offset
    → parse_entries (suc fuel) s offset acc ≡ ok acc
unfolding parse_entries
parse_entries-done fuel s offset acc h = rw (le→ltb offset (length s.bytes) h)

-- One round on a whole entry.
parse_entries-step :
    (fuel : ℕ) (s : Slice) (a rest : List ℕ) (e : Entry) (type : TypeInfo) (acc : List Symbol)
    → s.bytes ≡ a ++ (entry_wire e ++ rest)
    → Good (e, type)
    → parse_entries (suc fuel) s (length a) acc
      ≡ parse_entries fuel s (length (a ++ entry_wire e)) (acc ++ (symbol_of e type ∷ []))
unfolding parse_entries
parse_entries-step fuel s a rest e type acc w g =
    let n = entry_size e in
    let total : length s.bytes ≡ length a + (n + length rest) =
      ap length w
      ∙ omega (
        arith,
        length-append a (entry_wire e ++ rest),
        length-append (entry_wire e) rest,
        length-entry_wire e,
      ) in
    let (part, cut_out, whole) =
      slice-at s a (entry_wire e) rest {lo = length a} {hi = length a + n} w refl
        (omega (arith, length-entry_wire e)) in
    rw
      (
        lt→ltb (length a) (length s.bytes) (omega arith),
        le→ltb (length s.bytes) (length a + 4) (omega arith),
        read_size s a rest e w g.0,
        positive (length (texts e)),
        le→ltb (length s.bytes) (length a + n) (omega arith),
        cut_out,
        entry-wire_at part e type whole g.0 g.1,
      )
      (ap (λ k. parse_entries fuel s k (acc ++ (symbol_of e type ∷ [])))
        (omega (arith, length-append a (entry_wire e), length-entry_wire e)))
  where
    read_size :
        (s : Slice) (a rest : List ℕ) (e : Entry)
        → s.bytes ≡ a ++ (entry_wire e ++ rest)
        → EntryFits e
        → read32 {E = Error} s (length a) (length a + 4) ≡ ok (entry_size e)
    read_size s a rest e w f =
        read32-at s a (entry_rest e ++ rest) (entry_size e)
          (w ∙ ap (◌++◌ a) (unfold entry_wire in append_assoc (bytes32 (entry_size e)) _ rest)) refl
          refl f.entry_size

    positive : (n : ℕ) → (30 + n == 0) ≡ false
    positive n = ground arith

parse_entries-upload :
    (es : List (Entry × TypeInfo)) (fuel : ℕ) (s : Slice) (a : List ℕ) (acc : List Symbol)
    → s.bytes ≡ a ++ upload es
    → All Good es
    → length s.bytes < length a + fuel
    → parse_entries fuel s (length a) acc ≡ ok (acc ++ symbols_of es)
unfolding upload
parse_entries-upload es zero s a acc w g h =
    absurd (omega (arith, ap length w, length-append a (upload es)))
parse_entries-upload [] (suc fuel) s a acc w g h =
    rw append-nil
      (parse_entries-done fuel s (length a) acc (omega (arith, ap length w, length-append a [])))
parse_entries-upload ((e, type) ∷ es) (suc fuel) s a acc w g h =
    parse_entries-step fuel s a (upload es) e type acc w g.0
    ∙ parse_entries-upload es fuel s (a ++ entry_wire e) (acc ++ (symbol_of e type ∷ []))
        (w ∙ sym (append_assoc a (entry_wire e) (upload es))) g.1
        (omega (arith, length-append a (entry_wire e), length-entry_wire e))
    ∙ ap ok (append_assoc acc (symbol_of e type ∷ []) (symbols_of es))

-- A symbol upload of one or more well-formed entries is parsed to the symbols that they describe,
-- in their order. Each text is free of zero bytes, each length fits its field, and each type name
-- parses to the type information that the symbol is given.
pub parse_symbol_table-upload :
    (e : Entry × TypeInfo) (es : List (Entry × TypeInfo)) (spare : List ℕ)
    → All Good (e ∷ es)
    → parse_symbol_table (record { bytes = upload (e ∷ es); spare = spare })
      ≡ ok (symbols_of (e ∷ es))
unfolding parse_symbol_table upload entry_wire bytes32
parse_symbol_table-upload e es spare g =
    parse_entries-upload (e ∷ es) _ (record { bytes = upload (e ∷ es); spare = spare }) [] [] refl g
      (omega arith)
