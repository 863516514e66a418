-- ===== src/Client/Values/RoundTrip.antt =====
-- client_auto.go: what encodeSymbolValue writes, read by parseSimpleTypeByName.
use goadstc.Base.{
  ℕ, zero, suc, ◌+◌, ◌-◌, ◌*◌, ◌/◌, ◌%◌, ◌≤◌, ◌<◌, ◌^◌, ◌≡◌, refl, sym, ap, ◌∙◌, Bool, true, false,
  some, List, [], ◌∷◌, ◌++◌, arith, All, length, length-append, length-replicate, replicate, le→ltb,
  lt→ltb,
}
use goadstc.Go.{
  ok, ◌>>=◌, IsByte, IsU16, IsU32, IsU64, bytes16, bytes32, bytes64, uint16?, uint32?, uint64?,
  join16-bytes16, join32, join32-bytes32, join64-bytes64, copy-replicate_add,
}
use goadstc.Go.Text.{until_zero, until_zero-append, NonZero}
use goadstc.Go.Strings.{text, to_upper, trim_space}
use goadstc.Symbols.Types.{Symbol, type_name}
use goadstc.Client.Values.{
  one_of, Value, Kind, Floats, kind_of, parse_kind, parse_case, from_ms, parse_simple_type_by_name,
  encode_string, encode_symbol_value,
}

-- A duration of `ms` milliseconds that an int32 holds.
abbrev pub Milliseconds : Bool → ℕ → ℕ → Type 0
Milliseconds true ns ms = (ns ≡ ms * 1000000) × (0 < ms) × (ms ≤ 2 ^ 31)
Milliseconds false ns ms = (ns ≡ ms * 1000000) × (ms < 2 ^ 31)

-- A value of the Go type that belongs to the kind, in the range of that kind.
abbrev pub Fits : Kind → Value → Symbol → Type 0
Fits Kind.bool (Value.bool b) s = Unit
Fits Kind.int8 (Value.int8 n) s = IsByte n
Fits Kind.uint8 (Value.uint8 n) s = IsByte n
Fits Kind.int16 (Value.int16 n) s = IsU16 n
Fits Kind.uint16 (Value.uint16 n) s = IsU16 n
Fits Kind.int32 (Value.int32 n) s = IsU32 n
Fits Kind.uint32 (Value.uint32 n) s = IsU32 n
Fits Kind.int64 (Value.int64 n) s = IsU64 n
Fits Kind.uint64 (Value.uint64 n) s = IsU64 n
Fits Kind.real (Value.float32 n) s = IsU32 n
Fits Kind.lreal (Value.float64 n) s =
    (one_of (type_name s.type) (text "REAL" ∷ text "LREAL" ∷ []) ≡ true) × (s.size ≡ 8) × IsU64 n
Fits Kind.string (Value.string v) s = All NonZero v × (length v < s.size)
Fits Kind.time (Value.duration negative ns) s = (ms : ℕ) × Milliseconds negative ns ms
Fits Kind.date (Value.time seconds nanoseconds) s = IsU32 seconds × (nanoseconds ≡ 0)
Fits Kind.time_of_day (Value.duration false ns) s = (ms : ℕ) × (ns ≡ ms * 1000000) × IsU32 ms
Fits _ _ s = ⊥

pub encode_string-until_zero :
    (v : List ℕ) (size : ℕ)
    → All NonZero v
    → length v < size
    → (xs : List ℕ) × (encode_string v size ≡ ok xs) × (length xs ≡ size) × (until_zero xs ≡ v)
unfolding encode_string
encode_string-until_zero v zero f h = absurd (omega arith)
encode_string-until_zero v (suc max_len) f h =
    let fill : suc max_len ≡ length v + suc (max_len - length v) = omega arith in
    let whole : replicate (suc max_len) 0 ≡ replicate (length v + suc (max_len - length v)) 0 =
      ap (λ n. replicate {A = ℕ} n 0) fill in
    (
      v ++ replicate (suc (max_len - length v)) 0,
      rw (le→ltb max_len (length v) (omega arith))
          (rw whole (ap ok (copy-replicate_add v (suc (max_len - length v))))),
      length-append v (replicate (suc (max_len - length v)) 0)
          ∙ ap (λ n. length v + n) (length-replicate (suc (max_len - length v)) 0)
          ∙ sym fill,
      until_zero-append v (replicate (max_len - length v) 0) f,
    )

-- The bytes of a number under another spelling.
join32-written :
    (v n : ℕ)
    → v ≡ n
    → IsU32 n
    → join32 (v % 256) (v / 256 % 256) (v / 65536 % 256) (v / 16777216 % 256) ≡ n
unfolding bytes32
join32-written v n e h =
    ap (λ m. join32 (m % 256) (m / 256 % 256) (m / 65536 % 256) (m / 16777216 % 256)) e
    ∙ join32-bytes32 n h

-- The milliseconds of a duration, read as an int32.
from_ms-positive : (ns ms : ℕ) → Milliseconds false ns ms → from_ms ms ≡ Value.duration false ns
from_ms-positive ns ms f = rw (lt→ltb ms (2 ^ 31) f.1) (ap (Value.duration false) (sym f.0))

from_ms-negative :
    (ns ms : ℕ) → Milliseconds true ns ms → from_ms (2 ^ 32 - ms) ≡ Value.duration true ns
from_ms-negative ns ms f =
    let back : (2 ^ 32 - (2 ^ 32 - ms)) * 1000000 ≡ ns = omega arith in
    rw (le→ltb (2 ^ 32 - ms) (2 ^ 31) (omega arith)) (ap (Value.duration true) back)

-- What is written for a value is read as that value.
parse_kind-encode_symbol_value :
    (fl : Floats) (k : Kind) (v : Value) (s : Symbol)
    → Fits k v s
    → (do xs ← encode_symbol_value fl v s; parse_kind k xs) ≡ ok v
unfolding encode_symbol_value parse_kind bytes16 bytes32 bytes64 uint16? uint32? uint64?
parse_kind-encode_symbol_value fl Kind.bool (Value.bool true) s f = refl
parse_kind-encode_symbol_value fl Kind.bool (Value.bool false) s f = refl
parse_kind-encode_symbol_value fl Kind.int8 (Value.int8 n) s f = refl
parse_kind-encode_symbol_value fl Kind.uint8 (Value.uint8 n) s f = refl
parse_kind-encode_symbol_value fl Kind.int16 (Value.int16 n) s f = simp (join16-bytes16 n f)
parse_kind-encode_symbol_value fl Kind.uint16 (Value.uint16 n) s f = simp (join16-bytes16 n f)
parse_kind-encode_symbol_value fl Kind.int32 (Value.int32 n) s f = simp (join32-bytes32 n f)
parse_kind-encode_symbol_value fl Kind.uint32 (Value.uint32 n) s f = simp (join32-bytes32 n f)
parse_kind-encode_symbol_value fl Kind.int64 (Value.int64 n) s f = simp (join64-bytes64 n f)
parse_kind-encode_symbol_value fl Kind.uint64 (Value.uint64 n) s f = simp (join64-bytes64 n f)
parse_kind-encode_symbol_value fl Kind.real (Value.float32 n) s f = simp (join32-bytes32 n f)
parse_kind-encode_symbol_value fl Kind.lreal (Value.float64 n) s f =
    rw (f.0) (rw (f.1) (ap (λ m. ok (Value.float64 m)) (join64-bytes64 n f.2)))
parse_kind-encode_symbol_value fl Kind.string (Value.string v) s f =
    let (xs, e, _, u) = encode_string-until_zero v s.size f.0 f.1 in
    rw e (ap (λ w. ok (Value.string w)) u)
parse_kind-encode_symbol_value fl Kind.time (Value.duration true ns) s f =
    let (ms, f') = f in
    ap ok (
      ap from_ms (
        join32-written ((2 ^ 32 - ns / 1000000 % 2 ^ 32) % 2 ^ 32) (2 ^ 32 - ms) (omega arith)
          (omega arith))
      ∙ from_ms-negative ns ms f')
parse_kind-encode_symbol_value fl Kind.time (Value.duration false ns) s f =
    let (ms, f') = f in
    ap ok (
      ap from_ms (join32-written (ns / 1000000 % 2 ^ 32) ms (omega arith) (omega arith))
      ∙ from_ms-positive ns ms f')
parse_kind-encode_symbol_value fl Kind.date (Value.time seconds nanoseconds) s f =
    ap (λ n. ok (Value.time n 0)) (join32-written (seconds % 2 ^ 32) seconds (omega arith) f.0)
    ∙ ap (λ n. ok (Value.time seconds n)) (sym f.1)
parse_kind-encode_symbol_value fl Kind.time_of_day (Value.duration false ns) s f =
    let (ms, e, h) = f in
    ap (λ n. ok (Value.duration false n))
      (ap (λ n. n * 1000000) (join32-written (ns / 1000000 % 2 ^ 32) ms (omega arith) h) ∙ sym e)
parse_kind-encode_symbol_value fl k v s f = absurd f

parse_simple_type_by_name-kind :
    (name : List ℕ) (k : Kind)
    → kind_of (to_upper (trim_space name)) ≡ some k
    → (xs : List ℕ) → parse_simple_type_by_name xs name ≡ parse_kind k xs
unfolding parse_simple_type_by_name
parse_simple_type_by_name-kind name k e xs =
    ap (λ o. parse_case o (to_upper (trim_space name)) xs) e

-- The bytes that encodeSymbolValue writes for a value of the Go type that belongs to the type name,
-- in range, are read by parseSimpleTypeByName under that name as the same value. A string has no zero
-- byte and leaves room for one, a duration is whole milliseconds, a time whole seconds, a float64 has 8 bytes and a symbol
-- that says REAL or LREAL.
pub parse_simple_type_by_name-encode_symbol_value :
    (fl : Floats) (name : List ℕ) (k : Kind) (v : Value) (s : Symbol)
    → kind_of (to_upper (trim_space name)) ≡ some k
    → Fits k v s
    → (do xs ← encode_symbol_value fl v s; parse_simple_type_by_name xs name) ≡ ok v
parse_simple_type_by_name-encode_symbol_value fl name k v s e f =
    ap (λ read. encode_symbol_value fl v s >>= read)
      (λ i xs. parse_simple_type_by_name-kind name k e xs i)
    ∙ parse_kind-encode_symbol_value fl k v s f
