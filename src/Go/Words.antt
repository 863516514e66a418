-- ===== src/Go/Words.antt =====
-- `binary.LittleEndian.UintN(data[lo:hi])` and `PutUintN(buf[lo:hi], v)` as calls that may panic.
use goadstc.Base.{ℕ, List, [], ◌∷◌}
use goadstc.Go.Defs.{Result, ◌>>=◌, or_panic, Slice, slice}
use goadstc.Go.Bytes.{uint16?, uint32?, uint64?, bytes16, bytes32, bytes64, put_at, copy_at}

module _ {ℓ} {E : Type ℓ} where
  abbrev pub read16 : Slice → ℕ → ℕ → Result E ℕ
  read16 s lo hi = do part ← slice s lo hi; or_panic (uint16? part.bytes)

  abbrev pub read32 : Slice → ℕ → ℕ → Result E ℕ
  read32 s lo hi = do part ← slice s lo hi; or_panic (uint32? part.bytes)

  abbrev pub read64 : Slice → ℕ → ℕ → Result E ℕ
  read64 s lo hi = do part ← slice s lo hi; or_panic (uint64? part.bytes)

  -- The value, then the offset, then the buffer.
  abbrev pub put16 : ℕ → ℕ → List ℕ → Result E (List ℕ)
  put16 v lo buf = or_panic (put_at lo (bytes16 v) buf)

  abbrev pub put32 : ℕ → ℕ → List ℕ → Result E (List ℕ)
  put32 v lo buf = or_panic (put_at lo (bytes32 v) buf)

  abbrev pub put64 : ℕ → ℕ → List ℕ → Result E (List ℕ)
  put64 v lo buf = or_panic (put_at lo (bytes64 v) buf)

  -- `buf[i] = b`
  abbrev pub put_byte : ℕ → ℕ → List ℕ → Result E (List ℕ)
  put_byte b i buf = or_panic (put_at i (b ∷ []) buf)

  abbrev pub copy_to : List ℕ → ℕ → List ℕ → Result E (List ℕ)
  copy_to src lo buf = or_panic (copy_at lo src buf)
