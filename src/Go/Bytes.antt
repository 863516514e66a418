-- ===== src/Go/Bytes.antt =====
-- encoding/binary in little-endian order, and writes into a buffer.
use goadstc.Base.{
  ℕ, zero, suc, ◌+◌, ◌*◌, ◌/◌, ◌%◌, ◌^◌, ◌<◌, ◌≡◌, Option, none, some, List, [], ◌∷◌, arith,
}

abbrev pub IsByte : ℕ → Type 0
IsByte b = b < 256

abbrev pub IsU16 : ℕ → Type 0
IsU16 v = v < 2 ^ 16

abbrev pub IsU32 : ℕ → Type 0
IsU32 v = v < 2 ^ 32

abbrev pub IsU64 : ℕ → Type 0
IsU64 v = v < 2 ^ 64

-- The bytes that PutUint16, PutUint32 and PutUint64 write: byte(v), byte(v >> 8), ...
unfoldable pub bytes16 : ℕ → List ℕ
bytes16 v = (v % 256) ∷ (v / 2 ^ 8 % 256) ∷ []

unfoldable pub bytes32 : ℕ → List ℕ
bytes32 v = (v % 256) ∷ (v / 2 ^ 8 % 256) ∷ (v / 2 ^ 16 % 256) ∷ (v / 2 ^ 24 % 256) ∷ []

unfoldable pub bytes64 : ℕ → List ℕ
bytes64 v =
    (v % 256)
    ∷ (v / 2 ^ 8 % 256)
    ∷ (v / 2 ^ 16 % 256)
    ∷ (v / 2 ^ 24 % 256)
    ∷ (v / 2 ^ 32 % 256)
    ∷ (v / 2 ^ 40 % 256)
    ∷ (v / 2 ^ 48 % 256)
    ∷ (v / 2 ^ 56 % 256)
    ∷ []

-- Uint16, Uint32 and Uint64 read the first bytes of a slice, and panic on a shorter one.
abbrev pub join16 : ℕ → ℕ → ℕ
join16 a b = a + b * 2 ^ 8

abbrev pub join32 : ℕ → ℕ → ℕ → ℕ → ℕ
join32 a b c d = a + b * 2 ^ 8 + c * 2 ^ 16 + d * 2 ^ 24

abbrev pub join64 : ℕ → ℕ → ℕ → ℕ → ℕ → ℕ → ℕ → ℕ → ℕ
join64 a b c d e f g h =
    a + b * 2 ^ 8 + c * 2 ^ 16 + d * 2 ^ 24 + e * 2 ^ 32 + f * 2 ^ 40 + g * 2 ^ 48 + h * 2 ^ 56

unfoldable pub uint16? : List ℕ → Option ℕ
uint16? (a ∷ b ∷ xs) = some (join16 a b)
uint16? xs = none

unfoldable pub uint32? : List ℕ → Option ℕ
uint32? (a ∷ b ∷ c ∷ d ∷ xs) = some (join32 a b c d)
uint32? xs = none

unfoldable pub uint64? : List ℕ → Option ℕ
uint64? (a ∷ b ∷ c ∷ d ∷ e ∷ f ∷ g ∷ h ∷ xs) = some (join64 a b c d e f g h)
uint64? xs = none

-- Bytes stored from the front of a buffer on; `none` where the buffer is too short.
abbrev pub put_front : List ℕ → List ℕ → Option (List ℕ)
put_front [] buf = some buf
put_front (b ∷ bs) [] = none
put_front (b ∷ bs) (x ∷ buf) = elim (put_front bs buf) [ none ↦ none | some r ↦ some (b ∷ r) ]

-- The bytes `bs` stored at buf[lo:].
abbrev pub put_at : ℕ → List ℕ → List ℕ → Option (List ℕ)
put_at zero bs buf = put_front bs buf
put_at (suc lo) bs [] = none
put_at (suc lo) bs (x ∷ buf) = elim (put_at lo bs buf) [ none ↦ none | some r ↦ some (x ∷ r) ]

-- `copy(dst, src)`: as many bytes as both have.
unfoldable pub copy : List ℕ → List ℕ → List ℕ
copy [] src = []
copy (x ∷ dst) [] = x ∷ dst
copy (x ∷ dst) (b ∷ src) = b ∷ copy dst src

-- `copy(buf[lo:], src)`; `none` where lo is past the end.
abbrev pub copy_at : ℕ → List ℕ → List ℕ → Option (List ℕ)
copy_at zero src buf = some (copy buf src)
copy_at (suc lo) src [] = none
copy_at (suc lo) src (x ∷ buf) = elim (copy_at lo src buf) [ none ↦ none | some r ↦ some (x ∷ r) ]

pub join16-bytes16 : (v : ℕ) → IsU16 v → join16 (v % 256) (v / 2 ^ 8 % 256) ≡ v
join16-bytes16 v h = omega arith

pub join32-bytes32 :
    (v : ℕ) → IsU32 v → join32 (v % 256) (v / 2 ^ 8 % 256) (v / 2 ^ 16 % 256) (v / 2 ^ 24 % 256) ≡ v
join32-bytes32 v h = omega arith

pub join64-bytes64 :
    (v : ℕ)
    → IsU64 v
    → join64
        (v % 256)
        (v / 2 ^ 8 % 256)
        (v / 2 ^ 16 % 256)
        (v / 2 ^ 24 % 256)
        (v / 2 ^ 32 % 256)
        (v / 2 ^ 40 % 256)
        (v / 2 ^ 48 % 256)
        (v / 2 ^ 56 % 256)
      ≡ v
join64-bytes64 v h = omega arith

-- Reading back what was written, for a value that fits; `bytes32-uint32` is the other way round.
pub bytes32-join32 :
    (a b c d : ℕ)
    → IsByte a
    → IsByte b
    → IsByte c
    → IsByte d
    → bytes32 (join32 a b c d) ≡ a ∷ b ∷ c ∷ d ∷ []
unfolding bytes32
bytes32-join32 a b c d ha hb hc hd = ground arith
