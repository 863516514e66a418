-- ===== src/Go/Text.antt =====
-- Zero-terminated texts in byte slices.
use goadstc.Base.{
  ℕ, ◌≡◌, refl, Bool, true, false, List, [], ◌∷◌, ◌++◌, arith, ◌==◌, length, take, if◌then◌else◌,
  All, ◌≢◌,
}

-- The bytes before the first zero byte, or all of them.
abbrev pub until_zero : List ℕ → List ℕ
until_zero [] = []
until_zero (b ∷ bs) = if b == 0 then [] else b ∷ until_zero bs

abbrev pub has_zero : List ℕ → Bool
has_zero [] = false
has_zero (b ∷ bs) = if b == 0 then true else has_zero bs

pub take-until_zero : (xs : List ℕ) → take (length (until_zero xs)) xs ≡ until_zero xs
take-until_zero [] = refl
take-until_zero (x ∷ xs) = ground (arith, take-until_zero xs)

pub until_zero_whole : (xs : List ℕ) → has_zero xs ≡ false → until_zero xs ≡ xs
until_zero_whole [] h = refl
until_zero_whole (x ∷ xs) h = ground (arith, until_zero_whole xs)

abbrev pub NonZero : ℕ → Type 0
NonZero b = b ≢ 0

-- A text with no zero byte is read back from in front of its terminator.
pub until_zero-append : (xs rest : List ℕ) → All NonZero xs → until_zero (xs ++ (0 ∷ rest)) ≡ xs
until_zero-append [] rest h = refl
until_zero-append (x ∷ xs) rest h = ground (arith, until_zero-append xs rest h.1)
