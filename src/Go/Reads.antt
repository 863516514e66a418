-- ===== src/Go/Reads.antt =====
-- Reads at any offset: where they succeed, and what they give behind a known prefix.
use mathlib.Core.Path.{subst, sym}
use mathlib.Core.List.{append_assoc}
use goadstc.Base.{
  ℕ, zero, suc, All, ◌+◌, ◌-◌, ◌≤◌, ◌≡◌, refl, ap, ◌∙◌, some, List, [], ◌∷◌, ◌++◌, arith, length,
  take, drop, length-append,
}
use goadstc.Go.Defs.{ok, Slice, slice?}
use goadstc.Go.Bytes.{
  uint16?, uint32?, uint64?, bytes16, bytes32, bytes64, IsByte, join32, IsU16, IsU32, IsU64,
  join16-bytes16, join32-bytes32, join64-bytes64,
}
use goadstc.Go.Words.{read16, read32, read64}
use goadstc.Go.Laws.{slice?-take, slice?-after, length-take, length-drop}

pub uint16?-long : (xs : List ℕ) → 2 ≤ length xs → (v : ℕ) × (uint16? xs ≡ some v)
unfolding uint16?
uint16?-long (a ∷ b ∷ xs) h = (_, refl)
uint16?-long _ h = absurd (omega arith)

pub uint32?-long : (xs : List ℕ) → 4 ≤ length xs → (v : ℕ) × (uint32? xs ≡ some v)
unfolding uint32?
uint32?-long (a ∷ b ∷ c ∷ d ∷ xs) h = (_, refl)
uint32?-long _ h = absurd (omega arith)

pub uint64?-long : (xs : List ℕ) → 8 ≤ length xs → (v : ℕ) × (uint64? xs ≡ some v)
unfolding uint64?
uint64?-long (a ∷ b ∷ c ∷ d ∷ e ∷ f ∷ g ∷ h ∷ xs) k = (_, refl)
uint64?-long _ k = absurd (omega arith)

uint32?-IsU32 : (xs : List ℕ) (v : ℕ) → All IsByte xs → uint32? xs ≡ some v → IsU32 v
unfolding uint32?
uint32?-IsU32 (a ∷ b ∷ c ∷ d ∷ xs) v f e = let joined : join32 a b c d ≡ v = cc e in omega arith
uint32?-IsU32 [] v f e = cc
uint32?-IsU32 (a ∷ []) v f e = cc
uint32?-IsU32 (a ∷ b ∷ []) v f e = cc
uint32?-IsU32 (a ∷ b ∷ c ∷ []) v f e = cc

All-take {ℓ} : (P : ℕ → Type ℓ) (n : ℕ) (xs : List ℕ) → All P xs → All P (take n xs)
All-take P zero xs f = tt
All-take P (suc n) [] f = tt
All-take P (suc n) (x ∷ xs) f = (f.0, All-take P n xs f.1)

All-drop {ℓ} : (P : ℕ → Type ℓ) (n : ℕ) (xs : List ℕ) → All P xs → All P (drop n xs)
All-drop P zero xs f = f
All-drop P (suc n) [] f = tt
All-drop P (suc n) (x ∷ xs) f = All-drop P n xs f.1

module _ (s : Slice) (lo hi : ℕ) where
  -- A part within the length exists, and has the length of its bounds.
  pub slice-inside :
      lo ≤ hi
      → hi ≤ length s.bytes
      → (part : Slice) × (slice? s lo hi ≡ some part) × (length part.bytes ≡ hi - lo)
  slice-inside h fits = (
    _,
    slice?-take s lo hi h (omega (arith, length-append s.bytes s.spare)),
    length-take (hi - lo) (drop lo (s.bytes ++ s.spare))
        (omega (arith, length-drop lo (s.bytes ++ s.spare), length-append s.bytes s.spare)),
  )

module _ {ℓ} {E : Type ℓ} (s : Slice) (lo hi : ℕ) where
  pub read16-inside : hi ≡ lo + 2 → hi ≤ length s.bytes → (v : ℕ) × (read16 {E = E} s lo hi ≡ ok v)
  read16-inside e fits =
      let (part, cut_out, size) = slice-inside s lo hi (omega arith) fits in
      let (v, found) = uint16?-long part.bytes (omega arith) in (v, rw (cut_out, found))

  pub read32-inside : hi ≡ lo + 4 → hi ≤ length s.bytes → (v : ℕ) × (read32 {E = E} s lo hi ≡ ok v)
  read32-inside e fits =
      let (part, cut_out, size) = slice-inside s lo hi (omega arith) fits in
      let (v, found) = uint32?-long part.bytes (omega arith) in (v, rw (cut_out, found))

  -- Four bytes are a uint32.
  pub read32-IsU32 :
      hi ≡ lo + 4
      → hi ≤ length s.bytes
      → All IsByte (s.bytes ++ s.spare)
      → (v : ℕ) × (read32 {E = E} s lo hi ≡ ok v) × IsU32 v
  read32-IsU32 e fits bytes =
      let whole = s.bytes ++ s.spare in
      let part = take (hi - lo) (drop lo whole) in
      let room : 4 ≤ length part = omega (
        arith,
        length-take (hi - lo) (drop lo whole)
            (omega (arith, length-drop lo whole, length-append s.bytes s.spare)),
      ) in
      let (v, found) = uint32?-long part room in
      (
        v,
        rw (
          slice?-take s lo hi (omega arith) (omega (arith, length-append s.bytes s.spare)),
          found,
        ),
        uint32?-IsU32 part v
            (All-take IsByte (hi - lo) (drop lo whole) (All-drop IsByte lo whole bytes)) found,
      )

  pub read64-inside : hi ≡ lo + 8 → hi ≤ length s.bytes → (v : ℕ) × (read64 {E = E} s lo hi ≡ ok v)
  read64-inside e fits =
      let (part, cut_out, size) = slice-inside s lo hi (omega arith) fits in
      let (v, found) = uint64?-long part.bytes (omega arith) in (v, rw (cut_out, found))

module _ {ℓ} {E : Type ℓ} (a rest spare : List ℕ) (v : ℕ) where
  pub read16-after :
      IsU16 v
      → read16 {E = E}
          (record { bytes = a ++ (bytes16 v ++ rest); spare = spare })
          (length a)
          (length a + 2)
        ≡ ok v
  unfolding uint16? bytes16
  read16-after h =
      rw (slice?-after a (bytes16 v ++ rest) spare 2 (omega arith)) (rw (join16-bytes16 v h))

  pub read32-after :
      IsU32 v
      → read32 {E = E}
          (record { bytes = a ++ (bytes32 v ++ rest); spare = spare })
          (length a)
          (length a + 4)
        ≡ ok v
  unfolding uint32? bytes32
  read32-after h =
      rw (slice?-after a (bytes32 v ++ rest) spare 4 (omega arith)) (rw (join32-bytes32 v h))

  pub read64-after :
      IsU64 v
      → read64 {E = E}
          (record { bytes = a ++ (bytes64 v ++ rest); spare = spare })
          (length a)
          (length a + 8)
        ≡ ok v
  unfolding uint64? bytes64
  read64-after h =
      rw (slice?-after a (bytes64 v ++ rest) spare 8 (omega arith)) (rw (join64-bytes64 v h))

-- The same at an offset that is known to be the length of what stands in front.
module _ {ℓ} {E : Type ℓ} (s : Slice) (a rest : List ℕ) (v : ℕ) {lo hi : ℕ} where
  pub read32-at :
      s.bytes ≡ a ++ (bytes32 v ++ rest)
      → lo ≡ length a
      → hi ≡ lo + 4
      → IsU32 v
      → read32 {E = E} s lo hi ≡ ok v
  read32-at e el eh h =
      let there = read32-after {E = E} a rest s.spare v h in
      simp (eh, el)
        (subst
          (λ xs.
            read32 {E = E} (record { bytes = xs; spare = s.spare }) (length a) (length a + 4)
            ≡ ok v)
          (sym e) there)

  pub read64-at :
      s.bytes ≡ a ++ (bytes64 v ++ rest)
      → lo ≡ length a
      → hi ≡ lo + 8
      → IsU64 v
      → read64 {E = E} s lo hi ≡ ok v
  read64-at e el eh h =
      let there = read64-after {E = E} a rest s.spare v h in
      simp (eh, el)
        (subst
          (λ xs.
            read64 {E = E} (record { bytes = xs; spare = s.spare }) (length a) (length a + 8)
            ≡ ok v)
          (sym e) there)

pub take-prefix : (xs ys : List ℕ) → take (length xs) (xs ++ ys) ≡ xs
take-prefix [] ys = refl
take-prefix (x ∷ xs) ys = ap (◌∷◌ x) (take-prefix xs ys)

-- A part that is known as a whole.
pub slice-at :
    (s : Slice) (a b rest : List ℕ) {lo hi : ℕ}
    → s.bytes ≡ a ++ (b ++ rest)
    → lo ≡ length a
    → hi ≡ lo + length b
    → (part : Slice) × (slice? s lo hi ≡ some part) × (part.bytes ≡ b)
slice-at s a b rest e el eh =
    let part : Slice = record {
      bytes = take (length b) ((b ++ rest) ++ s.spare);
      spare = drop (length b) ((b ++ rest) ++ s.spare);
    } in
    (
      part,
      simp (eh, el)
          (subst
            (λ xs.
              slice? (record { bytes = xs; spare = s.spare }) (length a) (length a + length b)
              ≡ some part)
            (sym e)
            (slice?-after a (b ++ rest) s.spare (length b)
              (omega (arith, length-append (b ++ rest) s.spare, length-append b rest)))),
      ap (take (length b)) (append_assoc b rest s.spare) ∙ take-prefix b (rest ++ s.spare),
    )
