-- ===== src/Go/Scan.antt =====
-- Laws of the text functions: search, splitting, trimming and scanning of decimal numbers.
use goadstc.Base.{
  ℕ, ◌+◌, ◌-◌, ◌*◌, ◌^◌, ◌≤◌, ◌<◌, ◌≡◌, ◌≢◌, refl, Bool, true, false, some, none, List, [], ◌∷◌,
  ◌++◌, arith, All, if◌then◌else◌, length,
}
use goadstc.Go.Strings.{
  index_from, split_byte, split_pair, is_space, trim_left, trim_right, trim_space, digits,
  scan_uint32,
}

abbrev pub IsDigit : ℕ → Type 0
IsDigit c = (48 ≤ c) × (c ≤ 57)

-- The text has no byte `c`.
abbrev pub Without : ℕ → List ℕ → Type 0
Without c xs = All (λ x. x ≢ c) xs

module _ {ℓ κ} {A : Type ℓ} (P : A → Type κ) where
  pub All-append : (xs ys : List A) → All P xs → All P ys → All P (xs ++ ys)
  All-append [] ys hx hy = hy
  All-append (x ∷ xs) ys hx hy = (hx.0, All-append xs ys hx.1 hy)

pub index_from-first :
    (c i : ℕ) (xs rest : List ℕ)
    → Without c xs
    → index_from i (xs ++ (c ∷ rest)) (c ∷ []) ≡ some (i + length xs)
unfolding index_from
index_from-first c i [] rest h = ground arith
index_from-first c i (x ∷ xs) rest h = ground (arith, index_from-first c (i + 1) xs rest h.1)

pub split_byte-none : (c : ℕ) (xs : List ℕ) → Without c xs → split_byte c xs ≡ xs ∷ []
unfolding split_byte
split_byte-none c [] h = refl
split_byte-none c (x ∷ xs) h = ground (arith, split_byte-none c xs h.1)

pub split_byte-first :
    (c : ℕ) (xs rest : List ℕ)
    → Without c xs
    → split_byte c (xs ++ (c ∷ rest)) ≡ xs ∷ split_byte c rest
unfolding split_byte
split_byte-first c [] rest h = ground arith
split_byte-first c (x ∷ xs) rest h = ground (arith, split_byte-first c xs rest h.1)

pub split_pair-none : (a b : ℕ) (xs : List ℕ) → Without a xs → split_pair a b xs ≡ xs ∷ []
unfolding split_pair
split_pair-none a b [] h = refl
split_pair-none a b (x ∷ []) h = refl
split_pair-none a b (x ∷ y ∷ xs) h = ground (arith, split_pair-none a b (y ∷ xs) h.1)

pub split_pair-first :
    (a b : ℕ) (xs rest : List ℕ)
    → Without a xs
    → split_pair a b (xs ++ (a ∷ b ∷ rest)) ≡ xs ∷ split_pair a b rest
unfolding split_pair
split_pair-first a b [] rest h = ground arith
split_pair-first a b (x ∷ []) rest h = ground arith
split_pair-first a b (x ∷ y ∷ xs) rest h = ground (arith, split_pair-first a b (y ∷ xs) rest h.1)

abbrev NoSpace : ℕ → Type 0
NoSpace c = is_space c ≡ false

trim_left-none : (xs : List ℕ) → All NoSpace xs → trim_left xs ≡ xs
trim_left-none [] h = refl
trim_left-none (x ∷ xs) h = rw h.0

trim_right-none : (xs : List ℕ) → All NoSpace xs → trim_right xs ≡ xs
trim_right-none [] h = refl
trim_right-none (x ∷ []) h = rw h.0
trim_right-none (x ∷ y ∷ xs) h = rw (trim_right-none (y ∷ xs) h.1)

pub trim_space-none : (xs : List ℕ) → All NoSpace xs → trim_space xs ≡ xs
unfolding trim_space
trim_space-none xs h = rw (trim_left-none xs h) (trim_right-none xs h)

-- The number that a run of digits stands for, behind the digits of `n`.
abbrev pub value : ℕ → List ℕ → ℕ
value n [] = n
value n (c ∷ cs) = value (n * 10 + (c - 48)) cs

pub digits-value :
    (n : ℕ) (seen : Bool) (ds : List ℕ)
    → All IsDigit ds
    → digits n seen ds
      ≡ (elim ds [ [] ↦ if seen then some n else none | c ∷ cs ↦ some (value n (c ∷ cs)) ])
unfolding digits
digits-value n seen [] h = refl
digits-value n seen (c ∷ []) h = ground arith
digits-value n seen (c ∷ d ∷ cs) h =
    ground (arith, digits-value (n * 10 + (c - 48)) true (d ∷ cs) h.1)

-- Sscanf reads a decimal number of any length, if it fits 32 bits.
pub scan_uint32-digits :
    (c : ℕ) (cs : List ℕ)
    → All IsDigit (c ∷ cs)
    → value 0 (c ∷ cs) < 2 ^ 32
    → scan_uint32 (c ∷ cs) ≡ some (value 0 (c ∷ cs))
unfolding scan_uint32
scan_uint32-digits c cs h small = ground (arith, digits-value 0 false (c ∷ cs) h)
