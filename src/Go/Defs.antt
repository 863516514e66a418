-- ===== src/Go/Defs.antt =====
-- What the modelled code uses of Go: a call that returns, fails or panics, and byte slices with the
-- spare capacity behind their length.
use goadstc.Base.{
  ℕ, zero, suc, ◌-◌, ◌≡◌, ◌≢◌, refl, ap, ◌⊎◌, inl, inr, Option, none, some, List, [], ◌∷◌, ◌++◌,
  leb, if◌then◌else◌,
}

-- `panic` is a run-time panic: an index or a slice out of range, or a send on a closed channel.
pub data Result {ℓ κ} (E : Type ℓ) (A : Type κ) : Type (ℓ ⊔ κ) where
  ok : A → Result E A
  err : E → Result E A
  panic : Result E A

module _ {ℓ κ μ} {E : Type ℓ} {A : Type κ} {B : Type μ} where
  infixl 5 ◌>>=◌
  abbrev pub ◌>>=◌ : Result E A → (A → Result E B) → Result E B
  ok a >>= f = f a
  err e >>= f = err e
  panic >>= f = panic

-- `fmt.Errorf("...: %w", err)` around the error of a callee.
abbrev pub wrap {ℓ κ μ} : {E : Type ℓ} {F : Type μ} {A : Type κ} → (E → F) → Result E A → Result F A
wrap f (ok a) = ok a
wrap f (err e) = err (f e)
wrap f panic = panic

-- An Option that is `none` where Go panics.
abbrev pub or_panic {ℓ κ} : {E : Type ℓ} {A : Type κ} → Option A → Result E A
or_panic none = panic
or_panic (some a) = ok a

pub Result-cases {ℓ κ} :
    {E : Type ℓ} {A : Type κ} (r : Result E A)
    → ((a : A) × (r ≡ ok a)) ⊎ ((e : E) × (r ≡ err e)) ⊎ (r ≡ panic)
Result-cases (ok a) = inl (a, refl)
Result-cases (err e) = inr (inl (e, refl))
Result-cases panic = inr (inr refl)

pub bind-ok {ℓ κ μ} :
    {E : Type ℓ} {A : Type κ} {B : Type μ} {m : Result E A} {a : A} (f : A → Result E B)
    → m ≡ ok a
    → (m >>= f) ≡ f a
bind-ok f e = ap (λ r. r >>= f) e

-- A chain that returns has a first part that returns.
pub bind-eq-ok {ℓ κ μ} :
    {E : Type ℓ} {A : Type κ} {B : Type μ} (first : Result E A) (rest : A → Result E B) {last : B}
    → (first >>= rest) ≡ ok last
    → (middle : A) × (first ≡ ok middle) × (rest middle ≡ ok last)
bind-eq-ok (ok middle) rest e = (middle, refl, e)
bind-eq-ok (err failure) rest e = cc
bind-eq-ok panic rest e = cc

pub bind-ne-panic {ℓ κ μ} :
    {E : Type ℓ} {A : Type κ} {B : Type μ} (m : Result E A) (f : A → Result E B)
    → m ≢ panic
    → ((a : A) → f a ≢ panic)
    → (m >>= f) ≢ panic
bind-ne-panic (ok a) f hm hf = hf a
bind-ne-panic (err e) f hm hf = λ p. cc
bind-ne-panic panic f hm hf = absurd (hm refl)

pub bind-ne-err {ℓ κ μ} :
    {E : Type ℓ} {A : Type κ} {B : Type μ} {e : E} (m : Result E A) (f : A → Result E B)
    → m ≢ err e
    → ((a : A) → f a ≢ err e)
    → (m >>= f) ≢ err e
bind-ne-err (ok a) f hm hf = hf a
bind-ne-err (err e) f hm hf = λ p. hm (cc p)
bind-ne-err panic f hm hf = λ p. cc

pub or_panic-ne-err {ℓ κ} : {E : Type ℓ} {A : Type κ} {e : E} (o : Option A) → or_panic o ≢ err e
or_panic-ne-err none = λ p. cc
or_panic-ne-err (some a) = λ p. cc

-- The bytes up to `len`, and those between `len` and `cap` of the same array.
pub record Slice : Type 0 where
  pub bytes : List ℕ
  pub spare : List ℕ

-- A slice with no spare capacity, as `make([]byte, n)` gives.
abbrev pub exact : List ℕ → Slice
exact xs = record { bytes = xs; spare = [] }

module _ {ℓ} {A : Type ℓ} where
  -- The first `n` elements and the others, if there are so many.
  abbrev pub split_at? : ℕ → List A → Option (List A × List A)
  split_at? zero xs = some ([], xs)
  split_at? (suc n) [] = none
  split_at? (suc n) (x ∷ xs) = elim (split_at? n xs) [ none ↦ none | some (a, b) ↦ some (x ∷ a, b) ]

-- `s[lo:hi]`: a panic unless lo <= hi <= cap(s); the capacity of the result ends where that of `s`
-- does.
abbrev pub cut : List ℕ → ℕ → ℕ → Option Slice
cut whole lo hi = elim (split_at? lo whole) [
  | none ↦ none
  | some (a, rest) ↦ elim (split_at? (hi - lo) rest) [
    | none ↦ none
    | some (b, more) ↦ some (record { bytes = b; spare = more })
  ]
]

unfoldable pub slice? : Slice → ℕ → ℕ → Option Slice
slice? s lo hi = if leb lo hi then cut (s.bytes ++ s.spare) lo hi else none

-- The same as a call that may panic.
abbrev pub slice {ℓ} : {E : Type ℓ} → Slice → ℕ → ℕ → Result E Slice
slice s lo hi = or_panic (slice? s lo hi)

-- `s[lo:]`, whose upper bound is len(s).
unfoldable pub slice_from? : Slice → ℕ → Option Slice
slice_from? s lo = elim (split_at? lo s.bytes) [
  | none ↦ none
  | some (a, b) ↦ some (record { bytes = b; spare = s.spare })
]
