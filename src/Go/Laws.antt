-- ===== src/Go/Laws.antt =====
-- Laws of slicing and copying, for data of any length.
use mathlib.Core.List.{append-nil, append_assoc}
use native.Mathlib.Decide.{dec_le}
use goadstc.Base.{
  drop-append, ◌%◌, ◌^◌, length-append, ◌∙◌, ℕ, zero, suc, ◌+◌, ◌-◌, ◌≤◌, ◌<◌, ◌≡◌, refl, ap, none,
  some, List, [], ◌∷◌, ◌++◌, arith, length, replicate, take, drop, replicate-add, le→leb, lt→leb,
}
use goadstc.Go.Words.{copy_to}
use goadstc.Go.Defs.{exact, ok, ◌>>=◌, Slice, split_at?, cut, slice?}
use goadstc.Go.Bytes.{copy, copy_at}

module _ {ℓ} {A : Type ℓ} where
  pub split_at?-append : (xs ys : List A) → split_at? (length xs) (xs ++ ys) ≡ some (xs, ys)
  split_at?-append [] ys = refl
  split_at?-append (x ∷ xs) ys = rw (split_at?-append xs ys)

  pub split_at?-short : (n : ℕ) (xs : List A) → length xs < n → split_at? n xs ≡ none
  split_at?-short zero xs h = absurd (omega arith)
  split_at?-short (suc n) [] h = refl
  split_at?-short (suc n) (x ∷ xs) h = rw (split_at?-short n xs (omega arith))

  pub split_at?-take :
      (n : ℕ) (xs : List A) → n ≤ length xs → split_at? n xs ≡ some (take n xs, drop n xs)
  split_at?-take zero xs h = refl
  split_at?-take (suc n) [] h = absurd (omega arith)
  split_at?-take (suc n) (x ∷ xs) h = rw (split_at?-take n xs (omega arith))

pub copy-nil : (buf : List ℕ) → copy buf [] ≡ buf
unfolding copy
copy-nil [] = refl
copy-nil (x ∷ buf) = refl

pub copy_at-append :
    (a buf src : List ℕ) → copy_at (length a) src (a ++ buf) ≡ some (a ++ copy buf src)
copy_at-append [] buf src = refl
copy_at-append (x ∷ a) buf src = rw (copy_at-append a buf src)

pub copy-replicate : (src : List ℕ) → copy (replicate (length src) 0) src ≡ src
unfolding copy
copy-replicate [] = refl
copy-replicate (b ∷ src) = ap (◌∷◌ b) (copy-replicate src)

copy_front : (xs rest : List ℕ) → copy (replicate (length xs) 0 ++ rest) xs ≡ xs ++ rest
unfolding copy
copy_front [] [] = refl
copy_front [] (x ∷ rest) = refl
copy_front (x ∷ xs) rest = ap (◌∷◌ x) (copy_front xs rest)

-- Copying into the front of a longer zeroed buffer leaves zeros behind.
pub copy-replicate_add :
    (src : List ℕ) (n : ℕ) → copy (replicate (length src + n) 0) src ≡ src ++ replicate n 0
copy-replicate_add src n =
    rw (replicate-add {A = ℕ} (length src) n 0) (copy_front src (replicate n 0))

pub length-drop : (n : ℕ) (xs : List ℕ) → length (drop n xs) ≡ length xs - n
length-drop zero xs = omega arith
length-drop (suc n) [] = omega arith
length-drop (suc n) (x ∷ xs) = omega (arith, length-drop n xs)

pub length-take : (n : ℕ) (xs : List ℕ) → n ≤ length xs → length (take n xs) ≡ n
length-take zero xs h = refl
length-take (suc n) [] h = absurd (omega arith)
length-take (suc n) (x ∷ xs) h = ap suc (length-take n xs (omega arith))

module _ (whole : List ℕ) (lo hi : ℕ) (h : lo ≤ hi) where
  cut-take :
      hi ≤ length whole
      → cut whole lo hi
        ≡ some (record {
          bytes = take (hi - lo) (drop lo whole);
          spare = drop (hi - lo) (drop lo whole);
        })
  cut-take fits =
      rw (split_at?-take lo whole (omega arith), cut)
        (rw (split_at?-take (hi - lo) (drop lo whole) (omega (arith, length-drop lo whole))))

  cut-beyond : length whole < hi → cut whole lo hi ≡ none
  cut-beyond past = elim (dec_le lo (length whole)) [
    | yes inside ↦
        rw (split_at?-take lo whole inside, cut)
          (rw (split_at?-short (hi - lo) (drop lo whole) (omega (arith, length-drop lo whole))))
    | no outside ↦ rw (split_at?-short lo whole (omega arith), cut)
  ]

-- Between its bounds, `s[lo:hi]` is a part of the array of `s`, and the rest is spare capacity.
pub slice?-take :
    (s : Slice) (lo hi : ℕ)
    → lo ≤ hi
    → hi ≤ length (s.bytes ++ s.spare)
    → slice? s lo hi
      ≡ some (record {
        bytes = take (hi - lo) (drop lo (s.bytes ++ s.spare));
        spare = drop (hi - lo) (drop lo (s.bytes ++ s.spare));
      })
unfolding slice?
slice?-take s lo hi h fits = rw (le→leb lo hi h) (cut-take (s.bytes ++ s.spare) lo hi h fits)

-- Bounds in the wrong order are a panic.
pub slice?-crossed : (s : Slice) (lo hi : ℕ) → hi < lo → slice? s lo hi ≡ none
unfolding slice?
slice?-crossed s lo hi h = rw (lt→leb lo hi h)

-- So is an upper bound past the capacity.
pub slice?-beyond :
    (s : Slice) (lo hi : ℕ) → lo ≤ hi → length (s.bytes ++ s.spare) < hi → slice? s lo hi ≡ none
unfolding slice?
slice?-beyond s lo hi h past = rw (le→leb lo hi h) (cut-beyond (s.bytes ++ s.spare) lo hi h past)

-- Three parts copied one after the other into a buffer of their total length.
module _ (t a b : List ℕ) where
  first_part :
      copy (replicate (length t + length a + length b) 0) t ≡ t ++ replicate (length a + length b) 0
  first_part =
      ap (λ n. copy (replicate n 0) t) (omega arith) ∙ copy-replicate_add t (length a + length b)

  second_part :
      copy_at (length t) a (t ++ replicate (length a + length b) 0)
      ≡ some (t ++ (a ++ replicate (length b) 0))
  second_part =
      copy_at-append t (replicate (length a + length b) 0) a
      ∙ ap (λ xs. some (t ++ xs)) (copy-replicate_add a (length b))

  third_part :
      copy_at (length t + length a) b (t ++ (a ++ replicate (length b) 0)) ≡ some (t ++ (a ++ b))
  third_part =
      rw (← length-append t a, ← append_assoc t a (replicate (length b) 0))
        (copy_at-append (t ++ a) (replicate (length b) 0) b
          ∙ ap some (rw (copy-replicate b) (append_assoc t a b)))

  pub copy_three {ℓ} :
      {E : Type ℓ}
      → (do
        buf ← copy_to {E = E} t 0 (replicate (length t + length a + length b) 0)
        buf ← copy_to a (length t) buf
        buf ← copy_to b (length t + length a) buf
        ok buf)
        ≡ ok (t ++ (a ++ b))
  copy_three = rw (first_part, second_part, third_part)

drop_offset : (a n : ℕ) → a + n - a ≡ n
drop_offset a n = omega arith

-- What follows a known prefix `p`, cut to `n` bytes.
module _ (p xs spare : List ℕ) (n : ℕ) where
  after_prefix : drop (length p) ((p ++ xs) ++ spare) ≡ xs ++ spare
  after_prefix = rw (append_assoc p xs spare) (drop-append p (xs ++ spare))

  capacity : length ((p ++ xs) ++ spare) ≡ length p + length (xs ++ spare)
  capacity = rw (append_assoc p xs spare) (length-append p (xs ++ spare))

  -- Within the capacity it is a part of the bytes behind the prefix.
  pub slice?-after :
      n ≤ length (xs ++ spare)
      → slice? (record { bytes = p ++ xs; spare = spare }) (length p) (length p + n)
        ≡ some (record { bytes = take n (xs ++ spare); spare = drop n (xs ++ spare) })
  slice?-after h =
      slice?-take (record { bytes = p ++ xs; spare = spare }) (length p) (length p + n)
        (omega arith) (omega (arith, capacity))
      ∙ rw (after_prefix, drop_offset (length p) n)

  -- Past the capacity it is a panic.
  pub slice?-after_beyond :
      length (xs ++ spare) < n
      → slice? (record { bytes = p ++ xs; spare = spare }) (length p) (length p + n) ≡ none
  slice?-after_beyond h =
      slice?-beyond (record { bytes = p ++ xs; spare = spare }) (length p) (length p + n)
        (omega arith) (omega (arith, capacity))

pub take-length : (xs : List ℕ) → take (length xs) xs ≡ xs
take-length [] = refl
take-length (x ∷ xs) = ap (◌∷◌ x) (take-length xs)

pub drop-length : (xs : List ℕ) → drop (length xs) xs ≡ []
drop-length [] = refl
drop-length (x ∷ xs) = drop-length xs

pub mod32_lem : (n : ℕ) → n < 2 ^ 32 → n % 2 ^ 32 ≡ n
mod32_lem n h = omega arith

pub slice?-exact :
    (p xs : List ℕ) (n : ℕ)
    → n ≤ length xs
    → slice? (exact (p ++ xs)) (length p) (length p + n)
      ≡ some (record { bytes = take n xs; spare = drop n xs })
slice?-exact p xs n h = slice?-after p xs [] n (rw append-nil h) ∙ rw append-nil

-- A zeroed buffer of length `n` is filled by the first `n` bytes.
pub copy-take : (n : ℕ) (xs : List ℕ) → n ≤ length xs → copy (replicate n 0) (take n xs) ≡ take n xs
unfolding copy
copy-take zero xs h = refl
copy-take (suc n) [] h = absurd (omega arith)
copy-take (suc n) (x ∷ xs) h = ap (◌∷◌ x) (copy-take n xs (omega arith))
