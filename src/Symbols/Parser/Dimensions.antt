-- ===== src/Symbols/Parser/Dimensions.antt =====
-- internal/symbols/parser.go: the dimensions of an array type, from its name.
use mathlib.Core.List.{append_assoc}
use goadstc.Base.{
  false, ℕ, ◌+◌, ◌-◌, ◌^◌, ◌≤◌, ◌<◌, ◌≡◌, ◌≢◌, refl, sym, ap, ◌∙◌, some, List, [], ◌∷◌, ◌++◌, arith,
  All, length, length-append, map,
}
use goadstc.Go.{ok, panic, exact, slice-at, slice?-crossed}
use goadstc.Go.Strings.{index, is_space, split_byte}
use goadstc.Go.Scan.{
  IsDigit, Without, All-append, index_from-first, split_byte-none, split_byte-first,
  split_pair-none, split_pair-first, trim_space-none, value, scan_uint32-digits,
}
use goadstc.Symbols.Parser.{scan_or_zero, dimension, parts_size, dimensions, parse_array_dimensions}

-- "low..high", each a first digit and the others.
pub record Range : Type 0 where
  pub low_first : ℕ
  pub low_rest : List ℕ
  pub high_first : ℕ
  pub high_rest : List ℕ

abbrev pub low : Range → List ℕ
low r = r.low_first ∷ r.low_rest

abbrev pub high : Range → List ℕ
high r = r.high_first ∷ r.high_rest

abbrev pub range_text : Range → List ℕ
range_text r = low r ++ (b'.' ∷ b'.' ∷ high r)

-- Ranges with commas between them.
pub ranges_text : Range → List Range → List ℕ
ranges_text r [] = range_text r
ranges_text r (r' ∷ rs) = range_text r ++ (b',' ∷ ranges_text r' rs)

-- Digits, in order, of a number of elements that fits 32 bits.
pub record RangeFits (r : Range) : Type 0 where
  pub low_digits : All IsDigit (low r)
  pub high_digits : All IsDigit (high r)
  pub ordered : value 0 (low r) ≤ value 0 (high r)
  pub high_fits : value 0 (high r) < 2 ^ 32
  pub fits : value 0 (high r) + 1 - value 0 (low r) < 2 ^ 32

abbrev pub elements : Range → ℕ
elements r = value 0 (high r) + 1 - value 0 (low r)

abbrev IsPlain : ℕ → Type 0
IsPlain c = (c ≢ b',') × (c ≢ b'[') × (c ≢ b']') × (is_space c ≡ false)

digit-IsPlain : (c : ℕ) → IsDigit c → IsPlain c
digit-IsPlain c h = (omega arith, omega arith, omega arith, ground arith)

module _ {P Q : ℕ → Type 0} (f : (c : ℕ) → P c → Q c) where
  All-map : (xs : List ℕ) → All P xs → All Q xs
  All-map [] h = tt
  All-map (x ∷ xs) h = (f x h.0, All-map xs h.1)

digits-Without_dot : (xs : List ℕ) → All IsDigit xs → Without b'.' xs
digits-Without_dot = All-map (λ c h. omega arith)

range_text-IsPlain : (r : Range) → RangeFits r → All IsPlain (range_text r)
range_text-IsPlain r f =
    All-append IsPlain (low r) _ (All-map digit-IsPlain (low r) f.low_digits)
      (dot, (dot, All-map digit-IsPlain (high r) f.high_digits))
  where
    dot : IsPlain b'.'
    dot = (omega arith, omega arith, omega arith, refl)

scan_or_zero-digits :
    (c : ℕ) (cs : List ℕ)
    → All IsDigit (c ∷ cs)
    → value 0 (c ∷ cs) < 2 ^ 32
    → scan_or_zero (c ∷ cs) ≡ value 0 (c ∷ cs)
unfolding scan_or_zero
scan_or_zero-digits c cs h small = rw (scan_uint32-digits c cs h small, scan_or_zero)

-- One range gives its number of elements.
dimension-range_text : (r : Range) → RangeFits r → dimension (range_text r) ≡ some (elements r)
unfolding dimension parts_size
dimension-range_text r f =
    rw
      (
        trim_space-none (range_text r)
            (All-map (λ c h. h.3) (range_text r) (range_text-IsPlain r f)),
        split_pair-first b'.' b'.' (low r) (high r) (digits-Without_dot (low r) f.low_digits),
        split_pair-none b'.' b'.' (high r) (digits-Without_dot (high r) f.high_digits),
        scan_or_zero-digits r.low_first r.low_rest f.low_digits
            (omega (arith, f.ordered, f.high_fits)),
        scan_or_zero-digits r.high_first r.high_rest f.high_digits f.high_fits,
      )
      (ap some (omega (arith, f.ordered, f.high_fits, f.fits)))

ranges_text-IsPlain :
    (r : Range) (rs : List Range) → RangeFits r → All RangeFits rs → Without b']' (ranges_text r rs)
unfolding ranges_text
ranges_text-IsPlain r [] f fs = All-map (λ c h. h.2) (range_text r) (range_text-IsPlain r f)
ranges_text-IsPlain r (r' ∷ rs) f fs =
    All-append (λ c. c ≢ b']') (range_text r) _
      (All-map (λ c h. h.2) (range_text r) (range_text-IsPlain r f))
      (omega arith, ranges_text-IsPlain r' rs fs.0 fs.1)

dimensions-one :
    (r : Range) (others : List (List ℕ))
    → RangeFits r
    → dimensions (range_text r ∷ others) ≡ elements r ∷ dimensions others
unfolding dimensions
dimensions-one r others f = rw (dimension-range_text r f, dimensions)

dimensions-ranges_text :
    (r : Range) (rs : List Range)
    → RangeFits r
    → All RangeFits rs
    → dimensions (split_byte b',' (ranges_text r rs)) ≡ map elements (r ∷ rs)
unfolding ranges_text dimensions
dimensions-ranges_text r [] f fs =
    rw
      (split_byte-none b',' (range_text r)
        (All-map (λ c h. h.0) (range_text r) (range_text-IsPlain r f)))
      (dimensions-one r [] f)
dimensions-ranges_text r (r' ∷ rs) f fs =
    rw
      (
        split_byte-first b',' (range_text r) (ranges_text r' rs)
            (All-map (λ c h. h.0) (range_text r) (range_text-IsPlain r f)),
        dimensions-one r (split_byte b',' (ranges_text r' rs)) f,
      )
      (ap (◌∷◌ (elements r)) (dimensions-ranges_text r' rs fs.0 fs.1))

-- A type name that shows ranges between its first "[" and the "]" behind them has, in order, the
-- numbers of elements of the ranges, whatever text stands in front (without brackets) and behind.
pub parse_array_dimensions-ranges :
    (front : List ℕ) (r : Range) (rs : List Range) (behind : List ℕ)
    → Without b'[' front
    → Without b']' front
    → RangeFits r
    → All RangeFits rs
    → parse_array_dimensions (front ++ (b'[' ∷ (ranges_text r rs ++ (b']' ∷ behind))))
      ≡ ok (map elements (r ∷ rs))
unfolding parse_array_dimensions
parse_array_dimensions-ranges front r rs behind h k f fs =
    let inner = ranges_text r rs in
    let name = front ++ (b'[' ∷ (inner ++ (b']' ∷ behind))) in
    let w : name ≡ (front ++ (b'[' ∷ [])) ++ (inner ++ (b']' ∷ behind)) =
      sym (append_assoc front _ _) in
    let w' : name ≡ (front ++ (b'[' ∷ inner)) ++ (b']' ∷ behind) = sym (append_assoc front _ _) in
    let closing : index name (b']' ∷ []) ≡ some (length front + 1 + length inner) =
      ap (λ xs. index xs (b']' ∷ [])) w'
      ∙ index_from-first b']' 0 (front ++ (b'[' ∷ inner)) behind
          (All-append (λ c. c ≢ b']') front _ k (omega arith, ranges_text-IsPlain r rs f fs))
      ∙ ap some (omega (arith, length-append front (b'[' ∷ inner))) in
    let (part, cut_out, whole) =
      slice-at (exact name) (front ++ (b'[' ∷ [])) inner (b']' ∷ behind) {lo = 0 + length front + 1}
        {hi = length front + 1 + length inner} w (omega (arith, length-append front (b'[' ∷ [])))
        (omega arith) in
    rw
      (
        index_from-first b'[' 0 front (inner ++ (b']' ∷ behind)) h,
        closing,
        cut_out,
        whole,
        parse_array_dimensions,
      )
      (ap ok (dimensions-ranges_text r rs f fs))

-- A type name whose first "]" stands in front of its first "[" makes the parser panic.
parse_array_dimensions-crossed :
    (front middle behind : List ℕ)
    → Without b'[' front
    → Without b']' front
    → Without b'[' middle
    → parse_array_dimensions (front ++ (b']' ∷ (middle ++ (b'[' ∷ behind)))) ≡ panic
unfolding parse_array_dimensions
parse_array_dimensions-crossed front middle behind h k m =
    let name = front ++ (b']' ∷ (middle ++ (b'[' ∷ behind))) in
    let opening : index name (b'[' ∷ []) ≡ some (length front + 1 + length middle) =
      ap (λ xs. index xs (b'[' ∷ [])) (sym (append_assoc front (b']' ∷ middle) (b'[' ∷ behind)))
      ∙ index_from-first b'[' 0 (front ++ (b']' ∷ middle)) behind
          (All-append (λ c. c ≢ b'[') front _ h (omega arith, m))
      ∙ ap some (omega (arith, length-append front (b']' ∷ middle))) in
    rw (
      opening,
      index_from-first b']' 0 front (middle ++ (b'[' ∷ behind)) k,
      slice?-crossed (exact name) (length front + 1 + length middle + 1) (0 + length front)
          (omega arith),
      parse_array_dimensions,
    )
