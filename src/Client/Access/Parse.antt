-- ===== src/Client/Access/Parse.antt =====
-- client.go, parseArrayAccess: the indices of a symbol name.
use mathlib.Core.List.{append_assoc, append-nil}
use goadstc.Base.{
  ℕ, zero, suc, ◌+◌, ◌≤◌, ◌<◌, ◌^◌, ◌≡◌, refl, sym, ap, ◌∙◌, false, some, List, [], ◌∷◌, ◌++◌,
  arith, All, length, length-append, map,
}
use goadstc.Go.{ok, exact, slice_from?, split_at?-append, slice-at}
use goadstc.Go.Strings.{index}
use goadstc.Go.Scan.{IsDigit, Without, index_from-first, digits-value, value}
use goadstc.Client.Access.{take_sign, scan_int, from, opens, parse_indices, parse_array_access}

-- The digits of an index: the first and the others.
abbrev pub Index : Type 0
Index = ℕ × List ℕ

abbrev pub number : Index → List ℕ
number (c, cs) = c ∷ cs

abbrev pub index_value : Index → ℕ
index_value x = value 0 (number x)

-- Digits of a number that fits an int.
abbrev pub IndexFits : Index → Type 0
IndexFits x = All IsDigit (number x) × (index_value x < 2 ^ 63)

-- "[1][2]..." in front of `rest`.
unfoldable pub brackets : List Index → List ℕ → List ℕ
brackets [] rest = rest
brackets (x ∷ xs) rest = b'[' ∷ (number x ++ (b']' ∷ brackets xs rest))

scan_int-number : (x : Index) → IndexFits x → scan_int (number x) ≡ some (index_value x)
unfolding scan_int take_sign
scan_int-number (c, cs) (ds, small) = ground (arith, digits-value 0 false (c ∷ cs) ds)

digits-Without : (xs : List ℕ) → All IsDigit xs → Without b']' xs
digits-Without [] h = tt
digits-Without (x ∷ xs) h = (omega arith, digits-Without xs h.1)

from-append : (a b : List ℕ) (i : ℕ) → i ≡ length a → from (a ++ b) i ≡ ok b
unfolding slice_from?
from-append a b i e = rw e (rw (split_at?-append a b, slice_from?) refl)

-- One round of the loop.
parse_indices-step :
    (fuel : ℕ) (x : Index) (xs : List Index) (rest acc : List ℕ)
    → IndexFits x
    → parse_indices (suc fuel) (brackets (x ∷ xs) rest) acc
      ≡ parse_indices fuel (brackets xs rest) (acc ++ (index_value x ∷ []))
unfolding parse_indices brackets
parse_indices-step fuel x xs rest acc f =
    let num = number x in
    let more = brackets xs rest in
    let s = b'[' ∷ (num ++ (b']' ∷ more)) in
    let closing : index s (b']' ∷ []) ≡ some (1 + length num) =
      index_from-first b']' 0 (b'[' ∷ num) more (omega arith, digits-Without num f.0)
      ∙ ap some (omega arith) in
    let (p, cut_out, whole) =
      slice-at (exact s) (b'[' ∷ []) num (b']' ∷ more) {lo = 1} {hi = 1 + length num} refl
        (omega arith) refl in
    let behind : from s (1 + length num + 1) ≡ ok more =
      ap (λ t. from t (1 + length num + 1))
        (ap (◌∷◌ b'[') (sym (append_assoc num (b']' ∷ []) more)))
      ∙ from-append (b'[' ∷ (num ++ (b']' ∷ []))) more (1 + length num + 1)
          (omega (arith, length-append num (b']' ∷ []))) in
    rw (closing, parse_indices, brackets)
      (rw (cut_out) (rw whole (rw (scan_int-number x f) (rw behind refl))))

parse_indices-done :
    (fuel : ℕ) (rest acc : List ℕ)
    → opens rest ≡ false
    → parse_indices (suc fuel) rest acc ≡ ok (rest, acc)
unfolding parse_indices
parse_indices-done fuel rest acc o = rw (o, parse_indices) refl

parse_indices-brackets :
    (xs : List Index) (fuel : ℕ) (rest acc : List ℕ)
    → All IndexFits xs
    → opens rest ≡ false
    → length xs < fuel
    → parse_indices fuel (brackets xs rest) acc ≡ ok (rest, acc ++ map index_value xs)
parse_indices-brackets xs zero rest acc f o h = absurd (omega arith)
parse_indices-brackets [] (suc fuel) rest acc f o h =
    unfold brackets in rw append-nil (parse_indices-done fuel rest acc o)
parse_indices-brackets (x ∷ xs) (suc fuel) rest acc f o h =
    parse_indices-step fuel x xs rest acc f.0
    ∙ parse_indices-brackets xs fuel rest (acc ++ (index_value x ∷ [])) f.1 o (omega arith)
    ∙ ap (λ is. ok (rest, is)) (append_assoc acc (index_value x ∷ []) (map index_value xs))

length-brackets : (xs : List Index) (rest : List ℕ) → length xs ≤ length (brackets xs rest)
unfolding brackets
length-brackets [] rest = omega arith
length-brackets (x ∷ xs) rest =
    omega (arith, length-brackets xs rest, length-append (number x) (b']' ∷ brackets xs rest))

-- A name that shows decimal indices in brackets, each an int, is parsed to the text in front of the
-- first bracket, followed by what stands behind the last, and the indices in their order. The text in
-- front has no opening bracket, and what stands behind begins with none.
pub parse_array_access-brackets :
    (base : List ℕ) (x : Index) (xs : List Index) (rest : List ℕ)
    → Without b'[' base
    → All IndexFits (x ∷ xs)
    → opens rest ≡ false
    → parse_array_access (base ++ brackets (x ∷ xs) rest)
      ≡ ok (base ++ rest, map index_value (x ∷ xs))
unfolding parse_array_access
parse_array_access-brackets base x xs rest h f o =
    let more = brackets (x ∷ xs) rest in
    let name = base ++ more in
    let opening : index name (b'[' ∷ []) ≡ some (0 + length base) =
      unfold brackets in index_from-first b'[' 0 base (number x ++ (b']' ∷ brackets xs rest)) h in
    let (p, cut_out, whole) =
      slice-at (exact name) [] base more {lo = 0} {hi = 0 + length base} refl refl refl in
    rw (opening, parse_array_access)
      (rw cut_out (
        rw whole (
          rw (from-append base more (0 + length base) (omega arith)) (
            rw
              (parse_indices-brackets (x ∷ xs) (length more + 1) rest [] f o
                (omega (arith, length-brackets (x ∷ xs) rest)))
              refl))))
