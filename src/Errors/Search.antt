-- ===== src/Errors/Search.antt =====
-- errors.go: indexString, contains and containsAny, beside the search of package strings.
use mathlib.Core.List.{append_assoc, append-nil}
use goadstc.Base.{
  ℕ, zero, suc, ◌+◌, ◌-◌, ◌≤◌, ◌<◌, ◌≡◌, refl, sym, ap, ◌∙◌, Bool, true, false, ◌||◌, none, some,
  List, [], ◌∷◌, ◌++◌, arith, length, take, length-append, if◌then◌else◌, inl, inr, Bool-cases,
}
use goadstc.Go.{ok, slice?-after}
use goadstc.Go.Strings
use goadstc.Go.Strings.{same, has_prefix, index_from, index}
use goadstc.Go.Map.{same→eq}
use goadstc.Errors.{index_loop, index_string, contains, contains_any}

-- Whether the text that the loop cuts out is the wanted one.
same-has_prefix :
    (sub xs : List ℕ) → length sub ≤ length xs → same (take (length sub) xs) sub ≡ has_prefix sub xs
same-has_prefix [] xs h = refl
same-has_prefix (p ∷ ps) [] h = absurd (omega arith)
same-has_prefix (p ∷ ps) (x ∷ xs) h = ground (arith, same-has_prefix ps xs)

short-has_prefix : (sub xs : List ℕ) → length xs < length sub → has_prefix sub xs ≡ false
short-has_prefix [] xs h = absurd (omega arith)
short-has_prefix (p ∷ ps) [] h = refl
short-has_prefix (p ∷ ps) (x ∷ xs) h = ground (arith, short-has_prefix ps xs)

short-index_from : (i : ℕ) (sub xs : List ℕ) → length xs < length sub → index_from i xs sub ≡ none
unfolding index_from
short-index_from i sub [] h = rw (short-has_prefix sub [] h)
short-index_from i sub (x ∷ xs) h =
    rw (short-has_prefix sub (x ∷ xs) h) (short-index_from (i + 1) sub xs (omega arith))

module _ {E : Type 0} (a xs sub : List ℕ) (h : length sub ≤ length xs) where
  -- One round of the loop, where a round is left.
  index_loop-round :
      (rounds : ℕ)
      → index_loop {E = E} (suc rounds) (length a) (a ++ xs) sub ≡ (
          if has_prefix sub xs
          then ok (some (length a))
          else index_loop rounds (length a + 1) (a ++ xs) sub)
  unfolding index_loop
  index_loop-round rounds =
      rw (slice?-after a xs [] (length sub) (omega (arith, length-append xs [])))
        (rw (append-nil xs) (ground (arith, same-has_prefix sub xs h)))

-- From position `length a` on, the loop searches what follows `a`.
index_loop-index_from :
    {E : Type 0} (rounds : ℕ) (a xs sub : List ℕ)
    → rounds ≡ length xs + 1 - length sub
    → index_loop {E = E} rounds (length a) (a ++ xs) sub ≡ ok (index_from (length a) xs sub)
unfolding index_from
index_loop-index_from zero a xs sub h =
    unfold index_loop in rw (short-index_from (length a) sub xs (omega arith))
index_loop-index_from (suc rounds) a [] [] h = rw (index_loop-round a [] [] (omega arith) rounds)
index_loop-index_from (suc rounds) a [] (p ∷ ps) h = absurd (omega arith)
index_loop-index_from {E} (suc rounds) a (x ∷ xs) sub h =
    let rest : index_loop {E = E} rounds (length a + 1) (a ++ (x ∷ xs)) sub
        ≡ ok (index_from (length a + 1) xs sub) =
      (ap (λ ys. index_loop rounds (length a + 1) ys sub) (sym (append_assoc a (x ∷ []) xs))
        ∙ (rw (sym (length-append a (x ∷ [])))
            (index_loop-index_from rounds (a ++ (x ∷ [])) xs sub (omega arith)))) in
    index_loop-round a (x ∷ xs) sub (omega arith) rounds ∙ ground (arith, rest)

-- indexString finds what strings.Index finds, and never cuts out of range.
pub index_string-index :
    {E : Type 0} (s substr : List ℕ) → index_string {E = E} s substr ≡ ok (index s substr)
unfolding index_string
index_string-index s substr = index_loop-index_from _ [] s substr refl

has_prefix_self : (s : List ℕ) → has_prefix s s ≡ true
has_prefix_self [] = refl
has_prefix_self (x ∷ xs) = ground (arith, has_prefix_self xs)

index_self : (s : List ℕ) → index s s ≡ some 0
unfolding index_from
index_self [] = refl
index_self (x ∷ xs) = rw (has_prefix_self (x ∷ xs)) refl

pub contains_lem :
    {E : Type 0} (s substr : List ℕ) → contains {E = E} s substr ≡ ok (Strings.contains s substr)
unfolding contains
contains_lem {E} s substr = ground (
  arith,
  index_string-index {E = E} s substr,
  short-index_from 0 substr s,
  same→eq s substr,
  index_self s,
)

-- Some text of the list stands in `s`.
unfoldable pub any_in : List ℕ → List (List ℕ) → Bool
any_in s [] = false
any_in s (t ∷ ts) = Strings.contains s t || any_in s ts

-- containsAny finds out, with no panic, whether strings.Contains holds for one of the texts.
pub contains_any-any_in :
    {E : Type 0} (s : List ℕ) (substrs : List (List ℕ))
    → contains_any {E = E} s substrs ≡ ok (any_in s substrs)
unfolding contains_any any_in
contains_any-any_in s [] = refl
contains_any-any_in s (t ∷ ts) = rw (contains_lem s t) (elim (Bool-cases (Strings.contains s t)) [
  | inl e ↦ rw e refl
  | inr e ↦ rw e (contains_any-any_in s ts)
])
