-- ===== src/Go/Strings.antt =====
-- What the source uses of Go's strings and fmt.Sscanf, on texts as lists of bytes. Where these work
-- on Unicode (letter case, white space), the model is theirs on ASCII text.
use Prim.Native.Char.{code}
use Prim.Native.String.{String}
use goadstc.Base.{
  ℕ, ◌+◌, ◌-◌, ◌*◌, ◌^◌, Bool, true, false, ◌&&◌, ◌||◌, Option, none, some, List, [], ◌∷◌, ltb, leb,
  ◌==◌, if◌then◌else◌, map,
}

-- The bytes of an ASCII literal.
abbrev pub text : String → List ℕ
text String.[] = []
text (String.◌∷◌ c s) = code c ∷ text s

-- Equality of two strings.
abbrev pub same : List ℕ → List ℕ → Bool
same [] [] = true
same [] (y ∷ ys) = false
same (x ∷ xs) [] = false
same (x ∷ xs) (y ∷ ys) = x == y && same xs ys

abbrev pub has_prefix : List ℕ → List ℕ → Bool
has_prefix [] xs = true
has_prefix (p ∷ ps) [] = false
has_prefix (p ∷ ps) (x ∷ xs) = p == x && has_prefix ps xs

-- strings.Index: the first position of `sub`, from position `i` on; `none` for -1.
unfoldable pub index_from : ℕ → List ℕ → List ℕ → Option ℕ
index_from i [] sub = if has_prefix sub [] then some i else none
index_from i (x ∷ xs) sub =
    let rest = index_from (i + 1) xs sub in if has_prefix sub (x ∷ xs) then some i else rest

abbrev pub index : List ℕ → List ℕ → Option ℕ
index xs sub = index_from 0 xs sub

abbrev pub contains : List ℕ → List ℕ → Bool
contains xs sub = elim (index xs sub) [ none ↦ false | some i ↦ true ]

-- strings.Split at a separator of one byte.
unfoldable pub split_byte : ℕ → List ℕ → List (List ℕ)
split_byte sep [] = [] ∷ []
split_byte sep (x ∷ xs) =
    let rest = split_byte sep xs in
    if x == sep then [] ∷ rest else (elim rest [ [] ↦ (x ∷ []) ∷ [] | w ∷ ws ↦ (x ∷ w) ∷ ws ])

-- strings.Split at a separator of two bytes, which are taken from the left without overlap.
unfoldable pub split_pair : ℕ → ℕ → List ℕ → List (List ℕ)
split_pair a b [] = [] ∷ []
split_pair a b (x ∷ []) = (x ∷ []) ∷ []
split_pair a b (x ∷ y ∷ xs) =
    let after = split_pair a b xs in
    let next = split_pair a b (y ∷ xs) in
    if x == a && y == b
    then [] ∷ after
    else (elim next [ [] ↦ (x ∷ []) ∷ [] | w ∷ ws ↦ (x ∷ w) ∷ ws ])

abbrev pub is_space : ℕ → Bool
is_space c = (leb 9 c && leb c 13) || c == 32

abbrev pub trim_left : List ℕ → List ℕ
trim_left [] = []
trim_left (c ∷ cs) = if is_space c then trim_left cs else c ∷ cs

abbrev pub trim_right : List ℕ → List ℕ
trim_right [] = []
trim_right (c ∷ cs) =
    let rest = trim_right cs in
    (elim rest [ [] ↦ if is_space c then [] else c ∷ [] | x ∷ xs ↦ c ∷ x ∷ xs ])

-- strings.TrimSpace
unfoldable pub trim_space : List ℕ → List ℕ
trim_space xs = trim_right (trim_left xs)

-- strings.ToLower and strings.ToUpper
abbrev pub lower : ℕ → ℕ
lower c = if leb b'A' c && leb c b'Z' then c + 32 else c

abbrev pub upper : ℕ → ℕ
upper c = if leb b'a' c && leb c b'z' then c - 32 else c

abbrev pub to_lower : List ℕ → List ℕ
to_lower xs = map lower xs

abbrev pub to_upper : List ℕ → List ℕ
to_upper xs = map upper xs

abbrev pub is_digit : ℕ → Bool
is_digit c = leb b'0' c && leb c b'9'

-- The value of a run of digits after the value `n` of those in front, and whether there was one.
unfoldable pub digits : ℕ → Bool → List ℕ → Option ℕ
digits n seen [] = if seen then some n else none
digits n seen (c ∷ cs) =
    let rest = digits (n * 10 + (c - b'0')) true cs in
    if is_digit c then rest else if seen then some n else none

-- Sscanf skips blanks before a number, but no line end.
abbrev pub skip_blanks : List ℕ → List ℕ
skip_blanks [] = []
skip_blanks (c ∷ cs) =
    if is_space c && (if c == 10 then false else true) then skip_blanks cs else c ∷ cs

-- `fmt.Sscanf(s, "%d", &v)` with a uint32 v: `none` where it fails, and leaves v as it was.
unfoldable pub scan_uint32 : List ℕ → Option ℕ
unfolding digits
scan_uint32 xs = elim (digits 0 false (skip_blanks xs)) [
  | none ↦ none
  | some n ↦ if ltb n (2 ^ 32) then some n else none
]
