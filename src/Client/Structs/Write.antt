-- ===== src/Client/Structs/Write.antt =====
-- client_auto.go: the fields that WriteStructFields changes in the bytes of a struct.
use mathlib.Core.Path.{subst}
use goadstc.Base.{
  ℕ, zero, suc, ◌+◌, ◌-◌, ◌<◌, ◌≤◌, ◌%◌, ◌^◌, ◌≡◌, refl, sym, ap, ◌∙◌, ◌⊎◌, inl, inr, Bool, Option,
  none, some, List, [], ◌∷◌, length, take, ltb, get_elem?, if◌then◌else◌, arith, Bool-cases,
  Option-cases, All,
}
use goadstc.Go.{Result, ok, err, panic, ◌>>=◌, bind-eq-ok, or_panic, copy, copy_at}
use goadstc.Symbols.Types.{TypeInfo, type_size, Fields, Symbol}
use goadstc.Client.Access.{find_field}
use goadstc.Client.Values
use goadstc.Client.Values.{Value, Floats, encode_symbol_value}

-- The errors of the loop, which WriteStructFields hands to ClassifyError.
pub data Error : Type 0 where
  field_missing : List ℕ → Error
  encoding : List ℕ → Values.Error → Error
  past_struct : List ℕ → Error

-- `&symbols.Symbol{Type: fieldInfo.Type, Size: fieldInfo.Type.Size}`
abbrev pub field_symbol : TypeInfo → Symbol
field_symbol type = record {
  name = [];
  type = type;
  index_group = 0;
  index_offset = 0;
  size = type_size type;
  flags = 0;
  comment = [];
}

-- `copy(structData[offset:end], encoded)`; an end in front of the offset, where the sum has wrapped,
-- is a panic.
unfoldable pub write_between : ℕ → ℕ → List ℕ → List ℕ → Option (List ℕ)
write_between offset end encoded xs =
    if ltb end offset then none else copy_at offset (take (end - offset) encoded) xs

-- What encodeSymbolValue gives for a field.
abbrev pub field_bytes : List ℕ → Result Values.Error (List ℕ) → Result Error (List ℕ)
field_bytes name (ok xs) = ok xs
field_bytes name (err e) = err (encoding name e)
field_bytes name panic = panic

-- The bounds of a field, and its bytes at its offset.
unfoldable pub put_field : List ℕ → ℕ → ℕ → List ℕ → List ℕ → Result Error (List ℕ)
unfolding write_between
put_field name offset size encoded xs =
    let end = (offset + size) % 2 ^ 32 in
    if ltb (length xs % 2 ^ 32) end
    then err (past_struct name)
    else or_panic (write_between offset end encoded xs)

-- One round of the loop, from the field that the name finds.
unfoldable pub modify_field :
    Floats → List ℕ → Value → Option (ℕ × TypeInfo) → List ℕ → Result Error (List ℕ)
unfolding put_field
modify_field fl name v none xs = err (field_missing name)
modify_field fl name v (some (offset, type)) xs = do
  encoded ← field_bytes name (encode_symbol_value fl v (field_symbol type))
  put_field name offset (type_size type) encoded xs

-- The loop, in the order in which the map gives its entries.
unfoldable pub modify_fields :
    Floats → Fields → List (List ℕ × Value) → List ℕ → Result Error (List ℕ)
unfolding modify_field
modify_fields fl fs [] xs = ok xs
modify_fields fl fs ((name, v) ∷ values) xs = do
  xs ← modify_field fl name v (find_field fs name) xs
  modify_fields fl fs values xs

length-copy : (xs src : List ℕ) → length (copy xs src) ≡ length xs
unfolding copy
length-copy [] src = refl
length-copy (x ∷ xs) [] = refl
length-copy (x ∷ xs) (b ∷ src) = ap suc (length-copy xs src)

copy-behind :
    (xs src : List ℕ) (i : ℕ) → length src ≤ i → get_elem? (copy xs src) i ≡ get_elem? xs i
unfolding copy
copy-behind [] src i h = refl
copy-behind (x ∷ xs) [] i h = refl
copy-behind (x ∷ xs) (b ∷ src) zero h = absurd (omega arith)
copy-behind (x ∷ xs) (b ∷ src) (suc i) h = copy-behind xs src i (omega arith)

-- Bytes of the same number, and the same outside the bounds.
record Within (lo hi : ℕ) (xs ys : List ℕ) : Type 0 where
  size : length ys ≡ length xs
  outside : (i : ℕ) → (i < lo) ⊎ (hi ≤ i) → get_elem? ys i ≡ get_elem? xs i

Within-cons :
    (lo hi x : ℕ) (xs ys : List ℕ) → Within lo hi xs ys → Within (suc lo) (suc hi) (x ∷ xs) (x ∷ ys)
Within-cons lo hi x xs ys w = record { size = ap suc w.size; outside = apart }
  where
    apart : (i : ℕ) → (i < suc lo) ⊎ (suc hi ≤ i) → get_elem? (x ∷ ys) i ≡ get_elem? (x ∷ xs) i
    apart zero h = refl
    apart (suc i) (inl h) = w.outside i (inl (omega arith))
    apart (suc i) (inr h) = w.outside i (inr (omega arith))

Within-copy : (src xs : List ℕ) → Within 0 (length src) xs (copy xs src)
Within-copy src xs = record { size = length-copy xs src; outside = apart }
  where
    apart : (i : ℕ) → (i < 0) ⊎ (length src ≤ i) → get_elem? (copy xs src) i ≡ get_elem? xs i
    apart i (inl h) = absurd (omega arith)
    apart i (inr h) = copy-behind xs src i h

copy_at-Within :
    (lo : ℕ) (src xs ys : List ℕ) → copy_at lo src xs ≡ some ys → Within lo (lo + length src) xs ys
copy_at-Within zero src xs ys e =
    let same : copy xs src ≡ ys = cc e in
    let whole : length src ≡ 0 + length src = omega arith in
    subst (λ zs. Within 0 (0 + length src) xs zs) same
      (subst (λ n. Within 0 n xs (copy xs src)) whole (Within-copy src xs))
copy_at-Within (suc lo) src [] ys e = cc
copy_at-Within (suc lo) src (x ∷ xs) ys e = elim (Option-cases (copy_at lo src xs)) [
  | inl past ↦ cc (subst (λ o. shifted o ≡ some ys) past e)
  | inr (zs, found) ↦
      let same : x ∷ zs ≡ ys = cc (subst (λ o. shifted o ≡ some ys) found e) in
      let hi : suc (lo + length src) ≡ suc lo + length src = omega arith in
      subst (λ n. Within (suc lo) n (x ∷ xs) ys) hi
        (subst (λ ys. Within (suc lo) (suc (lo + length src)) (x ∷ xs) ys) same
          (Within-cons lo (lo + length src) x xs zs (copy_at-Within lo src xs zs found)))
]
  where
    shifted : Option (List ℕ) → Option (List ℕ)
    shifted o = elim o [ none ↦ none | some r ↦ some (x ∷ r) ]

Within-wider :
    (lo hi hi' : ℕ) (xs ys : List ℕ) → hi ≤ hi' → Within lo hi xs ys → Within lo hi' xs ys
Within-wider lo hi hi' xs ys h w = record { size = w.size; outside = apart }
  where
    apart : (i : ℕ) → (i < lo) ⊎ (hi' ≤ i) → get_elem? ys i ≡ get_elem? xs i
    apart i (inl k) = w.outside i (inl k)
    apart i (inr k) = w.outside i (inr (omega arith))

length-take_below : (n : ℕ) (xs : List ℕ) → length (take n xs) ≤ n
length-take_below zero xs = omega arith
length-take_below (suc n) [] = omega arith
length-take_below (suc n) (x ∷ xs) = omega (arith, length-take_below n xs)

write_between-Within :
    (offset end : ℕ) (encoded xs ys : List ℕ)
    → write_between offset end encoded xs ≡ some ys
    → Within offset end xs ys
unfolding write_between
write_between-Within offset end encoded xs ys e = elim (Bool-cases (ltb end offset)) [
  | inl crossed ↦ cc (
      sym (
        subst (λ b. (if b then none else copy_at offset (take (end - offset) encoded) xs) ≡ some ys)
          crossed e))
  | inr inside ↦
      let written =
        subst (λ b. (if b then none else copy_at offset (take (end - offset) encoded) xs) ≡ some ys)
          inside e in
      let room : offset + length (take (end - offset) encoded) ≤ end =
        ground (arith, length-take_below (end - offset) encoded) in
      Within-wider offset (offset + length (take (end - offset) encoded)) end xs ys room
        (copy_at-Within offset (take (end - offset) encoded) xs ys written)
]

or_panic-ok : (o : Option (List ℕ)) (ys : List ℕ) → or_panic {E = Error} o ≡ ok ys → o ≡ some ys
or_panic-ok none ys e = cc
or_panic-ok (some zs) ys e = cc

put_field-Within :
    (name : List ℕ) (offset size : ℕ) (encoded xs ys : List ℕ)
    → put_field name offset size encoded xs ≡ ok ys
    → Within offset (offset + size) xs ys
unfolding put_field
put_field-Within name offset size encoded xs ys e =
    let end = (offset + size) % 2 ^ 32 in
    let tail : Bool → Result Error (List ℕ) =
      λ b. if b then err (past_struct name) else or_panic (write_between offset end encoded xs) in
    elim (Bool-cases (ltb (length xs % 2 ^ 32) end)) [
      | inl past ↦ cc (subst (λ b. tail b ≡ ok ys) past e)
      | inr inside ↦
          let written =
            or_panic-ok (write_between offset end encoded xs) ys
              (subst (λ b. tail b ≡ ok ys) inside e) in
          Within-wider offset end (offset + size) xs ys (omega arith)
            (write_between-Within offset end encoded xs ys written)
    ]

modify_field-Within :
    (fl : Floats) (name : List ℕ) (v : Value) (found : Option (ℕ × TypeInfo)) (xs ys : List ℕ)
    → modify_field fl name v found xs ≡ ok ys
    → (offset : ℕ) × (type : TypeInfo) × (found ≡ some (offset, type))
      × Within offset (offset + type_size type) xs ys
unfolding modify_field
modify_field-Within fl name v none xs ys e = cc
modify_field-Within fl name v (some (offset, type)) xs ys e =
    let (encoded, made, put) =
      bind-eq-ok (field_bytes name (encode_symbol_value fl v (field_symbol type)))
        (λ encoded. put_field name offset (type_size type) encoded xs) e in
    (offset, type, refl, put_field-Within name offset (type_size type) encoded xs ys put)

-- The byte `i` belongs to none of the fields that are written.
abbrev pub IsApart : Fields → List (List ℕ × Value) → ℕ → Type 0
IsApart fs values i =
    All
      (λ entry.
        (offset : ℕ) (type : TypeInfo)
        → find_field fs entry.0 ≡ some (offset, type)
        → (i < offset) ⊎ (offset + type_size type ≤ i))
      values

-- WriteStructFields changes nothing but the fields that it is given: where its loop succeeds, the
-- struct has as many bytes as before, and every byte outside the fields that are written is the same.
pub modify_fields-frame :
    (fl : Floats) (fs : Fields) (values : List (List ℕ × Value)) (xs ys : List ℕ)
    → modify_fields fl fs values xs ≡ ok ys
    → (length ys ≡ length xs) × ((i : ℕ) → IsApart fs values i → get_elem? ys i ≡ get_elem? xs i)
unfolding modify_fields
modify_fields-frame fl fs [] xs ys e =
    let same : xs ≡ ys = cc e in (ap length (sym same), λ i h. ap (λ zs. get_elem? zs i) (sym same))
modify_fields-frame fl fs ((name, v) ∷ values) xs ys e =
    let (zs, first, rest) =
      bind-eq-ok (modify_field fl name v (find_field fs name) xs) (modify_fields fl fs values) e in
    let (size, frame) = modify_fields-frame fl fs values zs ys rest in
    let (offset, type, found, w) = modify_field-Within fl name v (find_field fs name) xs zs first in
    (size ∙ w.size, λ i h. frame i h.1 ∙ w.outside i (h.0 offset type found))
