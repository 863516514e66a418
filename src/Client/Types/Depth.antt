-- ===== src/Client/Types/Depth.antt =====
-- client_structs.go: fetchTypeInfoFromPLC is the same for every depth that is enough.
use goadstc.Base.{
  ℕ, zero, suc, ◌+◌, ◌≡◌, ◌≢◌, inl, inr, refl, ap, ◌∙◌, Bool, true, false, not, ◌||◌, List, length,
  ltb, ◌==◌, if◌then◌else◌, arith, Bool-cases,
}
use goadstc.Go.{Result, ok, err, panic, slice, exact, read16, read32}
use goadstc.Go.Text.{until_zero}
use goadstc.Symbols.Types.{TypeInfo, no_fields}
use goadstc.Client.Operations.{World, Session}
use goadstc.Client.Types.{
  Error, request, too_short, too_deep, is_simple_data_type, Fetch, ◌>>=◌, after, at_once,
  nested_type, field_type, parse_sub_items, parse_data_type, ask_data_type,
  fetch_type_info_from_plc,
}

-- With more fuel the result is the same, unless the fuel was at its end.
abbrev pub Settles : {S A : Type 0} → Result Error A × World S → Result Error A × World S → Type 0
Settles r s = r.0 ≢ err too_deep → s ≡ r

Settles-after :
    {S A B : Type 0} (m n : Result Error A × World S) (f g : A → Fetch S B)
    → Settles m n
    → ((a : A) (w : World S) → Settles (f a w) (g a w))
    → Settles (after m f) (after n g)
Settles-after (ok a, w) n f g s t = λ h. ap (λ r. after r g) (s (λ p. cc)) ∙ t a w h
Settles-after (err e, w) n f g s t = λ h. ap (λ r. after r g) (s (λ p. h (cc p)))
Settles-after (panic, w) n f g s t = λ h. ap (λ r. after r g) (s (λ p. cc))

-- The same first part.
Settles-then :
    {S A B : Type 0} (m : Fetch S A) (f g : A → Fetch S B) (w : World S)
    → ((a : A) (w : World S) → Settles (f a w) (g a w))
    → Settles ((m >>= f) w) ((m >>= g) w)
Settles-then m f g w t = Settles-after (m w) (m w) f g (λ h. refl) t

Settles-if :
    {S A : Type 0} (b : Bool) (x y z : Fetch S A) (w : World S)
    → Settles (y w) (z w)
    → Settles ((if b then x else y) w) ((if b then x else z) w)
Settles-if true x y z w s = λ h. refl
Settles-if false x y z w s = s

nested_type-Settles :
    {S : Type 0} (name : List ℕ) (base size : ℕ) (r s : Result Error TypeInfo × World S)
    → Settles r s
    → Settles (nested_type name base size r) (nested_type name base size s)
unfolding nested_type
nested_type-Settles name base size (ok info, w) s t =
    λ h. ap (nested_type name base size) (t (λ p. cc))
nested_type-Settles name base size (err (request e), w) s t =
    λ h. ap (nested_type name base size) (t (λ p. cc))
nested_type-Settles name base size (err (too_short n), w) s t =
    λ h. ap (nested_type name base size) (t (λ p. cc))
nested_type-Settles name base size (err too_deep, w) s t = λ h. absurd (h refl)
nested_type-Settles name base size (panic, w) s t =
    λ h. ap (nested_type name base size) (t (λ p. cc))

module _ {S : Type 0} (ask more : List ℕ → Fetch S TypeInfo)
    (settles : (name : List ℕ) (w : World S) → Settles (ask name w) (more name w)) where
  field_type-Settles :
      (name : List ℕ) (base size : ℕ) (w : World S)
      → Settles (field_type ask name base size w) (field_type more name base size w)
  unfolding field_type
  field_type-Settles name base size w =
      elim (Bool-cases (base == 65 || not (is_simple_data_type base))) [
        | inl e ↦
            rw e (nested_type-Settles name base size (ask name w) (more name w) (settles name w))
        | inr e ↦ rw e (λ h. refl)
      ]

  parse_sub_items-Settles :
      (xs : List ℕ) (left offset : ℕ) (w : World S)
      → Settles (parse_sub_items ask xs left offset w) (parse_sub_items more xs left offset w)
  unfolding parse_sub_items
  parse_sub_items-Settles xs zero offset w = λ h. refl
  parse_sub_items-Settles xs (suc left) offset w =
      Settles-if (ltb (length xs) (offset + 42)) (at_once (ok no_fields)) _ _ w (
        Settles-then (at_once (read32 (exact xs) (offset + 16) (offset + 20))) _ _ w (λ size w.
          Settles-then (at_once (read32 (exact xs) (offset + 20) (offset + 24))) _ _ w
            (λ field_offset w.
              Settles-then (at_once (read32 (exact xs) (offset + 24) (offset + 28))) _ _ w
                (λ base w.
                  Settles-then (at_once (read16 (exact xs) (offset + 32) (offset + 34))) _ _ w
                    (λ name_len w.
                      Settles-then (at_once (read16 (exact xs) (offset + 34) (offset + 36))) _ _ w
                        (λ type_len w.
                          Settles-if (ltb (length xs) (offset + 42 + name_len))
                            (at_once (ok no_fields)) _ _ w
                            (Settles-then
                              (at_once (slice (exact xs) (offset + 42) (offset + 42 + name_len))) _
                              _ w
                              (λ name w.
                                Settles-if (ltb (length xs) (offset + 42 + name_len + 1 + type_len))
                                  (at_once (ok no_fields)) _ _ w
                                  (Settles-then
                                    (at_once (
                                      slice (exact xs) (offset + 42 + name_len + 1)
                                        (offset + 42 + name_len + 1 + type_len)))
                                    _ _ w
                                    (λ type_name w.
                                      let nested = until_zero type_name.bytes in
                                      Settles-after (field_type ask nested base size w)
                                        (field_type more nested base size w) _ _
                                        (field_type-Settles nested base size w)
                                        (λ type w.
                                          Settles-then
                                            (at_once (read32 (exact xs) offset (offset + 4))) _ _ w
                                            (λ entry w.
                                              Settles-after
                                                (parse_sub_items ask xs left (offset + entry) w)
                                                (parse_sub_items more xs left (offset + entry) w) _
                                                _
                                                (parse_sub_items-Settles xs left (offset + entry) w)
                                                (λ rest w h. refl)))))))))))))

  parse_data_type-Settles :
      (name xs : List ℕ) (w : World S)
      → Settles (parse_data_type ask name xs w) (parse_data_type more name xs w)
  unfolding parse_data_type
  parse_data_type-Settles name xs w =
      Settles-if (ltb (length xs) 42) (at_once (err (too_short (length xs)))) _ _ w (
        Settles-then (at_once (read32 (exact xs) 16 20)) _ _ w (λ size w.
          Settles-then (at_once (read32 (exact xs) 24 28)) _ _ w (λ base w.
            Settles-then (at_once (read16 (exact xs) 32 34)) _ _ w (λ name_len w.
              Settles-then (at_once (read16 (exact xs) 34 36)) _ _ w (λ type_len w.
                Settles-then (at_once (read16 (exact xs) 36 38)) _ _ w (λ comment_len w.
                  Settles-then (at_once (read16 (exact xs) 40 42)) _ _ w (λ sub_items w.
                    let first = 42 + name_len + 1 + type_len + 1 + comment_len + 1 in
                    Settles-after (parse_sub_items ask xs sub_items first w)
                      (parse_sub_items more xs sub_items first w) _ _
                      (parse_sub_items-Settles xs sub_items first w) (λ fields w h. refl))))))))

-- Where fetchTypeInfoFromPLC ends within a depth, it gives the same type information, or the same
-- failure, in every greater depth.
fetch_type_info_from_plc-deeper :
    {S : Type 0} (c : Session S) (depth more : ℕ) (name : List ℕ) (w : World S)
    → (fetch_type_info_from_plc c depth name w).0 ≢ err too_deep
    → fetch_type_info_from_plc c (depth + more) name w ≡ fetch_type_info_from_plc c depth name w
unfolding fetch_type_info_from_plc
fetch_type_info_from_plc-deeper c zero more name w h = absurd (h refl)
fetch_type_info_from_plc-deeper c (suc depth) more name w h =
    let next : suc depth + more ≡ suc (depth + more) = omega arith in
    ap (λ d. fetch_type_info_from_plc c d name w) next
    ∙ Settles-then (ask_data_type c name)
        (λ xs. parse_data_type (λ nested. fetch_type_info_from_plc c depth nested) name xs)
        (λ xs. parse_data_type (λ nested. fetch_type_info_from_plc c (depth + more) nested) name xs)
        w
        (λ xs w.
          parse_data_type-Settles (λ nested. fetch_type_info_from_plc c depth nested)
            (λ nested. fetch_type_info_from_plc c (depth + more) nested)
            (λ nested w. fetch_type_info_from_plc-deeper c depth more nested w) name xs w)
        h
