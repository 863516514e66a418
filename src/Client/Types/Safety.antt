-- ===== src/Client/Types/Safety.antt =====
-- client_structs.go: fetchTypeInfoFromPLC on any answer.
use goadstc.Base.{
  ℕ, zero, suc, ◌+◌, ◌%◌, ◌^◌, ◌≤◌, ◌≡◌, ◌≢◌, refl, ap, ◌∙◌, ◌⊎◌, inl, inr, true, not, ◌||◌, List,
  [], ◌∷◌, ◌++◌, length, take, shorter, ltb, ◌==◌, if◌then◌else◌, arith, Bool-cases,
}
use goadstc.Go.{
  Result, Result-cases, ok, err, panic, IsU32, Slice, slice, exact, read16, read32, read16-inside,
  read32-inside, slice-inside,
}
use goadstc.Go.Text.{until_zero}
use goadstc.Symbols.Types.{TypeInfo}
use goadstc.Ams.Packet.{Packet}
use goadstc.Ads.Requests.{cmd_read_write, ReadWriteRequest, marshal_read_write}
use goadstc.Ads.Requests.Layout
use goadstc.Ads.Requests.Layout.{wire, encode, encode-wire}
use goadstc.Client.Retry
use goadstc.Client.Operations
use goadstc.Ads.Responses.{unmarshal_read_write}
use goadstc.Ads.Responses.Decode.{start, in_bounds, unmarshal_read_write-answer}
use goadstc.Client.Operations.{World, Session, read_write, send_request}
use goadstc.Client.Types.{
  Error, request, too_short, too_deep, is_simple_data_type, Fetch, ◌>>=◌, after, at_once, requested,
  nested_type, field_type, parse_sub_items, parse_data_type, ask_data_type,
  fetch_type_info_from_plc,
}

module _ {S A B : Type 0} where
  after-ne-panic :
      (m : Result Error A × World S) (f : A → Fetch S B)
      → m.0 ≢ panic
      → ((a : A) (w : World S) → (f a w).0 ≢ panic)
      → (after m f).0 ≢ panic
  after-ne-panic (ok a, w) f h k = k a w
  after-ne-panic (err e, w) f h k = λ p. cc
  after-ne-panic (panic, w) f h k = absurd (h refl)

module _ {S A : Type 0} (xs : List ℕ) where
  -- What follows a read within the bytes.
  then16 :
      (lo hi : ℕ) (f : ℕ → Fetch S A) (w : World S)
      → hi ≡ lo + 2
      → hi ≤ length xs
      → ((v : ℕ) (w : World S) → (f v w).0 ≢ panic)
      → ((at_once (read16 (exact xs) lo hi) >>= f) w).0 ≢ panic
  then16 lo hi f w e fits h =
      let (v, found) = read16-inside {E = Error} (exact xs) lo hi e fits in rw found (h v w)

  then32 :
      (lo hi : ℕ) (f : ℕ → Fetch S A) (w : World S)
      → hi ≡ lo + 4
      → hi ≤ length xs
      → ((v : ℕ) (w : World S) → (f v w).0 ≢ panic)
      → ((at_once (read32 (exact xs) lo hi) >>= f) w).0 ≢ panic
  then32 lo hi f w e fits h =
      let (v, found) = read32-inside {E = Error} (exact xs) lo hi e fits in rw found (h v w)

  then_slice :
      (lo hi : ℕ) (f : Slice → Fetch S A) (w : World S)
      → lo ≤ hi
      → hi ≤ length xs
      → ((part : Slice) (w : World S) → (f part w).0 ≢ panic)
      → ((at_once (slice (exact xs) lo hi) >>= f) w).0 ≢ panic
  then_slice lo hi f w e fits h =
      let (part, found, size) = slice-inside (exact xs) lo hi e fits in rw found (h part w)

module _ {S : Type 0} (ask : List ℕ → Fetch S TypeInfo)
    (answers : (name : List ℕ) (w : World S) → (ask name w).0 ≢ panic) where
  nested_type-ne-panic :
      (name : List ℕ) (base size : ℕ) (r : Result Error TypeInfo × World S)
      → r.0 ≢ panic
      → (nested_type name base size r).0 ≢ panic
  unfolding nested_type
  nested_type-ne-panic name base size (ok info, w) h = λ p. cc
  nested_type-ne-panic name base size (err (request e), w) h = λ p. cc
  nested_type-ne-panic name base size (err (too_short n), w) h = λ p. cc
  nested_type-ne-panic name base size (err too_deep, w) h = λ p. cc
  nested_type-ne-panic name base size (panic, w) h = absurd (h refl)

  field_type-ne-panic :
      (name : List ℕ) (base size : ℕ) (w : World S) → (field_type ask name base size w).0 ≢ panic
  unfolding field_type
  field_type-ne-panic name base size w =
      elim (Bool-cases (base == 65 || not (is_simple_data_type base))) [
        | inl e ↦ rw e (nested_type-ne-panic name base size (ask name w) (answers name w))
        | inr e ↦ rw e (λ p. cc)
      ]

  parse_sub_items-ne-panic :
      (xs : List ℕ) (left offset : ℕ) (w : World S)
      → (parse_sub_items ask xs left offset w).0 ≢ panic
  unfolding parse_sub_items
  parse_sub_items-ne-panic xs zero offset w = λ p. cc
  parse_sub_items-ne-panic xs (suc left) offset w =
      elim (Bool-cases (ltb (length xs) (offset + 42))) [
        | inl e ↦ rw e (λ p. cc)
        | inr e ↦ rw e (
            then32 xs (offset + 16) (offset + 20) _ w (omega arith) (ground arith) (λ size w.
              then32 xs (offset + 20) (offset + 24) _ w (omega arith) (ground arith)
                (λ field_offset w.
                  then32 xs (offset + 24) (offset + 28) _ w (omega arith) (ground arith) (λ base w.
                    then16 xs (offset + 32) (offset + 34) _ w (omega arith) (ground arith)
                      (λ name_len w.
                        then16 xs (offset + 34) (offset + 36) _ w (omega arith) (ground arith)
                          (λ type_len w.
                            elim (Bool-cases (ltb (length xs) (offset + 42 + name_len))) [
                              | inl past ↦ rw past (λ p. cc)
                              | inr named ↦ rw named (
                                  then_slice xs (offset + 42) (offset + 42 + name_len) _ w
                                    (omega arith) (ground arith)
                                    (λ name w.
                                      elim (Bool-cases
                                        (ltb (length xs) (offset + 42 + name_len + 1 + type_len))) [
                                          | inl past ↦ rw past (λ p. cc)
                                          | inr typed ↦ rw typed (
                                              then_slice xs (offset + 42 + name_len + 1)
                                                (offset + 42 + name_len + 1 + type_len) _ w
                                                (omega arith) (ground arith)
                                                (λ type_name w.
                                                  after-ne-panic _ _
                                                    (field_type-ne-panic
                                                      (until_zero type_name.bytes) base size w)
                                                    (λ type w.
                                                      then32 xs offset (offset + 4) _ w
                                                        (omega arith) (ground arith)
                                                        (λ entry w.
                                                          after-ne-panic _ _
                                                            (parse_sub_items-ne-panic xs left
                                                            (offset + entry) w)
                                                            (λ rest w p. cc)))))
                                        ]))
                            ]))))))
      ]

  parse_data_type-ne-panic :
      (name xs : List ℕ) (w : World S) → (parse_data_type ask name xs w).0 ≢ panic
  unfolding parse_data_type
  parse_data_type-ne-panic name xs w = elim (Bool-cases (ltb (length xs) 42)) [
    | inl e ↦ rw e (λ p. cc)
    | inr e ↦ rw e (
        then32 xs 16 20 _ w (omega arith) (ground arith) (λ size w.
          then32 xs 24 28 _ w (omega arith) (ground arith) (λ base w.
            then16 xs 32 34 _ w (omega arith) (ground arith) (λ name_len w.
              then16 xs 34 36 _ w (omega arith) (ground arith) (λ type_len w.
                then16 xs 36 38 _ w (omega arith) (ground arith) (λ comment_len w.
                  then16 xs 40 42 _ w (omega arith) (ground arith) (λ sub_items w.
                    after-ne-panic _ _
                      (parse_sub_items-ne-panic xs sub_items
                        (42 + name_len + 1 + type_len + 1 + comment_len + 1) w)
                      (λ fields w p. cc))))))))
  ]

-- The data of an answer to ReadWrite: too short for a header, or with a length that the bytes have.
abbrev pub Sized : Slice → Type 0
Sized s =
    (shorter s.bytes 8 ≡ true)
    ⊎ ((result : ℕ) × (n : ℕ) × (rest : List ℕ) × (s.bytes ≡ start result n ++ rest)
        × IsU32 result
        × IsU32 n
        × (in_bounds n (rest ++ s.spare) ≡ true))

unmarshal_read_write-ne-panic : (s : Slice) → Sized s → unmarshal_read_write s ≢ panic
unmarshal_read_write-ne-panic s (inl short) = unfold unmarshal_read_write in rw short (λ p. cc)
unmarshal_read_write-ne-panic s (inr (result, n, rest, e, hr, hn, fits)) =
    let whole = unmarshal_read_write-answer result n rest s.spare hr hn in
    let shown : unmarshal_read_write s
        ≡ ok (record { result = result; length = n; body = take n (rest ++ s.spare) }) =
      ap (λ xs. unmarshal_read_write (record { bytes = xs; spare = s.spare })) e
      ∙ whole
      ∙ ap
          (λ b.
            if b
            then ok (record { result = result; length = n; body = take n (rest ++ s.spare) })
            else panic)
          fits in
    λ p. cc

module _ {S : Type 0} (c : Session S)
    (sized : (xs : List ℕ) (plc plc' : S) (p : Packet)
      → c.send cmd_read_write xs plc ≡ (inr p, plc')
      → Sized p.body) where
  read_write-ne-panic :
      (g o n : ℕ) (xs : List ℕ) (w : World S) → (read_write c g o n xs w).0 ≢ panic
  unfolding read_write send_request
  read_write-ne-panic g o n xs w =
      let q : ReadWriteRequest = record {
        index_group = g;
        index_offset = o;
        read_length = n;
        write_length = length xs % 2 ^ 32;
        body = xs;
      } in
      let sent = c.send cmd_read_write (wire (Layout.read_write q)) w.plc in
      elim (sent_cases sent) [
        | inl (e, failed) ↦ rw (marshal_read_write-wire q, failed) (λ p. cc)
        | inr (p, came) ↦ elim (Result-cases (unmarshal_read_write p.body)) [
          | inl (resp, read) ↦
              rw (marshal_read_write-wire q, came, read)
                (elim (Bool-cases (resp.result == 0)) [
                  | inl none_set ↦ rw none_set (λ x. cc)
                  | inr a_code ↦ rw a_code (λ x. cc)
                ])
          | inr (inl (e, bad)) ↦ rw (marshal_read_write-wire q, came, bad) (λ x. cc)
          | inr (inr crashed) ↦ absurd (
              unmarshal_read_write-ne-panic p.body
                (sized (wire (Layout.read_write q)) w.plc sent.1 p came) crashed)
        ]
      ]
    where
      sent_cases :
          (x : (Retry.Error ⊎ Packet) × S)
          → ((e : Retry.Error) × (x ≡ (inl e, x.1))) ⊎ ((p : Packet) × (x ≡ (inr p, x.1)))
      sent_cases (inl e, s) = inl (e, refl)
      sent_cases (inr p, s) = inr (p, refl)

      marshal_read_write-wire :
          (q : ReadWriteRequest) → marshal_read_write q ≡ ok (wire (Layout.read_write q))
      marshal_read_write-wire q = unfold encode in encode-wire (Layout.read_write q)

  requested-ne-panic :
      {A : Type 0} (r : Result Operations.Error A × World S) → r.0 ≢ panic → (requested r).0 ≢ panic
  requested-ne-panic (ok a, w) h = λ p. cc
  requested-ne-panic (err e, w) h = λ p. cc
  requested-ne-panic (panic, w) h = absurd (h refl)

  -- Where ReadWrite's answers, for the type that is asked for and for the types nested in it, have no
  -- length that goes past their bytes, fetchTypeInfoFromPLC does not panic, whatever data they hold
  -- and however the PLC's state moves on. This is said of types that are nested in `depth` levels; a
  -- run that goes deeper is cut off there.
  pub fetch_type_info_from_plc-ne-panic :
      (depth : ℕ) (name : List ℕ) (w : World S)
      → (fetch_type_info_from_plc c depth name w).0 ≢ panic
  unfolding fetch_type_info_from_plc ask_data_type
  fetch_type_info_from_plc-ne-panic zero name w = λ p. cc
  fetch_type_info_from_plc-ne-panic (suc depth) name w =
      after-ne-panic (ask_data_type c name w)
        (λ xs. parse_data_type (λ nested. fetch_type_info_from_plc c depth nested) name xs)
        (requested-ne-panic (read_write c 0xF011 0 0xFFFF (name ++ (0 ∷ [])) w)
          (read_write-ne-panic 0xF011 0 0xFFFF (name ++ (0 ∷ [])) w))
        (λ xs.
          parse_data_type-ne-panic (λ nested. fetch_type_info_from_plc c depth nested)
            (λ nested. fetch_type_info_from_plc-ne-panic depth nested) name xs)
