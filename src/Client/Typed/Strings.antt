-- ===== src/Client/Typed/Strings.antt =====
-- client_types.go: a text that is written to a symbol and read again, on a PLC that keeps a memory.
use goadstc.Base.{
  ℕ, zero, suc, ◌+◌, ◌-◌, ◌*◌, ◌/◌, ◌%◌, ◌<◌, ◌≤◌, ◌≡◌, refl, ap, ◌∙◌, false, some, List, [], ◌∷◌,
  ◌++◌, All, length, take, take-append, length-append, length-replicate, replicate, ltb, arith,
}
use goadstc.Go.{Result, ok, IsU16, copy, copy-replicate_add, take-length}
use goadstc.Go.Text.{until_zero, NonZero}
use goadstc.Symbols.Types.{TypeInfo}
use goadstc.Client.Access
use goadstc.Client.Access.{Place}
use goadstc.Client.Values.{encode_string}
use goadstc.Client.Values.RoundTrip.{encode_string-until_zero}
use goadstc.Client.Operations.{Call, after, ◌>>=◌, return, World, Session, read, write}
use goadstc.Client.Operations.Memory.{Memory, Serves}
use goadstc.Client.Operations.EndToEnd.{
  Known, read-write, ensure_symbols_loaded-Known, resolve-Known, read_symbol-Known,
}
use goadstc.Client.Typed.{
  units, unit_bytes, zero_unit, wstring_length, fitting_units, read_string, write_string,
  read_wstring, write_wstring,
}

-- A code unit of UTF-16 that is not zero.
abbrev pub IsUnit : ℕ → Type 0
IsUnit u = (0 < u) × IsU16 u

length-unit_bytes : (us : List ℕ) → length (unit_bytes us) ≡ 2 * length us
unfolding unit_bytes
length-unit_bytes [] = refl
length-unit_bytes (u ∷ us) = ground (arith, length-unit_bytes us)

units-unit_bytes : (us : List ℕ) → All IsUnit us → units (unit_bytes us) ≡ us
unfolding units unit_bytes
units-unit_bytes [] f = refl
units-unit_bytes (u ∷ us) (h, f) =
    (let same : u % 256 + u / 256 % 256 * 256 ≡ u = omega arith in
      rw (units-unit_bytes us f) (ap (λ v. v ∷ us) same))

zero_unit-unit_bytes :
    (i : ℕ) (us xs : List ℕ)
    → All IsUnit us
    → zero_unit i (unit_bytes us ++ (0 ∷ 0 ∷ xs)) ≡ i + 2 * length us
unfolding zero_unit unit_bytes
zero_unit-unit_bytes i [] xs f = omega arith
zero_unit-unit_bytes i (u ∷ us) xs (h, f) = ground (arith, zero_unit-unit_bytes (i + 2) us xs f)

units-replicate : (n : ℕ) → units (replicate n 0) ≡ replicate (n / 2) 0
unfolding units
units-replicate zero = refl
units-replicate (suc zero) = refl
units-replicate (suc (suc n)) =
    rw (units-replicate n) (
      let half : suc (n / 2) ≡ suc (suc n) / 2 = omega arith in
      ap (λ k. replicate {A = ℕ} k 0) half)

-- What is read where `us` has been written to a WSTRING of `size` bytes.
unfoldable pub visible : ℕ → List ℕ → List ℕ
visible size [] = replicate (size / 2) 0
visible size (u ∷ us) = u ∷ us

wstring-visible :
    (us : List ℕ) (n size : ℕ)
    → All IsUnit us
    → size ≡ 2 * length us + suc (suc n)
    → let xs = unit_bytes us ++ replicate (suc (suc n)) 0 in
      units (take (wstring_length xs) xs) ≡ visible size us
unfolding visible wstring_length unit_bytes
wstring-visible [] n size f e =
    let same : suc (suc n) ≡ size = omega (arith, e) in
    let zeros : List ℕ = replicate (suc (suc n)) 0 in
    ap units (take-length zeros)
    ∙ units-replicate (suc (suc n))
    ∙ ap (λ k. replicate {A = ℕ} (k / 2) 0) same
wstring-visible (u ∷ us) n size f e =
    let vs : List ℕ = u ∷ us in
    let rest : List ℕ = replicate (suc (suc n)) 0 in
    let found : wstring_length (unit_bytes vs ++ rest) ≡ length (unit_bytes vs) =
      rw (zero_unit-unit_bytes 0 vs (replicate n 0) f) (ground (arith, length-unit_bytes vs)) in
    ap (λ k. units (take k (unit_bytes vs ++ rest))) found
    ∙ ap units (take-append (unit_bytes vs) rest)
    ∙ units-unit_bytes vs f

module _ {S : Type 0} (c : Session S) (ask : List ℕ → Result Access.Error TypeInfo) (name : List ℕ)
    (p : Place) (w : World S) (k : Known ask w.client name p) where
  write_string-Known :
      (v xs : List ℕ)
      → encode_string v p.size ≡ ok xs
      → write_string c ask name v w ≡ write c p.index_group p.index_offset xs w
  unfolding write_string
  write_string-Known v xs e =
      rw (ensure_symbols_loaded-Known c ask name p w k)
        (rw (resolve-Known c ask name p w k) (rw e refl))

  write_wstring-Known :
      (encode : List ℕ → List ℕ) (v us : List ℕ)
      → fitting_units (p.size / 2) (encode v) ≡ some us
      → write_wstring c ask encode name v w
        ≡ write c p.index_group p.index_offset (copy (replicate p.size 0) (unit_bytes us)) w
  unfolding write_wstring
  write_wstring-Known encode v us e =
      rw (ensure_symbols_loaded-Known c ask name p w k)
        (rw (resolve-Known c ask name p w k) (rw e refl))

  read_string-Known :
      read_string c ask name w
      ≡ after (read c p.index_group p.index_offset p.size w) (λ xs. return (until_zero xs))
  unfolding read_string
  read_string-Known = rw (read_symbol-Known c ask name p w k) refl

  read_wstring-Known :
      (decode : List ℕ → List ℕ)
      → read_wstring c ask decode name w
        ≡ after
            (read c p.index_group p.index_offset p.size w)
            (λ xs. return (decode (units (take (wstring_length xs) xs))))
  unfolding read_wstring
  read_wstring-Known decode =
      rw (ensure_symbols_loaded-Known c ask name p w k) (rw (resolve-Known c ask name p w k) refl)

-- Code units that leave room for a zero unit are all written.
fitting_units-fit :
    (size : ℕ) (us : List ℕ) → 2 * length us + 2 ≤ size → fitting_units (size / 2) us ≡ some us
unfolding fitting_units
fitting_units-fit size us h =
    let room : size / 2 ≡ suc (size / 2 - 1) = omega arith in
    let whole : ltb (size / 2 - 1) (length us) ≡ false = ground arith in rw room (rw whole refl)

module _ {S : Type 0} (c : Session S) (ask : List ℕ → Result Access.Error TypeInfo)
    (mem : S → Memory) (name : List ℕ) (p : Place) (w : World S) (serves : Serves c mem)
    (k : Known ask w.client name p) where
  -- WriteString and then ReadString give back a text without zero bytes that leaves room for one.
  pub read_string-write_string :
      (v : List ℕ)
      → All NonZero v
      → length v < p.size
      → ((do _ ← write_string c ask name v; read_string c ask name) w).0 ≡ ok v
  read_string-write_string v f h =
      let (xs, written, whole, seen) = encode_string-until_zero v p.size f h in
      let (w₁, w₂, put, k₁, taken) = read-write c mem ask name xs p w serves k whole in
      let rest : Unit {0} → Call S (List ℕ) = λ _. read_string c ask name in
      ap (λ r. (after r rest).0) (write_string-Known c ask name p w k v xs written ∙ put)
      ∙ ap (λ r. r.0) (read_string-Known c ask name p w₁ k₁)
      ∙ ap (λ r. (after r (λ ys. return (until_zero ys))).0) taken
      ∙ ap ok seen

  -- WriteWString and then ReadWString give back what utf16.Decode makes of the code units that
  -- utf16.Encode gives, where these are not zero and leave room for a zero unit; a text without code
  -- units is read as the zero units of the whole buffer.
  pub read_wstring-write_wstring :
      (encode decode : List ℕ → List ℕ) (v : List ℕ)
      → All IsUnit (encode v)
      → 2 * length (encode v) + 2 ≤ p.size
      → ((do _ ← write_wstring c ask encode name v; read_wstring c ask decode name) w).0
        ≡ ok (decode (visible p.size (encode v)))
  read_wstring-write_wstring encode decode v f h =
      let us = encode v in
      let n = p.size - 2 * length us - 2 in
      let size : p.size ≡ 2 * length us + suc (suc n) = omega arith in
      let xs : List ℕ = unit_bytes us ++ replicate (suc (suc n)) 0 in
      let buffer : copy (replicate p.size 0) (unit_bytes us) ≡ xs =
        ap (λ m. copy (replicate m 0) (unit_bytes us)) (omega (arith, size, length-unit_bytes us))
        ∙ copy-replicate_add (unit_bytes us) (suc (suc n)) in
      let e : length xs ≡ p.size =
        length-append (unit_bytes us) (replicate (suc (suc n)) 0)
        ∙ omega (arith, size, length-unit_bytes us, length-replicate {A = ℕ} (suc (suc n)) 0) in
      let (w₁, w₂, written, k₁, taken) = read-write c mem ask name xs p w serves k e in
      let shown : units (take (wstring_length xs) xs) ≡ visible p.size us =
        wstring-visible us n p.size f size in
      let rest : Unit {0} → Call S (List ℕ) = λ _. read_wstring c ask decode name in
      let put =
        write_wstring-Known c ask name p w k encode v us (fitting_units-fit p.size us h)
        ∙ ap (λ ys. write c p.index_group p.index_offset ys w) buffer in
      ap (λ r. (after r rest).0) (put ∙ written)
      ∙ ap (λ r. r.0) (read_wstring-Known c ask name p w₁ k₁ decode)
      ∙ ap (λ r. (after r (λ ys. return (decode (units (take (wstring_length ys) ys))))).0) taken
      ∙ ap (λ us. ok (decode us)) shown
