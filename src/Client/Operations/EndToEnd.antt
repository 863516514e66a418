-- ===== src/Client/Operations/EndToEnd.antt =====
-- client.go: WriteSymbol and then ReadSymbol of one symbol, on a PLC that keeps a memory.
use mathlib.Core.Path.{subst}
use goadstc.Base.{ℕ, ◌+◌, ◌<◌, ◌^◌, ◌%◌, ◌≡◌, refl, sym, ap, ◌∙◌, true, List, length, arith, ◌==◌}
use goadstc.Go.{Result, ok, IsU32}
use goadstc.Symbols.Types.{TypeInfo}
use goadstc.Symbols.Table
use goadstc.Client.Access
use goadstc.Client.Access.{Client, Place, resolve_array_symbol}
use goadstc.Client.Operations.{Error, World, Call, after, ◌>>=◌, Session, read, write}
use goadstc.Client.Operations.Symbolic.{ensure_symbols_loaded, resolve, read_symbol, write_symbol}
use goadstc.Client.Operations.Memory.{Memory, cells, store, cells-store, Serves, read-write-Refines}

-- The symbol table is loaded, and the name leads to the place `p` of a size below 2^32 - 8 with what
-- the caches hold.
pub record Known (ask : List ℕ → Result Access.Error TypeInfo) (client : Client) (name : List ℕ)
    (p : Place) : Type 0 where
  pub loaded : Table.is_loaded client.table ≡ true
  pub found : resolve_array_symbol ask name client ≡ (ok p, client)
  pub group : IsU32 p.index_group
  pub offset : IsU32 p.index_offset
  pub size : 8 + p.size < 2 ^ 32

-- A call that returns `a` goes on with it.
pub after-ok :
    {S A B : Type 0} (r : Result Error A × World S) (a : A) (f : A → Call S B)
    → r.0 ≡ ok a
    → after r f ≡ f a r.1
after-ok r a f e = ap (λ x. after (x, r.1) f) e

module _ {S : Type 0} (c : Session S) (ask : List ℕ → Result Access.Error TypeInfo) (name : List ℕ)
    (p : Place) (w : World S) where
  pub ensure_symbols_loaded-Known :
      Known ask w.client name p → ensure_symbols_loaded c ask w ≡ (ok tt, w)
  unfolding ensure_symbols_loaded
  ensure_symbols_loaded-Known k = rw k.loaded refl

  pub resolve-Known : Known ask w.client name p → resolve c ask name w ≡ (ok p, w)
  unfolding resolve
  resolve-Known k = rw k.found refl

  pub read_symbol-Known :
      Known ask w.client name p
      → read_symbol c ask name w ≡ read c p.index_group p.index_offset p.size w
  unfolding read_symbol
  read_symbol-Known k = rw (ensure_symbols_loaded-Known k) (rw (resolve-Known k) refl)

  pub write_symbol-Known :
      (xs : List ℕ)
      → Known ask w.client name p
      → length xs ≡ p.size
      → write_symbol c ask name xs w ≡ write c p.index_group p.index_offset xs w
  unfolding write_symbol
  write_symbol-Known xs k e =
      let same : (length xs % 2 ^ 32 == p.size) ≡ true = ground (arith, k.size) in
      rw (ensure_symbols_loaded-Known k) (rw (resolve-Known k) (rw same refl))

-- The bytes written to a whole place are read from it, and the symbol still leads there.
pub read-write :
    {S : Type 0} (c : Session S) (mem : S → Memory) (ask : List ℕ → Result Access.Error TypeInfo)
    (name xs : List ℕ) (p : Place) (w : World S)
    → Serves c mem
    → Known ask w.client name p
    → length xs ≡ p.size
    → (w₁ w₂ : World S) × (write c p.index_group p.index_offset xs w ≡ (ok tt, w₁))
      × Known ask w₁.client name p
      × (read c p.index_group p.index_offset p.size w₁ ≡ (ok xs, w₂))
read-write c mem ask name xs p w serves k e =
    let written =
      (read-write-Refines c mem p.index_group p.index_offset 0 xs w serves k.group k.offset
        (omega arith) (omega (arith, k.size))).1 in
    let w₁ = (write c p.index_group p.index_offset xs w).1 in
    let taken =
      (read-write-Refines c mem p.index_group p.index_offset p.size xs w₁ serves k.group k.offset
        k.size (omega (arith, k.size))).0 in
    let w₂ = (read c p.index_group p.index_offset p.size w₁).1 in
    let there : cells (mem w₁.plc) p.index_group p.index_offset p.size ≡ xs =
      (ap (λ m. cells m p.index_group p.index_offset p.size) written.memory
        ∙ ap
            (cells (store p.index_group p.index_offset xs (mem w.plc)) p.index_group p.index_offset)
            (sym e)
        ∙ cells-store p.index_group p.index_offset xs (mem w.plc)) in
    (
      w₁,
      w₂,
      ap (λ r. (r, w₁)) written.result,
      subst (λ cl. Known ask cl name p) (sym written.client) k,
      ap (λ r. (r, w₂)) (taken.result ∙ ap ok there),
    )

-- What WriteSymbol has written is what ReadSymbol reads, with whatever `next` does with it.
pub read_symbol-write_symbol :
    {S A : Type 0} (c : Session S) (mem : S → Memory) (ask : List ℕ → Result Access.Error TypeInfo)
    (name xs : List ℕ) (p : Place) (w : World S) (next : List ℕ → Call S A)
    → Serves c mem
    → Known ask w.client name p
    → length xs ≡ p.size
    → (w' : World S) × ((do _ ← write_symbol c ask name xs; ys ← read_symbol c ask name; next ys) w
        ≡ next xs w')
read_symbol-write_symbol c mem ask name xs p w next serves k e =
    let (w₁, w₂, written, k₁, taken) = read-write c mem ask name xs p w serves k e in
    let rest : Unit {0} → Call _ _ = λ _. (do ys ← read_symbol c ask name; next ys) in
    (
      w₂,
      ap (λ r. after r rest) (write_symbol-Known c ask name p w xs k e ∙ written)
          ∙ ap (λ r. after r next) (read_symbol-Known c ask name p w₁ k₁ ∙ taken),
    )
