-- ===== src/Symbols/Parser/Loop.antt =====
-- internal/symbols/parser.go: the rounds of the loop of ParseSymbolTable.
use goadstc.Base.{
  ℕ, zero, suc, ◌+◌, ◌≤◌, ◌<◌, ◌≢◌, refl, inl, inr, List, [], ◌∷◌, ◌++◌, arith, length, ltb, ◌==◌,
  Bool-cases,
}
use goadstc.Go.{
  Result, ok, err, panic, wrap, Slice, slice, slice?, read32-inside, bind-ne-err, or_panic-ne-err,
}
use goadstc.Symbols.Types.{Symbol}
use goadstc.Symbols.Parser.{
  Error, out_of_fuel, at_offset, parse_symbol_entry, parse_entries, parse_symbol_table,
}

at_offset-ne {ℓ} :
    {A : Type ℓ} (offset : ℕ) (r : Result Error A) → wrap (at_offset offset) r ≢ err out_of_fuel
at_offset-ne offset (ok a) = λ p. cc
at_offset-ne offset (err e) = λ p. cc
at_offset-ne offset panic = λ p. cc

parse_entries-ends :
    (fuel : ℕ) (s : Slice) (offset : ℕ) (symbols : List Symbol)
    → length s.bytes < offset + fuel
    → offset ≤ length s.bytes
    → parse_entries fuel s offset symbols ≢ err out_of_fuel
unfolding parse_entries
parse_entries-ends zero s offset symbols h inside = absurd (omega arith)
parse_entries-ends (suc fuel) s offset symbols h inside =
    elim (Bool-cases (ltb offset (length s.bytes))) [
      | inr done ↦ rw done (λ p. cc)
      | inl more ↦ elim (Bool-cases (ltb (length s.bytes) (offset + 4))) [
        | inl short ↦ rw (more, short) (λ p. cc)
        | inr room ↦
            let (n, en) = read32-inside {E = Error} s offset (offset + 4) refl (ground arith) in
            elim (Bool-cases (n == 0)) [
              | inl last ↦ rw (more, room, en, last) (λ p. cc)
              | inr entry ↦ elim (Bool-cases (ltb (length s.bytes) (offset + n))) [
                | inl past ↦ rw (more, room, en, entry, past) (λ p. cc)
                | inr fits ↦
                    rw (more, room, en, entry, fits)
                      (bind-ne-err (slice s offset (offset + n)) _
                        (or_panic-ne-err (slice? s offset (offset + n)))
                        λ part.
                          bind-ne-err (wrap (at_offset offset) (parse_symbol_entry part)) _
                            (at_offset-ne offset (parse_symbol_entry part))
                            λ symbol.
                              parse_entries-ends fuel s (offset + n) (symbols ++ (symbol ∷ []))
                                (ground arith) (ground arith))
              ]
            ]
      ]
    ]

ends_on :
    (xs spare : List ℕ)
    → parse_symbol_table (record { bytes = xs; spare = spare }) ≢ err out_of_fuel
unfolding parse_symbol_table
ends_on [] spare = λ p. cc
ends_on (x ∷ xs) spare =
    parse_entries-ends (length (x ∷ xs) + 1) (record { bytes = x ∷ xs; spare = spare }) 0 []
      (omega arith) (omega arith)

-- The parser of a symbol upload always ends: its loop never uses up the rounds that the length of
-- the data gives it, whatever entry lengths the data holds.
pub parse_symbol_table-ends : (s : Slice) → parse_symbol_table s ≢ err out_of_fuel
parse_symbol_table-ends s = ends_on s.bytes s.spare
