-- ===== src/Symbols/Parser/Bounds.antt =====
-- internal/symbols/parser.go, parseSymbolEntry: the bounds of the three texts of an entry.
use goadstc.Base.{ℕ, ◌+◌, ◌≤◌, ◌≡◌, ◌≢◌, arith, length, le→ltb, ◌++◌}
use goadstc.Go.{panic, Slice, slice?-take, slice?-beyond}
use goadstc.Symbols.Parser.{entry_texts}

-- The bytes that the three texts take, each with its zero byte.
abbrev pub needed : ℕ → ℕ → ℕ → ℕ
needed a b c = 30 + (a + 1) + (b + 1) + (c + 1)

module _ (s : Slice) (a b c : ℕ) where
  -- Where the entry and the capacity behind it hold the three texts and their zero bytes, cutting
  -- them out is no panic, and neither is an entry that one of the checks refuses.
  entry_texts-ne-panic : needed a b c ≤ length (s.bytes ++ s.spare) → entry_texts s a b c ≢ panic
  unfolding entry_texts
  entry_texts-ne-panic h =
      rw
        (
          slice?-take s 30 (30 + a + 1) (omega arith) (omega arith),
          slice?-take s (30 + a + 1) (30 + a + 1 + b + 1) (omega arith) (omega arith),
          slice?-take s (30 + a + 1 + b + 1) (30 + a + 1 + b + 1 + c + 1) (omega arith)
              (omega arith),
        )
        (ground arith)

  -- An entry that ends one byte early, right behind the text of its comment, passes every check and
  -- panics where no capacity is left behind it: the checks leave out the zero byte that is cut out.
  entry_texts-short :
      length s.bytes + 1 ≡ needed a b c
      → length (s.bytes ++ s.spare) ≡ length s.bytes
      → entry_texts s a b c ≡ panic
  unfolding entry_texts
  entry_texts-short h full = rw (
    le→ltb (length s.bytes) (30 + a) (omega arith),
    slice?-take s 30 (30 + a + 1) (omega arith) (omega arith),
    le→ltb (length s.bytes) (30 + a + 1 + b) (omega arith),
    slice?-take s (30 + a + 1) (30 + a + 1 + b + 1) (omega arith) (omega arith),
    le→ltb (length s.bytes) (30 + a + 1 + b + 1 + c) (omega arith),
    slice?-beyond s (30 + a + 1 + b + 1) (30 + a + 1 + b + 1 + c + 1) (omega arith) (omega arith),
  )
