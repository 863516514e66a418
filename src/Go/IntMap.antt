-- ===== src/Go/IntMap.antt =====
-- Go's map[uint32]V as an association list without repeated keys, in the order of insertion.
use goadstc.Base.{ℕ, ◌≡◌, Option, none, some, List, [], ◌∷◌, ◌==◌, if◌then◌else◌, arith}

abbrev pub IntEntries {ℓ} : Type ℓ → Type ℓ
IntEntries V = List (ℕ × V)

module _ {ℓ} {V : Type ℓ} where
  unfoldable pub lookup : ℕ → IntEntries V → Option V
  lookup key [] = none
  lookup key ((here, value) ∷ entries) = if here == key then some value else lookup key entries

  unfoldable pub insert : ℕ → V → IntEntries V → IntEntries V
  insert key new [] = (key, new) ∷ []
  insert key new ((here, old) ∷ entries) =
      let behind = insert key new entries in
      if here == key then (key, new) ∷ entries else (here, old) ∷ behind

  unfoldable pub delete : ℕ → IntEntries V → IntEntries V
  delete key [] = []
  delete key ((here, old) ∷ entries) =
      let behind = delete key entries in if here == key then behind else (here, old) ∷ behind

  -- What is found of `asked` after a change at `key`.
  pub lookup-insert :
      (key asked : ℕ) (new : V) (entries : IntEntries V)
      → lookup asked (insert key new entries)
        ≡ (if key == asked then some new else lookup asked entries)
  unfolding insert lookup
  lookup-insert key asked new [] = ground arith
  lookup-insert key asked new ((here, old) ∷ entries) =
      ground (arith, lookup-insert key asked new entries)

  pub lookup-delete :
      (key asked : ℕ) (entries : IntEntries V)
      → lookup asked (delete key entries) ≡ (if key == asked then none else lookup asked entries)
  unfolding delete lookup
  lookup-delete key asked [] = ground arith
  lookup-delete key asked ((here, old) ∷ entries) = ground (arith, lookup-delete key asked entries)
