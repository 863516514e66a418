-- ===== src/Go/Map.antt =====
-- Go's map[string]V as an association list without repeated keys, in the order of insertion. Go
-- leaves the order of iteration open.
use goadstc.Base.{
  ℕ, ◌≡◌, refl, ◌∙◌, sym, true, ◌⊎◌, inl, inr, ◌↔◌, Option, none, some, List, [], ◌∷◌,
  if◌then◌else◌, arith, All, Bool-cases,
}
use mathlib.Core.Path.{subst}
use goadstc.Go.Strings.{same}

abbrev pub Entries {ℓ} : Type ℓ → Type ℓ
Entries V = List (List ℕ × V)

module _ {ℓ} {V : Type ℓ} where
  unfoldable pub lookup : List ℕ → Entries V → Option V
  lookup k [] = none
  lookup k ((j, v) ∷ m) = if same j k then some v else lookup k m

  unfoldable pub insert : List ℕ → V → Entries V → Entries V
  insert k v [] = (k, v) ∷ []
  insert k v ((j, w) ∷ m) = if same j k then (j, v) ∷ m else (j, w) ∷ insert k v m

  unfoldable pub delete : List ℕ → Entries V → Entries V
  delete k [] = []
  delete k ((j, w) ∷ m) = let rest = delete k m in if same j k then rest else (j, w) ∷ rest

  unfoldable pub values : Entries V → List V
  values [] = []
  values ((k, v) ∷ m) = v ∷ values m

  unfoldable pub keys : Entries V → List (List ℕ)
  keys [] = []
  keys ((k, v) ∷ m) = k ∷ keys m

pub same→eq : (xs ys : List ℕ) → same xs ys ≡ true → xs ≡ ys
same→eq [] [] h = refl
same→eq [] (y ∷ ys) h = cc
same→eq (x ∷ xs) [] h = cc
same→eq (x ∷ xs) (y ∷ ys) h = ground (arith, same→eq xs ys)

pub same_self : (xs : List ℕ) → same xs xs ≡ true
same_self [] = refl
same_self (x ∷ xs) = ground (arith, same_self xs)

pub same_iff : (xs ys : List ℕ) → (same xs ys ≡ true) ↔ (xs ≡ ys)
same_iff xs ys = (same→eq xs ys, λ e. rw e (same_self ys))

module _ {ℓ} {V : Type ℓ} where
  -- What is found of `asked` after a change at `key`.
  pub lookup-insert :
      (key asked : List ℕ) (new : V) (entries : Entries V)
      → lookup asked (insert key new entries)
        ≡ (if same key asked then some new else lookup asked entries)
  unfolding insert lookup
  lookup-insert key asked new [] = refl
  lookup-insert key asked new ((here, old) ∷ entries) = ground (
    arith,
    same_iff key asked,
    same_iff here key,
    same_iff here asked,
    lookup-insert key asked new entries,
  )

  pub lookup-delete :
      (k j : List ℕ) (m : Entries V)
      → lookup j (delete k m) ≡ (if same k j then none else lookup j m)
  unfolding lookup delete
  lookup-delete k j [] = ground arith
  lookup-delete k j ((i, w) ∷ m) =
      ground (arith, same_iff k j, same_iff i k, same_iff i j, lookup-delete k j m)

  -- No key stands twice.
  abbrev pub IsDistinct : Entries V → Type ℓ
  IsDistinct [] = Unit
  IsDistinct ((k, v) ∷ m) = (lookup k m ≡ none) × IsDistinct m

  pub insert-IsDistinct :
      (k : List ℕ) (v : V) (m : Entries V) → IsDistinct m → IsDistinct (insert k v m)
  unfolding insert lookup
  insert-IsDistinct k v [] d = (refl, tt)
  insert-IsDistinct k v ((j, w) ∷ m) d = elim (Bool-cases (same j k)) [
    | inl e ↦ rw e d
    | inr e ↦ rw e (
      lookup-insert k j v m ∙ ground (arith, same_iff k j, same_iff j k),
      insert-IsDistinct k v m d.1,
    )
  ]

  -- Entries that satisfy `P`.
  pub insert-All {κ} :
      (P : List ℕ × V → Type κ) (k : List ℕ) (v : V) (m : Entries V)
      → P (k, v)
      → All P m
      → All P (insert k v m)
  unfolding insert
  insert-All P k v [] p h = (p, tt)
  insert-All P k v ((j, w) ∷ m) p h = elim (Bool-cases (same j k)) [
    | inl e ↦ rw e (subst (λ x. P (x, v)) (sym (same→eq j k e)) p, h.1)
    | inr e ↦ rw e (h.0, insert-All P k v m p h.1)
  ]

abbrev pub In : {A : Type 0} → A → List A → Type 0
In a [] = ⊥
In a (x ∷ xs) = (x ≡ a) ⊎ In a xs
