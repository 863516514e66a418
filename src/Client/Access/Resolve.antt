-- ===== src/Client/Access/Resolve.antt =====
-- client.go and client_structs.go: where the elements of an array stand, and the cache of types.
use goadstc.Base.{
  ℕ, ◌+◌, ◌*◌, ◌%◌, ◌<◌, ◌^◌, ◌≡◌, refl, ap, ◌∙◌, true, inl, inr, List, [], ◌∷◌, ◌++◌, arith, All,
  map, Bool-cases,
}
use mathlib.Core.List.{append-nil}
use goadstc.Go.{Result, ok, Result-cases, mod32_lem}
use goadstc.Go.Scan.{Without}
use goadstc.Go.Map.{same_self}
use goadstc.Symbols.Types.{TypeInfo, type_name, type_size, Symbol}
use goadstc.Symbols.Table
use goadstc.Symbols.Registry
use goadstc.Symbols.Registry.{TypeRegistry}
use goadstc.Symbols.Registry.Laws.{get-register}
use goadstc.Client.Access.{
  Error, Client, get_element_type_name, get_or_fetch_type_info, with_type_info, resolve_element,
  resolve_simple_array,
}
use goadstc.Client.Access.Parse.{
  Index, IndexFits, index_value, brackets, parse_array_access-brackets,
}

-- What getOrFetchTypeInfo has found it finds again, whatever the PLC would answer now: the second
-- call gives the same type and leaves the client as it is.
get_or_fetch_type_info_again :
    (ask later : List ℕ → Result Error TypeInfo) (name : List ℕ) (c c' : Client) (info : TypeInfo)
    → get_or_fetch_type_info ask name c ≡ ok (info, c')
    → get_or_fetch_type_info later name c' ≡ ok (info, c')
unfolding get_or_fetch_type_info
get_or_fetch_type_info_again ask later name c c' info h =
    elim (Bool-cases (Registry.get name c.types).1) [
      | inl e ↦ ground (arith, e, h)
      | inr e ↦ elim (Result-cases (ask name)) [
        | inl (i, p) ↦ ground (arith, e, p, h, get-register name name i c.types, same_self name)
        | inr (inl (x, p)) ↦ ground (arith, e, p, h)
        | inr (inr p) ↦ ground (arith, e, p, h)
      ]
    ]

known_type :
    (ask : List ℕ → Result Error TypeInfo) (name : List ℕ) (c : Client) (info : TypeInfo)
    → Registry.get name c.types ≡ (info, true)
    → get_or_fetch_type_info ask name c ≡ ok (info, c)
unfolding get_or_fetch_type_info
known_type ask name c info h = ground (arith, h)

no_wrap :
    (o i n : ℕ)
    → o + i * n < 2 ^ 32
    → i < 2 ^ 32
    → (o + i % 2 ^ 32 * n % 2 ^ 32) % 2 ^ 32 ≡ o + i * n
no_wrap o i n h k =
    rw (mod32_lem i k, mod32_lem (i * n) (omega (arith, h))) (mod32_lem (o + i * n) h)

module _ (ask : List ℕ → Result Error TypeInfo) (c : Client) (base : List ℕ) (symbol : Symbol)
    (plain : Without b'[' base) (found : Table.get base c.table ≡ ok symbol) where
  -- The element that a name with indices stands for.
  resolve_simple_array-brackets :
      (x : Index) (xs : List Index)
      → All IndexFits (x ∷ xs)
      → resolve_simple_array ask (base ++ brackets (x ∷ xs) []) c
        ≡ resolve_element ask symbol (map index_value (x ∷ xs)) c
  unfolding resolve_simple_array
  resolve_simple_array-brackets x xs f =
      rw (parse_array_access-brackets base x xs [] plain f refl, resolve_simple_array)
        (rw (append-nil base) (rw found refl))

  -- An element of an array whose element type is known stands at the offset of the symbol plus the
  -- index times the size of the element type, with that size. This holds for every index that
  -- overflows nothing: neither the bounds of the array nor the size of the symbol are looked at.
  pub resolve_simple_array-element :
      (x : Index) (element : List ℕ) (info : TypeInfo)
      → IndexFits x
      → get_element_type_name (type_name symbol.type) ≡ ok element
      → Registry.get element c.types ≡ (info, true)
      → symbol.index_offset + index_value x * type_size info < 2 ^ 32
      → index_value x < 2 ^ 32
      → resolve_simple_array ask (base ++ brackets (x ∷ []) []) c ≡ (
        ok (record {
          index_group = symbol.index_group;
          index_offset = symbol.index_offset + index_value x * type_size info;
          size = type_size info;
        }),
        c,
      )
  unfolding resolve_element with_type_info
  resolve_simple_array-element x element info f named known fits small =
      resolve_simple_array-brackets x [] (f, tt)
      ∙ rw (named, resolve_element)
          (rw (known_type ask element c info known, with_type_info)
            (ap
              (λ o. (
                ok (record {
                  index_group = symbol.index_group;
                  index_offset = o;
                  size = type_size info;
                }),
                c,
              ))
              (no_wrap symbol.index_offset (index_value x) (type_size info) fits small)))
