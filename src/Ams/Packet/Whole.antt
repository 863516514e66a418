-- ===== src/Ams/Packet/Whole.antt =====
-- internal/ams/packet.go: (*Packet).UnmarshalBinary on the bytes of a packet.
use goadstc.Base.{
  some, false, ℕ, ◌+◌, ◌%◌, ◌<◌, ◌≡◌, refl, ap, ◌∙◌, List, [], ◌∷◌, ◌++◌, arith, length, ltb,
  replicate, le→ltb, lt→ltb,
}
use goadstc.Go.{
  ok, ◌>>=◌, Slice, exact, slice?, bytes16, bytes32, copy, copy-replicate, mod32_lem, slice?-exact,
  take-length, drop-length,
}
use goadstc.Ams.Header.{TcpHeader, Header, TcpHeaderFits, HeaderFits}
use goadstc.Ams.Header.RoundTrip.{tcp_layout, layout, unmarshal-layout, unmarshal_tcp-tcp_layout}
use goadstc.Ams.Packet.{Packet, u32_mod, marshal, unmarshal, unmarshal_data}
use goadstc.Ams.Packet.Frames.{wire, marshal-wire, IsConsistent}

-- The data of the receiver after the call: it stays where there is none.
abbrev pub received : Slice → List ℕ → Slice
received old [] = old
received old (x ∷ xs) = exact (x ∷ xs)

module _ (old : Packet) (tcp : TcpHeader) (h : Header) where
  data_cut :
      (n : ℕ) (xs : List ℕ)
      → n ≡ length xs
      → slice? (exact (tcp_layout tcp ++ (layout h ++ xs))) 38 (38 + n) ≡ some (exact xs)
  unfolding tcp_layout layout bytes16 bytes32
  data_cut n xs e =
      ap (λ k. slice? (exact (tcp_layout tcp ++ (layout h ++ xs))) 38 (38 + k)) e
      ∙ slice?-exact (tcp_layout tcp ++ layout h) xs (length xs) (omega arith)
      ∙ rw (take-length xs, drop-length xs) refl

  buffer_filled : (n : ℕ) (xs : List ℕ) → n ≡ length xs → copy (replicate n 0) xs ≡ xs
  buffer_filled n xs e = rw e (copy-replicate xs)

  unmarshal_data-wire :
      (xs : List ℕ)
      → h.data_length ≡ length xs
      → 38 + length xs < u32_mod
      → unmarshal_data old (exact (tcp_layout tcp ++ (layout h ++ xs))) tcp h
        ≡ ok (record { tcp_header = tcp; header = h; body = received old.body xs })
  unfolding unmarshal_data
  unmarshal_data-wire [] e small = rw (le→ltb 0 h.data_length (omega arith)) refl
  unmarshal_data-wire (x ∷ xs) e small =
      rw
        (
          lt→ltb 0 h.data_length (omega arith),
          mod32_lem (38 + h.data_length) (omega arith),
          data_cut h.data_length (x ∷ xs) e,
          buffer_filled h.data_length (x ∷ xs) e,
        )
        refl

  length_lem :
      (xs : List ℕ)
      → tcp.length ≡ 32 + length xs
      → 38 + length xs < u32_mod
      → ltb (length (tcp_layout tcp ++ (layout h ++ xs)) % u32_mod) ((6 + tcp.length) % u32_mod)
        ≡ false
  unfolding tcp_layout layout bytes16 bytes32
  length_lem xs et small =
      le→ltb (length (tcp_layout tcp ++ (layout h ++ xs)) % u32_mod) ((6 + tcp.length) % u32_mod)
        (omega arith)

  unmarshal-wire :
      (xs : List ℕ)
      → TcpHeaderFits tcp
      → HeaderFits h
      → h.data_length ≡ length xs
      → tcp.length ≡ 32 + length xs
      → 38 + length xs < u32_mod
      → unmarshal old (exact (tcp_layout tcp ++ (layout h ++ xs)))
        ≡ ok (record { tcp_header = tcp; header = h; body = received old.body xs })
  unfolding unmarshal slice? tcp_layout layout bytes16 bytes32
  unmarshal-wire xs ft fh e et small =
      rw
        (
          unmarshal_tcp-tcp_layout tcp [] (layout h ++ (xs ++ [])) ft,
          unmarshal-layout old.header h [] (xs ++ []) fh,
          length_lem xs et small,
        )
        (unmarshal_data-wire xs e small)

-- UnmarshalBinary undoes MarshalBinary, whatever the receiver held before: on the bytes of a packet
-- with consistent lengths and no more than a uint32 counts, it gives back that packet. Where the
-- packet has no data, the data of the receiver stays.
pub unmarshal-marshal_packet :
    (old p : Packet)
    → IsConsistent p
    → 38 + length p.body.bytes < u32_mod
    → (do buf ← marshal p; unmarshal old (exact buf))
      ≡ ok (record p { body = received old.body p.body.bytes })
unmarshal-marshal_packet old p c small = rw (marshal-wire p) (
    unfold wire in
    unmarshal-wire old p.tcp_header p.header p.body.bytes c.tcp_fits c.header_fits c.data_length
      c.tcp_length small)
