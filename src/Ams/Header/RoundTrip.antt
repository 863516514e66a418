-- ===== src/Ams/Header/RoundTrip.antt =====
-- internal/ams/header.go: the bytes of the two headers.
use goadstc.Base.{
  [], ℕ, ◌<◌, ◌≡◌, refl, ap, ◌∙◌, ◌⊎◌, inl, inr, List, ◌∷◌, ◌++◌, arith, All, length, take,
}
use goadstc.Go.{
  exact, ok, err, ◌>>=◌, slice?, bytes16, bytes32, uint16?, uint32?, IsByte, copy, join16-bytes16,
  join32-bytes32,
}
use goadstc.Ams.Header.{
  TcpHeader, Header, net_bytes, marshal_tcp, unmarshal_tcp, marshal, unmarshal, header_short,
  TcpHeaderFits, HeaderFits,
}

pub unmarshal_tcp-marshal_tcp :
    (h : TcpHeader) (rest spare : List ℕ)
    → TcpHeaderFits h
    → (do buf ← marshal_tcp h; unmarshal_tcp (record { bytes = buf ++ rest; spare = spare })) ≡ ok h
unfolding marshal_tcp unmarshal_tcp slice? bytes16 bytes32 uint16? uint32?
unmarshal_tcp-marshal_tcp h rest spare f =
    ground (arith, join16-bytes16 h.reserved, join32-bytes32 h.length)

-- The layout of the AMS/TCP header.
unfoldable pub tcp_layout : TcpHeader → List ℕ
tcp_layout h = bytes16 h.reserved ++ bytes32 h.length

pub marshal_tcp-tcp_layout : (h : TcpHeader) → marshal_tcp h ≡ ok (tcp_layout h)
unfolding marshal_tcp tcp_layout bytes16 bytes32
marshal_tcp-tcp_layout h = refl

pub unmarshal_tcp-tcp_layout :
    (h : TcpHeader) (rest spare : List ℕ)
    → TcpHeaderFits h
    → unmarshal_tcp (record { bytes = tcp_layout h ++ rest; spare = spare }) ≡ ok h
unmarshal_tcp-tcp_layout h rest spare f =
    rw (marshal_tcp-tcp_layout h) at (unmarshal_tcp-marshal_tcp h rest spare f)

pub unmarshal_tcp-exact :
    (h : TcpHeader) → TcpHeaderFits h → unmarshal_tcp (exact (tcp_layout h)) ≡ ok h
unfolding tcp_layout bytes16 bytes32
unmarshal_tcp-exact h f = unmarshal_tcp-tcp_layout h [] [] f

-- The layout of the header: its fields in order, little-endian.
unfoldable pub layout : Header → List ℕ
layout h =
    net_bytes h.target_net_id
    ++ (bytes16 h.target_port
        ++ (net_bytes h.source_net_id
            ++ (bytes16 h.source_port
                ++ (bytes16 h.command_id
                    ++ (bytes16 h.state_flags
                        ++ (bytes32 h.data_length
                            ++ (bytes32 h.error_code ++ bytes32 h.invoke_id)))))))

pub marshal-layout : (h : Header) → marshal h ≡ ok (layout h)
unfolding marshal layout bytes16 bytes32 copy
marshal-layout h = refl

pub unmarshal-layout :
    (old h : Header) (rest spare : List ℕ)
    → HeaderFits h
    → unmarshal old (record { bytes = layout h ++ rest; spare = spare }) ≡ ok h
unfolding unmarshal layout slice? bytes16 bytes32 uint16? uint32?
unmarshal-layout old h rest spare f = simp (
  join16-bytes16 h.target_port f.target_port,
  join16-bytes16 h.source_port f.source_port,
  join16-bytes16 h.command_id f.command_id,
  join16-bytes16 h.state_flags f.state_flags,
  join32-bytes32 h.data_length f.data_length,
  join32-bytes32 h.error_code f.error_code,
  join32-bytes32 h.invoke_id f.invoke_id,
)

-- Reading the bytes of a header that MarshalBinary wrote gives the header back, whatever follows
-- them and whatever the receiver held, when every field is in the range of its type.
unmarshal-marshal :
    (old h : Header) (rest spare : List ℕ)
    → HeaderFits h
    → (do buf ← marshal h; unmarshal old (record { bytes = buf ++ rest; spare = spare })) ≡ ok h
unmarshal-marshal old h rest spare f = rw (marshal-layout h) (unmarshal-layout old h rest spare f)

-- Thirty-two bytes or more decode to a header that encodes to the first thirty-two of them; fewer
-- are refused with their number. In no case is there a panic.
marshal-unmarshal :
    (old : Header) (xs spare : List ℕ)
    → All IsByte xs
    → ((length xs < 32)
        × (unmarshal old (record { bytes = xs; spare = spare }) ≡ err (header_short (length xs))))
      ⊎ ((h : Header) × (unmarshal old (record { bytes = xs; spare = spare }) ≡ ok h)
          × (marshal h ≡ ok (take 32 xs)))
unfolding unmarshal layout slice? uint16? uint32? bytes16 bytes32
marshal-unmarshal old
      (x0 ∷ x1 ∷ x2 ∷ x3 ∷ x4 ∷ x5 ∷ x6 ∷ x7 ∷ x8 ∷ x9 ∷ x10 ∷ x11 ∷ x12 ∷ x13 ∷ x14 ∷ x15 ∷ x16
        ∷ x17 ∷ x18 ∷ x19 ∷ x20 ∷ x21 ∷ x22 ∷ x23 ∷ x24 ∷ x25 ∷ x26 ∷ x27 ∷ x28 ∷ x29 ∷ x30 ∷ x31
        ∷ rest)
      spare b =
    inr (_, refl, marshal-layout _ ∙ ap ok (ground arith))
marshal-unmarshal old xs spare b = inl (omega arith, refl)
