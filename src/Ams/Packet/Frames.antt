-- ===== src/Ams/Packet/Frames.antt =====
-- internal/ams/packet.go: packets on the wire, and the frames of a stream.
use mathlib.Core.List.{append-nil, append_assoc}
use goadstc.Base.{
  sym, ℕ, ◌+◌, ◌<◌, ◌≡◌, refl, ap, ◌∙◌, List, [], ◌∷◌, ◌++◌, arith, length, length-append, ltb,
  take, drop, if◌then◌else◌,
}
use goadstc.Go.{
  Result, ok, err, panic, ◌>>=◌, exact, slice?, bytes16, bytes32, IsU32, copy_three, mod32_lem,
  slice?-exact, take-length, drop-length, IsU16, slice?-beyond, split_at?-append,
}
use goadstc.Ams.Header.{
  NetId, TcpHeader, Header, TcpHeaderFits, HeaderFits, Error, insufficient_data,
}
use goadstc.Ams.Header.RoundTrip.{
  tcp_layout, layout, unmarshal-layout, marshal_tcp-tcp_layout, unmarshal_tcp-exact, marshal-layout,
}
use goadstc.Ams.Packet.{
  Packet, u32_mod, new_request_packet, marshal, zero_header, read_full, parse_payload, read_data,
  read_packet,
}

-- The three parts of a packet, one after the other.
unfoldable pub wire : Packet → List ℕ
wire p = tcp_layout p.tcp_header ++ (layout p.header ++ p.body.bytes)

pub marshal-wire : (p : Packet) → marshal p ≡ ok (wire p)
unfolding marshal wire
marshal-wire p =
    rw (marshal_tcp-tcp_layout p.tcp_header, marshal-layout p.header)
      (copy_three (tcp_layout p.tcp_header) (layout p.header) p.body.bytes)

-- What a reader finds in a frame.
frame : TcpHeader → Header → List ℕ → List ℕ
frame tcp h body = tcp_layout tcp ++ (layout h ++ body)

read_data-frame :
    (h : Header) (body : List ℕ)
    → HeaderFits h
    → 32 + length body < u32_mod
    → 32 + h.data_length < u32_mod
    → read_data (exact (layout h ++ body)) h ≡ (
        if ltb 0 h.data_length
        then (if ltb (length body) h.data_length
            then err (insufficient_data (32 + h.data_length) (32 + length body))
            else ok (record { bytes = take h.data_length body; spare = drop h.data_length body }))
        else ok (exact []))
unfolding read_data layout bytes16 bytes32
read_data-frame h body f small fits =
    rw
      (
        length-append (layout h) body,
        mod32_lem (32 + length body) small,
        mod32_lem (32 + h.data_length) fits,
      )
      (ground (arith, slice?-exact (layout h) body h.data_length))

read_full-append : (xs ys : List ℕ) → read_full (length xs) (xs ++ ys) ≡ ok (xs, ys)
unfolding read_full
read_full-append xs ys = rw (split_at?-append xs ys, read_full)

header_read :
    (tcp : TcpHeader) (stream : List ℕ)
    → read_full 6 (tcp_layout tcp ++ stream) ≡ ok (tcp_layout tcp, stream)
unfolding read_full tcp_layout bytes16 bytes32
header_read tcp stream = refl

-- The answer of ReadPacket to a frame, before the rest of the stream is put beside it.
pub framed : TcpHeader → Header → List ℕ → Result Error Packet
framed tcp h body =
    if ltb 0 h.data_length
    then (if ltb (length body) h.data_length
        then err (insufficient_data (32 + h.data_length) (32 + length body))
        else ok (record {
          tcp_header = tcp;
          header = h;
          body = record { bytes = take h.data_length body; spare = drop h.data_length body };
        }))
    else ok (record { tcp_header = tcp; header = h; body = exact [] })

module _ (tcp : TcpHeader) (h : Header) (body : List ℕ) where
  length-frame : length (layout h ++ body) ≡ 32 + length body
  unfolding layout bytes16 bytes32
  length-frame = length-append (layout h) body

  parse_payload-frame :
      HeaderFits h
      → 32 + length body < u32_mod
      → 32 + h.data_length < u32_mod
      → parse_payload tcp (exact (layout h ++ body)) ≡ framed tcp h body
  unfolding parse_payload framed layout slice? bytes16 bytes32
  parse_payload-frame f small fits =
      rw (unmarshal-layout zero_header h [] (body ++ []) f)
        (ground (arith, read_data-frame h body f small fits))

  payload_read :
      (rest : List ℕ)
      → tcp.length ≡ 32 + length body
      → read_full tcp.length ((layout h ++ body) ++ rest) ≡ ok (layout h ++ body, rest)
  payload_read rest e = rw (e, ← length-frame) (read_full-append (layout h ++ body) rest)

  -- ReadPacket takes exactly one frame off the stream. Where the TCP length is the length of what
  -- follows it, and neither length sum wraps, it returns the two headers with the first DataLength
  -- bytes of the body, nothing where DataLength is 0, and an error where the body is shorter.
  pub read_packet-frame :
      (rest : List ℕ)
      → TcpHeaderFits tcp
      → HeaderFits h
      → tcp.length ≡ 32 + length body
      → 32 + h.data_length < u32_mod
      → read_packet (tcp_layout tcp ++ ((layout h ++ body) ++ rest))
        ≡ (do packet ← framed tcp h body; ok (packet, rest))
  unfolding read_packet
  read_packet-frame rest ft fh e fits =
      rw
        (
          header_read tcp ((layout h ++ body) ++ rest),
          unmarshal_tcp-exact tcp ft,
          payload_read rest e,
        )
        (rw (parse_payload-frame fh (omega (arith, ft.length)) fits))

parse_payload-short :
    (tcp : TcpHeader) (payload : List ℕ)
    → length payload < 32
    → parse_payload tcp (exact payload) ≡ panic
unfolding parse_payload
parse_payload-short tcp payload h =
    rw (slice?-beyond (exact payload) 0 32 (omega arith) (rw append-nil h))

-- ReadPacket panics on every frame whose TCP length is below thirty-two, where as many bytes as it
-- says are there.
read_packet-undersized :
    (tcp : TcpHeader) (payload rest : List ℕ)
    → TcpHeaderFits tcp
    → tcp.length ≡ length payload
    → tcp.length < 32
    → read_packet (tcp_layout tcp ++ (payload ++ rest)) ≡ panic
unfolding read_packet
read_packet-undersized tcp payload rest f e small = simp (
  header_read tcp (payload ++ rest),
  unmarshal_tcp-exact tcp f,
  e,
  read_full-append payload rest,
  parse_payload-short tcp payload (omega arith),
)

-- A packet whose lengths are those of its data, and whose fields are in range.
pub record IsConsistent (p : Packet) : Type 0 where
  pub tcp_fits : TcpHeaderFits p.tcp_header
  pub header_fits : HeaderFits p.header
  pub data_length : p.header.data_length ≡ length p.body.bytes
  pub tcp_length : p.tcp_header.length ≡ 32 + length p.body.bytes
  pub no_spare : p.body.spare ≡ []

framed-whole :
    (tcp : TcpHeader) (h : Header) (xs : List ℕ)
    → h.data_length ≡ length xs
    → framed tcp h xs ≡ ok (record { tcp_header = tcp; header = h; body = exact xs })
unfolding framed
framed-whole tcp h [] e = ground arith
framed-whole tcp h (x ∷ xs) e = ground (
  arith,
  take-length (x ∷ xs),
  drop-length (x ∷ xs),
  ap (λ n. take n (x ∷ xs)) e,
  ap (λ n. drop n (x ∷ xs)) e,
)

-- ReadPacket undoes MarshalBinary: on the bytes of a packet with consistent lengths, whatever
-- follows them in the stream, it returns that packet and leaves what follows.
pub read_packet-marshal :
    (p : Packet) (rest : List ℕ)
    → IsConsistent p
    → (do buf ← marshal p; read_packet (buf ++ rest)) ≡ ok (p, rest)
read_packet-marshal p rest c =
    rw (marshal-wire p, stream_of p rest)
      (read_packet-frame p.tcp_header p.header p.body.bytes rest c.tcp_fits c.header_fits
          c.tcp_length (omega (arith, c.tcp_fits.length, c.tcp_length, c.data_length))
        ∙ ap (λ r. (do packet ← r; ok (packet, rest)))
            (framed-whole p.tcp_header p.header p.body.bytes c.data_length
              ∙ ap (λ xs. ok (record p { body = record p.body { spare = xs } })) (sym c.no_spare)))
  where
    stream_of :
        (p : Packet) (rest : List ℕ)
        → wire p ++ rest ≡ tcp_layout p.tcp_header ++ ((layout p.header ++ p.body.bytes) ++ rest)
    stream_of p rest = unfold wire in append_assoc (tcp_layout p.tcp_header) _ rest

-- NewRequestPacket builds such a packet, for arguments in the range of their types and less than
-- 2^32 - 32 bytes of data.
pub new_request_packet-IsConsistent :
    (target source : NetId) (target_port source_port command_id invoke_id : ℕ) (xs : List ℕ)
    → IsU16 target_port
    → IsU16 source_port
    → IsU16 command_id
    → IsU32 invoke_id
    → 32 + length xs < u32_mod
    → IsConsistent
        (new_request_packet target target_port source source_port command_id invoke_id (exact xs))
unfolding new_request_packet
new_request_packet-IsConsistent target source tp sp cmd inv xs htp hsp hcmd hinv small = record {
  tcp_fits = record { reserved = omega arith; length = omega arith };
  header_fits = record {
    target_port = htp;
    source_port = hsp;
    command_id = hcmd;
    state_flags = omega arith;
    data_length = omega arith;
    error_code = omega arith;
    invoke_id = hinv;
  };
  data_length = omega arith;
  tcp_length = omega arith;
  no_spare = refl;
}
