-- ===== src/Ams/Packet.antt =====
-- internal/ams/packet.go: whole packets, written to and read from a byte stream.
pub mod Frames
pub mod Whole
use goadstc.Base.{
  ℕ, ◌+◌, ◌%◌, ◌^◌, ◌<◌, ◌≡◌, none, some, List, [], ◌∷◌, length, ltb, replicate, shorter,
  if◌then◌else◌,
}
use goadstc.Go.{Result, ok, err, ◌>>=◌, wrap, Slice, exact, slice, split_at?, copy, copy_to, IsU32}
use goadstc.Ams.Header.{
  NetId, TcpHeader, Header, IoError, eof, unexpected_eof, Error, packet_short, data_mismatch,
  insufficient_data, read_tcp_header, read_payload, unmarshal_tcp_header, unmarshal_header,
  marshal_tcp_header, marshal_header, marshal_tcp, unmarshal_tcp, state_flags_tcp_request,
}
use goadstc.Ams.Header

pub record Packet : Type 0 where
  pub tcp_header : TcpHeader
  pub header : Header
  pub body : Slice

abbrev pub u32_mod : ℕ
u32_mod = 2 ^ 32

-- NewRequestPacket; lengths are `uint32(len(data))`.
unfoldable pub new_request_packet : NetId → ℕ → NetId → ℕ → ℕ → ℕ → Slice → Packet
new_request_packet target target_port source source_port command_id invoke_id body = record {
  tcp_header = record { reserved = 0; length = (32 + length body.bytes % u32_mod) % u32_mod };
  header = record {
    target_net_id = target;
    target_port = target_port;
    source_net_id = source;
    source_port = source_port;
    command_id = command_id;
    state_flags = state_flags_tcp_request;
    data_length = length body.bytes % u32_mod;
    error_code = 0;
    invoke_id = invoke_id;
  };
  body = body;
}

-- (*Packet).MarshalBinary
unfoldable pub marshal : Packet → Result Error (List ℕ)
marshal p = do
  tcp_buf ← wrap marshal_tcp_header (marshal_tcp p.tcp_header)
  ams_buf ← wrap marshal_header (Header.marshal p.header)
  let buf : List ℕ = replicate (length tcp_buf + length ams_buf + length p.body.bytes) 0
  buf ← copy_to tcp_buf 0 buf
  buf ← copy_to ams_buf (length tcp_buf) buf
  buf ← copy_to p.body.bytes (length tcp_buf + length ams_buf) buf
  ok buf

-- The last part of (*Packet).UnmarshalBinary: Data keeps its old value where DataLength is 0.
unmarshal_data : Packet → Slice → TcpHeader → Header → Result Error Packet
unmarshal_data p data_in tcp header =
    if ltb 0 header.data_length
    then (do
      part ← slice data_in 38 ((38 + header.data_length) % u32_mod)
      ok (record {
        tcp_header = tcp;
        header = header;
        body = exact (copy (replicate header.data_length 0) part.bytes);
      }))
    else ok (record { tcp_header = tcp; header = header; body = p.body })

-- (*Packet).UnmarshalBinary; `p` is the receiver before the call.
unfoldable pub unmarshal : Packet → Slice → Result Error Packet
unfolding unmarshal_data
unmarshal p data_in =
    if shorter data_in.bytes 38 then err (packet_short (length data_in.bytes)) else do
      tcp_part ← slice data_in 0 6
      tcp ← wrap unmarshal_tcp_header (unmarshal_tcp tcp_part)
      ams_part ← slice data_in 6 38
      header ← wrap unmarshal_header (Header.unmarshal p.header ams_part)
      let expected = (6 + tcp.length) % u32_mod
      if ltb (length data_in.bytes % u32_mod) expected
          then err (data_mismatch expected (length data_in.bytes))
          else unmarshal_data p data_in tcp header

-- The zero value of Header.
abbrev pub zero_header : Header
zero_header = record {
  target_net_id = zero_id;
  target_port = 0;
  source_net_id = zero_id;
  source_port = 0;
  command_id = 0;
  state_flags = 0;
  data_length = 0;
  error_code = 0;
  invoke_id = 0;
}
  where
    zero_id : NetId
    zero_id = record { b0 = 0; b1 = 0; b2 = 0; b3 = 0; b4 = 0; b5 = 0 }

-- io.ReadFull on the bytes that the peer will have sent before it closes: `n` bytes and the rest.
unfoldable pub read_full : ℕ → List ℕ → Result IoError (List ℕ × List ℕ)
read_full n stream = elim (split_at? n stream) [
  | none ↦ (elim stream [ [] ↦ err eof | x ∷ xs ↦ err unexpected_eof ])
  | some p ↦ ok p
]

-- The data of ReadPacket, a part of the payload.
read_data : Slice → Header → Result Error Slice
read_data payload header =
    if ltb 0 header.data_length
    then (let end = (32 + header.data_length) % u32_mod in
        if ltb (length payload.bytes % u32_mod) end
        then err (insufficient_data end (length payload.bytes))
        else slice payload 32 end)
    else ok (exact [])

-- ReadPacket from the payload on.
unfoldable pub parse_payload : TcpHeader → Slice → Result Error Packet
unfolding read_data
parse_payload tcp payload = do
  ams_part ← slice payload 0 32
  header ← wrap unmarshal_header (Header.unmarshal zero_header ams_part)
  body ← read_data payload header
  ok (record { tcp_header = tcp; header = header; body = body })

-- ReadPacket: the packet, and what is left of the stream.
unfoldable pub read_packet : List ℕ → Result Error (Packet × List ℕ)
unfolding read_full
read_packet stream = do
  (tcp_buf, stream) ← wrap read_tcp_header (read_full 6 stream)
  tcp ← wrap unmarshal_tcp_header (unmarshal_tcp (exact tcp_buf))
  (payload_buf, stream) ← wrap read_payload (read_full tcp.length stream)
  packet ← parse_payload tcp (exact payload_buf)
  ok (packet, stream)
