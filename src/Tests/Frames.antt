-- ===== src/Tests/Frames.antt =====
-- Runs of internal/ams on concrete packets.
use goadstc.Base.{◌≡◌, [], ◌∷◌, ◌++◌, arith}
use goadstc.Go.{ok, ◌>>=◌, exact}
use goadstc.Ams.Header.{NetId, HeaderFits}
use goadstc.Ams.Header.RoundTrip.{tcp_layout, layout}
use goadstc.Ams.Packet
use goadstc.Ams.Packet.{new_request_packet, read_packet}
use goadstc.Ams.Packet.Frames.{
  framed, IsConsistent, read_packet-frame, read_packet-marshal, new_request_packet-IsConsistent,
}
use goadstc.Ams.Packet.Whole.{received, unmarshal-marshal_packet}

abbrev pub plc : NetId
plc = record { b0 = 5; b1 = 12; b2 = 9; b3 = 1; b4 = 1; b5 = 1 }

abbrev pub pc : NetId
pc = record { b0 = 192; b1 = 168; b2 = 0; b3 = 7; b4 = 1; b5 = 1 }

-- A read of eleven bytes, by port 32905 from port 851.
abbrev request : Packet.Packet
request = new_request_packet plc 851 pc 32905 2 7 (exact (1 ∷ 2 ∷ 3 ∷ []))

-- What a receiver held before.
abbrev stale : Packet.Packet
stale = new_request_packet pc 1 plc 2 9 1 (exact (4 ∷ []))

request-IsConsistent : IsConsistent request
request-IsConsistent =
    new_request_packet-IsConsistent plc pc 851 32905 2 7 (1 ∷ 2 ∷ 3 ∷ []) (omega arith)
      (omega arith) (omega arith) (omega arith) (omega arith)

request-HeaderFits : HeaderFits request.header
request-HeaderFits = request-IsConsistent.header_fits

read_packet-marshal_example :
    (do buf ← Packet.marshal request; read_packet (buf ++ (0 ∷ 0 ∷ []))) ≡ ok (request, 0 ∷ 0 ∷ [])
read_packet-marshal_example = read_packet-marshal request (0 ∷ 0 ∷ []) request-IsConsistent

unmarshal-marshal_packet_example :
    (do buf ← Packet.marshal request; Packet.unmarshal stale (exact buf))
    ≡ ok (record request { body = received stale.body request.body.bytes })
unfolding new_request_packet
unmarshal-marshal_packet_example =
    unmarshal-marshal_packet stale request request-IsConsistent (omega arith)

read_packet-frame_example :
    read_packet
      (tcp_layout request.tcp_header ++ ((layout request.header ++ (1 ∷ 2 ∷ 3 ∷ [])) ++ (9 ∷ [])))
    ≡ (do packet ← framed request.tcp_header request.header (1 ∷ 2 ∷ 3 ∷ []); ok (packet, 9 ∷ []))
unfolding new_request_packet
read_packet-frame_example =
    read_packet-frame request.tcp_header request.header (1 ∷ 2 ∷ 3 ∷ []) (9 ∷ [])
      request-IsConsistent.tcp_fits request-HeaderFits (omega arith) (omega arith)
