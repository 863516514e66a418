-- ===== src/Ams/Header.antt =====
-- internal/ams/header.go and constants.go: the two headers and their codecs.
pub mod RoundTrip
use Prim.Native.Nat.{bit_and, bit_or}
use goadstc.Base.{
  ℕ, ◌<◌, Bool, not, List, [], ◌∷◌, length, get_or, replicate, shorter, ◌==◌, if◌then◌else◌,
}
use goadstc.Go.{
  Result, ok, err, ◌>>=◌, Slice, slice, read16, read32, put16, put32, copy_to, IsByte, IsU16, IsU32,
}

-- StateFlagResponse, StateFlagADS, StateFlagUDP and their combinations.
abbrev pub state_flag_response : ℕ
state_flag_response = 0x0001

abbrev pub state_flag_ads : ℕ
state_flag_ads = 0x0004

abbrev pub state_flag_udp : ℕ
state_flag_udp = 0x0080

abbrev pub state_flags_tcp_request : ℕ
state_flags_tcp_request = state_flag_ads

abbrev pub state_flags_tcp_response : ℕ
state_flags_tcp_response = bit_or state_flag_ads state_flag_response

-- type NetID [6]byte
pub record NetId : Type 0 where
  pub b0 : ℕ
  pub b1 : ℕ
  pub b2 : ℕ
  pub b3 : ℕ
  pub b4 : ℕ
  pub b5 : ℕ

-- `n[:]`
abbrev pub net_bytes : NetId → List ℕ
net_bytes n = n.b0 ∷ n.b1 ∷ n.b2 ∷ n.b3 ∷ n.b4 ∷ n.b5 ∷ []

-- `copy(n[:], src)`
abbrev pub copy_net_id : NetId → List ℕ → NetId
copy_net_id n src = record {
  b0 = get_or src 0 n.b0;
  b1 = get_or src 1 n.b1;
  b2 = get_or src 2 n.b2;
  b3 = get_or src 3 n.b3;
  b4 = get_or src 4 n.b4;
  b5 = get_or src 5 n.b5;
}

pub record TcpHeader : Type 0 where
  pub reserved : ℕ
  pub length : ℕ

pub record Header : Type 0 where
  pub target_net_id : NetId
  pub target_port : ℕ
  pub source_net_id : NetId
  pub source_port : ℕ
  pub command_id : ℕ
  pub state_flags : ℕ
  pub data_length : ℕ
  pub error_code : ℕ
  pub invoke_id : ℕ

-- The failures of io.ReadFull.
pub data IoError : Type 0 where
  eof unexpected_eof : IoError

-- The errors of the package, with the values that their texts print.
pub data Error : Type 0 where
  tcp_header_short : ℕ → Error
  header_short : ℕ → Error
  packet_short : ℕ → Error
  data_mismatch : ℕ → ℕ → Error
  insufficient_data : ℕ → ℕ → Error
  read_tcp_header : IoError → Error
  read_payload : IoError → Error
  unmarshal_tcp_header : Error → Error
  unmarshal_header : Error → Error
  marshal_tcp_header : Error → Error
  marshal_header : Error → Error

-- (*TCPHeader).MarshalBinary
unfoldable pub marshal_tcp : TcpHeader → Result Error (List ℕ)
marshal_tcp h = do
  let buf : List ℕ = replicate 6 0
  buf ← put16 h.reserved 0 buf
  buf ← put32 h.length 2 buf
  ok buf

-- (*TCPHeader).UnmarshalBinary
unfoldable pub unmarshal_tcp : Slice → Result Error TcpHeader
unmarshal_tcp data_in =
    if shorter data_in.bytes 6 then err (tcp_header_short (length data_in.bytes)) else do
      reserved ← read16 data_in 0 2
      len ← read32 data_in 2 6
      ok (record { reserved = reserved; length = len })

-- (*Header).MarshalBinary
unfoldable pub marshal : Header → Result Error (List ℕ)
marshal h = do
  let buf : List ℕ = replicate 32 0
  buf ← copy_to (net_bytes h.target_net_id) 0 buf
  buf ← put16 h.target_port 6 buf
  buf ← copy_to (net_bytes h.source_net_id) 8 buf
  buf ← put16 h.source_port 14 buf
  buf ← put16 h.command_id 16 buf
  buf ← put16 h.state_flags 18 buf
  buf ← put32 h.data_length 20 buf
  buf ← put32 h.error_code 24 buf
  buf ← put32 h.invoke_id 28 buf
  ok buf

-- (*Header).UnmarshalBinary; `h` is the receiver before the call.
unfoldable pub unmarshal : Header → Slice → Result Error Header
unmarshal h data_in =
    if shorter data_in.bytes 32 then err (header_short (length data_in.bytes)) else do
      target ← slice data_in 0 6
      target_port ← read16 data_in 6 8
      source ← slice data_in 8 14
      source_port ← read16 data_in 14 16
      command_id ← read16 data_in 16 18
      state_flags ← read16 data_in 18 20
      data_length ← read32 data_in 20 24
      error_code ← read32 data_in 24 28
      invoke_id ← read32 data_in 28 32
      ok (record {
        target_net_id = copy_net_id h.target_net_id target.bytes;
        target_port = target_port;
        source_net_id = copy_net_id h.source_net_id source.bytes;
        source_port = source_port;
        command_id = command_id;
        state_flags = state_flags;
        data_length = data_length;
        error_code = error_code;
        invoke_id = invoke_id;
      })

unfoldable pub is_request : Header → Bool
is_request h = bit_and h.state_flags state_flag_response == 0

unfoldable pub is_response : Header → Bool
is_response h = not (bit_and h.state_flags state_flag_response == 0)

-- The ranges of Go's field types.
pub record TcpHeaderFits (h : TcpHeader) : Type 0 where
  pub reserved : IsU16 h.reserved
  pub length : IsU32 h.length

pub record HeaderFits (h : Header) : Type 0 where
  pub target_port : IsU16 h.target_port
  pub source_port : IsU16 h.source_port
  pub command_id : IsU16 h.command_id
  pub state_flags : IsU16 h.state_flags
  pub data_length : IsU32 h.data_length
  pub error_code : IsU32 h.error_code
  pub invoke_id : IsU32 h.invoke_id
