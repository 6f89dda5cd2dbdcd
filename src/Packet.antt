-- ===== src/Packet.antt =====
-- The data of crates/msgtrans/src/packet.rs: packet types, limits, the fixed header and the packet.
-- A byte is a number below 256, `Bytes` is a list of them. The text of an error message is the data
-- that the source formats it from.
pub mod Header
pub mod Codec
pub mod RoundTrip
pub mod Canonical
pub mod Stream
pub mod Framing
pub mod Compression
pub mod ToyCodecs
mod Tests
use msgtrans.Prelude.{
  ℕ, zero, suc, ◌+◌, ◌*◌, ◌^◌, ◌≤◌, ◌<◌, ◌≡◌, List, [], Result, ok, err, length, All, String,
}

abbrev pub u16_max : ℕ
u16_max = 65535

abbrev pub u32_max : ℕ
u32_max = 4294967295

abbrev pub IsByte : ℕ → Type 0
IsByte b = b < 256

abbrev pub Bytes : Type 0
Bytes = List ℕ

pub data PacketType : Type 0 where
  one_way request response : PacketType

pub data CompressionType : Type 0 where
  no_compression zstd zlib : CompressionType

pub data FramePolicy : Type 0 where
  lenient strict : FramePolicy

-- What the text of `PacketError::InvalidHeader` is formatted from.
pub data HeaderFault : Type 0 where
  header_too_short : HeaderFault
  invalid_packet_type : ℕ → HeaderFault
  invalid_compression : ℕ → HeaderFault

-- What the text of `PacketError::InvalidPacket` is formatted from.
pub data PacketFault : Type 0 where
  trailing_bytes : (consumed len : ℕ) → PacketFault
  packet_incomplete : (len : ℕ) → PacketFault

-- What the text of `PacketError::CompressionError` is: a codec's message, or the size cap passed.
pub data CompressionFault : Type 0 where
  codec_error : String → CompressionFault
  payload_exceeds : (max_size : ℕ) → CompressionFault

pub data PacketError : Type 0 where
  invalid_header : HeaderFault → PacketError
  invalid_packet : PacketFault → PacketError
  unsupported_version : ℕ → PacketError
  frame_too_large : (declared limit : ℕ) → PacketError
  compression_error : CompressionFault → PacketError
  unsupported_compression : String → PacketError

unfoldable pub packet_type_of_u8 : ℕ → Result PacketError PacketType
packet_type_of_u8 zero = ok one_way
packet_type_of_u8 (suc zero) = ok request
packet_type_of_u8 (suc (suc zero)) = ok response
packet_type_of_u8 (suc (suc (suc n))) =
    err (invalid_header (invalid_packet_type (suc (suc (suc n)))))

unfoldable pub u8_of_packet_type : PacketType → ℕ
u8_of_packet_type one_way = 0
u8_of_packet_type request = 1
u8_of_packet_type response = 2

unfoldable pub compression_of_u8 : ℕ → Result PacketError CompressionType
compression_of_u8 zero = ok no_compression
compression_of_u8 (suc zero) = ok zstd
compression_of_u8 (suc (suc zero)) = ok zlib
compression_of_u8 (suc (suc (suc n))) =
    err (invalid_header (invalid_compression (suc (suc (suc n)))))

unfoldable pub u8_of_compression : CompressionType → ℕ
u8_of_compression no_compression = 0
u8_of_compression zstd = 1
u8_of_compression zlib = 2

unfoldable pub frame_policy_of_u8 : ℕ → FramePolicy
frame_policy_of_u8 (suc zero) = strict
frame_policy_of_u8 _ = lenient

pub record DecodeLimits : Type 0 where
  pub max_frame_size : ℕ
  pub max_payload_size : ℕ
  pub max_ext_header_size : ℕ

abbrev pub default_max_frame_size : ℕ
default_max_frame_size = 16 * 1024 * 1024

abbrev pub fixed_header_size : ℕ
fixed_header_size = 16

unfoldable pub default_decode_limits : DecodeLimits
default_decode_limits = record {
  max_frame_size = default_max_frame_size;
  max_payload_size = default_max_frame_size;
  max_ext_header_size = u16_max;
}

-- A u16 of flag bits.
pub record ReservedFlags : Type 0 where
  pub raw : ℕ

pub record FixedHeader : Type 0 where
  pub version : ℕ
  pub compression : CompressionType
  pub packet_type : PacketType
  pub biz_type : ℕ
  pub message_id : ℕ
  pub reserved : ReservedFlags

unfoldable pub new_header : PacketType → ℕ → FixedHeader
new_header packet_type message_id = record {
  version = 1;
  compression = no_compression;
  packet_type = packet_type;
  biz_type = 0;
  message_id = message_id;
  reserved = record { raw = 0 };
}

pub record Packet : Type 0 where
  pub header : FixedHeader
  pub ext_header : Bytes
  pub payload : Bytes

unfoldable pub new_packet : PacketType → ℕ → Packet
unfolding new_header
new_packet packet_type message_id = record {
  header = new_header packet_type message_id;
  ext_header = [];
  payload = [];
}

unfoldable pub set_payload : Packet → Bytes → Packet
set_payload p payload = record p { payload = payload }

-- `Packet::one_way`, `Packet::request` and `Packet::response`.
unfoldable pub one_way_packet : ℕ → Bytes → Packet
unfolding new_packet set_payload
one_way_packet message_id payload = set_payload (new_packet one_way message_id) payload

unfoldable pub request_packet : ℕ → Bytes → Packet
unfolding new_packet set_payload
request_packet message_id payload = set_payload (new_packet request message_id) payload

unfoldable pub response_packet : ℕ → Bytes → Packet
unfolding new_packet set_payload
response_packet message_id payload = set_payload (new_packet response message_id) payload

unfoldable pub response_with_biz : ℕ → ℕ → Bytes → Packet
unfolding response_packet
response_with_biz message_id biz_type payload =
    let p = response_packet message_id payload in
    record p { header = record (p.header) { biz_type = biz_type } }

unfoldable pub set_ext_header : Packet → Bytes → Packet
set_ext_header p ext_header = record p { ext_header = ext_header }

unfoldable pub set_compression : Packet → CompressionType → Packet
set_compression p c = record p { header = record (p.header) { compression = c } }

unfoldable pub set_biz_type : Packet → ℕ → Packet
set_biz_type p b = record p { header = record (p.header) { biz_type = b } }

unfoldable pub total_len : Packet → ℕ
total_len p = 16 + length p.ext_header + length p.payload

-- The field values that the Rust types allow, with the version that `FixedHeader::new` writes.
pub record IsHeader (h : FixedHeader) : Type 0 where
  pub version_one : h.version ≡ 1
  pub biz_type_u8 : h.biz_type < 256
  pub message_id_u32 : h.message_id < 2 ^ 32
  pub reserved_u16 : (h.reserved).raw < 2 ^ 16

pub record IsPacket (p : Packet) : Type 0 where
  pub header_valid : IsHeader p.header
  pub ext_header_bytes : All IsByte p.ext_header
  pub payload_bytes : All IsByte p.payload
