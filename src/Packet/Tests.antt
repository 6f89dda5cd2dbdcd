-- ===== src/Packet/Tests.antt =====
-- The packet codec at concrete bytes.
use msgtrans.Prelude.{◌≤◌, ◌≡◌, ◌≢◌, refl, [], ◌∷◌, ◌++◌, none, some, ok, length, take, All, arith}
use msgtrans.Packet.Compression.{
  compress_payload, compress_as, compress_data, within, decompress_payload_with_limit,
  decompress_as, decompress_data_with_limit, decompress_payload_with_limit-compress_payload,
}
use msgtrans.Packet.ToyCodecs.{toy_codecs, toy_codecs-Laws}
use msgtrans.Packet.{
  Bytes, IsByte, Packet, FixedHeader, DecodeLimits, request, u8_of_compression, u8_of_packet_type,
  compression_of_u8, packet_type_of_u8, zlib, total_len, IsHeader, IsPacket,
}
use msgtrans.Packet.Header.{
  to_bytes, from_bytes, u16_to_be_bytes, u32_to_be_bytes, u16_from_be_bytes, u32_from_be_bytes,
}
use msgtrans.Packet.Codec.{
  try_encode, decode_one_with, frame_layout, check_layout, carve, frame_len, Fits,
}
use msgtrans.Packet.RoundTrip.{decode_one_with-try_encode}
use msgtrans.Packet.Canonical.{try_encode-decode_one_with}
use msgtrans.Packet.Stream.{decode_one_with-append}

abbrev query_header : FixedHeader
query_header = record {
  version = 1;
  compression = zlib;
  packet_type = request;
  biz_type = 7;
  message_id = 65538;
  reserved = record { raw = 259 };
}

abbrev query : Packet
query = record { header = query_header; ext_header = 10 ∷ 11 ∷ []; payload = 20 ∷ 21 ∷ 22 ∷ [] }

-- The frame of `query`.
abbrev query_bytes : Bytes
query_bytes =
    1 ∷ 2 ∷ 1 ∷ 7 ∷ 0 ∷ 1 ∷ 0 ∷ 2 ∷ 0 ∷ 2 ∷ 0 ∷ 0 ∷ 0 ∷ 3 ∷ 1 ∷ 3 ∷ 10 ∷ 11 ∷ 20 ∷ 21 ∷ 22 ∷ []

abbrev small_limits : DecodeLimits
small_limits = record { max_frame_size = 40; max_payload_size = 20; max_ext_header_size = 4 }

query_header-IsHeader : IsHeader query_header
query_header-IsHeader = record {
  version_one = refl;
  biz_type_u8 = omega arith;
  message_id_u32 = omega arith;
  reserved_u16 = omega arith;
}

query-IsPacket : IsPacket query
query-IsPacket = record {
  header_valid = query_header-IsHeader;
  ext_header_bytes = ground arith;
  payload_bytes = ground arith;
}

query-Fits : Fits small_limits query
query-Fits = record {
  payload_fits = omega arith;
  ext_header_fits = omega arith;
  frame_fits = omega arith;
  ext_header_u16 = omega arith;
  payload_u32 = omega arith;
}

query_bytes-IsByte : All IsByte query_bytes
query_bytes-IsByte = ground arith

try_encode-query : try_encode query ≡ ok query_bytes
unfolding try_encode to_bytes u16_to_be_bytes u32_to_be_bytes u8_of_compression u8_of_packet_type
try_encode-query = refl

decode_one_with-query :
    decode_one_with (query_bytes ++ (1 ∷ [])) small_limits ≡ ok (some (query, 21))
unfolding decode_one_with frame_layout check_layout carve from_bytes u16_from_be_bytes
    u32_from_be_bytes compression_of_u8 packet_type_of_u8
decode_one_with-query = refl

decode_one_with-query_short : decode_one_with (take 20 query_bytes) small_limits ≡ ok none
unfolding decode_one_with frame_layout check_layout carve from_bytes u16_from_be_bytes
    u32_from_be_bytes compression_of_u8 packet_type_of_u8
decode_one_with-query_short = refl

decode_one_with-query_alone : decode_one_with query_bytes small_limits ≡ ok (some (query, 21))
unfolding decode_one_with frame_layout check_layout carve from_bytes u16_from_be_bytes
    u32_from_be_bytes compression_of_u8 packet_type_of_u8
decode_one_with-query_alone = refl

from_bytes-query : from_bytes (take 16 query_bytes) ≡ ok (query_header, 2, 3)
unfolding from_bytes u16_from_be_bytes u32_from_be_bytes compression_of_u8 packet_type_of_u8
from_bytes-query = refl

frame_len-query : frame_len (query_bytes ++ (1 ∷ [])) small_limits ≡ ok (some 21)
unfolding frame_len frame_layout check_layout from_bytes u16_from_be_bytes u32_from_be_bytes
    compression_of_u8 packet_type_of_u8
frame_len-query = refl

decode_one_with-try_encode_example :
    (bytes : Bytes) × (try_encode query ≡ ok bytes)
    × (length bytes ≡ total_len query)
    × (decode_one_with (bytes ++ (9 ∷ [])) small_limits ≡ ok (some (query, length bytes)))
decode_one_with-try_encode_example =
    decode_one_with-try_encode query small_limits (9 ∷ []) query-IsPacket query-Fits

try_encode-decode_one_with_example :
    IsPacket query
    × Fits small_limits query
    × (21 ≡ total_len query)
    × (21 ≤ 22)
    × (try_encode query ≡ ok (take 21 (query_bytes ++ (1 ∷ []))))
try_encode-decode_one_with_example =
    try_encode-decode_one_with (query_bytes ++ (1 ∷ [])) small_limits query 21 (ground arith)
      decode_one_with-query

decided : decode_one_with query_bytes small_limits ≢ ok none
decided h = let e = decode_one_with-query_alone in cc

decode_one_with-append_example :
    decode_one_with (query_bytes ++ (1 ∷ 2 ∷ [])) small_limits
    ≡ decode_one_with query_bytes small_limits
decode_one_with-append_example =
    decode_one_with-append query_bytes (1 ∷ 2 ∷ []) small_limits decided

abbrev packed_query : Packet
packed_query = record query { payload = 120 ∷ 20 ∷ 21 ∷ 22 ∷ [] }

compress_payload-query : compress_payload toy_codecs query ≡ ok packed_query
unfolding compress_payload compress_as compress_data
compress_payload-query = refl

decompress_payload-query : decompress_payload_with_limit toy_codecs packed_query 3 ≡ ok query
unfolding decompress_payload_with_limit decompress_as decompress_data_with_limit within
decompress_payload-query = refl

decompress_payload_with_limit-compress_payload_example :
    decompress_payload_with_limit toy_codecs packed_query 3 ≡ ok query
decompress_payload_with_limit-compress_payload_example =
    decompress_payload_with_limit-compress_payload toy_codecs toy_codecs-Laws query packed_query 3
      compress_payload-query (omega arith) (omega arith)
