-- ===== src/Packet/Header.antt =====
-- packet.rs, `FixedHeader::to_bytes` and `FixedHeader::from_bytes`: the 16 bytes of the header.
use msgtrans.Prelude.{
  ℕ, ◌+◌, ◌*◌, ◌/◌, ◌%◌, ◌^◌, ◌<◌, ◌≡◌, refl, [], ◌∷◌, ◌++◌, Result, ok, err, ◌>>=◌, length, get_or,
  All, ltb, ◌==◌, not, if◌then◌else◌, arith,
}
use msgtrans.Packet.{
  Bytes, IsByte, PacketType, one_way, request, response, CompressionType, no_compression, zstd,
  zlib, PacketError, invalid_header, header_too_short, unsupported_version, packet_type_of_u8,
  u8_of_packet_type, compression_of_u8, u8_of_compression, FixedHeader, IsHeader,
}

unfoldable pub u16_to_be_bytes : ℕ → Bytes
u16_to_be_bytes v = (v / 256 % 256) ∷ (v % 256) ∷ []

unfoldable pub u32_to_be_bytes : ℕ → Bytes
u32_to_be_bytes v = (v / 16777216 % 256) ∷ (v / 65536 % 256) ∷ (v / 256 % 256) ∷ (v % 256) ∷ []

unfoldable pub u16_from_be_bytes : ℕ → ℕ → ℕ
u16_from_be_bytes a b = a * 256 + b

unfoldable pub u32_from_be_bytes : ℕ → ℕ → ℕ → ℕ → ℕ
u32_from_be_bytes a b c d = a * 16777216 + b * 65536 + c * 256 + d

unfoldable pub to_bytes : FixedHeader → ℕ → ℕ → Bytes
unfolding u16_to_be_bytes u32_to_be_bytes
to_bytes h ext_header_len payload_len =
    h.version
    ∷ u8_of_compression h.compression
    ∷ u8_of_packet_type h.packet_type
    ∷ h.biz_type
    ∷ (u32_to_be_bytes h.message_id
        ++ (u16_to_be_bytes ext_header_len
            ++ (u32_to_be_bytes payload_len ++ u16_to_be_bytes (h.reserved).raw)))

-- The fields after the version, in the order of the source's checks.
unfoldable pub from_fields : Bytes → Result PacketError (FixedHeader × ℕ × ℕ)
unfolding u16_from_be_bytes u32_from_be_bytes
from_fields bytes = do
  compression ← compression_of_u8 (byte 1)
  packet_type ← packet_type_of_u8 (byte 2)
  ok (
    record {
      version = byte 0;
      compression = compression;
      packet_type = packet_type;
      biz_type = byte 3;
      message_id = u32_from_be_bytes (byte 4) (byte 5) (byte 6) (byte 7);
      reserved = record { raw = u16_from_be_bytes (byte 14) (byte 15) };
    },
    u16_from_be_bytes (byte 8) (byte 9),
    u32_from_be_bytes (byte 10) (byte 11) (byte 12) (byte 13),
  )
  where
    byte : ℕ → ℕ
    byte i = get_or bytes i 0

unfoldable pub from_bytes : Bytes → Result PacketError (FixedHeader × ℕ × ℕ)
unfolding from_fields
from_bytes bytes =
    if ltb (length bytes) 16
    then err (invalid_header header_too_short)
    else (if not (get_or bytes 0 0 == 1)
        then err (unsupported_version (get_or bytes 0 0))
        else from_fields bytes)

packet_type_of_u8-u8_of_packet_type :
    (t : PacketType) → packet_type_of_u8 (u8_of_packet_type t) ≡ ok t
unfolding packet_type_of_u8 u8_of_packet_type
packet_type_of_u8-u8_of_packet_type one_way = refl
packet_type_of_u8-u8_of_packet_type request = refl
packet_type_of_u8-u8_of_packet_type response = refl

compression_of_u8-u8_of_compression :
    (c : CompressionType) → compression_of_u8 (u8_of_compression c) ≡ ok c
unfolding compression_of_u8 u8_of_compression
compression_of_u8-u8_of_compression no_compression = refl
compression_of_u8-u8_of_compression zstd = refl
compression_of_u8-u8_of_compression zlib = refl

u8_of_packet_type-packet_type_of_u8 :
    (n : ℕ) (t : PacketType) → packet_type_of_u8 n ≡ ok t → u8_of_packet_type t ≡ n
unfolding packet_type_of_u8 u8_of_packet_type
u8_of_packet_type-packet_type_of_u8 n t h = ground arith

u8_of_compression-compression_of_u8 :
    (n : ℕ) (c : CompressionType) → compression_of_u8 n ≡ ok c → u8_of_compression c ≡ n
unfolding compression_of_u8 u8_of_compression
u8_of_compression-compression_of_u8 n c h = ground arith

u16_round : (v : ℕ) → v < 2 ^ 16 → u16_from_be_bytes (v / 256 % 256) (v % 256) ≡ v
unfolding u16_from_be_bytes
u16_round v h = omega arith

u32_round :
    (v : ℕ)
    → v < 2 ^ 32
    → u32_from_be_bytes (v / 16777216 % 256) (v / 65536 % 256) (v / 256 % 256) (v % 256) ≡ v
unfolding u32_from_be_bytes
u32_round v h = omega arith

-- A header whose fields have their Rust types' range and whose version is 1 reads back as it was
-- written, with the two lengths.
pub from_bytes-to_bytes :
    (h : FixedHeader) (e p : ℕ)
    → IsHeader h
    → e < 2 ^ 16
    → p < 2 ^ 32
    → from_bytes (to_bytes h e p) ≡ ok (h, e, p)
unfolding from_bytes to_bytes
from_bytes-to_bytes h e p v he hp = rw v.version_one (
    ground (
      arith,
      compression_of_u8-u8_of_compression h.compression,
      packet_type_of_u8-u8_of_packet_type h.packet_type,
      u32_round h.message_id v.message_id_u32,
      u16_round e,
      u32_round p,
      u16_round (h.reserved).raw v.reserved_u16,
    ))

u16_bytes : (a b : ℕ) → IsByte a → IsByte b → u16_to_be_bytes (u16_from_be_bytes a b) ≡ a ∷ b ∷ []
unfolding u16_to_be_bytes u16_from_be_bytes
u16_bytes a b ha hb = ground arith

u32_bytes :
    (a b c d : ℕ)
    → IsByte a
    → IsByte b
    → IsByte c
    → IsByte d
    → u32_to_be_bytes (u32_from_be_bytes a b c d) ≡ a ∷ b ∷ c ∷ d ∷ []
unfolding u32_to_be_bytes u32_from_be_bytes
u32_bytes a b c d ha hb hc hd = ground arith

-- When 16 bytes parse as a header, its fields and the two lengths are in range and are written to
-- exactly those bytes.
pub to_bytes-from_bytes :
    (bytes : Bytes) (h : FixedHeader) (e p : ℕ)
    → length bytes ≡ 16
    → All IsByte bytes
    → from_bytes bytes ≡ ok (h, e, p)
    → (to_bytes h e p ≡ bytes) × IsHeader h × (e < 2 ^ 16) × (p < 2 ^ 32)
unfolding from_bytes to_bytes
to_bytes-from_bytes
      (b0 ∷ b1 ∷ b2 ∷ b3 ∷ b4 ∷ b5 ∷ b6 ∷ b7 ∷ b8 ∷ b9 ∷ b10 ∷ b11 ∷ b12 ∷ b13 ∷ b14 ∷ b15 ∷ []) h e
      p l v r =
    ground (
      arith,
      u8_of_compression-compression_of_u8 b1 h.compression,
      u8_of_packet_type-packet_type_of_u8 b2 h.packet_type,
    )
to_bytes-from_bytes _ h e p l v r = absurd (omega arith)

pub length-to_bytes : (h : FixedHeader) (e p : ℕ) → length (to_bytes h e p) ≡ 16
unfolding to_bytes
length-to_bytes h e p = refl
