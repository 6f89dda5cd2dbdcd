-- ===== src/Packet/Codec.antt =====
-- packet.rs, the encoder `Packet::try_encode` and the decoders over `Packet::frame_layout`.
use msgtrans.Prelude.{
  ℕ, ◌+◌, ◌-◌, ◌≤◌, [], ◌++◌, Option, none, some, Result, ok, err, ◌>>=◌, length, drop, take, ltb,
  ◌==◌, not, if◌then◌else◌,
}
use msgtrans.Packet.{
  Bytes, u16_max, u32_max, PacketError, invalid_packet, trailing_bytes, packet_incomplete,
  frame_too_large, DecodeLimits, default_decode_limits, FixedHeader, Packet,
}
use msgtrans.Packet.Header.{to_bytes, from_bytes}

-- `&bytes[lo..hi]`, for `lo ≤ hi ≤ bytes.len()`, and `Bytes::slice`.
abbrev pub slice : ℕ → ℕ → Bytes → Bytes
slice lo hi bytes = take (hi - lo) (drop lo bytes)

unfoldable pub try_encode : Packet → Result PacketError Bytes
try_encode p =
    let ext_len = length p.ext_header in
    let payload_len = length p.payload in
    if ltb u16_max ext_len
    then err (frame_too_large ext_len u16_max)
    else (if ltb u32_max payload_len
        then err (frame_too_large payload_len u32_max)
        else ok (to_bytes p.header ext_len payload_len ++ (p.ext_header ++ p.payload)))

pub record FrameLayout : Type 0 where
  pub header : FixedHeader
  pub ext_header_len : ℕ
  pub payload_len : ℕ
  pub ext_end : ℕ
  pub total : ℕ

-- The checks of `frame_layout` after the header has been parsed: `available` is `bytes.len()`.
unfoldable pub check_layout :
    DecodeLimits → ℕ → FixedHeader × ℕ × ℕ → Result PacketError (Option FrameLayout)
check_layout limits available (header, ext_header_len, payload_len) =
    let declared = 16 + ext_header_len + payload_len in
    if ltb limits.max_payload_size payload_len
    then err (frame_too_large payload_len limits.max_payload_size)
    else (if ltb limits.max_ext_header_size ext_header_len
        then err (frame_too_large ext_header_len limits.max_ext_header_size)
        else (if ltb limits.max_frame_size declared
            then err (frame_too_large declared limits.max_frame_size)
            else (if ltb available declared
                then ok none
                else ok (
                    some (record {
                      header = header;
                      ext_header_len = ext_header_len;
                      payload_len = payload_len;
                      ext_end = 16 + ext_header_len;
                      total = declared;
                    })))))

unfoldable pub frame_layout : Bytes → DecodeLimits → Result PacketError (Option FrameLayout)
frame_layout bytes limits =
    if ltb (length bytes) 16
    then ok none
    else (from_bytes (slice 0 16 bytes) >>= check_layout limits (length bytes))

-- The packet cut out of the buffer along its layout.
unfoldable pub carve : Bytes → FrameLayout → Packet × ℕ
carve bytes layout = (record { header = header; ext_header = ext; payload = body }, total)
  where
    open layout use {header, ext_header_len, payload_len, ext_end, total}

    ext : Bytes
    ext = if ltb 0 ext_header_len then slice 16 ext_end bytes else []

    body : Bytes
    body = if ltb 0 payload_len then slice ext_end total bytes else []

abbrev pub map_layout {ℓ} : {A : Type ℓ} → (FrameLayout → A) → Option FrameLayout → Option A
map_layout f none = none
map_layout f (some l) = some (f l)

unfoldable pub decode_one_with : Bytes → DecodeLimits → Result PacketError (Option (Packet × ℕ))
decode_one_with bytes limits = do
  layout ← frame_layout bytes limits
  ok (map_layout (carve bytes) layout)

-- On an owned buffer: the slices share its memory, the bytes are the same.
unfoldable pub decode_one_from : Bytes → DecodeLimits → Result PacketError (Option (Packet × ℕ))
decode_one_from buf limits = do layout ← frame_layout buf limits; ok (map_layout (carve buf) layout)

unfoldable pub decode_one : Bytes → Result PacketError (Option (Packet × ℕ))
unfolding decode_one_with
decode_one bytes = decode_one_with bytes default_decode_limits

unfoldable pub frame_len : Bytes → DecodeLimits → Result PacketError (Option ℕ)
frame_len bytes limits = do
  layout ← frame_layout bytes limits
  ok (map_layout (λ l. l.total) layout)

-- The buffer holds one packet of that size and nothing else.
unfoldable pub exactly : ℕ → Option (Packet × ℕ) → Result PacketError Packet
exactly len (some (packet, consumed)) =
    if not (consumed == len) then err (invalid_packet (trailing_bytes consumed len)) else ok packet
exactly len none = err (invalid_packet (packet_incomplete len))

unfoldable pub decode_exact_with : Bytes → DecodeLimits → Result PacketError Packet
unfolding exactly
decode_exact_with bytes limits = decode_one_with bytes limits >>= exactly (length bytes)

unfoldable pub decode_exact_from : Bytes → DecodeLimits → Result PacketError Packet
unfolding exactly
decode_exact_from frame limits = decode_one_from frame limits >>= exactly (length frame)

unfoldable pub decode_exact : Bytes → Result PacketError Packet
unfolding decode_exact_with
decode_exact bytes = decode_exact_with bytes default_decode_limits

-- `Packet::from_bytes`.
unfoldable pub packet_from_bytes : Bytes → Result PacketError Packet
unfolding decode_exact
packet_from_bytes bytes = decode_exact bytes

-- What the limits let through, for a packet that is being decoded.
pub record Fits (limits : DecodeLimits) (p : Packet) : Type 0 where
  pub payload_fits : length p.payload ≤ limits.max_payload_size
  pub ext_header_fits : length p.ext_header ≤ limits.max_ext_header_size
  pub frame_fits : 16 + length p.ext_header + length p.payload ≤ limits.max_frame_size
  pub ext_header_u16 : length p.ext_header ≤ u16_max
  pub payload_u32 : length p.payload ≤ u32_max
