-- ===== src/Tcp/Tests.antt =====
-- The TCP read side at concrete bytes.
use msgtrans.Prelude.{
  ◌⊎◌, none, ◌≤◌, length, ◌≡◌, refl, List, [], ◌∷◌, ◌++◌, some, ok, err, Bool, true, false, arith,
}
use msgtrans.Packet.{
  Bytes, Packet, DecodeLimits, request, one_way, no_compression, u8_of_compression,
  u8_of_packet_type, compression_of_u8, packet_type_of_u8, frame_too_large, unsupported_version,
}
use msgtrans.Packet.Header.{
  to_bytes, from_bytes, from_fields, u16_to_be_bytes, u32_to_be_bytes, u16_from_be_bytes,
  u32_from_be_bytes,
}
use msgtrans.Packet.Codec.{
  try_encode, frame_layout, check_layout, frame_len, decode_exact_from, decode_one_from, exactly,
  carve,
}
use msgtrans.Packet.RoundTrip.{frame}
use msgtrans.Tcp.{
  ReadBuffer, is_valid_header, is_valid_header_at, try_resync_frame, try_parse_next_packet,
  new_read_loop, read_loop, reading, take_frame, parse_loop, parse_round, on_frame_len,
  buffer_overflow,
}
use msgtrans.Tcp.Resync.{any_header, Resyncs, try_resync_frame-Resyncs}
use msgtrans.Tcp.Framing.{bad_front_error, try_parse_next_packet_bad_front}
use msgtrans.Prelude.{◌≢◌}
use msgtrans.Tcp.{out_of_fuel}
use msgtrans.Tcp.Termination.{read_loop_ends}
use msgtrans.Tcp.Integrity.{Encodes, read_loop-Encodes}
use msgtrans.Tcp.Delivery.{frames, Sendable}
use msgtrans.Tcp.Chunks.{arriving, read_loop-frames}
use msgtrans.Tcp.Conservation.{strict-Conserves}
use msgtrans.Tcp.Write.{
  Outbound, Socket, takes_all, expires, new_write_loop, write_loop, write_item,
  write_packet_to_stream, resolve,
}
use msgtrans.Tcp.Written.{unfinished, told_ok}
use msgtrans.Tcp.Link.{confirmed_is_delivered}
use msgtrans.Messages.{complete}
use msgtrans.Registry.{RequestRegistry, new_with_timing}

abbrev small_limits : DecodeLimits
small_limits = record { max_frame_size = 40; max_payload_size = 20; max_ext_header_size = 4 }

abbrev ping : Packet
ping = record {
  header = record {
    version = 1;
    compression = no_compression;
    packet_type = one_way;
    biz_type = 0;
    message_id = 1;
    reserved = record { raw = 0 };
  };
  ext_header = [];
  payload = 7 ∷ [];
}

abbrev ask : Packet
ask = record {
  header = record {
    version = 1;
    compression = no_compression;
    packet_type = request;
    biz_type = 3;
    message_id = 2;
    reserved = record { raw = 0 };
  };
  ext_header = 9 ∷ [];
  payload = [];
}

abbrev ping_bytes : Bytes
ping_bytes = 1 ∷ 0 ∷ 0 ∷ 0 ∷ 0 ∷ 0 ∷ 0 ∷ 1 ∷ 0 ∷ 0 ∷ 0 ∷ 0 ∷ 0 ∷ 1 ∷ 0 ∷ 0 ∷ 7 ∷ []

ping-Sendable : Sendable small_limits ping
ping-Sendable = (
  record {
    header_valid = record {
      version_one = refl;
      biz_type_u8 = omega arith;
      message_id_u32 = omega arith;
      reserved_u16 = omega arith;
    };
    ext_header_bytes = ground arith;
    payload_bytes = ground arith;
  },
  record {
    payload_fits = omega arith;
    ext_header_fits = omega arith;
    frame_fits = omega arith;
    ext_header_u16 = omega arith;
    payload_u32 = omega arith;
  },
)

ask-Sendable : Sendable small_limits ask
ask-Sendable = (
  record {
    header_valid = record {
      version_one = refl;
      biz_type_u8 = omega arith;
      message_id_u32 = omega arith;
      reserved_u16 = omega arith;
    };
    ext_header_bytes = ground arith;
    payload_bytes = ground arith;
  },
  record {
    payload_fits = omega arith;
    ext_header_fits = omega arith;
    frame_fits = omega arith;
    ext_header_u16 = omega arith;
    payload_u32 = omega arith;
  },
)

-- The frames of `ping` and `ask` in three reads, cut inside both.
abbrev three_reads : List (Bool × Bytes)
three_reads =
    (false, 1 ∷ 0 ∷ 0 ∷ [])
    ∷ (true, 0 ∷ 0 ∷ 0 ∷ 0 ∷ 1 ∷ 0 ∷ 0 ∷ 0 ∷ 0 ∷ 0 ∷ 1 ∷ 0 ∷ 0 ∷ 7 ∷ 1 ∷ 0 ∷ 1 ∷ 3 ∷ [])
    ∷ (false, 0 ∷ 0 ∷ 0 ∷ 2 ∷ 0 ∷ 1 ∷ 0 ∷ 0 ∷ 0 ∷ 0 ∷ 0 ∷ 0 ∷ 9 ∷ [])
    ∷ []

three_reads-frames : arriving three_reads ≡ frames (ping ∷ ask ∷ [])
unfolding frames frame to_bytes u16_to_be_bytes u32_to_be_bytes u8_of_compression u8_of_packet_type
three_reads-frames = refl

read_loop-frames_example :
    let l = read_loop (λ out p. true) (new_read_loop small_limits) three_reads in
    (l.delivered ≡ ping ∷ ask ∷ []) × ((l.read).buffer ≡ []) × (l.state ≡ reading)
read_loop-frames_example =
    read_loop-frames (λ out p. true) small_limits (ping ∷ ask ∷ []) three_reads (λ out p. refl)
      (ping-Sendable, (ask-Sendable, tt)) (omega arith, (omega arith, (omega arith, tt)))
      three_reads-frames

-- A buffer with one whole frame and the start of another.
abbrev one_and_more : ReadBuffer
one_and_more = record {
  buffer = ping_bytes ++ (1 ∷ 0 ∷ []);
  parsed_any = false;
  decode = small_limits;
}

strict_run :
    try_parse_next_packet true one_and_more
    ≡ some
        (ok (some ping), record { buffer = 1 ∷ 0 ∷ []; parsed_any = true; decode = small_limits })
unfolding try_parse_next_packet parse_loop parse_round on_frame_len take_frame frame_len
    frame_layout check_layout from_bytes from_fields u16_from_be_bytes u32_from_be_bytes
    compression_of_u8 packet_type_of_u8 decode_exact_from decode_one_from carve exactly
strict_run = refl

strict-Conserves_example :
    (bytes : Bytes) × (try_encode ping ≡ ok bytes)
    × (ping_bytes ++ (1 ∷ 0 ∷ []) ≡ bytes ++ (1 ∷ 0 ∷ []))
strict-Conserves_example =
    strict-Conserves one_and_more
      (ok (some ping), record { buffer = 1 ∷ 0 ∷ []; parsed_any = true; decode = small_limits })
      (ground arith) strict_run

-- Three bytes of noise in front of a frame, after a packet.
abbrev noise : ReadBuffer
noise = record { buffer = 8 ∷ 8 ∷ 8 ∷ ping_bytes; parsed_any = true; decode = small_limits }

try_resync_frame-Resyncs_example : Resyncs noise (try_resync_frame noise)
try_resync_frame-Resyncs_example = try_resync_frame-Resyncs noise

-- Noise without a header.
abbrev only_noise : ReadBuffer
only_noise = record {
  buffer = 8 ∷ 8 ∷ 8 ∷ 8 ∷ 8 ∷ 8 ∷ 8 ∷ 8 ∷ 8 ∷ 8 ∷ 8 ∷ 8 ∷ 8 ∷ 8 ∷ 8 ∷ 8 ∷ 8 ∷ [];
  parsed_any = true;
  decode = small_limits;
}

only_noise-frame_len : frame_len only_noise.buffer small_limits ≡ err (unsupported_version 8)
unfolding frame_len frame_layout check_layout from_bytes
only_noise-frame_len = refl

only_noise-headers : any_header only_noise 1 16 ≡ false
unfolding any_header is_valid_header_at is_valid_header
only_noise-headers = refl

try_parse_next_packet_bad_front_example :
    try_parse_next_packet false only_noise ≡ some (err buffer_overflow, only_noise)
unfolding bad_front_error
try_parse_next_packet_bad_front_example =
    try_parse_next_packet_bad_front false only_noise (unsupported_version 8) only_noise-frame_len
      refl (omega arith) only_noise-headers

-- A header that declares a payload of 255 bytes, over the limit of 20.
abbrev too_large : ReadBuffer
too_large = record {
  buffer = 1 ∷ 0 ∷ 0 ∷ 0 ∷ 0 ∷ 0 ∷ 0 ∷ 1 ∷ 0 ∷ 0 ∷ 0 ∷ 0 ∷ 0 ∷ 255 ∷ 0 ∷ 0 ∷ [];
  parsed_any = true;
  decode = small_limits;
}

too_large-frame_len : frame_len too_large.buffer small_limits ≡ err (frame_too_large 255 20)
unfolding frame_len frame_layout check_layout from_bytes from_fields u16_from_be_bytes
    u32_from_be_bytes compression_of_u8 packet_type_of_u8
too_large-frame_len = refl

read_loop_ends_example :
    (read_loop
      (λ out p. true)
      (new_read_loop small_limits)
      ((false, 9 ∷ 9 ∷ []) ∷ three_reads)).state
    ≢ out_of_fuel
read_loop_ends_example =
    read_loop_ends (λ out p. true) small_limits ((false, 9 ∷ 9 ∷ []) ∷ three_reads)

-- A frame, and then noise.
abbrev strict_reads : List (Bool × Bytes)
strict_reads = (true, ping_bytes ++ (8 ∷ [])) ∷ (true, only_noise.buffer) ∷ []

read_loop-Encodes_example :
    (front : Bytes) × (rest : Bytes) × Encodes
      (read_loop (λ out p. true) (new_read_loop small_limits) strict_reads).delivered
      front
    × (arriving strict_reads ≡ front ++ rest)
read_loop-Encodes_example =
    read_loop-Encodes (λ out p. true) small_limits strict_reads (refl, (refl, tt)) (ground arith)

-- One packet is written, the write of the next stops after five bytes.
abbrev awaited : Packet → Outbound
awaited p = record { packet = p; completion = some (record { observer = true; claim = none }) }

abbrev two_writes : List (Outbound × Socket)
two_writes = (awaited ping, takes_all) ∷ (awaited ask, expires 5) ∷ []

abbrev no_requests : RequestRegistry
no_requests = new_with_timing 8 10

abbrev broken_off : List (Bool × Bytes)
broken_off = (false, ping_bytes) ∷ (false, 1 ∷ 0 ∷ 1 ∷ 3 ∷ 0 ∷ []) ∷ []

broken_off-written :
    arriving broken_off ≡ (write_loop (new_write_loop no_requests) two_writes).written
unfolding write_loop new_write_loop write_item write_packet_to_stream resolve complete try_encode
    to_bytes u16_to_be_bytes u32_to_be_bytes u8_of_compression u8_of_packet_type
broken_off-written = refl

confirmed_is_delivered_example :
    let receipts = (write_loop (new_write_loop no_requests) two_writes).receipts in
    let l = read_loop (λ out p. true) (new_read_loop small_limits) broken_off in
    (length receipts ≡ length two_writes)
    × (l.state ≡ reading)
    × ((extra : List Packet) × (l.delivered ≡ told_ok two_writes receipts ++ extra)
        × (length extra ≤ 1)
        × ((extra ≡ []) ⊎ (extra ≡ unfinished two_writes receipts)))
confirmed_is_delivered_example =
    confirmed_is_delivered (λ out p. true) small_limits no_requests two_writes broken_off
      (λ out p. refl) ((ping-Sendable, refl), ((ask-Sendable, refl), tt))
      (omega arith, (omega arith, tt)) broken_off-written
