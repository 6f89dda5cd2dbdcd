-- ===== src/Limits/Bounds.antt =====
-- limits.rs: whatever the builders are told, a connection's limits stay in their ranges, and the
-- codec accepts under them every packet whose parts they let through.
use msgtrans.Prelude.{◌+◌, ◌*◌, ◌≤◌, ◌≡◌, List, [], ◌∷◌, ◌++◌, some, ok, length, arith}
use msgtrans.Packet.{Bytes, u16_max, Packet, IsPacket}
use msgtrans.Packet.Codec.{try_encode, decode_one_with, Fits}
use msgtrans.Packet.RoundTrip.{decode_one_with-try_encode}
use msgtrans.Limits.{
  nanos_per_milli, default_max_payload_size, ConnectionLimits, ServerLimits, ClientLimits, Setting,
  set_connection, set_client, ServerSetting, sets_connection, sets_mailbox_capacity, set_server,
  default_connection_limits, default_server_limits, default_client_limits, build_server,
  build_client, decode_limits, clamp_payload, clamp_ext, clamp_deadline, set_buffer_bytes,
  set_write_deadline, set_pipe_capacity, set_outbound_queue_capacity, set_max_payload_size,
  set_max_ext_header_size,
}

-- The documented ranges, and the frame cap that follows from the two parts.
pub record InRange (c : ConnectionLimits) : Type 0 where
  pub buffer_low : 64 * 1024 ≤ c.buffer_bytes
  pub buffer_high : c.buffer_bytes ≤ 1024 * 1024 * 1024
  pub deadline_low : 10 * nanos_per_milli ≤ c.write_deadline
  pub deadline_high : c.write_deadline ≤ 600000 * nanos_per_milli
  pub pipe_low : 1 ≤ c.pipe_capacity
  pub pipe_high : c.pipe_capacity ≤ 65536
  pub outbound_low : 1 ≤ c.outbound_capacity
  pub outbound_high : c.outbound_capacity ≤ 65536
  pub payload_low : 64 ≤ (c.decode).max_payload_size
  pub payload_high : (c.decode).max_payload_size ≤ default_max_payload_size
  pub ext_high : (c.decode).max_ext_header_size ≤ u16_max
  pub frame_derived :
      (c.decode).max_frame_size ≡ 16 + (c.decode).max_ext_header_size + (c.decode).max_payload_size

default_connection_limits-InRange : InRange default_connection_limits
unfolding default_connection_limits
default_connection_limits-InRange = ground arith

set_connection-InRange :
    (c : ConnectionLimits) (s : Setting) → InRange c → InRange (set_connection c s)
unfolding set_connection decode_limits clamp_payload clamp_ext clamp_deadline set_buffer_bytes
    set_write_deadline set_pipe_capacity set_outbound_queue_capacity set_max_payload_size
    set_max_ext_header_size
set_connection-InRange c s h = ground arith

build_connection-InRange :
    (l : ServerLimits) (ss : List ServerSetting)
    → InRange l.connection
    → 1 ≤ l.mailbox_capacity
    → InRange (build_server l ss).connection × (1 ≤ (build_server l ss).mailbox_capacity)
unfolding build_server set_server
build_connection-InRange l [] h m = (h, m)
build_connection-InRange l (sets_connection s ∷ ss) h m =
    build_connection-InRange (set_server l (sets_connection s)) ss
      (set_connection-InRange l.connection s h) m
build_connection-InRange l (sets_mailbox_capacity n ∷ ss) h m =
    build_connection-InRange (set_server l (sets_mailbox_capacity n)) ss h (omega arith)

build_client_from :
    (l : ClientLimits) (ss : List Setting)
    → InRange l.connection
    → InRange (build_client l ss).connection
unfolding build_client set_client
build_client_from l [] h = h
build_client_from l (s ∷ ss) h =
    build_client_from (set_client l s) ss (set_connection-InRange l.connection s h)

-- Whatever setters are called on the defaults, in whatever order and with whatever numbers, the
-- limits of a server's connections are in their documented ranges, the frame cap is 16 bytes more
-- than the two parts' caps together, and the mailbox holds at least one message.
pub build_server-InRange :
    (ss : List ServerSetting)
    → InRange (build_server default_server_limits ss).connection
      × (1 ≤ (build_server default_server_limits ss).mailbox_capacity)
unfolding default_server_limits
build_server-InRange ss =
    build_connection-InRange default_server_limits ss default_connection_limits-InRange
      (omega arith)

-- Whatever a user sets on a client's limits, its connection's limits are in range.
pub build_client-InRange :
    (ss : List Setting) → InRange (build_client default_client_limits ss).connection
unfolding default_client_limits
build_client-InRange ss =
    build_client_from default_client_limits ss default_connection_limits-InRange

parts-Fits :
    (c : ConnectionLimits) (p : Packet)
    → InRange c
    → length p.payload ≤ (c.decode).max_payload_size
    → length p.ext_header ≤ (c.decode).max_ext_header_size
    → Fits c.decode p
parts-Fits c p r h e = record {
  payload_fits = h;
  ext_header_fits = e;
  frame_fits = omega (arith, r.frame_derived);
  ext_header_u16 = omega (arith, r.ext_high);
  payload_u32 = omega (arith, r.payload_high);
}

-- Under any limits that a server's setters produce, a packet whose payload and extension header are
-- within their own caps encodes, and the bytes, at the front of any buffer, decode to it: the frame
-- cap refuses no packet whose parts are allowed.
pub decode_one_with-build_server :
    (ss : List ServerSetting) (p : Packet) (rest : Bytes)
    → IsPacket p
    → length p.payload
      ≤ (((build_server default_server_limits ss).connection).decode).max_payload_size
    → length p.ext_header
      ≤ (((build_server default_server_limits ss).connection).decode).max_ext_header_size
    → (bytes : Bytes) × (try_encode p ≡ ok bytes)
      × (decode_one_with (bytes ++ rest) ((build_server default_server_limits ss).connection).decode
          ≡ ok (some (p, length bytes)))
decode_one_with-build_server ss p rest v h e =
    let c = (build_server default_server_limits ss).connection in
    let f = parts-Fits c p (build_server-InRange ss).0 h e in
    let (bytes, enc, len, dec) = decode_one_with-try_encode p c.decode rest v f in (bytes, enc, dec)
