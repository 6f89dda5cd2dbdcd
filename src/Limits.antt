-- ===== src/Limits.antt =====
-- crates/msgtrans/src/transport/limits.rs: the limits of a connection and their builders. A
-- `Duration` is a number of nanoseconds.
pub mod Bounds
mod Tests
use msgtrans.Prelude.{ℕ, ◌+◌, ◌*◌, ◌/◌, List, [], ◌∷◌, min, max}
use msgtrans.Packet.{u16_max, DecodeLimits, default_max_frame_size, fixed_header_size}

-- `Ord::clamp`, for `lo ≤ hi`.
abbrev pub clamp : ℕ → ℕ → ℕ → ℕ
clamp n lo hi = min (max n lo) hi

abbrev pub nanos_per_milli : ℕ
nanos_per_milli = 1000000

abbrev pub default_write_deadline : ℕ
default_write_deadline = 30 * 1000 * nanos_per_milli

abbrev pub default_pipe_capacity : ℕ
default_pipe_capacity = 8192

abbrev pub default_outbound_capacity : ℕ
default_outbound_capacity = 2048

abbrev pub default_mailbox_capacity : ℕ
default_mailbox_capacity = 512

abbrev pub default_max_payload_size : ℕ
default_max_payload_size = default_max_frame_size

abbrev pub default_max_ext_header_size : ℕ
default_max_ext_header_size = u16_max

-- The frame cap is derived from the two others.
unfoldable pub decode_limits : ℕ → ℕ → DecodeLimits
decode_limits max_payload_size max_ext_header_size = record {
  max_frame_size = fixed_header_size + max_ext_header_size + max_payload_size;
  max_payload_size = max_payload_size;
  max_ext_header_size = max_ext_header_size;
}

unfoldable pub clamp_payload : ℕ → ℕ
clamp_payload size = clamp size 64 default_max_payload_size

unfoldable pub clamp_ext : ℕ → ℕ
clamp_ext size = min size default_max_ext_header_size

unfoldable pub clamp_deadline : ℕ → ℕ
clamp_deadline deadline = clamp (deadline / nanos_per_milli) 10 600000 * nanos_per_milli

pub record ConnectionLimits : Type 0 where
  pub buffer_bytes : ℕ
  pub write_deadline : ℕ
  pub pipe_capacity : ℕ
  pub outbound_capacity : ℕ
  pub decode : DecodeLimits

unfoldable pub default_connection_limits : ConnectionLimits
unfolding decode_limits
default_connection_limits = record {
  buffer_bytes = 64 * 1024 * 1024;
  write_deadline = default_write_deadline;
  pipe_capacity = default_pipe_capacity;
  outbound_capacity = default_outbound_capacity;
  decode = decode_limits default_max_payload_size default_max_ext_header_size;
}

-- The setters that `ServerLimits` and `ClientLimits` have in common, on the connection's part.
unfoldable pub set_buffer_bytes : ConnectionLimits → ℕ → ConnectionLimits
set_buffer_bytes c bytes = record c { buffer_bytes = clamp bytes (64 * 1024) (1024 * 1024 * 1024) }

unfoldable pub set_write_deadline : ConnectionLimits → ℕ → ConnectionLimits
unfolding clamp_deadline
set_write_deadline c deadline = record c { write_deadline = clamp_deadline deadline }

unfoldable pub set_pipe_capacity : ConnectionLimits → ℕ → ConnectionLimits
set_pipe_capacity c capacity = record c { pipe_capacity = clamp capacity 1 65536 }

unfoldable pub set_outbound_queue_capacity : ConnectionLimits → ℕ → ConnectionLimits
set_outbound_queue_capacity c capacity = record c { outbound_capacity = clamp capacity 1 65536 }

unfoldable pub set_max_payload_size : ConnectionLimits → ℕ → ConnectionLimits
unfolding decode_limits clamp_payload
set_max_payload_size c size = record c {
  decode = decode_limits (clamp_payload size) (c.decode).max_ext_header_size;
}

unfoldable pub set_max_ext_header_size : ConnectionLimits → ℕ → ConnectionLimits
unfolding decode_limits clamp_ext
set_max_ext_header_size c size = record c {
  decode = decode_limits (c.decode).max_payload_size (clamp_ext size);
}

pub record ServerLimits : Type 0 where
  pub connection : ConnectionLimits
  pub mailbox_capacity : ℕ

pub record ClientLimits : Type 0 where
  pub connection : ConnectionLimits

-- A call of one of the setters.
pub data Setting : Type 0 where
  sets_buffer_bytes sets_write_deadline sets_pipe_capacity sets_outbound_queue_capacity :
      ℕ → Setting
  sets_max_payload_size sets_max_ext_header_size : ℕ → Setting

unfoldable pub set_connection : ConnectionLimits → Setting → ConnectionLimits
unfolding set_buffer_bytes set_write_deadline set_pipe_capacity set_outbound_queue_capacity
    set_max_payload_size set_max_ext_header_size
set_connection c (sets_buffer_bytes n) = set_buffer_bytes c n
set_connection c (sets_write_deadline n) = set_write_deadline c n
set_connection c (sets_pipe_capacity n) = set_pipe_capacity c n
set_connection c (sets_outbound_queue_capacity n) = set_outbound_queue_capacity c n
set_connection c (sets_max_payload_size n) = set_max_payload_size c n
set_connection c (sets_max_ext_header_size n) = set_max_ext_header_size c n

unfoldable pub set_client : ClientLimits → Setting → ClientLimits
unfolding set_connection
set_client l s = record { connection = set_connection l.connection s }

-- A setter of `ServerLimits`: its own, or one for the connection.
pub data ServerSetting : Type 0 where
  sets_connection : Setting → ServerSetting
  sets_mailbox_capacity : ℕ → ServerSetting

unfoldable pub set_server : ServerLimits → ServerSetting → ServerLimits
unfolding set_connection
set_server l (sets_connection s) = record l { connection = set_connection l.connection s }
set_server l (sets_mailbox_capacity n) = record l { mailbox_capacity = max n 1 }

unfoldable pub default_server_limits : ServerLimits
unfolding default_connection_limits
default_server_limits = record {
  connection = default_connection_limits;
  mailbox_capacity = default_mailbox_capacity;
}

unfoldable pub default_client_limits : ClientLimits
unfolding default_connection_limits
default_client_limits = record { connection = default_connection_limits }

-- A builder's chain of calls.
unfoldable pub build_server : ServerLimits → List ServerSetting → ServerLimits
build_server l [] = l
build_server l (s ∷ ss) = build_server (set_server l s) ss

unfoldable pub build_client : ClientLimits → List Setting → ClientLimits
build_client l [] = l
build_client l (s ∷ ss) = build_client (set_client l s) ss
