-- ===== src/Errors.antt =====
-- error.rs: why a connection was closed, and the errors of the transport. A text that the source
-- formats is the data that it formats.
use msgtrans.Prelude.{ℕ, Option, none, some, Bool, true, false, not, String, if◌then◌else◌}
use msgtrans.Packet.{CompressionType, PacketError}

-- What the text of an error is formatted from.
pub data Text : Type 0 where
  literal : String → Text
  compress_failed : CompressionType → PacketError → Text
  encode_failed : PacketError → Text
  write_failed : String → Text

-- A duration is its nanoseconds.
pub data TransportError : Type 0 where
  connection : (reason : Text) → (retryable : Bool) → TransportError
  protocol : (name : String) → (reason : Text) → TransportError
  configuration : (field : String) → (reason : Text) → TransportError
  resource : (name : String) → (current limit : ℕ) → TransportError
  timeout : (operation : String) → (duration : ℕ) → TransportError

-- What the text of `CloseReason::Error` is formatted from.
pub data Fault : Type 0 where
  payload_over : (max_payload_size : ℕ) → Fault
  undecodable : PacketError → Fault
  transport_failed : TransportError → Fault
  message : String → Fault

pub data CloseReason : Type 0 where
  normal timed_out forced : CloseReason
  error : Fault → CloseReason

unfoldable pub is_retryable : TransportError → Bool
is_retryable (connection reason retryable) = retryable
is_retryable (protocol name reason) = true
is_retryable (configuration field reason) = false
is_retryable (resource name current limit) = true
is_retryable (timeout operation duration) = true

-- The delay that the match gives, once the error is retryable.
abbrev delay_of : TransportError → Option ℕ
delay_of (connection reason retryable) = some 1000000000
delay_of (protocol name reason) = some 100000000
delay_of (resource name current limit) = some 500000000
delay_of (timeout operation duration) = some 200000000
delay_of (configuration field reason) = none

unfoldable pub retry_delay : TransportError → Option ℕ
retry_delay e = if not (is_retryable e) then none else delay_of e

unfoldable pub error_code : TransportError → String
error_code (connection reason retryable) = "CONNECTION_ERROR"
error_code (protocol name reason) = "PROTOCOL_ERROR"
error_code (configuration field reason) = "CONFIG_ERROR"
error_code (resource name current limit) = "RESOURCE_ERROR"
error_code (timeout operation duration) = "TIMEOUT_ERROR"

abbrev pub connection_error : String → Bool → TransportError
connection_error reason retryable = connection (literal reason) retryable
