-- ===== src/Client.antt =====
-- event.rs and transport/client.rs: the events that a client's consumer gets, the forwarding task, and
-- the attempts of a connect. A `ConnectionInfo` and the closure that answers a request are left out.
use msgtrans.Prelude.{
  ℕ, zero, suc, ◌+◌, List, [], ◌∷◌, Option, none, some, Bool, true, false, Result, ok, err,
  if◌then◌else◌,
}
use msgtrans.Packet.{Bytes, Packet, PacketType}
use msgtrans.Errors.{
  Text, TransportError, configuration, CloseReason, is_retryable, connection_error,
}
use msgtrans.Events.{TransportEvent}
use msgtrans.Registry.{RequestToken}
use msgtrans.Transport.Dispatch.{TaggedClientEvent}
pub mod Delivered
pub mod Connects
mod Tests

pub record ClientMessage : Type 0 where
  pub peer : Option ℕ
  pub message_id : ℕ
  pub biz_type : ℕ
  pub ext_header : Option Bytes
  pub body : Bytes

-- A request with what its answer needs: the registration's token.
pub record ClientRequest : Type 0 where
  pub peer : Option ℕ
  pub message_id : ℕ
  pub biz_type : ℕ
  pub ext_header : Option Bytes
  pub body : Bytes
  pub token : RequestToken

pub data ClientEvent : Type 0 where
  connected : ClientEvent
  disconnected : CloseReason → ClientEvent
  message : ClientMessage → ClientEvent
  request : ClientRequest → ClientEvent
  message_sent : (message_id : ℕ) → ClientEvent
  error : TransportError → ClientEvent

-- `None` for an empty header.
abbrev pub ext_of : Bytes → Option Bytes
ext_of [] = none
ext_of (b ∷ bs) = some (b ∷ bs)

abbrev pub plain_message : Packet → ClientMessage
plain_message packet = record {
  peer = none;
  message_id = (packet.header).message_id;
  biz_type = (packet.header).biz_type;
  ext_header = ext_of packet.ext_header;
  body = packet.payload;
}

abbrev as_message : Packet → PacketType → Option ClientEvent
as_message packet PacketType.request = none
as_message packet PacketType.one_way = some (message (plain_message packet))
as_message packet PacketType.response = some (message (plain_message packet))

unfoldable pub from_transport_event : TransportEvent → Option ClientEvent
from_transport_event TransportEvent.connection_established = some connected
from_transport_event (TransportEvent.connection_closed reason) = some (disconnected reason)
from_transport_event (TransportEvent.message_received packet) =
    as_message packet (packet.header).packet_type
from_transport_event (TransportEvent.message_sent packet_id) = some (message_sent packet_id)
from_transport_event (TransportEvent.transport_error e) = some (error e)

abbrev pub client_request : ℕ → Packet → RequestToken → ClientRequest
client_request source packet token = record {
  peer = some source;
  message_id = (packet.header).message_id;
  biz_type = (packet.header).biz_type;
  ext_header = ext_of packet.ext_header;
  body = packet.payload;
  token = token;
}

-- A request needs the transport alive, and its token.
abbrev as_request : Bool → ℕ → Packet → Option RequestToken → Option ClientEvent
as_request true source packet (some token) = some (request (client_request source packet token))
as_request true source packet none = none
as_request false source packet token = none

abbrev if_request : Packet → PacketType → Option Packet
if_request packet PacketType.request = some packet
if_request packet PacketType.one_way = none
if_request packet PacketType.response = none

-- The packet of an event that is a request.
abbrev request_of : TransportEvent → Option Packet
request_of (TransportEvent.message_received packet) = if_request packet (packet.header).packet_type
request_of TransportEvent.connection_established = none
request_of (TransportEvent.connection_closed reason) = none
request_of (TransportEvent.message_sent packet_id) = none
request_of (TransportEvent.transport_error e) = none

-- One round of the forwarding task: what the consumer's queue gets. `alive` says that the transport
-- is still there.
unfoldable pub forward : (alive : Bool) → TaggedClientEvent → Option ClientEvent
unfolding from_transport_event
forward alive tagged = elim (request_of tagged.event) [
  | some packet ↦ as_request alive tagged.session_id packet tagged.token
  | none ↦ from_transport_event tagged.event
]

-- The loop of `connect_with_stored_config` from an attempt on: how each attempt turns out is an
-- argument. The result, with the attempts that were made.
unfoldable pub attempts :
    (ℕ → Result TransportError ℕ)
    → (attempt left : ℕ) → Option TransportError
    → Result TransportError ℕ × ℕ
attempts build attempt zero last_error = (
  elim last_error [
    | none ↦ err (connection_error "Connection failed after all retries" true)
    | some e ↦ err e
  ],
  attempt,
)
attempts build attempt (suc left) last_error = elim (build attempt) [
  | ok connection ↦ (ok connection, attempt + 1)
  | err e ↦ elim (is_retryable e) [
    | true ↦ attempts build (attempt + 1) left (some e)
    | false ↦ (err e, attempt + 1)
  ]
]

-- The configuration is validated first: `invalid` is the text of its error.
unfoldable pub connect_with_stored_config :
    (invalid : Option Text)
    → (ℕ → Result TransportError ℕ)
    → (max_retries : ℕ) → Result TransportError ℕ × ℕ
unfolding attempts
connect_with_stored_config none build max_retries = attempts build 0 (suc max_retries) none
connect_with_stored_config (some text) build max_retries = (err (configuration "protocol" text), 0)
