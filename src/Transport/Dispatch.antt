-- ===== src/Transport/Dispatch.antt =====
-- transport/transport.rs: what a client's transport makes of the events of one connection. The clock,
-- and what the other tasks do to the transport between two events, are parameters. The transport
-- outlives its consumer task.
use msgtrans.Prelude.{ℕ, List, [], ◌∷◌, Option, none, some, ◌==◌, if◌then◌else◌}
use msgtrans.Packet.{Packet, PacketType, one_way, request, response}
use msgtrans.Events.{
  TransportEvent, connection_established, connection_closed, message_received, message_sent,
  transport_error,
}
use msgtrans.Registry.{RequestToken}
use msgtrans.Registry.Register.{register}
use msgtrans.Registry.Respond.{complete_waiter}
use msgtrans.Registry.Close.{close_session_pending}
use msgtrans.Sessions.{request_lifecycle_timeout}
use msgtrans.Transport.{Transport, retire_generation, teardown}

pub record TaggedClientEvent : Type 0 where
  pub session_id : ℕ
  pub token : Option RequestToken
  pub event : TransportEvent

abbrev pub tagged : ℕ → Option RequestToken → TransportEvent → TaggedClientEvent
tagged source token event = record { session_id = source; token = token; event = event }

-- A message of a connection: what is forwarded, and the transport after it.
unfoldable pub on_message :
    Transport
    → (source : ℕ) → Packet
    → PacketType
    → (now later : ℕ) → Option TaggedClientEvent × Transport
on_message t source packet response now later =
    let (completed, r) =
      complete_waiter t.request_registry (some source) (packet.header).message_id packet in
    (
      if completed then none else some (tagged source none (message_received packet)),
      record t { request_registry = r },
    )
on_message t source packet request now later =
    let (token, r) =
      register t.request_registry (packet.header).message_id (some source) (packet.header).biz_type
        request_lifecycle_timeout now later in
    (
      elim token [ none ↦ none | some k ↦ some (tagged source (some k) (message_received packet)) ],
      record t { request_registry = r },
    )
on_message t source packet one_way now later =
    (some (tagged source none (message_received packet)), t)

-- `on_event`: the event that is forwarded to the client's queue, if any. At a close, the generation's
-- requests and its slot are ended first.
unfoldable pub on_event :
    Transport
    → (source : ℕ) → TransportEvent
    → (now later : ℕ) → Option TaggedClientEvent × Transport
unfolding on_message
on_event t source (message_received packet) now later =
    on_message t source packet (packet.header).packet_type now later
on_event t source (connection_closed reason) now later =
    let drained = record t {
      request_registry = (close_session_pending t.request_registry source).1;
    } in
    (some (tagged source none (connection_closed reason)), retire_generation drained source)
on_event t source connection_established now later =
    (some (tagged source none connection_established), t)
on_event t source (message_sent packet_id) now later =
    (some (tagged source none (message_sent packet_id)), t)
on_event t source (transport_error error) now later =
    (some (tagged source none (transport_error error)), t)

-- One event of the pipe, with what happens before it.
pub record Arrival : Type 0 where
  pub others : Transport → Transport
  pub event : TransportEvent
  pub now : ℕ
  pub later : ℕ

abbrev pub with_forwarded :
    Option TaggedClientEvent
    → List TaggedClientEvent × Transport
    → List TaggedClientEvent × Transport
with_forwarded none (events, t) = (events, t)
with_forwarded (some e) (events, t) = (e ∷ events, t)

-- The task that `set_connection` spawns: it takes the events of its generation until the pipe ends or
-- a newer generation is there, and then tears its own down.
unfoldable pub consume :
    Transport → (source : ℕ) → List Arrival → List TaggedClientEvent × Transport
unfolding on_event teardown
consume t source [] = ([], teardown t source)
consume t source (a ∷ arrivals) =
    let t' = a.others t in
    let (forwarded, t'') = on_event t' source a.event a.now a.later in
    let rest = consume t'' source arrivals in
    if t'.connection_epoch == source
    then with_forwarded forwarded rest
    else ([], teardown t' source)
