-- ===== src/Requests/OfServer.antt =====
-- transport/transport_server.rs: what a server sends to one of its sessions. The session's actor,
-- which writes, is a parameter.
use msgtrans.Prelude.{
  ℕ, ◌*◌, Option, none, some, Bool, true, false, not, Result, ok, err, if◌then◌else◌,
}
use msgtrans.Packet.{Bytes, Packet, one_way_packet, request_packet, u32_max}
use msgtrans.Packet.Compression.{Codecs}
use msgtrans.Errors.{
  TransportError, connection, protocol, configuration, resource, timeout, connection_error,
}
use msgtrans.Registry.{RequestRegistry}
use msgtrans.Registry.Register.{next_oneway_id, next_request_id}
use msgtrans.Registry.Close.{close_session_pending}
use msgtrans.Messages.{SendOptions, unwrap_or, apply, Outside, send_confirmed_with}
use msgtrans.Sessions.{is_request, request_lifecycle_timeout}
use msgtrans.Requests.{Meanwhile, Outcome, RequestOptions, registered}

-- What the server has of the session: whether an actor's handle is there, how the actor's confirmed
-- write turns out, and the transport, with the way into its queue.
pub record Peer : Type 0 where
  pub has_handle : Bool
  pub actor_writes : Result TransportError (Unit {0})
  pub has_transport : Bool
  pub outside : Outside

-- The connection is gone.
unfoldable pub is_connection_dead : TransportError → Bool
is_connection_dead (connection reason retryable) = true
is_connection_dead (protocol name reason) = false
is_connection_dead (configuration field reason) = false
is_connection_dead (resource name current limit) = false
is_connection_dead (timeout operation duration) = false

abbrev pub is_connected : Outside → Bool
is_connected o = elim o.slot [ none ↦ false | some session_id ↦ true ]

-- A failed send: a dead connection's session is removed, which fails its pending requests.
unfoldable pub settle_send :
    RequestRegistry
    → ℕ
    → Result TransportError (Unit {0})
    → Result TransportError (Unit {0}) × RequestRegistry
unfolding is_connection_dead
settle_send r session_id (ok a) = (ok tt, r)
settle_send r session_id (err e) =
    if is_connection_dead e
    then (
      err (connection_error "Connection closed during send" false),
      (close_session_pending r session_id).1,
    )
    else (err e, r)

unfoldable pub send_to_session :
    Peer → ℕ → Packet → RequestRegistry → Result TransportError (Unit {0}) × RequestRegistry
unfolding settle_send
send_to_session p session_id packet r =
    if p.has_handle
    then settle_send r session_id p.actor_writes
    else (if p.has_transport
        then (if is_connected p.outside
            then (let (result, r') =
                  send_confirmed_with p.outside packet (some session_id) none r in
                settle_send r' session_id result)
            else (
              err (connection_error "Connection closed" false),
              (close_session_pending r session_id).1,
            ))
        else (err (connection_error "Session not found" false), r))

unfoldable pub request_to_session :
    Peer → Meanwhile → (duration now : ℕ) → RequestRegistry → ℕ → Packet → Outcome
unfolding send_to_session
request_to_session p m duration now r session_id packet =
    if not p.has_transport
    then (some (err (connection_error "Session not found" false)), r)
    else (if not (is_request (packet.header).packet_type)
        then (some (err (connection_error "Not a Request packet" false)), r)
        else registered "server request" duration request_lifecycle_timeout now
            "Duplicate in-flight request id for this session" (send_to_session p session_id packet)
            m r packet (some session_id))

pub record SendReceipt : Type 0 where
  pub peer : Option ℕ
  pub message_id : ℕ

-- The one-way message of `send`, and that of `send_with_options`.
unfoldable pub send_with_options :
    Codecs
    → Peer
    → RequestRegistry
    → ℕ
    → Bytes
    → SendOptions
    → Result TransportError SendReceipt × RequestRegistry
send_with_options codecs p r session_id payload options =
    let (message_id, r') = next_oneway_id r in
    elim (apply codecs options (one_way_packet message_id payload)) [
      | err e ↦ (err e, r')
      | ok packet ↦
          let (result, r'') = send_to_session p session_id packet r' in
          (
            elim result [
              | err e ↦ err e
              | ok a ↦ ok (record { peer = some session_id; message_id = message_id })
            ],
            r'',
          )
    ]

unfoldable pub send :
    Peer → RequestRegistry → ℕ → Bytes → Result TransportError SendReceipt × RequestRegistry
send p r session_id payload =
    let (message_id, r') = next_oneway_id r in
    let (result, r'') = send_to_session p session_id (one_way_packet message_id payload) r' in
    (
      elim result [
        | err e ↦ err e
        | ok a ↦ ok (record { peer = some session_id; message_id = message_id })
      ],
      r'',
    )

-- `request_with_options`, up to the payload of the response; `request` has no options.
unfoldable pub request_session :
    Codecs → Peer → Meanwhile → ℕ → RequestRegistry → ℕ → Bytes → RequestOptions → Outcome
unfolding request_to_session
request_session codecs p m now r session_id payload options =
    let (id, r') = next_request_id r (some session_id) in
    elim id [
      | none ↦ (some (err (resource "request_id_space" u32_max u32_max)), r')
      | some message_id ↦ elim (apply codecs options.send (request_packet message_id payload)) [
        | err e ↦ (some (err e), r')
        | ok packet ↦
            request_to_session p m (unwrap_or options.timeout (10 * 1000000000)) now r' session_id
              packet
      ]
    ]
