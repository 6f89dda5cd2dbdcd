-- ===== src/Messages.antt =====
-- What the caller shapes of one message, and the way of a message into a connection's queue:
-- transport/mod.rs, connection.rs, adapters/outbound.rs, and `send_confirmed_with` of
-- transport/transport.rs. Durations and the world's part in a wait are parameters.
use msgtrans.Prelude.{
  ℕ, Option, none, some, Bool, true, false, not, ◌&&◌, ◌||◌, ◌==◌, ltb, leb, Result, ok, err, ◌>>=◌,
  map_err, String, if◌then◌else◌,
}
use msgtrans.Prelude.Map.{is_some}
use msgtrans.Packet.{
  Bytes, Packet, CompressionType, no_compression, zlib, zstd, set_biz_type, set_ext_header,
  set_compression, PacketError,
}
use msgtrans.Packet.Compression.{Codecs, compress_payload}
use msgtrans.Errors.{TransportError, configuration, resource, connection_error, compress_failed}
use msgtrans.Events.{charge_size, charge_permits}
use msgtrans.Registry.{RequestToken, RequestRegistry}
use msgtrans.Registry.Respond.{resolve_claim, drop_claim}
pub mod Options
pub mod Respond
pub mod Settled
mod Tests

pub record SendOptions : Type 0 where
  pub biz_type : Option ℕ
  pub ext_header : Option Bytes
  pub compression : Option CompressionType

-- `SendOptions::new` and its setters.
unfoldable pub new_options : SendOptions
new_options = record { biz_type = none; ext_header = none; compression = none }

unfoldable pub with_biz_type : SendOptions → ℕ → SendOptions
with_biz_type o biz_type = record o { biz_type = some biz_type }

unfoldable pub with_ext_header : SendOptions → Bytes → SendOptions
with_ext_header o ext_header = record o { ext_header = some ext_header }

unfoldable pub with_compression : SendOptions → CompressionType → SendOptions
with_compression o compression = record o { compression = some compression }

abbrev pub unwrap_or : Option ℕ → ℕ → ℕ
unwrap_or none d = d
unwrap_or (some n) d = n

-- The business type and the extension header of the options on a packet.
unfoldable pub stamp : SendOptions → Packet → ℕ → Packet
unfolding set_biz_type set_ext_header
stamp o packet default_biz =
    let typed = set_biz_type packet (unwrap_or o.biz_type default_biz) in
    elim o.ext_header [ none ↦ typed | some ext ↦ set_ext_header typed ext ]

abbrev pub compressing : Codecs → Packet → CompressionType → Result TransportError Packet
compressing c packet kind =
    map_err (λ e. configuration "compression" (compress_failed kind e))
      (compress_payload c (set_compression packet kind))

-- `SendOptions::apply_over`; the packet that it changed in place is the result.
unfoldable pub apply_over : Codecs → SendOptions → Packet → ℕ → Result TransportError Packet
unfolding stamp
apply_over c o packet default_biz =
    let stamped = stamp o packet default_biz in
    elim o.compression [
      | none ↦ ok stamped
      | some no_compression ↦ ok stamped
      | some zlib ↦ compressing c stamped zlib
      | some zstd ↦ compressing c stamped zstd
    ]

unfoldable pub apply : Codecs → SendOptions → Packet → Result TransportError Packet
unfolding apply_over
apply c o packet = apply_over c o packet 0

-- A write's completion: whether a caller observes it, and the claim that rides it.
pub record WriteCompletion : Type 0 where
  pub observer : Bool
  pub claim : Option RequestToken

-- What the observer's channel yields: the write's result, or nothing when its sender was dropped.
abbrev pub Receipt : Type 0
Receipt = Option (Result TransportError (Unit {0}))

abbrev pub is_ok : Result TransportError (Unit {0}) → Bool
is_ok (ok a) = true
is_ok (err e) = false

-- `complete`: the claim is resolved, which consumes it, and the observer is told.
unfoldable pub complete :
    WriteCompletion → Result TransportError (Unit {0}) → RequestRegistry → Receipt × RequestRegistry
complete w result r = (
  if w.observer then some result else none,
  elim w.claim [
    | none ↦ r
    | some token ↦ drop_claim (resolve_claim r token (is_ok result)) token true
  ],
)

-- The completion is dropped: the claim's own drop reports a failure, the observer's channel closes.
unfoldable pub drop_completion : WriteCompletion → RequestRegistry → Receipt × RequestRegistry
drop_completion w r = (none, elim w.claim [ none ↦ r | some token ↦ drop_claim r token false ])

-- How a bounded wait for room in the queue ends.
pub data Wait : Type 0 where
  gets_room queue_closes elapses : Wait

-- What becomes of a queued item: the write loop completes it with the write's result, or it is
-- dropped unwritten.
pub data Queueing : Type 0 where
  writes : Result TransportError (Unit {0}) → Queueing
  discards : Queueing

-- The connection as the sender meets it: the generation in the transport's slot, the outbound queue
-- and its byte budget, and how the waits and the write turn out.
pub record Outside : Type 0 where
  pub slot : Option ℕ
  pub budget_capacity : ℕ
  pub permits : ℕ
  pub permits_in_time : Bool
  pub queue_closed : Bool
  pub depth : ℕ
  pub max_capacity : ℕ
  pub wait : Wait
  pub queueing : Queueing
  pub queue_name : String
  pub closed_msg : String

-- `timeout(SEND_QUEUE_WAIT, budget.charge(packet))`.
unfoldable pub charge_outbound : Outside → Packet → Result TransportError (Unit {0})
unfolding charge_size charge_permits
charge_outbound o packet =
    if ltb o.budget_capacity (charge_size packet)
    then err (resource "connection byte budget" (charge_size packet) o.budget_capacity)
    else (if leb (charge_permits packet) o.permits || o.permits_in_time
        then ok tt
        else err (resource "outbound byte budget" o.budget_capacity o.budget_capacity))

abbrev pub after_wait : Outside → Wait → Result TransportError (Unit {0})
after_wait o gets_room = ok tt
after_wait o queue_closes = err (connection_error o.closed_msg false)
after_wait o elapses = err (resource o.queue_name o.depth o.max_capacity)

-- `try_send`, then the bounded wait when the queue is full.
unfoldable pub send_item : Outside → Result TransportError (Unit {0})
send_item o =
    if o.queue_closed
    then err (connection_error o.closed_msg false)
    else (if ltb o.depth o.max_capacity then ok tt else after_wait o o.wait)

-- The writer of the built-in adapters.
unfoldable pub send_with_completion : Outside → Packet → Result TransportError (Unit {0})
unfolding charge_outbound send_item
send_with_completion o packet = do _ ← charge_outbound o packet; send_item o

unfoldable pub await_receipt : Receipt → Result TransportError (Unit {0})
await_receipt none = err (connection_error "connection closed before write" false)
await_receipt (some result) = result

-- The slot's generation is the expected one.
abbrev pub is_expected : Option ℕ → ℕ → Bool
is_expected none session_id = true
is_expected (some expected) session_id = session_id == expected

-- What the write of a queued item does to its completion.
unfoldable pub finish_write :
    Queueing → WriteCompletion → RequestRegistry → Receipt × RequestRegistry
unfolding complete drop_completion
finish_write (writes result) w r = complete w result r
finish_write discards w r = drop_completion w r

abbrev pub refuse :
    TransportError
    → WriteCompletion
    → RequestRegistry
    → Result TransportError (Unit {0}) × RequestRegistry
refuse e w r = (err e, (drop_completion w r).1)

-- The way through the queue of the generation that was found.
unfoldable pub send_through :
    Outside
    → Packet
    → WriteCompletion
    → RequestRegistry
    → Result TransportError (Unit {0}) × RequestRegistry
unfolding send_with_completion finish_write await_receipt drop_completion
send_through o packet w r = elim (send_with_completion o packet) [
  | err e ↦ refuse e w r
  | ok a ↦ let (receipt, r') = finish_write o.queueing w r in (await_receipt receipt, r')
]

unfoldable pub send_confirmed_with :
    Outside
    → Packet
    → Option ℕ
    → Option RequestToken
    → RequestRegistry
    → Result TransportError (Unit {0}) × RequestRegistry
unfolding send_through drop_completion
send_confirmed_with o packet expected_session claim r =
    let w : WriteCompletion = record { observer = true; claim = claim } in
    elim o.slot [
      | none ↦ refuse (connection_error "Not connected" false) w r
      | some session_id ↦
          if is_expected expected_session session_id
          then send_through o packet w r
          else refuse (connection_error "connection replaced since the request was received" false)
              w r
    ]
