-- ===== src/Requests.antt =====
-- One request and its answer: `OutboundRequestGuard` of request_registry.rs, `request` and
-- `request_with_options` of transport/transport.rs. What the other tasks do to the registry while
-- the caller waits, and whether the caller drops the future, are parameters. Durations are in
-- nanoseconds.
use msgtrans.Prelude.{
  ℕ, ◌*◌, List, [], ◌∷◌, Option, none, some, Bool, true, false, not, ◌&&◌, ◌==◌, Result, ok, err,
  String, if◌then◌else◌,
}
use msgtrans.Prelude.Map.{nat_eq, get, has, is_some}
use msgtrans.Packet.{Bytes, Packet, request_packet, u32_max}
use msgtrans.Packet.Compression.{Codecs}
use msgtrans.Errors.{TransportError, connection_error, resource, timeout}
use msgtrans.Registry.{RequestToken, RequestRegistry, token_key, pending, key_eq}
use msgtrans.Registry.Register.{next_request_id, try_register_waiter, outbound_key}
use msgtrans.Registry.Respond.{is_state}
use msgtrans.Registry.Abort.{abort_request_token}
use msgtrans.Registry.Step.{Call, run}
use msgtrans.Registry.Answers.{sent}
use msgtrans.Messages.{SendOptions, unwrap_or, apply, Outside, send_confirmed_with}
use msgtrans.Sessions.{is_request}
pub mod OfServer
pub mod Ends
pub mod Answered
mod Tests

pub record OutboundRequestGuard : Type 0 where
  pub token : RequestToken
  pub disarmed : Bool

unfoldable pub new_guard : RequestToken → OutboundRequestGuard
new_guard token = record { token = token; disarmed = true }

unfoldable pub armed : OutboundRequestGuard → OutboundRequestGuard
armed guard = record guard { disarmed = false }

unfoldable pub disarm : OutboundRequestGuard → OutboundRequestGuard
disarm guard = record guard { disarmed = true }

-- The guard's drop.
unfoldable pub drop_guard : RequestRegistry → OutboundRequestGuard → RequestRegistry
drop_guard r guard = if not guard.disarmed then (abort_request_token r guard.token).1 else r

-- What becomes of the caller's future.
pub data Fate : Type 0 where
  runs_on dropped_sending dropped_waiting : Fate

-- The other tasks' calls while the packet is sent, and while the response is awaited.
pub record Meanwhile : Type 0 where
  pub sending : List Call
  pub waiting : List Call
  pub fate : Fate

-- The channel of a waiter, when the wait for it ends: the packet that was sent on it, that its
-- sender is gone, or that it is still open, so that the time is up.
pub data Received : Type 0 where
  delivers : Packet → Received
  sender_gone times_out : Received

abbrev values {ℓ} : {K : Type ℓ} → List (K × ℕ) → List ℕ
values [] = []
values ((k, c) ∷ m) = c ∷ values m

unfoldable pub receive : RequestRegistry → ℕ → Received
receive r c = elim (sent c r.woken) [
  | some packet ↦ delivers packet
  | none ↦ if has (values r.waiters) c then times_out else sender_gone
]

-- A future that was dropped has no result.
abbrev pub Outcome : Type 0
Outcome = Option (Result TransportError Packet) × RequestRegistry

-- The end of the wait.
unfoldable pub conclude :
    (operation : String)
    → (duration : ℕ) → RequestRegistry
    → OutboundRequestGuard
    → Received
    → Outcome
unfolding drop_guard disarm
conclude operation duration r guard (delivers packet) =
    (some (ok packet), drop_guard r (disarm guard))
conclude operation duration r guard sender_gone =
    (some (err (connection_error "Connection closed" true)), drop_guard r guard)
conclude operation duration r guard times_out =
    (some (err (timeout operation duration)), drop_guard r guard)

-- From the write's result on, with the calls of the others during the wait.
unfoldable pub await_response :
    (operation : String)
    → (duration : ℕ) → Meanwhile
    → ℕ
    → OutboundRequestGuard
    → (dropped : Bool) → Result TransportError (Unit {0}) × RequestRegistry
    → Outcome
unfolding conclude receive drop_guard
await_response operation duration m c guard dropped (err e, r) = (some (err e), drop_guard r guard)
await_response operation duration m c guard true (ok a, r) =
    (none, drop_guard (run r m.waiting) guard)
await_response operation duration m c guard false (ok a, r) =
    let after = run r m.waiting in conclude operation duration after guard (receive after c)

-- From the registered waiter on: the write is confirmed first, and then the response awaited.
unfoldable pub guarded :
    (operation : String)
    → (duration : ℕ) → (RequestRegistry → Result TransportError (Unit {0}) × RequestRegistry)
    → Meanwhile
    → RequestRegistry
    → ℕ
    → OutboundRequestGuard
    → Fate
    → Outcome
unfolding await_response drop_guard
guarded operation duration send m r c guard dropped_sending =
    (none, drop_guard (run r m.sending) guard)
guarded operation duration send m r c guard dropped_waiting =
    await_response operation duration m c guard true (send (run r m.sending))
guarded operation duration send m r c guard runs_on =
    await_response operation duration m c guard false (send (run r m.sending))

-- The registration of the waiter, and the rest under its guard.
unfoldable pub registered :
    (operation : String)
    → (duration deadline now : ℕ) → (refused : String)
    → (RequestRegistry → Result TransportError (Unit {0}) × RequestRegistry)
    → Meanwhile
    → RequestRegistry
    → Packet
    → Option ℕ
    → Outcome
unfolding guarded armed new_guard
registered operation duration deadline now refused send m r packet session_id =
    let (waiter, r') =
      try_register_waiter r (packet.header).message_id session_id (packet.header).biz_type deadline
        now in
    elim waiter [
      | none ↦ (some (err (connection_error refused false)), r')
      | some (c, token) ↦ guarded operation duration send m r' c (armed (new_guard token)) m.fate
    ]

abbrev pub default_waiter_deadline : ℕ
default_waiter_deadline = 30 * 1000000000

-- `Transport::request`; the slot of `o` is the session that the call finds.
unfoldable pub request : Outside → Meanwhile → ℕ → RequestRegistry → Packet → Outcome
unfolding registered
request o m now r packet =
    if not (is_request (packet.header).packet_type)
    then (some (err (connection_error "Not a Request packet" false)), r)
    else registered "request" (10 * 1000000000) default_waiter_deadline now
        "Duplicate in-flight request id" (send_confirmed_with o packet o.slot none) m r packet
        o.slot

pub record RequestOptions : Type 0 where
  pub send : SendOptions
  pub timeout : Option ℕ

unfoldable pub with_timeout : RequestOptions → ℕ → RequestOptions
with_timeout options duration = record options { timeout = some duration }

-- `Transport::request_with_options`, up to the payload of the response: the session is looked up for
-- the id, and again for the registration, where it is the slot of `o`.
unfoldable pub request_with_options :
    Codecs
    → (first_session : Option ℕ) → Outside
    → Meanwhile
    → ℕ
    → RequestRegistry
    → Bytes
    → RequestOptions
    → Outcome
unfolding registered
request_with_options codecs first_session o m now r payload options =
    let (id, r') = next_request_id r first_session in
    elim id [
      | none ↦ (some (err (resource "request_id_space" u32_max u32_max)), r')
      | some message_id ↦ elim (apply codecs options.send (request_packet message_id payload)) [
        | err e ↦ (some (err e), r')
        | ok packet ↦
            registered "request" (unwrap_or options.timeout (10 * 1000000000))
              (unwrap_or options.timeout default_waiter_deadline) now
              "Duplicate in-flight request id" (send_confirmed_with o packet o.slot none) m r'
              packet o.slot
      ]
    ]
