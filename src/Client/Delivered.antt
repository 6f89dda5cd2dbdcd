-- ===== src/Client/Delivered.antt =====
-- transport/transport.rs and transport/client.rs: which of the peer's requests a client's consumer gets.
use msgtrans.Prelude.{
  ℕ, List, [], ◌∷◌, ◌≡◌, refl, ap, ◌∙◌, Option, none, some, Bool, true, false, not, ◌&&◌, ◌==◌,
  if◌then◌else◌, ==_iff, inl, inr, Bool-cases,
}
use msgtrans.Prelude.Map.{nat_eq, get, is_some}
use msgtrans.Packet.{Packet, PacketType}
use msgtrans.Errors.{CloseReason}
use msgtrans.Events.{message_received, connection_closed}
use msgtrans.Registry.{RequestKey, key_eq, key_beq, RequestToken}
use msgtrans.Registry.Register.{new_entry, register}
use msgtrans.Registry.Admission.{is_open, runtime_open, inbound_key, token_of, register-entries}
use msgtrans.Registry.Close.{close_session_pending}
use msgtrans.Sessions.{request_lifecycle_timeout}
use msgtrans.Transport.{
  Transport, is_of, ConnectionSlot, retire_generation, take_slot, mark_and_remove, teardown,
}
use msgtrans.Transport.Generations.{get-close_session_pending, take_slot-Scoped}
use msgtrans.Transport.Dispatch.{
  TaggedClientEvent, tagged, on_message, on_event, Arrival, with_forwarded, consume,
}
use msgtrans.Client.{ClientEvent, request, disconnected, client_request, forward}

-- What the consumer gets of a round of the transport.
abbrev pub delivered : Option TaggedClientEvent → Option ClientEvent
delivered none = none
delivered (some e) = forward true e

-- The request that the consumer gets for a token.
abbrev request_for : ℕ → Packet → Option RequestToken → Option ClientEvent
request_for source packet none = none
request_for source packet (some k) = some (request (client_request source packet k))

-- The event that goes on to the client's queue for a token.
abbrev passed_on : ℕ → Packet → Option RequestToken → Option TaggedClientEvent
passed_on source packet none = none
passed_on source packet (some k) = some (tagged source (some k) (message_received packet))

delivered_passed :
    (source : ℕ) (packet : Packet) (token : Option RequestToken)
    → (packet.header).packet_type ≡ PacketType.request
    → delivered (passed_on source packet token) ≡ request_for source packet token
unfolding forward
delivered_passed source packet none h = refl
delivered_passed source packet (some k) h = rw h refl

passed_or_none :
    (source : ℕ) (packet : Packet) (token : Option RequestToken) (free : Bool) (k : RequestToken)
    → token ≡ (if free then some k else none)
    → request_for source packet token
      ≡ (if free then some (request (client_request source packet k)) else none)
passed_or_none source packet token true k h = rw h refl
passed_or_none source packet token false k h = rw h refl

-- What a round of the transport makes of a request.
on_event-request :
    (t : Transport) (source : ℕ) (packet : Packet) (now later : ℕ)
    → (packet.header).packet_type ≡ PacketType.request
    → let admission =
        register t.request_registry
          (packet.header).message_id
          (some source)
          (packet.header).biz_type
          request_lifecycle_timeout
          now
          later in
      let after = on_event t source (message_received packet) now later in
      (after.0 ≡ passed_on source packet admission.0) × (after.1.request_registry ≡ admission.1)
unfolding on_event on_message
on_event-request t source packet now later h = (
  ap (λ p. (on_message t source packet p now later).0) h ∙ passed_by _,
  ap (λ p. (on_message t source packet p now later).1.request_registry) h,
)
  where
    passed_by :
        (token : Option RequestToken)
        → elim token [
          | none ↦ none
          | some k ↦ some (tagged source (some k) (message_received packet))
        ]
          ≡ passed_on source packet token
    passed_by none = refl
    passed_by (some k) = refl

-- A request of the peer, in any state of the client's transport: its consumer gets it, with a token
-- to answer it, exactly when the session is open in the registry and no inbound request of its id is
-- in the table. Then the table gains the entry that the token names, pending; every other entry
-- stands as it did, and all of them do when the request is not delivered.
pub request_delivered :
    (t : Transport) (source : ℕ) (packet : Packet) (now later : ℕ) (j : RequestKey)
    → (packet.header).packet_type ≡ PacketType.request
    → let r = t.request_registry in
      let i = (packet.header).message_id in
      let b = (packet.header).biz_type in
      let k = inbound_key source i in
      let free = is_open r source && not (is_some (get k r.entries)) in
      let after = on_event t source (message_received packet) now later in
      (delivered after.0 ≡ (
        if free
        then some (request (client_request source packet (token_of source i r.next_generation)))
        else none))
      × (get j (after.1.request_registry).entries ≡ (
          if free && key_beq k j
          then some (new_entry k b now request_lifecycle_timeout r.next_generation)
          else get j r.entries))
request_delivered t source packet now later j h =
    let (sent, same) = on_event-request t source packet now later h in
    let (token, entries) =
      register-entries t.request_registry (packet.header).message_id source (packet.header).biz_type
        request_lifecycle_timeout now later j in
    (
      ap delivered sent
          ∙ delivered_passed source packet _ h
          ∙ passed_or_none source packet _ _ _ token,
      ap (λ r. get j r.entries) same ∙ entries,
    )

-- A slot that is taken from its owner is not the owner's.
none_of :
    (s : Option ConnectionSlot) (sid : ℕ) → is_of (if is_of s sid then none else s) sid ≡ false
none_of none sid = refl
none_of (some s) sid = elim (Bool-cases (s.session_id == sid)) [
  | inl mine ↦ rw mine refl
  | inr other ↦ rw other other
]

-- After a close, its session is not open and the slot is not its own.
closed-retired :
    (t : Transport) (source : ℕ) (reason : CloseReason) (now later : ℕ)
    → let t' = (on_event t source (connection_closed reason) now later).1 in
      (is_of t'.slot source ≡ false)
      × ((j : ℕ)
          → get j (t'.request_registry).sessions
            ≡ (if source == j then none else get j (t.request_registry).sessions))
unfolding on_event retire_generation mark_and_remove
closed-retired t source reason now later =
    let drained = record t {
      request_registry = (close_session_pending t.request_registry source).1;
    } in
    let (slot, taken, closed, epoch, manager, registry) = take_slot-Scoped drained source in
    (
      ap (λ s. is_of s source) slot ∙ none_of t.slot source,
      λ j.
          ap (λ r. get j r.sessions) registry
          ∙ get-close_session_pending t.request_registry source j,
    )

-- After the end of a pipe too.
teardown-retired :
    (t : Transport) (source : ℕ)
    → (is_of (teardown t source).slot source ≡ false)
      × (is_open (teardown t source).request_registry source ≡ false)
unfolding teardown retire_generation mark_and_remove
teardown-retired t source =
    let (slot, taken, closed, epoch, manager, registry) = take_slot-Scoped t source in
    (
      ap (λ s. is_of s source) slot ∙ none_of t.slot source,
      ap runtime_open {y = none} (
          get-close_session_pending (take_slot t source).1.request_registry source source
          ∙ rw ((==_iff source source).1 refl) refl),
    )

consume-retired :
    (t : Transport) (source : ℕ) (arrivals : List Arrival)
    → (is_of (consume t source arrivals).1.slot source ≡ false)
      × (is_open (consume t source arrivals).1.request_registry source ≡ false)
unfolding consume
consume-retired t source [] = teardown-retired t source
consume-retired t source (a ∷ arrivals) =
    let t' = a.others t in
    let out = on_event t' source a.event a.now a.later in
    elim (Bool-cases (t'.connection_epoch == source)) [
      | inl current ↦ rw current (
          rw (with_forwarded_1 out.0 (consume out.1 source arrivals))
            (consume-retired out.1 source arrivals))
      | inr replaced ↦ rw replaced (teardown-retired t' source)
    ]
  where
    with_forwarded_1 :
        (e : Option TaggedClientEvent) (out : List TaggedClientEvent × Transport)
        → (with_forwarded e out).1 ≡ out.1
    with_forwarded_1 none (events, t) = refl
    with_forwarded_1 (some e) (events, t) = refl

-- The consumer task of a connection, over any events, whatever the other tasks do to the transport
-- between two of them, and however it ends: when it has ended, its session neither has the slot nor
-- is open in the registry, and no request of that session that came after it would be delivered.
pub consumer_retires :
    (t : Transport) (source : ℕ) (arrivals : List Arrival) (packet : Packet) (now later : ℕ)
    → (packet.header).packet_type ≡ PacketType.request
    → let t' = (consume t source arrivals).1 in
      (is_of t'.slot source ≡ false)
      × (is_open t'.request_registry source ≡ false)
      × (delivered (on_event t' source (message_received packet) now later).0 ≡ none)
consumer_retires t source arrivals packet now later h =
    let t' = (consume t source arrivals).1 in
    let (slot, gone) = consume-retired t source arrivals in
    (
      slot,
      gone,
      (request_delivered t' source packet now later (inbound_key source 0) h).0 ∙ rw gone refl,
    )

-- A close of a connection, in any state of the client's transport, and a request of the same session
-- that arrives after it: the consumer is told of the close, the session neither has the slot nor is
-- open in the registry, while the sessions of others are as they were, and the consumer does not
-- get the request.
pub nothing_after_close :
    (t : Transport) (source : ℕ) (reason : CloseReason) (packet : Packet)
    (now later now' later' j : ℕ)
    → (packet.header).packet_type ≡ PacketType.request
    → let closing = on_event t source (connection_closed reason) now later in
      let t' = closing.1 in
      (delivered closing.0 ≡ some (disconnected reason))
      × (is_of t'.slot source ≡ false)
      × (is_open t'.request_registry source ≡ false)
      × (get j (t'.request_registry).sessions
          ≡ (if source == j then none else get j (t.request_registry).sessions))
      × (delivered (on_event t' source (message_received packet) now' later').0 ≡ none)
unfolding on_event forward
nothing_after_close t source reason packet now later now' later' j h =
    let t' = (on_event t source (connection_closed reason) now later).1 in
    let (slot, sessions) = closed-retired t source reason now later in
    let gone : is_open t'.request_registry source ≡ false =
      ap runtime_open {y = none} (sessions source ∙ rw ((==_iff source source).1 refl) refl) in
    let refused = (request_delivered t' source packet now' later' (inbound_key source 0) h).0 in
    (refl, slot, gone, sessions j, refused ∙ rw gone refl)
