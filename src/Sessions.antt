-- ===== src/Sessions.antt =====
-- session_actor.rs: the actor of one session, which takes its mailbox in batches. The handler's own
-- calls on the registry while it is called, and the clock, are parameters.
use msgtrans.Prelude.{
  ℕ, ◌+◌, ◌*◌, List, [], ◌∷◌, ◌++◌, Option, none, some, Bool, true, false, take, drop,
  if◌then◌else◌,
}
use msgtrans.Packet.{Packet, PacketType, one_way, request, response}
use msgtrans.Errors.{TransportError, CloseReason, normal, connection_error}
use msgtrans.Events.{
  TransportEvent, connection_established, connection_closed, message_received, message_sent,
  transport_error,
}
use msgtrans.Registry.{RequestToken, RequestRegistry}
use msgtrans.Registry.Register.{register}
pub mod Batches
mod Tests

-- A reply is the caller's channel.
pub data ActorMessage : Type 0 where
  inbound_event : TransportEvent → ActorMessage
  send : Packet → ActorMessage
  send_with_reply : Packet → (reply : ℕ) → ActorMessage

-- What the actor does to the outside: the handler's callbacks, the transport's sends, the replies.
pub data Effect : Type 0 where
  on_connected : Effect
  on_request : Packet → RequestToken → Effect
  on_message : Packet → Effect
  on_message_sent : (packet_id : ℕ) → Effect
  on_error : TransportError → Effect
  on_disconnected : CloseReason → Effect
  sends : Packet → Effect
  sends_confirmed : Packet → (reply : ℕ) → Effect
  replies : (reply : ℕ) → TransportError → Effect

-- `Duration::from_secs(30)`, in nanoseconds.
abbrev pub request_lifecycle_timeout : ℕ
request_lifecycle_timeout = 30 * 1000000000

-- `cancel` is seen in the script of the loop.
pub record SessionActor : Type 0 where
  pub session_id : ℕ
  pub inbound_registry : Option RequestRegistry
  pub ticks : ℕ
  -- what was done, in order
  pub effects : List Effect

abbrev pub emit : SessionActor → Effect → SessionActor
emit a effect = record a { effects = a.effects ++ (effect ∷ []) }

pub record Loop : Type 0 where
  pub actor : SessionActor
  pub close_reason : CloseReason
  pub should_break : Bool

abbrev pub on_actor : Loop → SessionActor → Loop
on_actor l a = record l { actor = a }

abbrev pub is_request : PacketType → Bool
is_request request = true
is_request _ = false

-- A message behind a close in its batch: only a waiting caller is told.
unfoldable pub refuse_message : Loop → ActorMessage → Loop
refuse_message l (inbound_event event) = l
refuse_message l (send packet) = l
refuse_message l (send_with_reply packet reply) =
    on_actor l (emit l.actor (replies reply (connection_error "session closed" true)))

abbrev pub batch_size : ℕ
batch_size = 64

module _ (calls : Effect → RequestRegistry → RequestRegistry) (clock : ℕ → ℕ) where
  -- A request: registered, and then handed to the handler with its responder.
  unfoldable pub handle_request : SessionActor → Packet → SessionActor
  handle_request a packet = elim a.inbound_registry [
    | none ↦ a
    | some registry ↦
        let (token, registered) =
          register registry (packet.header).message_id (some a.session_id) (packet.header).biz_type
            request_lifecycle_timeout (clock a.ticks) (clock (a.ticks + 1)) in
        let a' : SessionActor = record a {
          inbound_registry = some registered;
          ticks = a.ticks + 2;
        } in
        elim token [
          | none ↦ a'
          | some t ↦
              emit (record a' { inbound_registry = some (calls (on_request packet t) registered) })
                (on_request packet t)
        ]
  ]

  unfoldable pub handle_event : Loop → TransportEvent → Loop
  unfolding handle_request
  handle_event l (message_received packet) =
      if is_request (packet.header).packet_type
      then on_actor l (handle_request l.actor packet)
      else on_actor l (emit l.actor (on_message packet))
  handle_event l (message_sent packet_id) = on_actor l (emit l.actor (on_message_sent packet_id))
  handle_event l (connection_closed reason) = record l {
    close_reason = reason;
    should_break = true;
  }
  handle_event l (transport_error error) = on_actor l (emit l.actor (on_error error))
  handle_event l connection_established = l

  unfoldable pub handle_message : Loop → ActorMessage → Loop
  unfolding handle_event
  handle_message l (inbound_event event) = handle_event l event
  handle_message l (send packet) = on_actor l (emit l.actor (sends packet))
  handle_message l (send_with_reply packet reply) =
      on_actor l (emit l.actor (sends_confirmed packet reply))

  -- The `for` over a batch.
  unfoldable pub process_batch : Loop → List ActorMessage → Loop
  unfolding handle_message refuse_message
  process_batch l [] = l
  process_batch l (m ∷ ms) =
      process_batch (if l.should_break then refuse_message l m else handle_message l m) ms

  -- The loop, by what arrives in the mailbox before each receive: a batch is up to 64 messages; an
  -- empty mailbox waits on; the end of the script is the cancellation, or the mailbox's end. A
  -- mailbox that is left is dropped with the actor.
  unfoldable pub run_batches : Loop → List ActorMessage → List (List ActorMessage) → Loop
  unfolding process_batch
  run_batches l mailbox [] = l
  run_batches l mailbox (arrivals ∷ script) =
      let waiting = mailbox ++ arrivals in
      let l' = process_batch l (take batch_size waiting) in
      elim l'.should_break [ true ↦ l' | false ↦ run_batches l' (drop batch_size waiting) script ]

  -- `run`: the loop between the two notifications.
  unfoldable pub run : SessionActor → List (List ActorMessage) → SessionActor
  unfolding run_batches
  run a script =
      let l =
        run_batches
          (record { actor = emit a on_connected; close_reason = normal; should_break = false }) []
          script in
      emit l.actor (on_disconnected l.close_reason)
