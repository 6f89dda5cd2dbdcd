-- ===== src/Events.antt =====
-- adapters/events.rs: the pipe between a connection's adapter and its one consumer, and the byte
-- budget of adapters/budget.rs that it charges. The channel and the watch cell are those of tokio, seen
-- one poll at a time: a call that cannot go on returns where it waits, and is polled again.
pub mod World
pub mod Order
pub mod Seen
pub mod Drain
pub mod Bounded
pub mod Consumer
pub mod Budget
mod Tests
use msgtrans.Prelude.{
  ℕ, ◌+◌, ◌-◌, max, List, [], ◌∷◌, ◌++◌, Option, none, some, Bool, true, false, not, ◌&&◌, ◌||◌,
  Result, ok, err, length, ltb, leb, min, if◌then◌else◌, ◌^◌, ◌%◌,
}
use msgtrans.Prelude.Map.{is_some}
use msgtrans.Packet.{
  Packet, PacketError, CompressionType, no_compression, zlib, zstd, set_compression,
}
use msgtrans.Packet.Compression.{Codecs, decompress_payload_with_limit}
use msgtrans.Errors.{
  TransportError, resource, CloseReason, error, Fault, payload_over, undecodable, transport_failed,
  message,
}

-- `ConnectionInfo` is not read here.
pub data TransportEvent : Type 0 where
  connection_established : TransportEvent
  connection_closed : CloseReason → TransportEvent
  message_received : Packet → TransportEvent
  message_sent : (packet_id : ℕ) → TransportEvent
  transport_error : TransportError → TransportEvent

-- An event in the queue, with the permits that its bytes hold.
pub record Queued : Type 0 where
  pub event : TransportEvent
  pub held : ℕ

-- `EventPipe` and `EventPipeRx`: the channel, the watch cell and the semaphore that they share. The
-- consumer keeps what it got in `retained`, with the permits.
pub record Pipe : Type 0 where
  pub queue : List Queued
  pub capacity : ℕ
  pub max_payload_size : ℕ
  pub budget_capacity : ℕ
  pub permits : ℕ
  pub close_reason : Option CloseReason
  -- the adapter still holds the sender; the receiver has not shut the intake
  pub sender_alive : Bool
  pub intake_open : Bool
  pub close_emitted : Bool
  pub retained : List ℕ

unfoldable pub event_pipe_with_limit : ℕ → ℕ → ℕ → Pipe
event_pipe_with_limit capacity max_payload_size buffer_bytes = record {
  queue = [];
  capacity = capacity;
  max_payload_size = max_payload_size;
  budget_capacity = buffer_bytes;
  permits = buffer_bytes;
  close_reason = none;
  sender_alive = true;
  intake_open = true;
  close_emitted = false;
  retained = [];
}

-- The flag is cleared once the payload is plain.
abbrev pub normalized : Result PacketError Packet → Result Fault Packet
normalized (ok packet) = ok (set_compression packet no_compression)
normalized (err e) = err (undecodable e)

-- Decompresses and clears the flag, under the type that the header names.
abbrev pub normalize_as : Codecs → Packet → CompressionType → ℕ → Result Fault Packet
normalize_as c packet no_compression max_payload_size =
    if ltb max_payload_size (length packet.payload)
    then err (payload_over max_payload_size)
    else ok packet
normalize_as c packet zlib max_payload_size =
    normalized (decompress_payload_with_limit c packet max_payload_size)
normalize_as c packet zstd max_payload_size =
    normalized (decompress_payload_with_limit c packet max_payload_size)

unfoldable pub normalize_inbound : Codecs → Packet → ℕ → Result Fault Packet
normalize_inbound c packet max_payload_size =
    normalize_as c packet (packet.header).compression max_payload_size

-- The size that `ByteBudget::charge` checks: at least one; `saturating_add` on a usize.
unfoldable pub charge_size : Packet → ℕ
charge_size packet = max (min (length packet.payload + length packet.ext_header) (2 ^ 64 - 1)) 1

-- The permits that it asks for: `size as u32`.
unfoldable pub charge_permits : Packet → ℕ
unfolding charge_size
charge_permits packet = charge_size packet % 2 ^ 32

-- Where a call of `deliver` is: done, or waiting for permits or for room in the queue.
pub data Delivering : Type 0 where
  done : Bool → Delivering
  charging : Packet → Delivering
  sending : Queued → Delivering

-- First wins.
unfoldable pub close : Pipe → CloseReason → Pipe
close p reason = if is_some p.close_reason then p else record p { close_reason = some reason }

-- The event is dropped, and the permits of its bytes with it.
abbrev pub refuse : Pipe → Queued → Delivering × Pipe
refuse p item = (done false, record p { permits = p.permits + item.held })

-- One poll of `data_tx.send`.
unfoldable pub send_arm : Pipe → Queued → Delivering × Pipe
send_arm p item =
    if not p.intake_open
    then refuse p item
    else (if ltb (length p.queue) p.capacity
        then (done true, record p { queue = p.queue ++ (item ∷ []) })
        else (sending item, p))

-- One poll of `select!` between the watch cell and the send. When the cell is set and there is room
-- too, `select!` picks either: `send_wins` says which.
unfoldable pub poll_send : Pipe → Queued → Bool → Delivering × Pipe
unfolding send_arm
poll_send p item send_wins =
    if is_some p.close_reason && not (send_wins && ltb (length p.queue) p.capacity)
    then refuse p item
    else send_arm p item

-- The check of the watch cell before the `select!`, and its first poll.
unfoldable pub start_send : Pipe → Queued → Delivering × Pipe
unfolding poll_send
start_send p item = if is_some p.close_reason then refuse p item else poll_send p item false

-- `ByteBudget::charge` and what becomes of the packet: too large for the budget, charged and
-- offered to the queue, or waiting for permits.
unfoldable pub charge_arm : Pipe → Packet → Delivering × Pipe
unfolding close charge_size charge_permits start_send
charge_arm p packet =
    if ltb p.budget_capacity (charge_size packet)
    then (
      done false,
      close p (
          error (
            transport_failed
              (resource "connection byte budget" (charge_size packet) p.budget_capacity))),
    )
    else (if leb (charge_permits packet) p.permits
        then start_send (record p { permits = p.permits - charge_permits packet })
            (record { event = message_received packet; held = charge_permits packet })
        else (charging packet, p))

-- One poll of the `select!` between the watch cell and the charge. A closed pipe refuses the packet
-- whichever of the two wins.
unfoldable pub poll_charge : Pipe → Packet → Delivering × Pipe
unfolding charge_arm
poll_charge p packet = if is_some p.close_reason then (done false, p) else charge_arm p packet

unfoldable pub deliver : Codecs → Pipe → TransportEvent → Delivering × Pipe
unfolding normalize_inbound poll_charge start_send close
deliver c p (message_received packet) = elim (normalize_inbound c packet p.max_payload_size) [
  | ok q ↦ poll_charge p q
  | err reason ↦ (done false, close p (error reason))
]
deliver c p other = start_send p (record { event = other; held = 0 })

-- `try_send`: dropped when there is no room.
unfoldable pub diagnostic : Pipe → TransportEvent → Pipe
diagnostic p event =
    if p.intake_open && ltb (length p.queue) p.capacity
    then record p { queue = p.queue ++ (record { event = event; held = 0 } ∷ []) }
    else p

-- What a poll of `next` gives.
pub data Next : Type 0 where
  waits : Next
  ready : Option TransportEvent → Next

abbrev pub terminal_reason : Option CloseReason → CloseReason
terminal_reason none = error (message "connection ended without close")
terminal_reason (some reason) = reason

-- The data channel is done: the terminal close, once.
unfoldable pub end_of_data : Pipe → Next × Pipe
end_of_data p = if p.close_emitted then (ready none, p) else (
  ready (some (connection_closed (terminal_reason p.close_reason))),
  record p { close_emitted = true },
)

-- The loop of `next`: the data first; then the end of the data, which the watch cell brings about by
-- shutting the intake.
unfoldable pub poll_next : Pipe → Next × Pipe
unfolding end_of_data
poll_next p = elim p.queue [
  | item ∷ rest ↦
      (ready (some item.event), record p { queue = rest; retained = item.held ∷ p.retained })
  | [] ↦
      if not p.intake_open || not p.sender_alive
      then end_of_data p
      else (if not p.close_emitted && is_some p.close_reason
          then end_of_data (record p { intake_open = false })
          else (waits, p))
]

-- The start of a call of `next`: a published close shuts the intake at once.
unfoldable pub next : Pipe → Next × Pipe
unfolding poll_next
next p =
    poll_next (
      if not p.close_emitted && is_some p.close_reason then record p { intake_open = false } else p)
