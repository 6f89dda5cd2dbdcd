-- ===== src/Events/World.antt =====
-- adapters/events.rs: the pipe with the adapter and the consumer that use it, in any interleaving of
-- their polls. The adapter has one `deliver` under way at a time.
use msgtrans.Prelude.{
  ℕ, zero, suc, ◌+◌, List, [], ◌∷◌, ◌++◌, Option, Bool, true, false, ◌&&◌, length, ltb, ok, err,
  if◌then◌else◌,
}
use msgtrans.Packet.Compression.{Codecs}
use msgtrans.Errors.{CloseReason}
use msgtrans.Events.{
  TransportEvent, message_received, message_sent, Pipe, event_pipe_with_limit, normalize_inbound,
  Delivering, done, charging, sending, close, refuse, poll_send, poll_charge, deliver, diagnostic,
  Next, waits, ready, poll_next, next,
}

pub record World : Type 0 where
  pub pipe : Pipe
  pub delivering : Delivering
  -- what entered the queue, and what the consumer got, in order
  pub accepted : List TransportEvent
  pub seen : List (Option TransportEvent)

abbrev pub is_done : Delivering → Bool
is_done (done _) = true
is_done _ = false

-- The event that a call of `deliver` offers to the queue.
abbrev pub offered : Codecs → Pipe → TransportEvent → TransportEvent
offered c p (message_received packet) = elim (normalize_inbound c packet p.max_payload_size) [
  | ok q ↦ message_received q
  | err reason ↦ message_received packet
]
offered c p other = other

-- The offer was taken, when `deliver` returned `true`.
abbrev pub taken : Delivering → TransportEvent → List TransportEvent
taken (done true) event = event ∷ []
taken _ event = []

unfoldable pub settle : World → TransportEvent → Delivering × Pipe → World
settle w event (d, p) = record w {
  pipe = p;
  delivering = d;
  accepted = w.accepted ++ taken d event;
}

unfoldable pub see : World → Next × Pipe → World
see w (waits, p) = record w { pipe = p }
see w (ready o, p) = record w { pipe = p; seen = w.seen ++ (o ∷ []) }

unfoldable pub resume : World → Bool → World
resume w send_wins = elim w.delivering [
  | done b ↦ w
  | charging q ↦ settle w (message_received q) (poll_charge w.pipe q)
  | sending item ↦ settle w item.event (poll_send w.pipe item send_wins)
]

-- The future is dropped where it waits.
unfoldable pub cancel : World → World
cancel w = elim w.delivering [
  | done b ↦ w
  | charging q ↦ record w { delivering = done false }
  | sending item ↦ record w { pipe = (refuse w.pipe item).1; delivering = done false }
]

-- What the diagnostic adds to the queue.
abbrev pub admitted : Pipe → TransportEvent → List TransportEvent
admitted p event = if p.intake_open && ltb (length p.queue) p.capacity then event ∷ [] else []

abbrev pub nth_held : List ℕ → ℕ → ℕ
nth_held [] i = 0
nth_held (h ∷ hs) zero = h
nth_held (h ∷ hs) (suc i) = nth_held hs i

abbrev pub without : List ℕ → ℕ → List ℕ
without [] i = []
without (h ∷ hs) zero = hs
without (h ∷ hs) (suc i) = h ∷ without hs i

-- The consumer drops an event that it got, and its permits come back.
unfoldable pub forget : Pipe → ℕ → Pipe
forget p i = record p {
  permits = p.permits + nth_held p.retained i;
  retained = without p.retained i;
}

pub data Act : Type 0 where
  delivers : TransportEvent → Act
  resumes : (send_wins : Bool) → Act
  cancels : Act
  diagnoses : (packet_id : ℕ) → Act
  closes : CloseReason → Act
  drops_sender : Act
  asks polls : Act
  forgets : ℕ → Act

-- The diagnostic is a send confirmation in all adapters. The adapter acts only while it holds the sender, and it drops the sender with no call under way.
unfoldable pub step : Codecs → World → Act → World
step c w (delivers event) =
    if (w.pipe).sender_alive && is_done w.delivering
    then settle w (offered c w.pipe event) (deliver c w.pipe event)
    else w
step c w (resumes send_wins) = if (w.pipe).sender_alive then resume w send_wins else w
step c w cancels = if (w.pipe).sender_alive then cancel w else w
step c w (diagnoses packet_id) =
    if (w.pipe).sender_alive
    then record w {
      pipe = diagnostic w.pipe (message_sent packet_id);
      accepted = w.accepted ++ admitted w.pipe (message_sent packet_id);
    }
    else w
step c w (closes reason) =
    if (w.pipe).sender_alive then record w { pipe = close w.pipe reason } else w
step c w drops_sender =
    if is_done w.delivering then record w { pipe = record (w.pipe) { sender_alive = false } } else w
step c w asks = see w (next w.pipe)
step c w polls = see w (poll_next w.pipe)
step c w (forgets i) = record w { pipe = forget w.pipe i }

unfoldable pub run : Codecs → World → List Act → World
run c w [] = w
run c w (a ∷ acts) = run c (step c w a) acts

unfoldable pub open_world : ℕ → ℕ → ℕ → World
open_world capacity max_payload_size buffer_bytes = record {
  pipe = event_pipe_with_limit capacity max_payload_size buffer_bytes;
  delivering = done false;
  accepted = [];
  seen = [];
}
