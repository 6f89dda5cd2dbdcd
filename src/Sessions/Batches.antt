-- ===== src/Sessions/Batches.antt =====
-- session_actor.rs: taking the mailbox in batches is not seen from outside.
use msgtrans.Prelude.{
  ℕ, ◌<◌, ◌+◌, ◌-◌, ◌≡◌, ◌⊎◌, List, [], ◌∷◌, ◌++◌, Bool, true, false, length, if◌then◌else◌,
}
use msgtrans.Errors.{normal}
use msgtrans.Events.{connection_closed}
use msgtrans.Registry.{RequestRegistry}
use msgtrans.Sessions.{
  ActorMessage, inbound_event, Effect, on_connected, on_disconnected, SessionActor, Loop, emit,
  handle_message, refuse_message, process_batch, batch_size, run_batches,
}

-- The messages up to the first close, with it, and those behind it.
abbrev pub is_close : ActorMessage → Bool
is_close (inbound_event (connection_closed reason)) = true
is_close _ = false

abbrev pub until_close : List ActorMessage → List ActorMessage
until_close [] = []
until_close (m ∷ ms) = m ∷ (if is_close m then [] else until_close ms)

abbrev pub after_close : List ActorMessage → List ActorMessage
after_close [] = []
after_close (m ∷ ms) = if is_close m then ms else after_close ms

abbrev pub has_close : List ActorMessage → Bool
has_close [] = false
has_close (m ∷ ms) = if is_close m then true else has_close ms

abbrev pub concat : List (List ActorMessage) → List ActorMessage
concat [] = []
concat (xs ∷ xss) = xs ++ concat xss

-- The messages that are left when each round takes up to a batch of those that wait, with `n` before.
abbrev pub backlog : ℕ → List (List ActorMessage) → ℕ
backlog n [] = n
backlog n (arrivals ∷ script) = backlog (n + length arrivals - batch_size) script

abbrev pub refuse_all : Loop → List ActorMessage → Loop
refuse_all l [] = l
refuse_all l (m ∷ ms) = refuse_all (refuse_message l m) ms

-- The two notifications around the loop.
abbrev pub begin : SessionActor → Loop
begin a = record { actor = emit a on_connected; close_reason = normal; should_break = false }

abbrev pub finish : Loop → SessionActor
finish l = emit l.actor (on_disconnected l.close_reason)

module _ (calls : Effect → RequestRegistry → RequestRegistry) (clock : ℕ → ℕ) where
  -- One message after the other.
  abbrev pub handle_all : Loop → List ActorMessage → Loop
  handle_all l [] = l
  handle_all l (m ∷ ms) = handle_all (handle_message calls clock l m) ms

  abbrev resumed : Loop → List ActorMessage → List (List ActorMessage) → Bool → Loop
  resumed l later script b = elim b [ true ↦ l | false ↦ run_batches calls clock l later script ]

  -- The loop makes one pass over a prefix of what arrived.
  abbrev Passes : Loop → List ActorMessage → List (List ActorMessage) → Type 0
  Passes l mailbox script =
      (handled : List ActorMessage) × (left : List ActorMessage) × (mailbox ++ concat script
        ≡ handled ++ left)
      × (run_batches calls clock l mailbox script ≡ process_batch calls clock l handled)
      × (length (after_close handled) < batch_size)
      × ((has_close handled ≡ true) ⊎ (length left ≡ backlog (length mailbox) script))
