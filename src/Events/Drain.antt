-- ===== src/Events/Drain.antt =====
-- adapters/events.rs: a published close, as both ends see it.
use msgtrans.Prelude.{
  ℕ, zero, suc, ◌+◌, ◌≡◌, refl, ap, List, [], ◌∷◌, ◌++◌, none, some, true, false, length, Result,
  ok, err, replicate, arith,
}
use msgtrans.Packet.{Packet}
use msgtrans.Packet.Compression.{Codecs}
use msgtrans.Errors.{CloseReason, error, Fault}
use msgtrans.Events.{
  TransportEvent, connection_established, connection_closed, message_received, message_sent,
  transport_error, Queued, Pipe, normalize_inbound, done, close, start_send, poll_charge, deliver,
  Next, ready, poll_next, next, end_of_data,
}
use msgtrans.Events.Order.{events}

-- The consumer calls `next` so many times.
unfoldable pub drain : ℕ → Pipe → List Next
drain zero p = []
drain (suc n) p = let (r, p') = next p in r ∷ drain n p'

abbrev pub readies : List TransportEvent → List Next
readies [] = []
readies (x ∷ xs) = ready (some x) ∷ readies xs

drain_ended :
    (p : Pipe) (n : ℕ)
    → p.queue ≡ []
    → p.close_emitted ≡ true
    → p.intake_open ≡ false
    → drain n p ≡ replicate n (ready none)
unfolding drain next poll_next end_of_data
drain_ended p zero q e i = refl
drain_ended p (suc n) q e i = ground (arith, drain_ended p n)

drain_closed :
    (p : Pipe) (reason : CloseReason) (items : List Queued) (n : ℕ)
    → p.queue ≡ items
    → p.close_reason ≡ some reason
    → p.close_emitted ≡ false
    → drain (length items + suc n) p
      ≡ readies (events items)
        ++ (ready (some (connection_closed reason)) ∷ replicate n (ready none))
unfolding drain next poll_next end_of_data
drain_closed p reason [] n q c e =
    ground (arith, drain_ended (record p { intake_open = false; close_emitted = true }) n)
drain_closed p reason (item ∷ items) n q c e =
    let later = record p {
      intake_open = false;
      queue = items;
      retained = item.held ∷ p.retained;
    } in
    let s : suc (length items) + suc n ≡ suc (length items + suc n) = omega arith in
    rw s (ground (arith, drain_closed later reason items n))

refuses_close :
    (p : Pipe) (reason later : CloseReason) → p.close_reason ≡ some reason → close p later ≡ p
unfolding close
refuses_close p reason later s = simp s refl

refuses_send :
    (p : Pipe) (reason : CloseReason) (event : TransportEvent)
    → p.close_reason ≡ some reason
    → start_send p (record { event = event; held = 0 }) ≡ (done false, p)
unfolding start_send
refuses_send p reason event s = ground arith

refuses_deliver :
    (c : Codecs) (p : Pipe) (reason : CloseReason) (event : TransportEvent)
    → p.close_reason ≡ some reason
    → deliver c p event ≡ (done false, p)
unfolding deliver poll_charge
refuses_deliver c p reason (message_received q) s =
    refused (normalize_inbound c q p.max_payload_size)
  where
    refused :
        (r : Result Fault Packet)
        → (elim r [ ok x ↦ poll_charge p x | err fault ↦ (done false, close p (error fault)) ])
          ≡ (done false, p)
    refused (ok x) = simp s refl
    refused (err fault) = ap (λ x. (done false, x)) (refuses_close p reason (error fault) s)
refuses_deliver c p reason connection_established s = refuses_send p reason connection_established s
refuses_deliver c p reason (connection_closed r) s = refuses_send p reason (connection_closed r) s
refuses_deliver c p reason (message_sent n) s = refuses_send p reason (message_sent n) s
refuses_deliver c p reason (transport_error e) s = refuses_send p reason (transport_error e) s

-- Once a close is published, every later `deliver` returns `false` and queues nothing, and the
-- published reason stands; the calls of `next` yield what is queued, in order, then the close with
-- that reason, and `None` for ever, whether or not the adapter still holds the sender and however
-- full the queue is.
pub close_wins :
    (c : Codecs) (p : Pipe) (reason later : CloseReason) (event : TransportEvent) (n : ℕ)
    → p.close_reason ≡ some reason
    → p.close_emitted ≡ false
    → (deliver c p event ≡ (done false, p))
      × (close p later ≡ p)
      × (drain (length p.queue + suc n) p
          ≡ readies (events p.queue)
            ++ (ready (some (connection_closed reason)) ∷ replicate n (ready none)))
close_wins c p reason later event n s e = (
  refuses_deliver c p reason event s,
  refuses_close p reason later s,
  drain_closed p reason p.queue n refl s e,
)
